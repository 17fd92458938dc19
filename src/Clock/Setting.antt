-- ===== src/Clock/Setting.antt =====
-- `ksettimeofday`, `kgettimeofday` and `ti_get_timeval` of Kernel/time.c.
use shaunos.Base.{ℕ, ◌*◌, ◌/◌, ◌<◌, ◌≡◌, refl, arith, some, none}
use shaunos.Base.Int.{u32_mod}
use shaunos.Clock.{TimeVal, Clock, mul32, ksettimeofday, kgettimeofday, ti_get_timeval}

-- A time that is set, of less than 2^32 nanoseconds in its part of a second, is the one that both calls
-- then give back, and so is the time zone.
pub kgettimeofday-ksettimeofday :
    (c : Clock) (t : TimeVal) (zone : ℕ)
    → t.tv_usec * 1000 < u32_mod
    → (kgettimeofday (ksettimeofday (some t) (some zone) c) ≡ (t, zone))
      × (ti_get_timeval (ksettimeofday (some t) none c) ≡ t)
unfolding ksettimeofday kgettimeofday ti_get_timeval
kgettimeofday-ksettimeofday c t zone small =
    let e : mul32 t.tv_usec 1000 / 1000 ≡ t.tv_usec = omega arith in (rw e refl, rw e refl)
