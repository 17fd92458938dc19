-- ===== src/Timers.antt =====
-- Kernel/timer.c: the timers of the kernel, and what the clock interrupt does.
-- The list of timers is a list of records; a callback is a number, and `none` the null pointer. The
-- callbacks are taken not to change the list while `timerisr` walks through it.
pub mod Owned
pub mod Pass
pub mod Tick
mod Tests
use shaunos.Base.{
  ℕ, zero, suc, ◌+◌, ◌-◌, ◌*◌, ◌/◌, ◌%◌, ◌^◌, Bool, true, false, Option, none, some, List, [], ◌∷◌,
  ◌++◌, ltb, leb, ◌==◌, ◌&&◌, ◌||◌, not, if◌then◌else◌,
}
use shaunos.Base.Int.{ℤ, pos, negsuc, u32_mod, add32, sub32}
use shaunos.Base.Fault.{Result, ok, ◌>>=◌}
use shaunos.Kid.{KidObject, get_unused_id, put_id}
use shaunos.Clock.{TimeSpec, mul32}

-- `struct timer_list`, with the flags `ENABLED`, `ONESHUT` and `PERIODIC`
pub record Timer : Type 0 where
  pub timer_id : ℕ
  pub expires : ℕ
  pub interval : ℕ
  pub func : Option ℕ
  pub arg : ℕ
  pub enabled : Bool
  pub oneshot : Bool
  pub periodic : Bool

-- the argument `type` of `register_timer`
pub record Kind : Type 0 where
  pub enabled : Bool
  pub oneshot : Bool
  pub periodic : Bool

-- `timer_id_obj`, `timer_list_head` and `ticks`
pub record Timers : Type 0 where
  pub ids : KidObject
  pub timers : List Timer
  pub ticks : ℕ

-- `-EINVAL` and `-ENOBUFS`
abbrev pub einval : ℤ
einval = negsuc 21

abbrev pub enobufs : ℤ
enobufs = negsuc 104

abbrev pub not_one_kind : Kind → Bool
not_one_kind k = (not k.oneshot && not k.periodic) || (k.oneshot && k.periodic)

-- the timer that `register_timer` fills in; memory from `kzalloc` is zero.
abbrev pub new_timer : ℕ → ℕ → ℕ → Kind → Option ℕ → ℕ → Timer
new_timer id ticks expired k callback arg = record {
  timer_id = id;
  expires = (ticks + expired) % u32_mod;
  interval = if k.periodic then expired else 0;
  func = callback;
  arg = arg;
  enabled = k.enabled;
  oneshot = k.oneshot;
  periodic = k.periodic;
}

-- `register_timer`; `room` says whether `kzalloc` finds memory, and the fuel is that of the search for
-- an identifier, with what `bsf` leaves in its register at a word of zeros.
unfoldable pub register_timer :
    Option ℕ → ℕ → Bool → ℤ → Kind → Option ℕ → ℕ → Timers → Result (Timers × ℤ)
register_timer residue fuel room (negsuc n) k callback arg s = ok (s, einval)
register_timer residue fuel room (pos expired) k callback arg s =
    let made : Result (Timers × ℤ) = (do
      (ids', id) ← get_unused_id residue fuel s.ids
      ok (
        record s {
          ids = ids';
          timers = s.timers ++ new_timer id s.ticks expired k callback arg ∷ [];
        },
        pos id,
      )) in
    if not_one_kind k then ok (s, einval) else if not room then ok (s, enobufs) else made

-- the list without the first timer of an identifier, or `none`
unfoldable pub del_timer : ℕ → List Timer → Option (List Timer)
del_timer id [] = none
del_timer id (t ∷ ts) =
    let rest = del_timer id ts in
    if t.timer_id == id then some ts else elim rest [ none ↦ none | some ts' ↦ some (t ∷ ts') ]

unfoldable pub unregister_timer : ℤ → Timers → Result (Timers × ℤ)
unfolding del_timer
unregister_timer (negsuc n) s = ok (s, einval)
unregister_timer (pos id) s = elim (del_timer id s.timers) [
  | none ↦ ok (s, einval)
  | some ts ↦ put_id s.ids id >>= (λ ids'. ok (record s { ids = ids'; timers = ts }, pos 0))
]

-- the `expires` of the first timer of an identifier
unfoldable pub find_expires : ℕ → List Timer → Option ℕ
find_expires id [] = none
find_expires id (t ∷ ts) =
    let rest = find_expires id ts in if t.timer_id == id then some t.expires else rest

-- `timer_get_expired`: what it returns, and what it stores
unfoldable pub timer_get_expired : ℤ → Timers → ℤ × Option ℕ
unfolding find_expires
timer_get_expired (negsuc n) s = (einval, none)
timer_get_expired (pos id) s = elim (find_expires id s.timers) [
  | none ↦ (einval, none)
  | some v ↦ (pos 0, some v)
]

-- the calls of callbacks, each with its argument
abbrev pub Calls : Type 0
Calls = List (ℕ × ℕ)

abbrev pub call : Timer → Calls
call t = elim t.func [ none ↦ [] | some f ↦ (f, t.arg) ∷ [] ]

-- the one-shot part of a round of `timerisr`: a timer with no callback stays enabled.
unfoldable pub fire_oneshot : ℕ → Timer → Timer × Calls
fire_oneshot ticks t =
    if t.oneshot && leb t.expires (ticks % u32_mod)
    then (record t { enabled = elim t.func [ none ↦ t.enabled | some f ↦ false ] }, call t)
    else (t, [])

-- and the periodic part
unfoldable pub fire_periodic : ℕ → Timer → Timer × Calls
fire_periodic ticks t =
    if t.periodic && leb t.expires (ticks % u32_mod)
    then (record t { expires = (ticks + t.interval) % u32_mod }, call t)
    else (t, [])

unfoldable pub visit : ℕ → Timer → Timer × Calls
unfolding fire_oneshot fire_periodic
visit ticks t =
    let once = fire_oneshot ticks t in
    let again = fire_periodic ticks once.0 in
    if t.enabled then (again.0, once.1 ++ again.1) else (t, [])

-- one walk of `timerisr` through the list
unfoldable pub isr_pass : ℕ → List Timer → List Timer × Calls
unfolding visit
isr_pass ticks [] = ([], [])
isr_pass ticks (t ∷ ts) =
    let (t', calls) = visit ticks t in
    let rest = isr_pass ticks ts in (t' ∷ rest.0, calls ++ rest.1)

-- `current`, as far as the interrupt is concerned
pub record Thread : Type 0 where
  pub utime : ℕ
  pub ktime : ℕ
  pub slice : ℕ

-- what the interrupt reads and writes; `wakes` counts the calls of `pt_wakeup` for the thread of
-- `timerisr`.
pub record Ticker : Type 0 where
  pub ticks : ℕ
  pub wall_jiffies : ℕ
  pub timer_depth : ℕ
  pub isr_depth : ℕ
  pub xtime : TimeSpec
  pub current : Option Thread
  pub need_reschedule : ℕ
  pub wakes : ℕ

abbrev pub u64_mod : ℕ
u64_mod = 2 ^ 64

-- one round of the loop that carries seconds; `ts_nsec` is signed.
abbrev pub carry : TimeSpec → TimeSpec
carry x =
    if ltb 1_000_000_000 x.ts_nsec && ltb x.ts_nsec (2 ^ 31)
    then record { ts_sec = add32 x.ts_sec 1; ts_nsec = x.ts_nsec - 1_000_000_000 }
    else x

unfoldable pub carries : ℕ → TimeSpec → TimeSpec
carries zero x = x
carries (suc n) x = carries n (carry x)

-- the rounds of `do { nticks--; … } while (nticks > 0)`
abbrev pub rounds : ℕ → ℕ
rounds nticks = if nticks == 0 then u32_mod else nticks

-- `timer_handler` for the thread that runs; `usec * 1000` is a 32-bit product.
unfoldable pub account : Bool → Thread → Ticker → Ticker
unfolding carries
account user t k =
    let nticks = (k.ticks + u64_mod - k.wall_jiffies) % u32_mod in
    let usec = if nticks == 0 then 1000 else mul32 nticks 1000 in
    let x' =
      carries (rounds nticks)
        (record k.xtime { ts_nsec = add32 k.xtime.ts_nsec (mul32 usec 1000) }) in
    let t' = if user then record t { utime = t.utime + 1 } else record t { ktime = t.ktime + 1 } in
    record k {
      wall_jiffies = if nticks == 0 then k.ticks else (k.wall_jiffies + nticks) % u64_mod;
      xtime = x';
      wakes = if k.isr_depth == 0 then k.wakes + 1 else k.wakes;
      current = some (record t' { slice = if t'.slice == 50 then 0 else t'.slice + 1 });
      need_reschedule = if t'.slice == 50 then 1 else k.need_reschedule;
      timer_depth = 0;
    }

-- `timer_handler`; without a thread it returns with `timer_depth` set.
unfoldable pub timer_handler : Bool → Ticker → Ticker
unfolding account
timer_handler user k =
    let k' = record k { ticks = (k.ticks + 1) % u64_mod } in
    let k'' = record k' { timer_depth = 1 } in
    if k.timer_depth == 0 then elim k.current [ none ↦ k'' | some t ↦ account user t k'' ] else k'
