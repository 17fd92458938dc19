-- ===== src/Clock.antt =====
-- Kernel/time.c: the date that the clock chip holds, and the seconds since 1970 that it stands for.
-- A `u32` is its bit pattern. The reads of the chip's registers are an argument.
pub mod Chip
pub mod Epoch
pub mod Setting
mod Tests
use shaunos.Base.{
  ℕ, ◌+◌, ◌-◌, ◌*◌, ◌/◌, ◌%◌, ◌^◌, Bool, true, false, Option, none, some, ltb, leb, ◌==◌, ◌||◌,
  if◌then◌else◌,
}
use shaunos.Base.Int.{u32_mod, add32, sub32}

-- `rtctime_t`; also the six registers that it is read from
pub record RtcTime : Type 0 where
  pub second : ℕ
  pub minute : ℕ
  pub hour : ℕ
  pub day : ℕ
  pub month : ℕ
  pub year : ℕ

abbrev pub current_year : ℕ
current_year = 2013

-- `(x & 0x0F) + x / 16 * 10`, stored in an `unsigned char`
abbrev pub from_bcd : ℕ → ℕ
from_bcd x = (x % 16 + x / 16 * 10) % 256

-- the hour, whose bit 7 is kept; what is put beside it is less than 128.
abbrev pub hour_from_bcd : ℕ → ℕ
hour_from_bcd x = x % 16 + x / 16 % 8 * 10 + x / 128 % 2 * 128

-- the year, which is no `unsigned char`
abbrev pub year_from_bcd : ℕ → ℕ
year_from_bcd x = x % 16 + x / 16 * 10

-- the century that `read_rtc` adds
abbrev pub with_century : ℕ → ℕ
with_century y =
    let y' = y + current_year / 100 * 100 in if ltb y' current_year then y' + 100 else y'

-- `read_rtc` behind its loops, for the bytes read from the registers and from register B
unfoldable pub read_rtc : RtcTime → ℕ → RtcTime
read_rtc t register_b =
    if register_b / 4 % 2 == 0
    then record {
      second = from_bcd t.second;
      minute = from_bcd t.minute;
      hour = hour_from_bcd t.hour;
      day = from_bcd t.day;
      month = from_bcd t.month;
      year = with_century (year_from_bcd t.year);
    }
    else record t { year = with_century t.year }

abbrev pub mul32 : ℕ → ℕ → ℕ
mul32 a b = a * b % u32_mod

-- `0 >= (int)m`
abbrev pub not_positive : ℕ → Bool
not_positive m = m == 0 || leb (2 ^ 31) m

-- the days that `mktime` counts, February put last
unfoldable pub day_number : ℕ → ℕ → ℕ → ℕ
day_number year mon day =
    sub32
      (add32
        (add32 (add32 (add32 (sub32 (year / 4) (year / 100)) (year / 400)) (mul32 367 mon / 12))
          day)
        (mul32 year 365))
      719499

-- `mktime`; `time_zone` is a 32-bit pattern.
unfoldable pub mktime : ℕ → ℕ → ℕ → ℕ → ℕ → ℕ → ℕ → ℕ
unfolding day_number
mktime time_zone year mon day hour min sec =
    let m = sub32 mon 2 in
    let mon' = if not_positive m then add32 m 12 else m in
    let year' = if not_positive m then sub32 year 1 else year in
    add32
      (add32 (mul32 (add32 (mul32 (add32 (mul32 (day_number year' mon' day) 24) hour) 60) min) 60)
        sec)
      time_zone

-- `static long time_zone = -8 * 60 * 60`
abbrev pub initial_zone : ℕ
initial_zone = u32_mod - 8 * 60 * 60

-- `get_cmos_time`
unfoldable pub get_cmos_time : ℕ → RtcTime → ℕ → ℕ
unfolding read_rtc mktime
get_cmos_time time_zone registers register_b =
    let t = read_rtc registers register_b in
    mktime time_zone t.year t.month t.day t.hour t.minute t.second

-- `struct timespec` and `struct timeval`, at numbers that are not negative
pub record TimeSpec : Type 0 where
  pub ts_sec : ℕ
  pub ts_nsec : ℕ

pub record TimeVal : Type 0 where
  pub tv_sec : ℕ
  pub tv_usec : ℕ

-- `xtime` and `time_zone`
pub record Clock : Type 0 where
  pub xtime : TimeSpec
  pub time_zone : ℕ

-- `time_init`
unfoldable pub time_init : RtcTime → ℕ → Clock → Clock
unfolding get_cmos_time
time_init registers register_b c = record c {
  xtime = record { ts_sec = get_cmos_time c.time_zone registers register_b; ts_nsec = 0 };
}

-- what `kgettimeofday` copies out, and `ti_get_timeval`
unfoldable pub kgettimeofday : Clock → TimeVal × ℕ
kgettimeofday c =
    (record { tv_sec = c.xtime.ts_sec; tv_usec = c.xtime.ts_nsec / 1000 }, c.time_zone)

unfoldable pub ti_get_timeval : Clock → TimeVal
ti_get_timeval c = record { tv_sec = c.xtime.ts_sec; tv_usec = c.xtime.ts_nsec / 1000 }

-- `ksettimeofday`, where a null pointer is `none`
unfoldable pub ksettimeofday : Option TimeVal → Option ℕ → Clock → Clock
ksettimeofday tv tz c =
    let c' : Clock = elim tv [
      | none ↦ c
      | some t ↦ record c { xtime = record { ts_sec = t.tv_sec; ts_nsec = mul32 t.tv_usec 1000 } }
    ] in
    elim tz [ none ↦ c' | some z ↦ record c' { time_zone = z } ]
