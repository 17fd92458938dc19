-- ===== src/Clock/Chip.antt =====
-- `read_rtc` of Kernel/time.c: the date comes back from the digits that the chip holds.
use shaunos.Base.{ℕ, ◌+◌, ◌*◌, ◌/◌, ◌%◌, ◌<◌, ◌≤◌, ◌≡◌, refl, arith}
use shaunos.Clock.{RtcTime, from_bcd, hour_from_bcd, year_from_bcd, with_century, read_rtc}

-- two decimal digits of a number below 100, one to half a byte
abbrev pub to_bcd : ℕ → ℕ
to_bcd n = n / 10 * 16 + n % 10

-- what a chip that counts in decimal digits holds at a date
abbrev pub registers_of : RtcTime → RtcTime
registers_of t = record {
  second = to_bcd t.second;
  minute = to_bcd t.minute;
  hour = to_bcd t.hour;
  day = to_bcd t.day;
  month = to_bcd t.month;
  year = to_bcd (t.year % 100);
}

-- and what one holds that counts in bytes
abbrev pub bytes_of : RtcTime → RtcTime
bytes_of t = record t { year = t.year % 100 }

pub record IsDate (t : RtcTime) : Type 0 where
  pub second-lt : t.second < 60
  pub minute-lt : t.minute < 60
  pub hour-lt : t.hour < 24
  pub day-lt : t.day < 32
  pub month-lt : t.month < 13
  pub year-ge : 2013 ≤ t.year
  pub year-lt : t.year < 2113

bcd_round : (n : ℕ) → n < 100 → from_bcd (to_bcd n) ≡ n
bcd_round n h = omega arith

hour_round : (n : ℕ) → n < 80 → hour_from_bcd (to_bcd n) ≡ n
hour_round n h = omega arith

year_round : (y : ℕ) → 2013 ≤ y → y < 2113 → with_century (y % 100) ≡ y
year_round y low high = ground arith

year_digits : (y : ℕ) → year_from_bcd (to_bcd (y % 100)) ≡ y % 100
year_digits y = omega arith

-- `read_rtc` gives back every date from 2013 to 2112, whether the chip holds it in decimal digits or, as
-- bit 2 of register B says, in bytes.
pub read_rtc-registers_of :
    (t : RtcTime)
    → IsDate t
    → (read_rtc (registers_of t) 0x02 ≡ t) × (read_rtc (bytes_of t) 0x06 ≡ t)
unfolding read_rtc
read_rtc-registers_of t d = (
  rw
      (
        bcd_round t.second (omega (arith, d.second-lt)),
        bcd_round t.minute (omega (arith, d.minute-lt)),
        hour_round t.hour (omega (arith, d.hour-lt)),
        bcd_round t.day (omega (arith, d.day-lt)),
        bcd_round t.month (omega (arith, d.month-lt)),
        year_digits t.year,
        year_round t.year d.year-ge d.year-lt,
      )
      refl,
  rw (year_round t.year d.year-ge d.year-lt) refl,
)
