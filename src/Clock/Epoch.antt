-- ===== src/Clock/Epoch.antt =====
-- `mktime` of Kernel/time.c against a count of the years, months and days since 1970.
use shaunos.Base.{
  ℕ, zero, suc, ◌+◌, ◌-◌, ◌*◌, ◌/◌, ◌%◌, ◌<◌, ◌≤◌, ◌≡◌, ◌∙◌, arith, Bool, ◌==◌, ◌||◌, ◌&&◌, not,
  if◌then◌else◌,
}
use shaunos.Base.Int.{u32_mod, add32, sub32}
use shaunos.Clock.{mul32, day_number, mktime}

abbrev pub is_leap : ℕ → Bool
is_leap y = y % 4 == 0 && (not (y % 100 == 0) || y % 400 == 0)

-- the days of the `n` years from 1970 on
unfoldable pub days_of_years : ℕ → ℕ
days_of_years zero = 0
days_of_years (suc n) = days_of_years n + (if is_leap (1970 + n) then 366 else 365)

abbrev pub days_of_month : ℕ → ℕ → ℕ
days_of_month y m =
    if m == 2
    then (if is_leap y then 29 else 28)
    else if m == 4 || m == 6 || m == 9 || m == 11
    then 30
    else 31

-- the days of the first `n` months of a year
unfoldable pub days_of_months : ℕ → ℕ → ℕ
days_of_months y zero = 0
days_of_months y (suc n) = days_of_months y n + days_of_month y (suc n)

-- the seconds from the start of 1970 to a moment
abbrev pub since_epoch : ℕ → ℕ → ℕ → ℕ → ℕ → ℕ → ℕ
since_epoch year mon day hour min sec =
    (((days_of_years (year - 1970) + days_of_months year (mon - 1) + (day - 1)) * 24 + hour) * 60
        + min)
      * 60
    + sec

-- the leap days up to a year
years_lem :
    (n : ℕ)
    → days_of_years n + (1969 / 4 - 1969 / 100 + 1969 / 400) + (1969 + n) / 100
      ≡ 365 * n + (1969 + n) / 4 + (1969 + n) / 400
unfolding days_of_years
years_lem zero = omega arith
years_lem (suc n) = ground (arith, years_lem n)

abbrev Counted : ℕ → ℕ → ℕ → ℕ → ℕ → Type 0
Counted year mon day y' m' =
    day_number y' m' day + 1 ≡ days_of_years (year - 1970) + days_of_months year (mon - 1) + day

module _ (year day : ℕ) (low : 1970 ≤ year) (high : year < 5000) (first : 1 ≤ day)
    (last : day ≤ 31) where
  leap_step :
      (year / 4 ≡ (year - 1) / 4 + (if year % 4 == 0 then 1 else 0))
      × (year / 100 ≡ (year - 1) / 100 + (if year % 100 == 0 then 1 else 0))
      × (year / 400 ≡ (year - 1) / 400 + (if year % 400 == 0 then 1 else 0))
  leap_step = (ground arith, ground arith, ground arith)

  january : Counted year 1 day (year - 1) 11
  unfolding day_number days_of_months
  january = omega (arith, years_lem (year - 1970))

  february : Counted year 2 day (year - 1) 12
  unfolding day_number days_of_months
  february = omega (arith, years_lem (year - 1970))

  march : Counted year 3 day year 1
  unfolding day_number days_of_months
  march = ground (arith, years_lem (year - 1970), leap_step)

  april : Counted year 4 day year 2
  unfolding day_number days_of_months
  april = ground (arith, years_lem (year - 1970), leap_step)

  may : Counted year 5 day year 3
  unfolding day_number days_of_months
  may = ground (arith, years_lem (year - 1970), leap_step)

  june : Counted year 6 day year 4
  unfolding day_number days_of_months
  june = ground (arith, years_lem (year - 1970), leap_step)

  july : Counted year 7 day year 5
  unfolding day_number days_of_months
  july = ground (arith, years_lem (year - 1970), leap_step)

  august : Counted year 8 day year 6
  unfolding day_number days_of_months
  august = ground (arith, years_lem (year - 1970), leap_step)

  september : Counted year 9 day year 7
  unfolding day_number days_of_months
  september = ground (arith, years_lem (year - 1970), leap_step)

  october : Counted year 10 day year 8
  unfolding day_number days_of_months
  october = ground (arith, years_lem (year - 1970), leap_step)

  november : Counted year 11 day year 9
  unfolding day_number days_of_months
  november = ground (arith, years_lem (year - 1970), leap_step)

  december : Counted year 12 day year 10
  unfolding day_number days_of_months
  december = ground (arith, years_lem (year - 1970), leap_step)

-- The seconds of a day and a moment in it, in 32 bits.
to_seconds :
    (days day hour min sec zone : ℕ)
    → day + 1 ≡ days
    → add32 (add32 (mul32 (add32 (mul32 (add32 (mul32 day 24) hour) 60) min) 60) sec) zone
      ≡ ((((days - 1) * 24 + hour) * 60 + min) * 60 + sec + zone) % u32_mod
to_seconds days day hour min sec zone e = omega (arith, e)

finish :
    (year mon y' m' day hour min sec zone : ℕ)
    → 1 ≤ day
    → Counted year mon day y' m'
    → add32
        (add32 (mul32 (add32 (mul32 (add32 (mul32 (day_number y' m' day) 24) hour) 60) min) 60) sec)
        zone
      ≡ (since_epoch year mon day hour min sec + zone) % u32_mod
finish year mon y' m' day hour min sec zone first e =
    to_seconds (days_of_years (year - 1970) + days_of_months year (mon - 1) + day)
      (day_number y' m' day) hour min sec zone e
    ∙ omega arith

-- For every date from 1970 to 4999 `mktime` returns the seconds from the start of 1970 to the date, in
-- 32 bits, with the time zone added.
pub mktime-since_epoch :
    (zone year mon day hour min sec : ℕ)
    → 1970 ≤ year
    → year < 5000
    → 1 ≤ mon
    → mon ≤ 12
    → 1 ≤ day
    → day ≤ 31
    → mktime zone year mon day hour min sec
      ≡ (since_epoch year mon day hour min sec + zone) % u32_mod
unfolding mktime
mktime-since_epoch zone year zero day hour min sec low high one twelve first last =
    absurd (omega arith)
mktime-since_epoch zone year (suc zero) day hour min sec low high one twelve first last =
    let y : sub32 year 1 ≡ year - 1 = omega arith in
    rw y (
      finish year 1 (year - 1) 11 day hour min sec zone first
        (january year day low high first last))
mktime-since_epoch zone year (suc (suc zero)) day hour min sec low high one twelve first last =
    let y : sub32 year 1 ≡ year - 1 = omega arith in
    rw y (
      finish year 2 (year - 1) 12 day hour min sec zone first
        (february year day low high first last))
mktime-since_epoch zone year (suc (suc (suc zero))) day hour min sec low high one twelve first
      last =
    finish year 3 year 1 day hour min sec zone first (march year day low high first last)
mktime-since_epoch zone year (suc (suc (suc (suc zero)))) day hour min sec low high one twelve first
      last =
    finish year 4 year 2 day hour min sec zone first (april year day low high first last)
mktime-since_epoch zone year (suc (suc (suc (suc (suc zero))))) day hour min sec low high one twelve
      first last =
    finish year 5 year 3 day hour min sec zone first (may year day low high first last)
mktime-since_epoch zone year (suc (suc (suc (suc (suc (suc zero)))))) day hour min sec low high one
      twelve first last =
    finish year 6 year 4 day hour min sec zone first (june year day low high first last)
mktime-since_epoch zone year (suc (suc (suc (suc (suc (suc (suc zero))))))) day hour min sec low
      high one twelve first last =
    finish year 7 year 5 day hour min sec zone first (july year day low high first last)
mktime-since_epoch zone year (suc (suc (suc (suc (suc (suc (suc (suc zero)))))))) day hour min sec
      low high one twelve first last =
    finish year 8 year 6 day hour min sec zone first (august year day low high first last)
mktime-since_epoch zone year (suc (suc (suc (suc (suc (suc (suc (suc (suc zero))))))))) day hour min
      sec low high one twelve first last =
    finish year 9 year 7 day hour min sec zone first (september year day low high first last)
mktime-since_epoch zone year (suc (suc (suc (suc (suc (suc (suc (suc (suc (suc zero)))))))))) day
      hour min sec low high one twelve first last =
    finish year 10 year 8 day hour min sec zone first (october year day low high first last)
mktime-since_epoch zone year (suc (suc (suc (suc (suc (suc (suc (suc (suc (suc (suc zero)))))))))))
      day hour min sec low high one twelve first last =
    finish year 11 year 9 day hour min sec zone first (november year day low high first last)
mktime-since_epoch zone year
      (suc (suc (suc (suc (suc (suc (suc (suc (suc (suc (suc (suc zero)))))))))))) day hour min sec
      low high one twelve first last =
    finish year 12 year 10 day hour min sec zone first (december year day low high first last)
mktime-since_epoch zone year
      (suc (suc (suc (suc (suc (suc (suc (suc (suc (suc (suc (suc (suc mon))))))))))))) day hour min
      sec low high one twelve first last =
    absurd (omega arith)
