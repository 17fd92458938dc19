-- ===== src/Timers/Tests.antt =====
-- Kernel/timer.c: the theorems at a one-shot timer, a periodic one, and a clock.
use shaunos.Base.{
  ℕ, zero, ◌+◌, ◌*◌, ◌<◌, ◌≤◌, ◌≡◌, refl, arith, true, false, some, [], ◌∷◌, suc, get_or, length,
  ◌≢◌, none, inr, replicate,
}
use shaunos.Base.Int.{pos}
use shaunos.Base.Fault.{ok}
use shaunos.Bitops.{lowest_one}
use shaunos.Kid.{KidObject, all_free}
use shaunos.Kid.Inv.{is_free}
use shaunos.Kid.Inv
use shaunos.Timers.{Timer, Timers, Kind, Ticker, register_timer, new_timer}
use shaunos.Timers.Owned.{IsValid, Registered, register_timer-Registered}
use shaunos.Timers.Pass.{Walks, isr_pass-new_timer}
use shaunos.Timers.Tick.{nanoseconds, interrupts, InStep, interrupts-InStep}

abbrev once : Kind
once = record { enabled = true; oneshot = true; periodic = false }

-- identifiers 0 to 31
abbrev ids : KidObject
ids = record { kid_map = all_free 1; offset = 0; size = 4 }

word-inside : (j : ℕ) → j < 1 → length (get_or ids.kid_map j []) ≡ 32
word-inside zero h = refl
word-inside (suc j) h = absurd (omega arith)

ids-IsValid : Inv.IsValid ids
ids-IsValid = record {
  sized = refl;
  inside = omega arith;
  words = word-inside;
  none_below = λ id h. absurd (omega arith);
}

abbrev none_set : Timers
none_set = record { ids = ids; timers = []; ticks = 70 }

starts_full : lowest_one (replicate 32 true) ≢ none
unfolding lowest_one
starts_full e = cc

none_set-IsValid : IsValid none_set
none_set-IsValid = record { ids-valid = ids-IsValid; owned = tt }

register_timer-Registered_example :
    (s' : Timers) × (id : ℕ) × (register_timer (some 12) 1 true (pos 5) once (some 9) 2 none_set
      ≡ ok (s', pos id))
    × Registered none_set 5 once (some 9) 2 s' id
register_timer-Registered_example =
    register_timer-Registered (some 12) 1 5 once (some 9) 2 none_set 7 (inr starts_full)
      none_set-IsValid refl (omega arith) refl

-- every 10 ticks, due at 70
abbrev every_ten : Timer
every_ten = record {
  timer_id = 3;
  expires = 70;
  interval = 10;
  func = some 8;
  arg = 1;
  enabled = true;
  oneshot = false;
  periodic = true;
}

isr_pass-new_timer_example :
    Walks
      (every_ten ∷ [])
      75
      90
      once
      9
      2
      true
      (every_ten ∷ new_timer 4 70 5 once (some 9) 2 ∷ [])
      false
isr_pass-new_timer_example =
    isr_pass-new_timer (every_ten ∷ []) 4 70 5 75 90 9 2 once refl refl (omega arith) (omega arith)
      (omega arith) (omega arith)

abbrev running : Ticker
running = record {
  ticks = 70;
  wall_jiffies = 70;
  timer_depth = 0;
  isr_depth = 0;
  xtime = record { ts_sec = 1000; ts_nsec = 999_000_000 };
  current = some (record { utime = 0; ktime = 0; slice = 48 });
  need_reschedule = 0;
  wakes = 0;
}

interrupts-InStep_example :
    InStep (interrupts (λ i. true) 3 running)
    × ((interrupts (λ i. true) 3 running).ticks ≡ 70 + 3)
    × (nanoseconds (interrupts (λ i. true) 3 running).xtime
        ≡ nanoseconds running.xtime + 3 * 1_000_000)
    × ((interrupts (λ i. true) 3 running).xtime.ts_sec ≤ 1000 + 3)
interrupts-InStep_example =
    interrupts-InStep (λ i. true) 3 running
      (record { thread = _; runs = refl; owed = refl; idle = refl; carried = omega arith })
      (omega arith) (omega arith)
