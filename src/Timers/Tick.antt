-- ===== src/Timers/Tick.antt =====
-- `timer_handler` of Kernel/timer.c over many interrupts: the clock, the time slice, and what happens
-- when there is no thread.
use shaunos.Base.{
  ℕ, zero, suc, ◌+◌, ◌-◌, ◌*◌, ◌%◌, ◌^◌, ◌<◌, ◌≤◌, ◌≡◌, ◌≢◌, refl, arith, Bool, true, false, Option,
  none, some, ltb, ◌==◌, ◌&&◌, if◌then◌else◌, Bool-cases, inl, inr, ==→ne, eq→==, ne→==,
}
use shaunos.Base.Int.{u32_mod, add32}
use shaunos.Clock.{TimeSpec}
use shaunos.Timers.{Thread, Ticker, u64_mod, carries, account, timer_handler}

-- the nanoseconds that a time stands for
abbrev pub nanoseconds : TimeSpec → ℕ
nanoseconds x = x.ts_sec * 1_000_000_000 + x.ts_nsec

carries_lem :
    (n : ℕ) (x : TimeSpec)
    → x.ts_nsec ≤ suc n * 1_000_000_000
    → x.ts_nsec < 2 ^ 31
    → x.ts_sec + n < u32_mod
    → (nanoseconds (carries n x) ≡ nanoseconds x)
      × ((carries n x).ts_nsec ≤ 1_000_000_000)
      × ((carries n x).ts_sec ≤ x.ts_sec + n)
unfolding carries
carries_lem zero x le small fits = (refl, omega arith, omega arith)
carries_lem (suc n) x le small fits =
    elim (Bool-cases (ltb 1_000_000_000 x.ts_nsec && ltb x.ts_nsec (2 ^ 31))) [
      | inl full ↦
          rw (full, carries)
            (ground (
              arith,
              carries_lem n
                  (record { ts_sec = add32 x.ts_sec 1; ts_nsec = x.ts_nsec - 1_000_000_000 }),
            ))
      | inr room ↦ rw (room, carries) (ground (arith, carries_lem n x))
    ]

-- `n` interrupts, in the kernel or, as `user` says, in a program
unfoldable pub interrupts : (ℕ → Bool) → ℕ → Ticker → Ticker
interrupts user zero k = k
interrupts user (suc n) k = timer_handler (user n) (interrupts user n k)

-- No tick is owed, no interrupt is under way, and a thread runs.
pub record InStep (k : Ticker) : Type 0 where
  pub thread : Thread
  pub runs : k.current ≡ some thread
  pub owed : k.wall_jiffies ≡ k.ticks
  pub idle : k.timer_depth ≡ 0
  pub carried : k.xtime.ts_nsec ≤ 1_000_000_000

-- what one interrupt does to the clock
abbrev Stepped : Ticker → Ticker → Type 0
Stepped k k' =
    InStep k'
    × (k'.ticks ≡ k.ticks + 1)
    × (nanoseconds k'.xtime ≡ nanoseconds k.xtime + 1_000_000)
    × (k'.xtime.ts_sec ≤ k.xtime.ts_sec + 1)

timer_handler-Stepped :
    (user : Bool) (k : Ticker)
    → InStep k
    → k.ticks + 1 < u64_mod
    → k.xtime.ts_sec + 1 < u32_mod
    → Stepped k (timer_handler user k)
unfolding timer_handler account
timer_handler-Stepped user k s fits sec =
    let one : ((k.ticks + 1) % u64_mod + u64_mod - k.wall_jiffies) % u32_mod ≡ 1 =
      omega (arith, s.owed) in
    let sum : add32 k.xtime.ts_nsec 1_000_000 ≡ k.xtime.ts_nsec + 1_000_000 =
      omega (arith, s.carried) in
    let x : TimeSpec = record k.xtime { ts_nsec = k.xtime.ts_nsec + 1_000_000 } in
    let (total, small, secs) =
      carries_lem 1 x (omega (arith, s.carried)) (omega (arith, s.carried)) (omega arith) in
    rw (s.idle, s.runs, one, sum)
      (
        record {
          thread = _;
          runs = refl;
          owed = omega (arith, s.owed);
          idle = refl;
          carried = small;
        },
        omega arith,
        omega (arith, total),
        secs,
      )

-- While no tick is owed and a thread runs, each of `n` interrupts moves the ticks on by one and the time
-- of day by a millisecond, whatever runs at the interrupts; no nanosecond is lost where seconds are
-- carried.
pub interrupts-InStep :
    (user : ℕ → Bool) (n : ℕ) (k : Ticker)
    → InStep k
    → k.ticks + n < u64_mod
    → k.xtime.ts_sec + n < u32_mod
    → InStep (interrupts user n k)
      × ((interrupts user n k).ticks ≡ k.ticks + n)
      × (nanoseconds (interrupts user n k).xtime ≡ nanoseconds k.xtime + n * 1_000_000)
      × ((interrupts user n k).xtime.ts_sec ≤ k.xtime.ts_sec + n)
unfolding interrupts
interrupts-InStep user zero k s fits sec = (s, omega arith, omega arith, omega arith)
interrupts-InStep user (suc n) k s fits sec =
    let (s', ticks, total, secs) = interrupts-InStep user n k s (omega arith) (omega arith) in
    let (s'', ticks', total', secs') =
      timer_handler-Stepped (user n) (interrupts user n k) s' (omega (arith, ticks))
        (omega (arith, secs)) in
    (s'', omega (arith, ticks, ticks'), omega (arith, total, total'), omega (arith, secs, secs'))

-- An interrupt that finds no thread leaves `timer_depth` set: from then on, whatever thread comes to
-- run, the time of day and the time slice stand still.
pub timer_handler-stuck :
    (user : ℕ → Bool) (n : ℕ) (first : Bool) (t : Option Thread) (k : Ticker)
    → k.current ≡ none
    → let k' = interrupts user n (record (timer_handler first k) { current = t }) in
      (k'.xtime ≡ k.xtime)
      × (k'.current ≡ t)
      × (k'.need_reschedule ≡ k.need_reschedule)
      × (k'.timer_depth ≢ 0)
unfolding timer_handler interrupts
timer_handler-stuck user zero first t k e = elim (Bool-cases (k.timer_depth == 0)) [
  | inl h ↦ rw (h, e) (refl, refl, refl, omega arith)
  | inr h ↦ rw h (refl, refl, refl, ==→ne _ _ h)
]
timer_handler-stuck user (suc n) first t k e =
    let k' = interrupts user n (record (timer_handler first k) { current = t }) in
    let (time, thread, resched, depth) = timer_handler-stuck user n first t k e in
    let set : (k'.timer_depth == 0) ≡ false = ne→== _ _ depth in
    rw set (time, thread, resched, depth)

-- the thread that runs, and how many interrupts its slice has seen
abbrev Slice : ℕ → Ticker → Type 0
Slice n k = (t : Thread) × (k.current ≡ some t) × (t.slice ≡ n)

Slice-step :
    (user : Bool) (n : ℕ) (k : Ticker)
    → k.timer_depth ≡ 0
    → Slice n k
    → ((timer_handler user k).timer_depth ≡ 0)
      × (if n == 50
          then (timer_handler user k).need_reschedule ≡ 1
          else Slice (n + 1) (timer_handler user k))
unfolding timer_handler account
Slice-step true n k d (t, e, s) = elim (Bool-cases (n == 50)) [
  | inl h ↦ rw (d, e, s, h) (refl, refl)
  | inr h ↦ rw (d, e, s, h) (refl, (_, refl, refl))
]
Slice-step false n k d (t, e, s) = elim (Bool-cases (n == 50)) [
  | inl h ↦ rw (d, e, s, h) (refl, refl)
  | inr h ↦ rw (d, e, s, h) (refl, (_, refl, refl))
]

slices :
    (user : ℕ → Bool) (n m : ℕ) (k : Ticker)
    → k.timer_depth ≡ 0
    → Slice m k
    → m + n ≤ 50
    → ((interrupts user n k).timer_depth ≡ 0) × Slice (m + n) (interrupts user n k)
unfolding interrupts
slices user zero m k d s le = let e : m + 0 ≡ m = omega arith in (d, (rw e s))
slices user (suc n) m k d s le =
    let (d', s') = slices user n m k d s (omega arith) in
    let (d'', s'') = Slice-step (user n) (m + n) (interrupts user n k) d' s' in
    let early : (m + n == 50) ≡ false = ne→== _ _ (omega arith) in
    let e : m + suc n ≡ m + n + 1 = omega arith in (d'', (rw e (rw early at s'')))

-- A thread that runs on is asked to give way: whatever its slice has seen so far, the flag is set when
-- it has seen 51 interrupts.
pub interrupts-reschedule :
    (user : ℕ → Bool) (m : ℕ) (k : Ticker) (t : Thread)
    → k.timer_depth ≡ 0
    → k.current ≡ some t
    → t.slice ≡ m
    → m ≤ 50
    → (interrupts user (suc (50 - m)) k).need_reschedule ≡ 1
unfolding interrupts
interrupts-reschedule user m k t d e s le =
    let (d', s') = slices user (50 - m) m k d (t, e, s) (omega arith) in
    let full : m + (50 - m) ≡ 50 = omega arith in
    let (d'', set) = Slice-step (user (50 - m)) (m + (50 - m)) (interrupts user (50 - m) k) d' s' in
    let yes' : (m + (50 - m) == 50) ≡ true = eq→== _ _ full in rw yes' at set
