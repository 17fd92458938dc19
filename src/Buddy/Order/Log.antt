-- ===== src/Buddy/Order/Log.antt =====
-- `get_order` and `mem_calc_order` of Kernel/mm.c round down to a power of two.
use native.Mathlib.Nat.{pow-suc}
use shaunos.Base.{
  ℕ, zero, suc, ◌+◌, ◌-◌, ◌*◌, ◌/◌, ◌%◌, ◌^◌, ◌<◌, ◌≤◌, ◌≡◌, ◌≢◌, arith, ◌==◌, Bool-cases, inl, inr,
  ==→eq, ==→ne,
}
use shaunos.Base.Int.{u32_mod}
use shaunos.Buddy.Order.{halvings, get_order, mem_calc_order, page_size}

-- The loop finds the highest power of two that is not above `n`.
halvings_lem :
    (fuel n : ℕ)
    → 0 < n
    → n < 2 ^ suc fuel
    → (order : ℕ) → (k : ℕ) × (halvings fuel n order ≡ order + k) × (2 ^ k ≤ n) × (n < 2 ^ suc k)
unfolding halvings
halvings_lem zero n pos small order = (0, omega arith, omega arith, small)
halvings_lem (suc fuel) n pos small order = elim (Bool-cases (n / 2 == 0)) [
  | inl last ↦ (0, rw last (omega arith), omega arith, omega (arith, ==→eq _ _ last))
  | inr more ↦
      let half : n / 2 < 2 ^ suc fuel = omega (arith, pow-suc 2 (suc fuel)) in
      let (k, run, low, high) =
        halvings_lem fuel (n / 2) (omega (arith, ==→ne _ _ more)) half (order + 1) in
      (
        suc k,
        rw more (omega (arith, run)),
        omega (arith, pow-suc 2 k, low),
        omega (arith, pow-suc 2 (suc k), high),
      )
]

-- The order of a size of at least one page is that of the largest block that the whole pages of the
-- size fill.
pub get_order-bounds :
    (size : ℕ)
    → page_size ≤ size
    → size < u32_mod
    → (2 ^ get_order size ≤ size / page_size) × (size / page_size < 2 ^ suc (get_order size))
unfolding get_order
get_order-bounds size one small =
    let (k, run, low, high) = halvings_lem 32 (size / page_size) (omega arith) (omega arith) 0 in
    let e : halvings 32 (size / page_size) 0 ≡ k = omega (arith, run) in rw e (low, high)

-- The block of the order that `mem_calc_order` gives a size is smaller than the size, unless the size,
-- rounded up to whole pages, is a power of two of them.
pub mem_calc_order-short :
    (size pages : ℕ)
    → 0 < size
    → size < u32_mod - page_size
    → pages ≡ (size + page_size - 1) / page_size
    → ((k : ℕ) → pages ≢ 2 ^ k)
    → 2 ^ mem_calc_order size * page_size < size
unfolding mem_calc_order
mem_calc_order-short size pages pos small e odd =
    let fits : (size + page_size - 1) % u32_mod ≡ size + page_size - 1 = omega arith in
    let (k, run, low, high) =
      halvings_lem 32 ((size + page_size - 1) / page_size) (omega arith) (omega arith) 0 in
    let q : halvings 32 ((size + page_size - 1) / page_size) 0 ≡ k = omega (arith, run) in
    rw (fits, q) (omega (arith, low, odd k, e))
