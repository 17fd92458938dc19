-- ===== src/Base/Int.antt =====
-- C's `int`, as an integer: `negsuc n` is -(n + 1).
use Prim.Native.Nat.{ℕ, suc, ◌+◌, ◌-◌, ◌%◌, ◌^◌, compare, Ordering}

pub data ℤ : Type 0 where
  pos : ℕ → ℤ
  negsuc : ℕ → ℤ

abbrev pub u32_mod : ℕ
u32_mod = 2 ^ 32

-- sums and differences of 32-bit patterns
abbrev pub add32 : ℕ → ℕ → ℕ
add32 a b = (a + b) % u32_mod

abbrev pub sub32 : ℕ → ℕ → ℕ
sub32 a b = (a + u32_mod - b) % u32_mod

abbrev pub pos_part : ℤ → ℕ
pos_part (pos n) = n
pos_part (negsuc n) = 0

abbrev pub neg_part : ℤ → ℕ
neg_part (pos n) = 0
neg_part (negsuc n) = suc n

-- x + m - n
abbrev pub shift_ℤ : ℤ → ℕ → ℕ → ℤ
shift_ℤ x m n =
    let a = pos_part x + m in
    let b = neg_part x + n in
    elim (compare a b) [ Ordering.lt ↦ negsuc (b - a - 1) | _ ↦ pos (a - b) ]
