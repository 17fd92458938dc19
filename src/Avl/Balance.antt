-- ===== src/Avl/Balance.antt =====
-- The height invariant of Kernel/avltree.c, and what an insertion does to the height.
mod Left
mod Right
pub mod Insert
pub mod Delete
use shaunos.Base.{
  ℕ, suc, ◌<◌, ◌≤◌, ◌+◌, max, ◌≡◌, ◌≢◌, refl, arith, Bool, true, false, ltb, ◌==◌, Bool-cases,
  ==→ne, ==→eq, ltb→lt, ltb→le, if◌then◌else◌, inl, inr, ◌⊎◌,
}
use shaunos.Base.Fault.{Result, ok, null_deref, ◌>>=◌, bind-ok}
use shaunos.Avl.{
  Tree, null, node, height, measured, insert, insert_left, insert_right, delete, delete_left,
  single_rotate_with_left, single_rotate_with_right, double_rotate_with_left,
  double_rotate_with_right, set_height, val_of,
}

-- Every stored height is right, and the heights of two siblings differ by one at most.
abbrev pub IsBalanced : Tree → Type 0
IsBalanced null = Unit {0}
IsBalanced (node v d h l r) =
    (h ≡ max (height l) (height r))
    × (height l ≤ height r + 1)
    × (height r ≤ height l + 1)
    × IsBalanced l
    × IsBalanced r

-- A tree that an insertion has made higher leans to the side where the key went.
abbrev pub Leans : ℕ → Tree → Type 0
Leans val null = ⊥
Leans val (node v d h l r) =
    ((val < v) × (height l ≡ height r + 1)) ⊎ ((v < val) × (height r ≡ height l + 1))

-- What an insertion makes of a tree of height `n`.
pub record Grown (val n : ℕ) (t : Tree) : Type 0 where
  pub balanced : IsBalanced t
  pub at_least : n ≤ height t
  pub at_most : height t ≤ n + 1
  pub leans : 0 < n → height t ≡ n + 1 → Leans val t

abbrev pub Yields : (Tree → Type 0) → Result Tree → Type 0
Yields P (ok t) = P t
Yields P _ = ⊥
