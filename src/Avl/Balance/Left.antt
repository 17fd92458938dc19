-- ===== src/Avl/Balance/Left.antt =====
-- `avl_insert` of Kernel/avltree.c behind its call into `p->left`: the rotations restore the balance.
use shaunos.Base.{
  ℕ, suc, ◌<◌, ◌≤◌, ◌+◌, max, ◌≡◌, refl, arith, false, ltb, ◌==◌, Bool-cases, ==→ne, ==→eq, ltb→lt,
  ltb→le, inl, inr,
}
use shaunos.Base.Fault.{◌>>=◌}
use shaunos.Avl.{
  Tree, null, node, height, measured, insert_left, single_rotate_with_left,
  single_rotate_with_right, double_rotate_with_left, set_height, val_of,
}
use shaunos.Avl.Balance.{IsBalanced, Grown, Yields}

-- The three ways on from an insertion into `p->left`: no rotation, a single and a double one.
module _ (val v d h : ℕ) (r : Tree) (n : ℕ) (lt : val < v) (b : IsBalanced r)
    (low : n ≤ height r + 1) (up : height r ≤ n + 1) where
  keep_left :
      (l : Tree)
      → Grown val n l
      → (height l == height r + 2) ≡ false
      → Grown val (suc (max n (height r))) (measured v d l r)
  unfolding measured height
  keep_left l g e = record {
    balanced = (refl, omega (arith, ==→ne _ _ e, g.at_most), omega arith, g.balanced, b);
    at_least = omega arith;
    at_most = omega arith;
    leans = λ p q. inl (lt, omega (arith, ==→ne _ _ e));
  }

  single_left :
      (w wd wh : ℕ) (x y : Tree)
      → Grown val n (node w wd wh x y)
      → wh ≡ height r + 1
      → val < w
      → Grown val (suc (max n (height r))) (measured w wd x (measured v d y r))
  unfolding measured height
  single_left w wd wh x y g e in_left =
      let tilt : height x ≡ height y + 1 = ground (arith, g.leans) in
      let sized : wh ≡ max (height x) (height y) = g.balanced.0 in
      record {
        balanced = (
          omega arith,
          omega arith,
          omega arith,
          g.balanced.3,
          (refl, omega arith, omega arith, g.balanced.4, b),
        );
        at_least = omega arith;
        at_most = omega arith;
        leans = omega arith;
      }

  double_left :
      (w wd wh : ℕ) (x : Tree) (y yd yh : ℕ) (y1 y2 : Tree)
      → Grown val n (node w wd wh x (node y yd yh y1 y2))
      → wh ≡ height r + 1
      → w ≤ val
      → Grown val (suc (max n (height r))) (measured y yd (measured w wd x y1) (measured v d y2 r))
  unfolding measured height
  double_left w wd wh x y yd yh y1 y2 g e in_right =
      let tilt : suc yh ≡ height x + 1 = ground (arith, g.leans) in
      let sized : wh ≡ max (height x) (suc yh) = g.balanced.0 in
      record {
        balanced = ground arith;
        at_least = omega arith;
        at_most = omega arith;
        leans = omega arith;
      }

  pub insert_left-Grown :
      (l : Tree)
      → Grown val n l
      → Yields (Grown val (suc (max n (height r)))) (insert_left val v d h l r)
  unfolding insert_left set_height val_of single_rotate_with_left double_rotate_with_left
      single_rotate_with_right height
  insert_left-Grown null g =
      let test : (0 == height r + 2) ≡ false = ground arith in rw test (keep_left null g test)
  insert_left-Grown (node w wd wh x y) g = elim (Bool-cases (suc wh == height r + 2)) [
    | inr low ↦ rw low (keep_left (node w wd wh x y) g low)
    | inl high ↦
        let e : wh ≡ height r + 1 = omega (arith, ==→eq _ _ high) in
        elim (Bool-cases (ltb val w)) [
          | inl a ↦ rw (high, a) (single_left w wd wh x y g e (ltb→lt _ _ a))
          | inr c ↦ rw (high, c) (rotated y g e (ltb→le _ _ c))
        ]
  ]
    where
      rotated :
          (y : Tree)
          → Grown val n (node w wd wh x y)
          → wh ≡ height r + 1
          → w ≤ val
          → Yields
              (Grown val (suc (max n (height r))))
              (double_rotate_with_left (node v d h (node w wd wh x y) r) >>= set_height)
      rotated null g e c = ground (arith, g.leans)
      rotated (node y yd yh y1 y2) g e c = double_left w wd wh x y yd yh y1 y2 g e c
