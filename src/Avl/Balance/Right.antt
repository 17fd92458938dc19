-- ===== src/Avl/Balance/Right.antt =====
-- `avl_insert` of Kernel/avltree.c behind its call into `p->right`: the rotations restore the balance.
use shaunos.Base.{
  ℕ, suc, ◌<◌, ◌≤◌, ◌+◌, max, ◌≡◌, refl, arith, false, ltb, ◌==◌, Bool-cases, ==→ne, ==→eq, ltb→lt,
  ltb→le, inl, inr,
}
use shaunos.Base.Fault.{◌>>=◌}
use shaunos.Avl.{
  Tree, null, node, height, measured, insert_right, single_rotate_with_left,
  single_rotate_with_right, double_rotate_with_right, set_height, val_of,
}
use shaunos.Avl.Balance.{IsBalanced, Grown, Yields}

-- The three ways on from an insertion into `p->right`: no rotation, a single and a double one.
module _ (val v d h : ℕ) (l : Tree) (n : ℕ) (lt : v < val) (b : IsBalanced l)
    (low : n ≤ height l + 1) (up : height l ≤ n + 1) where
  keep_right :
      (r : Tree)
      → Grown val n r
      → (height r == height l + 2) ≡ false
      → Grown val (suc (max (height l) n)) (measured v d l r)
  unfolding measured height
  keep_right r g e = record {
    balanced = (refl, omega arith, omega (arith, ==→ne _ _ e, g.at_most), b, g.balanced);
    at_least = omega arith;
    at_most = omega arith;
    leans = λ p q. inr (lt, omega (arith, ==→ne _ _ e));
  }

  single_right :
      (w wd wh : ℕ) (x y : Tree)
      → Grown val n (node w wd wh x y)
      → wh ≡ height l + 1
      → w < val
      → Grown val (suc (max (height l) n)) (measured w wd (measured v d l x) y)
  unfolding measured height
  single_right w wd wh x y g e in_right =
      let tilt : height y ≡ height x + 1 = ground (arith, g.leans) in
      let sized : wh ≡ max (height x) (height y) = g.balanced.0 in
      record {
        balanced = (
          omega arith,
          omega arith,
          omega arith,
          (refl, omega arith, omega arith, b, g.balanced.3),
          g.balanced.4,
        );
        at_least = omega arith;
        at_most = omega arith;
        leans = omega arith;
      }

  double_right :
      (w wd wh : ℕ) (y yd yh : ℕ) (y1 y2 x : Tree)
      → Grown val n (node w wd wh (node y yd yh y1 y2) x)
      → wh ≡ height l + 1
      → val ≤ w
      → Grown val (suc (max (height l) n)) (measured y yd (measured v d l y1) (measured w wd y2 x))
  unfolding measured height
  double_right w wd wh y yd yh y1 y2 x g e in_left =
      let tilt : suc yh ≡ height x + 1 = ground (arith, g.leans) in
      let sized : wh ≡ max (suc yh) (height x) = g.balanced.0 in
      record {
        balanced = ground arith;
        at_least = omega arith;
        at_most = omega arith;
        leans = omega arith;
      }

  pub insert_right-Grown :
      (r : Tree)
      → Grown val n r
      → Yields (Grown val (suc (max (height l) n))) (insert_right val v d h l r)
  unfolding insert_right set_height val_of single_rotate_with_right double_rotate_with_right
      single_rotate_with_left height
  insert_right-Grown null g =
      let test : (0 == height l + 2) ≡ false = ground arith in rw test (keep_right null g test)
  insert_right-Grown (node w wd wh x y) g = elim (Bool-cases (suc wh == height l + 2)) [
    | inr low ↦ rw low (keep_right (node w wd wh x y) g low)
    | inl high ↦
        let e : wh ≡ height l + 1 = omega (arith, ==→eq _ _ high) in
        elim (Bool-cases (ltb w val)) [
          | inl a ↦ rw (high, a) (single_right w wd wh x y g e (ltb→lt _ _ a))
          | inr c ↦ rw (high, c) (rotated x g e (ltb→le _ _ c))
        ]
  ]
    where
      rotated :
          (x : Tree)
          → Grown val n (node w wd wh x y)
          → wh ≡ height l + 1
          → val ≤ w
          → Yields
              (Grown val (suc (max (height l) n)))
              (double_rotate_with_right (node v d h l (node w wd wh x y)) >>= set_height)
      rotated null g e c = ground (arith, g.leans)
      rotated (node z zd zh z1 z2) g e c = double_right w wd wh z zd zh z1 z2 y g e c
