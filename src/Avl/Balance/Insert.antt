-- ===== src/Avl/Balance/Insert.antt =====
-- `avl_insert` of Kernel/avltree.c keeps a tree balanced; the height of a balanced tree is small.
use shaunos.Base.{ℕ, suc, ◌≤◌, ◌+◌, max, ◌≡◌, refl, arith, true, ltb, Bool-cases, ltb→lt, inl, inr}
use shaunos.Base.Fault.{Result, ok, null_deref, out_of_bounds, assert_failed, out_of_fuel, ◌>>=◌}
use shaunos.Avl.{Tree, null, node, height, insert, insert_left, insert_right, set_height, measured}
use shaunos.Avl.Balance.{IsBalanced, Grown, Yields}
use shaunos.Avl.Balance.Left.{insert_left-Grown}
use shaunos.Avl.Balance.Right.{insert_right-Grown}

Yields-bind :
    (P Q : Tree → Type 0) (m : Result Tree) (f : Tree → Result Tree)
    → Yields P m
    → ((t : Tree) → P t → Yields Q (f t))
    → Yields Q (m >>= f)
Yields-bind P Q (ok t) f y k = k t y
Yields-bind P Q null_deref f y k = y
Yields-bind P Q out_of_bounds f y k = y
Yields-bind P Q assert_failed f y k = y
Yields-bind P Q out_of_fuel f y k = y

insert-Grown :
    (val payload : ℕ) (t : Tree)
    → IsBalanced t
    → Yields (Grown val (height t)) (insert true val payload t)
unfolding insert set_height measured height
insert-Grown val payload null b = ground arith
insert-Grown val payload (node v d h l r) (sized, low, up, bl, br) = elim (Bool-cases (ltb val v)) [
  | inl lt ↦
      rw (lt, sized)
        (Yields-bind (Grown val (height l)) (Grown val (suc (max (height l) (height r))))
          (insert true val payload l) (λ l'. insert_left val v d (max (height l) (height r)) l' r)
          (insert-Grown val payload l bl)
          (insert_left-Grown val v d _ r (height l) (ltb→lt _ _ lt) br low up))
  | inr ge ↦ elim (Bool-cases (ltb v val)) [
    | inl gt ↦
        rw (ge, gt, sized)
          (Yields-bind (Grown val (height r)) (Grown val (suc (max (height l) (height r))))
            (insert true val payload r)
            (λ r'. insert_right val v d (max (height l) (height r)) l r')
            (insert-Grown val payload r br)
            (insert_right-Grown val v d _ l (height r) (ltb→lt _ _ gt) bl up low))
    | inr le ↦
        rw (ge, le)
          (record {
            balanced = (refl, low, up, bl, br);
            at_least = omega arith;
            at_most = omega arith;
            leans = omega arith;
          })
  ]
]

returned :
    (val n : ℕ) (m : Result Tree)
    → Yields (Grown val n) m
    → (u : Tree) × (m ≡ ok u) × IsBalanced u × (n ≤ height u) × (height u ≤ n + 1)
returned val n (ok u) g = (u, refl, g.balanced, g.at_least, g.at_most)
returned val n null_deref g = absurd g
returned val n out_of_bounds g = absurd g
returned val n assert_failed g = absurd g
returned val n out_of_fuel g = absurd g

-- Where memory is found, `avl_insert` into a balanced tree follows no null pointer and returns a
-- balanced tree that is at most one higher and not lower.
pub insert-IsBalanced :
    (val payload : ℕ) (t : Tree)
    → IsBalanced t
    → (u : Tree) × (insert true val payload t ≡ ok u)
      × IsBalanced u
      × (height t ≤ height u)
      × (height u ≤ height t + 1)
insert-IsBalanced val payload t b =
    returned val (height t) (insert true val payload t) (insert-Grown val payload t b)
