-- ===== src/Avl/Balance/Delete.antt =====
-- `avl_delete` of Kernel/avltree.c: the inputs on which it goes wrong.
use shaunos.Base.{ℕ, ◌<◌, ◌≡◌, refl, arith, lt→ltb, le→ltb}
use shaunos.Base.Fault.{ok, null_deref}
use shaunos.Avl.{
  Tree, null, node, delete, delete_left, double_rotate_with_right, single_rotate_with_left, height,
  delete_here, leftmost,
}
use shaunos.Avl.Balance.{IsBalanced}
use shaunos.Avl.Spec.{IsSorted, to_list}

abbrev pub leaf : ℕ → ℕ → Tree
leaf v d = node v d 0 null null

-- A valid tree whose right child leans to the right.
abbrev pub right_heavy : (a da v dv w dw x dx : ℕ) → Tree
right_heavy a da v dv w dw x dx = node v dv 2 (leaf a da) (node w dw 1 null (leaf x dx))

module _ (a da v dv w dw x dx : ℕ) (av : a < v) (vw : v < w) (wx : w < x) where
  -- In every balanced and sorted tree of four nodes whose right child leans to the right, deleting the
  -- left child makes `avl_delete` choose the double rotation and follow a null pointer.
  pub delete_left-null_deref :
      IsBalanced (right_heavy a da v dv w dw x dx)
      × IsSorted (to_list (right_heavy a da v dv w dw x dx))
      × (delete a (right_heavy a da v dv w dw x dx) ≡ null_deref)
  unfolding delete delete_left double_rotate_with_right single_rotate_with_left height to_list
      delete_here
  delete_left-null_deref =
      (omega arith, omega arith, rw (lt→ltb a v av, le→ltb a a (omega arith)) refl)

  -- In the same trees, deleting the root leaves a tree that is not balanced: the new root keeps the
  -- height of the old one.
  pub delete_here-stale_height :
      (u : Tree) × (delete v (right_heavy a da v dv w dw x dx) ≡ ok u) × ¬ (IsBalanced u)
  unfolding delete height to_list delete_here leftmost
  delete_here-stale_height = (
    node w dw 2 (leaf a da) (leaf x dx),
    rw (le→ltb v v (omega arith), le→ltb w w (omega arith)) refl,
    λ b. omega (arith, b.0),
  )
