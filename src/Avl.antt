-- ===== src/Avl.antt =====
-- Kernel/avltree.c: the AVL tree that keys kernel objects by a number.
-- A `struct avlnode *` is the tree that it points to. `kmalloc` is the argument `room`, which says
-- whether it finds memory. `printk` of `OUT` and `kfree` leave no trace in the model.
pub mod Spec
pub mod Rotate
pub mod Balance
pub mod Refine
mod Tests
use shaunos.Base.{
  ℕ, suc, ◌+◌, max, Bool, if◌then◌else◌, ltb, ◌==◌, Option, none, some, ◌&&◌, true, false,
}
use shaunos.Base.Fault.{Result, ok, null_deref, assert_failed, ◌>>=◌}

-- `struct avlnode`, and NULL. The field `height` is the source's number: 0 at a leaf.
pub data Tree : Type 0 where
  null : Tree
  node : (val payload height : ℕ) → (left right : Tree) → Tree

-- One more than the source's `height`, which is -1 at NULL. The source compares heights by their
-- difference, and stores `Max(...) + 1`, which is the larger of two numbers that are one more.
unfoldable pub height : Tree → ℕ
height null = 0
height (node v d h l r) = suc h

-- `p` with `p->height = Max(height(p->left), height(p->right)) + 1`
unfoldable pub measured : ℕ → ℕ → Tree → Tree → Tree
unfolding height
measured v d l r = node v d (max (height l) (height r)) l r

unfoldable pub single_rotate_with_left : Tree → Result Tree
unfolding measured
single_rotate_with_left null = null_deref
single_rotate_with_left (node v d h null r) = null_deref
single_rotate_with_left (node v d h (node v1 d1 h1 l1 r1) r) =
    ok (measured v1 d1 l1 (measured v d r1 r))

unfoldable pub single_rotate_with_right : Tree → Result Tree
unfolding measured
single_rotate_with_right null = null_deref
single_rotate_with_right (node v d h l null) = null_deref
single_rotate_with_right (node v d h l (node v1 d1 h1 l1 r1)) =
    ok (measured v1 d1 (measured v d l l1) r1)

unfoldable pub double_rotate_with_left : Tree → Result Tree
double_rotate_with_left null = null_deref
double_rotate_with_left (node v d h l r) = do
  l' ← single_rotate_with_right l
  single_rotate_with_left (node v d h l' r)

unfoldable pub double_rotate_with_right : Tree → Result Tree
double_rotate_with_right null = null_deref
double_rotate_with_right (node v d h l r) = do
  r' ← single_rotate_with_left r
  single_rotate_with_right (node v d h l r')

-- `p->val`
unfoldable pub val_of : Tree → Result ℕ
val_of null = null_deref
val_of (node v d h l r) = ok v

-- the last statement of `avl_insert`, which sets the height anew
unfoldable pub set_height : Tree → Result Tree
unfolding measured
set_height null = null_deref
set_height (node v d h l r) = ok (measured v d l r)

-- `avl_insert` behind the recursive call into `p->left`
unfoldable pub insert_left : ℕ → ℕ → ℕ → ℕ → Tree → Tree → Result Tree
insert_left val v d h l r =
    if height l == height r + 2
    then (do
      w ← val_of l
      p ←
          if ltb val w
          then single_rotate_with_left (node v d h l r)
          else double_rotate_with_left (node v d h l r)
      set_height p)
    else set_height (node v d h l r)

-- `avl_insert` behind the recursive call into `p->right`
unfoldable pub insert_right : ℕ → ℕ → ℕ → ℕ → Tree → Tree → Result Tree
insert_right val v d h l r =
    if height r == height l + 2
    then (do
      w ← val_of r
      p ←
          if ltb w val
          then single_rotate_with_right (node v d h l r)
          else double_rotate_with_right (node v d h l r)
      set_height p)
    else set_height (node v d h l r)

unfoldable pub insert : Bool → ℕ → ℕ → Tree → Result Tree
insert room val payload null =
    if room then set_height (node val payload 0 null null) else assert_failed
insert room val payload (node v d h l r) =
    let into_left = insert room val payload l >>= (λ l'. insert_left val v d h l' r) in
    let into_right = insert room val payload r >>= (λ r'. insert_right val v d h l r') in
    if ltb val v then into_left else if ltb v val then into_right else set_height (node v d h l r)

-- `avl_delete` behind the recursive call into `p->left`. Where `height(p->right)` is two more,
-- `tmp = p->right` is no null pointer; the model keeps the check.
unfoldable pub delete_left : ℕ → ℕ → ℕ → Tree → Tree → Result Tree
delete_left v d h l null = set_height (node v d h l null)
delete_left v d h l (node v1 d1 h1 l1 r1) =
    if suc h1 == height l + 2
    then (if ltb (height l1) (height r1)
        then double_rotate_with_right (node v d h l (node v1 d1 h1 l1 r1))
        else single_rotate_with_right (node v d h l (node v1 d1 h1 l1 r1)))
    else set_height (node v d h l (node v1 d1 h1 l1 r1))

-- `avl_delete` behind the recursive call into `p->right`
unfoldable pub delete_right : ℕ → ℕ → ℕ → Tree → Tree → Result Tree
delete_right v d h null r = set_height (node v d h null r)
delete_right v d h (node v1 d1 h1 l1 r1) r =
    if suc h1 == height r + 2
    then (if ltb (height r1) (height l1)
        then single_rotate_with_left (node v d h (node v1 d1 h1 l1 r1) r)
        else double_rotate_with_left (node v d h (node v1 d1 h1 l1 r1) r))
    else set_height (node v d h (node v1 d1 h1 l1 r1) r)

-- `while (tmp->left != NULL) tmp = tmp->left`, the value and payload that it stops at
unfoldable pub leftmost : ℕ → ℕ → Tree → ℕ × ℕ
leftmost v d null = (v, d)
leftmost v d (node v1 d1 h1 l1 r1) = leftmost v1 d1 l1

-- `avl_delete` at the node to be deleted, where `again` is its recursive call on the right child.
-- A node with two children takes the value and the payload of its successor, and keeps its height.
unfoldable pub delete_here : ℕ → Tree → Tree → (ℕ → Result Tree) → Result Tree
unfolding leftmost
delete_here h null r again = ok r
delete_here h (node v0 d0 h0 l0 r0) null again = ok (node v0 d0 h0 l0 r0)
delete_here h (node v0 d0 h0 l0 r0) (node v1 d1 h1 l1 r1) again = do
  let s = leftmost v1 d1 l1
  r' ← again s.0
  ok (node s.0 s.1 h (node v0 d0 h0 l0 r0) r')

unfoldable pub delete : ℕ → Tree → Result Tree
delete val null = ok null
delete val (node v d h l r) =
    let from_left = delete val l >>= (λ l'. delete_left v d h l' r) in
    let from_right = delete val r >>= (λ r'. delete_right v d h l r') in
    if ltb val v
    then from_left
    else if ltb v val
    then from_right
    else delete_here h l r (λ k. delete k r)

-- The node that holds the value, as the tree below it; null where there is none.
unfoldable pub find : ℕ → Tree → Tree
find val null = null
find val (node v d h l r) =
    let right = find val r in
    let left = find val l in if ltb v val then right else if ltb val v then left else node v d h l r
