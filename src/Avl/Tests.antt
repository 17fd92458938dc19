-- ===== src/Avl/Tests.antt =====
-- Runs of the AVL tree of Kernel/avltree.c, and its theorems at concrete trees.
use shaunos.Base.{◌≡◌, ◌≤◌, ◌+◌, refl, arith, true}
use shaunos.Base.Fault.{ok}
use shaunos.Avl.{
  Tree, null, node, insert, delete, insert_right, delete_left, delete_here,
  single_rotate_with_right, set_height, val_of, height,
}
use shaunos.Avl.Spec.{to_list, insert_sorted, remove}
use shaunos.Avl.Refine.{insert_refines, delete_refines}
use shaunos.Avl.Balance.{IsBalanced}
use shaunos.Avl.Balance.Insert.{insert-IsBalanced}
use shaunos.Avl.Balance.Delete.{leaf}

-- 3 with its children 1 and 5
abbrev three : Tree
three = node 3 30 1 (leaf 1 10) (leaf 5 50)

-- two nodes to the right of one another
abbrev chain : Tree
chain = node 3 30 1 null (leaf 5 50)

insert_rotates : insert true 7 70 chain ≡ ok (node 5 50 1 (leaf 3 30) (leaf 7 70))
unfolding insert insert_right single_rotate_with_right set_height val_of height
insert_rotates = refl

insert_refines_example :
    to_list (node 5 50 1 (leaf 3 30) (leaf 7 70)) ≡ insert_sorted 7 70 (to_list chain)
unfolding insert insert_right single_rotate_with_right set_height val_of height to_list
insert_refines_example = insert_refines true 7 70 chain (omega arith) insert_rotates

delete_leaf : delete 1 three ≡ ok chain
unfolding delete delete_left delete_here set_height height
delete_leaf = refl

delete_refines_example : to_list chain ≡ remove 1 (to_list three)
unfolding to_list
delete_refines_example = delete_refines 1 three (omega arith) delete_leaf

insert-IsBalanced_example :
    (u : Tree) × (insert true 7 70 chain ≡ ok u)
    × IsBalanced u
    × (height chain ≤ height u)
    × (height u ≤ height chain + 1)
unfolding height
insert-IsBalanced_example = insert-IsBalanced 7 70 chain (omega arith)
