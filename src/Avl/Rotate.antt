-- ===== src/Avl/Rotate.antt =====
-- The rotations of Kernel/avltree.c keep the entries of a tree, in their order.
use shaunos.Base.{
  ltb, ◌==◌, ◌+◌, Bool-cases, if◌then◌else◌, inl, inr, ℕ, ◌≡◌, ◌∷◌, append_assoc, arith,
}
use shaunos.Base.Fault.{ok, bind-ok}
use shaunos.Avl.{
  insert_left, insert_right, delete_left, delete_right, height, val_of, Tree, null, node,
  single_rotate_with_left, single_rotate_with_right, double_rotate_with_left,
  double_rotate_with_right, set_height,
}
use shaunos.Avl.Spec.{to_list}

pub set_height-to_list : (t : Tree) {u : Tree} → set_height t ≡ ok u → to_list u ≡ to_list t
unfolding set_height to_list
set_height-to_list null e = ground arith
set_height-to_list (node v d h l r) e = ground arith

pub single_left-to_list :
    (t : Tree) {u : Tree} → single_rotate_with_left t ≡ ok u → to_list u ≡ to_list t
unfolding single_rotate_with_left to_list
single_left-to_list null e = ground arith
single_left-to_list (node v d h null r) e = ground arith
single_left-to_list (node v d h (node v1 d1 h1 l1 r1) r) e =
    ground (arith, append_assoc (to_list l1) ((v1, d1) ∷ to_list r1) ((v, d) ∷ to_list r))

pub single_right-to_list :
    (t : Tree) {u : Tree} → single_rotate_with_right t ≡ ok u → to_list u ≡ to_list t
unfolding single_rotate_with_right to_list
single_right-to_list null e = ground arith
single_right-to_list (node v d h l null) e = ground arith
single_right-to_list (node v d h l (node v1 d1 h1 l1 r1)) e =
    ground (arith, append_assoc (to_list l) ((v, d) ∷ to_list l1) ((v1, d1) ∷ to_list r1))

pub double_left-to_list :
    (t : Tree) {u : Tree} → double_rotate_with_left t ≡ ok u → to_list u ≡ to_list t
unfolding double_rotate_with_left to_list
double_left-to_list null e = ground arith
double_left-to_list (node v d h l r) e =
    let (l', turned, rest) = bind-ok (single_rotate_with_right l) _ e in
    ground (arith, single_right-to_list l turned, single_left-to_list (node v d h l' r) rest)

pub double_right-to_list :
    (t : Tree) {u : Tree} → double_rotate_with_right t ≡ ok u → to_list u ≡ to_list t
unfolding double_rotate_with_right to_list
double_right-to_list null e = ground arith
double_right-to_list (node v d h l r) e =
    let (r', turned, rest) = bind-ok (single_rotate_with_left r) _ e in
    ground (arith, single_left-to_list r turned, single_right-to_list (node v d h l r') rest)

-- The code behind the recursive call of `avl_insert` keeps the entries too.
pub insert_left-to_list :
    (val v d h : ℕ) (l r : Tree) {u : Tree}
    → insert_left val v d h l r ≡ ok u
    → to_list u ≡ to_list (node v d h l r)
unfolding insert_left
insert_left-to_list val v d h l r e = elim (Bool-cases (height l == height r + 2)) [
  | inl high ↦
      let (w, found, rest) = bind-ok (val_of l) _ (rw high at e) in
      let (p, turned, last) =
        bind-ok
          (if ltb val w
            then single_rotate_with_left (node v d h l r)
            else double_rotate_with_left (node v d h l r))
          _ rest in
      ground (
        arith,
        set_height-to_list p last,
        single_left-to_list (node v d h l r) {u = p},
        double_left-to_list (node v d h l r) {u = p},
      )
  | inr low ↦ set_height-to_list (node v d h l r) (rw low at e)
]

pub insert_right-to_list :
    (val v d h : ℕ) (l r : Tree) {u : Tree}
    → insert_right val v d h l r ≡ ok u
    → to_list u ≡ to_list (node v d h l r)
unfolding insert_right
insert_right-to_list val v d h l r e = elim (Bool-cases (height r == height l + 2)) [
  | inl high ↦
      let t = node v d h l r in
      let (w, found, rest) = bind-ok (val_of r) _ (rw high at e) in
      let (p, turned, last) =
        bind-ok (if ltb w val then single_rotate_with_right t else double_rotate_with_right t) _
          rest in
      ground (
        arith,
        set_height-to_list p last,
        single_right-to_list t {u = p},
        double_right-to_list t {u = p},
      )
  | inr low ↦ set_height-to_list (node v d h l r) (rw low at e)
]

pub delete_left-to_list :
    (v d h : ℕ) (l r : Tree) {u : Tree}
    → delete_left v d h l r ≡ ok u
    → to_list u ≡ to_list (node v d h l r)
unfolding delete_left
delete_left-to_list v d h l null e = set_height-to_list (node v d h l null) e
delete_left-to_list v d h l (node v1 d1 h1 l1 r1) {u} e =
    let t = node v d h l (node v1 d1 h1 l1 r1) in
    ground (
      arith,
      set_height-to_list t {u = u},
      single_right-to_list t {u = u},
      double_right-to_list t {u = u},
    )

pub delete_right-to_list :
    (v d h : ℕ) (l r : Tree) {u : Tree}
    → delete_right v d h l r ≡ ok u
    → to_list u ≡ to_list (node v d h l r)
unfolding delete_right
delete_right-to_list v d h null r e = set_height-to_list (node v d h null r) e
delete_right-to_list v d h (node v1 d1 h1 l1 r1) r {u} e =
    let t = node v d h (node v1 d1 h1 l1 r1) r in
    ground (
      arith,
      set_height-to_list t {u = u},
      single_left-to_list t {u = u},
      double_left-to_list t {u = u},
    )
