-- ===== src/Avl/Refine.antt =====
-- A tree of Kernel/avltree.c is the sorted dictionary of its entries.
use shaunos.Base.{
  ℕ, ◌≡◌, refl, ◌++◌, ◌∷◌, append_assoc, append-nil, sym, arith, Bool, true, false, ltb, Bool-cases,
  inl, inr, ◌∙◌, none, some,
}
use shaunos.Base.Fault.{ok, bind-ok, Result}
use shaunos.Avl.{Tree, null, node, insert, delete, find, leftmost, delete_here}
use shaunos.Avl.Rotate.{
  set_height-to_list, insert_left-to_list, insert_right-to_list, delete_left-to_list,
  delete_right-to_list,
}
use shaunos.Avl.Spec.{
  Entries, to_list, insert_sorted, remove, lookup, AllBelow, IsSorted, IsSorted-append,
  insert_sorted-append_left, insert_sorted-append_right, insert_sorted-append_here,
  remove-append_left, remove-append_right, remove-append_here, lookup-append_left,
  lookup-append_right, lookup-append_here,
}

-- Where `avl_insert` returns a tree for a tree with sorted entries, the entries of the result are
-- those of the tree with the new one put in its place; a key that is there keeps its payload.
pub insert_refines :
    (room : Bool) (val payload : ℕ) (t : Tree) {u : Tree}
    → IsSorted (to_list t)
    → insert room val payload t ≡ ok u
    → to_list u ≡ insert_sorted val payload (to_list t)
unfolding insert insert_sorted to_list
insert_refines true val payload null s e = set_height-to_list (node val payload 0 null null) e
insert_refines false val payload null s e = cc
insert_refines room val payload (node v d h l r) {u} s e =
    let (sl, below, above, sr) = IsSorted-append (to_list l) v d (to_list r) s in
    elim (Bool-cases (ltb val v)) [
      | inl lt ↦
          let (l', inner, rest) = bind-ok (insert room val payload l) _ (rw lt at e) in
          ground (
            arith,
            insert_refines room val payload l sl inner,
            insert_left-to_list val v d h l' r rest,
            insert_sorted-append_left val v d (to_list r) payload (to_list l),
          )
      | inr ge ↦ elim (Bool-cases (ltb v val)) [
        | inl gt ↦
            let (r', inner, rest) = bind-ok (insert room val payload r) _ (rw (ge, gt) at e) in
            ground (
              arith,
              insert_refines room val payload r sr inner,
              insert_right-to_list val v d h l r' rest,
              insert_sorted-append_right val v d (to_list r) payload (to_list l),
            )
        | inr le ↦ ground (
          arith,
          set_height-to_list (node v d h l r) {u = u},
          insert_sorted-append_here val v d (to_list r) payload (to_list l),
        )
      ]
    ]

-- The smallest entry of a subtree stands first.
leftmost-to_list :
    (v d : ℕ) (l : Tree) (rest : Entries)
    → (xs : Entries) × (to_list l ++ ((v, d) ∷ rest) ≡ leftmost v d l ∷ xs)
unfolding leftmost to_list
leftmost-to_list v d null rest = (rest, refl)
leftmost-to_list v d (node v1 d1 h1 l1 r1) rest =
    let (xs, e) = leftmost-to_list v1 d1 l1 (to_list r1 ++ ((v, d) ∷ rest)) in
    (xs, append_assoc (to_list l1) ((v1, d1) ∷ to_list r1) ((v, d) ∷ rest) ∙ e)

remove_first : (k : ℕ × ℕ) (xs ys : Entries) → ys ≡ k ∷ xs → remove k.0 ys ≡ xs
unfolding remove
remove_first (k, p) xs ys e = rw e (ground arith)

delete_here-to_list :
    (v d h : ℕ) (l r : Tree) (again : ℕ → Result Tree) {u : Tree}
    → AllBelow v (to_list l)
    → ((k : ℕ) (w : Tree) → again k ≡ ok w → to_list w ≡ remove k (to_list r))
    → delete_here h l r again ≡ ok u
    → to_list u ≡ to_list l ++ to_list r
unfolding delete_here to_list
delete_here-to_list v d h null r again below ih e = ground arith
delete_here-to_list v d h (node v0 d0 h0 l0 r0) null again below ih e =
    ground (arith, append-nil (to_list l0 ++ ((v0, d0) ∷ to_list r0)))
delete_here-to_list v d h (node v0 d0 h0 l0 r0) (node v1 d1 h1 l1 r1) again below ih e =
    let s = leftmost v1 d1 l1 in
    let (r', inner, last) = bind-ok (again s.0) _ e in
    let (xs, first) = leftmost-to_list v1 d1 l1 (to_list r1) in
    let l = to_list l0 ++ ((v0, d0) ∷ to_list r0) in
    ground (
      arith,
      ih s.0 r' inner,
      first,
      remove_first s xs (to_list l1 ++ ((v1, d1) ∷ to_list r1)) first,
    )

-- Where `avl_delete` returns a tree for a tree with sorted entries, the entries of the result are
-- those of the tree without the key.
pub delete_refines :
    (val : ℕ) (t : Tree) {u : Tree}
    → IsSorted (to_list t)
    → delete val t ≡ ok u
    → to_list u ≡ remove val (to_list t)
unfolding delete remove to_list
delete_refines val null s e = ground arith
delete_refines val (node v d h l r) {u} s e =
    let (sl, below, above, sr) = IsSorted-append (to_list l) v d (to_list r) s in
    elim (Bool-cases (ltb val v)) [
      | inl lt ↦
          let (l', inner, rest) = bind-ok (delete val l) _ (rw lt at e) in
          ground (
            arith,
            delete_refines val l sl inner,
            delete_left-to_list v d h l' r rest,
            remove-append_left val v d (to_list r) (to_list l),
          )
      | inr ge ↦ elim (Bool-cases (ltb v val)) [
        | inl gt ↦
            let (r', inner, rest) = bind-ok (delete val r) _ (rw (ge, gt) at e) in
            ground (
              arith,
              delete_refines val r sr inner,
              delete_right-to_list v d h l r' rest,
              remove-append_right val v d (to_list r) (to_list l),
            )
        | inr le ↦
            delete_here-to_list v d h l r (λ k. delete k r) {u = u} below
              (λ k w. delete_refines k r {u = w} sr) (rw (ge, le) at e)
            ∙ sym (remove-append_here val v d (to_list r) (to_list l) (ground arith) below)
      ]
    ]

-- In a tree with sorted entries `avl_find` returns a node with the payload that the entries hold for
-- the key, and null where they hold none.
pub find_refines :
    (val : ℕ) (t : Tree)
    → IsSorted (to_list t)
    → (elim (find val t) [ null ↦ none | node v d h l r ↦ some d ]) ≡ lookup val (to_list t)
unfolding find lookup to_list
find_refines val null s = refl
find_refines val (node v d h l r) s =
    let (sl, below, above, sr) = IsSorted-append (to_list l) v d (to_list r) s in
    ground (
      arith,
      find_refines val l sl,
      find_refines val r sr,
      lookup-append_left val v d (to_list r) (to_list l),
      lookup-append_right val v d (to_list r) (to_list l),
      lookup-append_here val v d (to_list r) (to_list l),
    )
