-- ===== src/Avl/Spec.antt =====
-- The dictionary that a tree of Kernel/avltree.c stands for: its entries in the order of the keys.
use shaunos.Base.{
  ℕ, ◌<◌, if◌then◌else◌, ltb, ◌==◌, Option, none, some, List, [], ◌∷◌, ◌++◌, ◌≡◌, refl, arith,
}
use shaunos.Avl.{Tree, null, node}

abbrev pub Entries : Type 0
Entries = List (ℕ × ℕ)

unfoldable pub to_list : Tree → Entries
to_list null = []
to_list (node v d h l r) = to_list l ++ ((v, d) ∷ to_list r)

-- a new key is put in its place; the payload of an old one stays
unfoldable pub insert_sorted : ℕ → ℕ → Entries → Entries
insert_sorted k d [] = (k, d) ∷ []
insert_sorted k d ((v, p) ∷ xs) =
    let later = (v, p) ∷ insert_sorted k d xs in
    if ltb k v then (k, d) ∷ (v, p) ∷ xs else if ltb v k then later else (v, p) ∷ xs

unfoldable pub remove : ℕ → Entries → Entries
remove k [] = []
remove k ((v, p) ∷ xs) = if v == k then xs else (v, p) ∷ remove k xs

unfoldable pub lookup : ℕ → Entries → Option ℕ
lookup k [] = none
lookup k ((v, p) ∷ xs) = if v == k then some p else lookup k xs

abbrev pub AllAbove : ℕ → Entries → Type 0
AllAbove k [] = Unit {0}
AllAbove k ((v, p) ∷ xs) = (k < v) × AllAbove k xs

abbrev pub AllBelow : ℕ → Entries → Type 0
AllBelow k [] = Unit {0}
AllBelow k ((v, p) ∷ xs) = (v < k) × AllBelow k xs

-- strictly increasing keys
abbrev pub IsSorted : Entries → Type 0
IsSorted [] = Unit {0}
IsSorted ((v, p) ∷ xs) = AllAbove v xs × IsSorted xs

AllAbove-trans : (k j : ℕ) (xs : Entries) → k < j → AllAbove j xs → AllAbove k xs
AllAbove-trans k j [] lt h = tt
AllAbove-trans k j ((v, p) ∷ xs) lt h = (omega arith, AllAbove-trans k j xs lt h.1)

AllAbove-append : (k : ℕ) (xs ys : Entries) → AllAbove k (xs ++ ys) → AllAbove k xs × AllAbove k ys
AllAbove-append k [] ys h = (tt, h)
AllAbove-append k ((v, p) ∷ xs) ys h =
    let (below, above) = AllAbove-append k xs ys h.1 in ((h.0, below), above)

-- what the order of a tree's entries says of the two subtrees
pub IsSorted-append :
    (xs : Entries) (v p : ℕ) (ys : Entries)
    → IsSorted (xs ++ ((v, p) ∷ ys))
    → IsSorted xs × AllBelow v xs × AllAbove v ys × IsSorted ys
IsSorted-append [] v p ys h = (tt, tt, h.0, h.1)
IsSorted-append ((w, q) ∷ xs) v p ys h =
    let (sorted, below, above, rest) = IsSorted-append xs v p ys h.1 in
    let (left, right) = AllAbove-append w xs ((v, p) ∷ ys) h.0 in
    ((left, sorted), (right.0, below), above, rest)

AllAbove-insert_sorted :
    (j k d : ℕ) (xs : Entries) → j < k → AllAbove j xs → AllAbove j (insert_sorted k d xs)
unfolding insert_sorted
AllAbove-insert_sorted j k d [] lt h = (lt, tt)
AllAbove-insert_sorted j k d ((v, p) ∷ xs) lt h = ground (arith, AllAbove-insert_sorted j k d xs)

pub insert_sorted-IsSorted :
    (k d : ℕ) (xs : Entries) → IsSorted xs → IsSorted (insert_sorted k d xs)
unfolding insert_sorted
insert_sorted-IsSorted k d [] h = (tt, tt)
insert_sorted-IsSorted k d ((v, p) ∷ xs) h =
    ground
      (arith, insert_sorted-IsSorted k d xs, AllAbove-insert_sorted v k d xs, AllAbove-trans k v xs)

AllAbove-remove : (j k : ℕ) (xs : Entries) → AllAbove j xs → AllAbove j (remove k xs)
unfolding remove
AllAbove-remove j k [] h = tt
AllAbove-remove j k ((v, p) ∷ xs) h = ground (arith, AllAbove-remove j k xs)

pub remove-IsSorted : (k : ℕ) (xs : Entries) → IsSorted xs → IsSorted (remove k xs)
unfolding remove
remove-IsSorted k [] h = tt
remove-IsSorted k ((v, p) ∷ xs) h = ground (arith, remove-IsSorted k xs, AllAbove-remove v k xs)

remove_absent : (k v : ℕ) (ys : Entries) → k < v → AllAbove v ys → remove k ys ≡ ys
unfolding remove
remove_absent k v [] lt h = refl
remove_absent k v ((w, q) ∷ ys) lt h = ground (arith, remove_absent k v ys)

lookup_absent : (k v : ℕ) (ys : Entries) → k < v → AllAbove v ys → lookup k ys ≡ none
unfolding lookup
lookup_absent k v [] lt h = refl
lookup_absent k v ((w, q) ∷ ys) lt h = ground (arith, lookup_absent k v ys)

module _ (k v p : ℕ) (ys : Entries) where
  -- each operation looks only into the part of the list where its key belongs
  pub insert_sorted-append_left :
      (d : ℕ) (xs : Entries)
      → k < v
      → insert_sorted k d (xs ++ ((v, p) ∷ ys)) ≡ insert_sorted k d xs ++ ((v, p) ∷ ys)
  unfolding insert_sorted
  insert_sorted-append_left d [] lt = ground arith
  insert_sorted-append_left d ((w, q) ∷ xs) lt = ground (arith, insert_sorted-append_left d xs)

  pub insert_sorted-append_right :
      (d : ℕ) (xs : Entries)
      → v < k
      → AllBelow v xs
      → insert_sorted k d (xs ++ ((v, p) ∷ ys)) ≡ xs ++ ((v, p) ∷ insert_sorted k d ys)
  unfolding insert_sorted
  insert_sorted-append_right d [] lt h = ground arith
  insert_sorted-append_right d ((w, q) ∷ xs) lt h = ground (arith, insert_sorted-append_right d xs)

  pub insert_sorted-append_here :
      (d : ℕ) (xs : Entries)
      → v ≡ k
      → AllBelow v xs
      → insert_sorted k d (xs ++ ((v, p) ∷ ys)) ≡ xs ++ ((v, p) ∷ ys)
  unfolding insert_sorted
  insert_sorted-append_here d [] e h = ground arith
  insert_sorted-append_here d ((w, q) ∷ xs) e h = ground (arith, insert_sorted-append_here d xs)

  pub remove-append_left :
      (xs : Entries)
      → k < v
      → AllAbove v ys
      → remove k (xs ++ ((v, p) ∷ ys)) ≡ remove k xs ++ ((v, p) ∷ ys)
  unfolding remove
  remove-append_left [] lt h = ground (arith, remove_absent k v ys lt h)
  remove-append_left ((w, q) ∷ xs) lt h = ground (arith, remove-append_left xs)

  pub remove-append_right :
      (xs : Entries)
      → v < k
      → AllBelow v xs
      → remove k (xs ++ ((v, p) ∷ ys)) ≡ xs ++ ((v, p) ∷ remove k ys)
  unfolding remove
  remove-append_right [] lt h = ground arith
  remove-append_right ((w, q) ∷ xs) lt h = ground (arith, remove-append_right xs)

  pub remove-append_here :
      (xs : Entries) → v ≡ k → AllBelow v xs → remove k (xs ++ ((v, p) ∷ ys)) ≡ xs ++ ys
  unfolding remove
  remove-append_here [] e h = ground arith
  remove-append_here ((w, q) ∷ xs) e h = ground (arith, remove-append_here xs)

  pub lookup-append_left :
      (xs : Entries) → k < v → AllAbove v ys → lookup k (xs ++ ((v, p) ∷ ys)) ≡ lookup k xs
  unfolding lookup
  lookup-append_left [] lt h = ground (arith, lookup_absent k v ys lt h)
  lookup-append_left ((w, q) ∷ xs) lt h = ground (arith, lookup-append_left xs)

  pub lookup-append_right :
      (xs : Entries) → v < k → AllBelow v xs → lookup k (xs ++ ((v, p) ∷ ys)) ≡ lookup k ys
  unfolding lookup
  lookup-append_right [] lt h = ground arith
  lookup-append_right ((w, q) ∷ xs) lt h = ground (arith, lookup-append_right xs)

  pub lookup-append_here :
      (xs : Entries) → v ≡ k → AllBelow v xs → lookup k (xs ++ ((v, p) ∷ ys)) ≡ some p
  unfolding lookup
  lookup-append_here [] e h = ground arith
  lookup-append_here ((w, q) ∷ xs) e h = ground (arith, lookup-append_here xs)
