-- ===== src/Buddy/Alloc.antt =====
-- `buddy_alloc` of Kernel/mm.c: what the block that it returns does to the free lists.
use shaunos.Base.{
  ℕ, zero, suc, ◌+◌, ◌-◌, ◌^◌, ◌<◌, ◌≤◌, ◌≡◌, refl, subst, sym, ap, arith, true, false, List, [],
  none, ◌∷◌, ◌==◌, if◌then◌else◌, Bool, ◌&&◌, ◌||◌, Bool-cases, Option-cases, inl, inr, ==→eq,
  ==→ne,
}
use shaunos.Base.Int.{sub32}
use shaunos.Buddy.{
  Block, block, Zone, max_order, update, first_of, list_del, rmv_page_order, expand, take_block,
  is_linked, relinks, Outcome, no_page, page_of, relinked, alloc_loop, buddy_alloc,
}
use shaunos.Buddy.Cover.{
  inside, cover, Listed, IsValid, Listed-first_of, cover-list_del, Listed-list_del,
}
use shaunos.Buddy.Expand.{Marked, MarkFits, cover-expand_loop, expand_loop-Marked}

-- The block behind one of the highest order, which `expand` puts on the list.
abbrev pub following : ℕ → ℕ → ℕ → ℕ
following corder p x = if corder == max_order then inside max_order (p + 2 ^ max_order) x else 0

pub rmv_page_order-Marked :
    (p : ℕ) (z : Zone) (n : ℕ → ℕ)
    → Marked z
    → Marked (record { free = list_del p z.free; free_num = n; pages = rmv_page_order p z.pages })
unfolding rmv_page_order
rmv_page_order-Marked p z n m q = elim (Bool-cases (q == p)) [
  | inl here ↦
      let e : rmv_page_order p z.pages q ≡ record (z.pages p) { buddy = false; order = 0 } =
        rw here refl in
      subst (λ g. MarkFits g q (list_del p z.free)) (sym e) (λ b lt. absurd (false_true b))
  | inr other ↦
      let e : rmv_page_order p z.pages q ≡ z.pages q = rw other refl in
      subst (λ g. MarkFits g q (list_del p z.free)) (sym e)
        (λ b lt. Listed-list_del (z.pages q).order q p z.free (==→ne _ _ other) (m q b lt))
]
  where
    false_true : false ≡ true → ⊥
    false_true e = cc

cover-expand :
    (p order corder : ℕ) (z : Zone) (x : ℕ)
    → order ≤ corder
    → cover (expand p order corder z).free x + inside order p x
      ≡ cover z.free x + inside corder p x + following corder p x
unfolding expand cover
cover-expand p order corder z x le = elim (Bool-cases (corder == max_order)) [
  | inl top ↦
      let whole : order + (corder - order) ≡ corder = omega arith in
      let z' : Zone = record z { free = block max_order (p + 2 ^ max_order) ∷ z.free } in
      let split = cover-expand_loop (corder - order) order p z' x in
      rw top (omega (arith, split, ap (λ k. inside k p x) whole))
  | inr low ↦
      let whole : order + (corder - order) ≡ corder = omega arith in
      rw low (
        omega (arith, cover-expand_loop (corder - order) order p z x, ap (λ k. inside k p x) whole))
]

expand-Marked : (p order corder : ℕ) (z : Zone) → Marked z → Marked (expand p order corder z)
unfolding expand
expand-Marked p order corder z m = elim (Bool-cases (corder == max_order)) [
  | inl top ↦ rw top (
      expand_loop-Marked (corder - order) order p
        (record z { free = block max_order (p + 2 ^ max_order) ∷ z.free })
        (λ q b lt. inr (m q b lt)))
  | inr low ↦ rw low (expand_loop-Marked (corder - order) order p z m)
]

-- What `buddy_alloc` does when it returns the page `p`, cut from a block of order `corder`.
pub record Allocated (order corder : ℕ) (z z' : Zone) (p : ℕ) : Type 0 where
  pub order-le : order ≤ corder
  pub small : corder ≤ max_order
  pub listed : Listed corder p z.free
  pub covers : (x : ℕ) → cover z'.free x + inside order p x ≡ cover z.free x + following corder p x
  pub marked : Marked z'

pub take_block-Allocated :
    (p order corder : ℕ) (z : Zone)
    → IsValid z
    → order ≤ corder
    → corder ≤ max_order
    → Listed corder p z.free
    → Allocated order corder z (take_block p order corder z) p
unfolding take_block
take_block-Allocated p order corder z v le small listed = record {
  order-le = le;
  small = small;
  listed = listed;
  covers = λ x. omega (
    arith,
    cover-expand p order corder _ x le,
    cover-list_del corder p z.free (v.apart p) listed x,
  );
  marked =
      expand-Marked p order corder _ (
        rmv_page_order-Marked p z (update z.free_num corder (sub32 (z.free_num corder) 1))
          v.marked);
}

abbrev pub Allocs : ℕ → Zone → Outcome → Type 0
Allocs order z no_page = (k : ℕ) → order ≤ k → k ≤ max_order → first_of k z.free ≡ none
Allocs order z (page_of z' p) = (corder : ℕ) × Allocated order corder z z' p
Allocs order z relinked =
    ((k : ℕ) → order ≤ k → k < max_order → first_of k z.free ≡ none)
    × ((p : ℕ) × Listed max_order p z.free × (is_linked (p + 2 ^ max_order) z.free ≡ true))

both : (a b : Bool) → (a && b) ≡ true → (a ≡ true) × (b ≡ true)
both true b h = (refl, h)
both false b h = (cc, cc)

-- a page that heads a block heads it before another is taken out
is_linked-list_del :
    (q p : ℕ) (bs : List Block) → is_linked q (list_del p bs) ≡ true → is_linked q bs ≡ true
unfolding is_linked list_del
is_linked-list_del q p [] h = h
is_linked-list_del q p (b ∷ bs) h = elim (Bool-cases (b.page == q)) [
  | inl here ↦ rw here refl
  | inr other ↦ elim (Bool-cases (b.page == p)) [
    | inl gone ↦ let left : is_linked q bs ≡ true = rw gone at h in rw other left
    | inr kept ↦
        let behind : (b.page == q || is_linked q (list_del p bs)) ≡ true = rw kept at h in
        let left : is_linked q (list_del p bs) ≡ true = rw other at behind in
        rw other (is_linked-list_del q p bs left)
  ]
]

relinks-linked :
    (p corder : ℕ) (z : Zone)
    → relinks p corder z ≡ true
    → (corder ≡ max_order) × (is_linked (p + 2 ^ max_order) z.free ≡ true)
unfolding relinks
relinks-linked p corder z again =
    let (top, linked) = both (corder == max_order) _ again in
    (==→eq _ _ top, is_linked-list_del (p + 2 ^ max_order) p z.free linked)

alloc_loop-Allocs :
    (n order corder : ℕ) (z : Zone)
    → IsValid z
    → order ≤ corder
    → corder + n ≡ 11
    → ((k : ℕ) → order ≤ k → k < corder → first_of k z.free ≡ none)
    → Allocs order z (alloc_loop n order corder z)
unfolding alloc_loop
alloc_loop-Allocs zero order corder z v le whole below = λ k low high. below k low (omega arith)
alloc_loop-Allocs (suc n) order corder z v le whole below =
    elim (Option-cases (first_of corder z.free)) [
      | inl e ↦
          rw (e, alloc_loop)
            (alloc_loop-Allocs n order (corder + 1) z v (omega arith) (omega arith) (below' e))
      | inr (p, e) ↦
          let listed = Listed-first_of corder p z.free e in
          elim (Bool-cases (relinks p corder z)) [
            | inl again ↦ rw (e, alloc_loop, again) (linked_twice p again listed)
            | inr once ↦
                rw (e, alloc_loop, once)
                  (corder, take_block-Allocated p order corder z v le (omega arith) listed)
          ]
    ]
  where
    below' :
        first_of corder z.free ≡ none
        → (k : ℕ) → order ≤ k
        → k < corder + 1
        → first_of k z.free ≡ none
    below' e k low high = elim (Bool-cases (k == corder)) [
      | inl here ↦ let q : k ≡ corder = ==→eq _ _ here in rw q e
      | inr other ↦ below k low (omega (arith, ==→ne _ _ other))
    ]

    linked_twice :
        (p : ℕ)
        → relinks p corder z ≡ true
        → Listed corder p z.free
        → ((k : ℕ) → order ≤ k → k < max_order → first_of k z.free ≡ none)
          × ((p : ℕ) × Listed max_order p z.free × (is_linked (p + 2 ^ max_order) z.free ≡ true))
    linked_twice p again listed =
        let (highest, linked) = relinks-linked p corder z again in
        (
          λ k low high. below k low (omega arith),
          (p, subst (λ k. Listed k p z.free) highest listed, linked),
        )

-- From a valid state, for an order that there is: `buddy_alloc` returns null only where the lists of that
-- order and of all higher ones are empty. A block that it returns was covered by the free lists, and after
-- it they cover what they covered, less the block; where the block was cut from one of the highest order,
-- they cover the block behind that one too. It links a block into a list a second time only where
-- the lists of that order and of the higher ones are empty but for the highest, and the page behind a
-- listed block of the highest order heads a listed block too; what is then left is not modelled.
pub buddy_alloc-Allocs :
    (order : ℕ) (z : Zone) → order ≤ max_order → IsValid z → Allocs order z (buddy_alloc order z)
unfolding buddy_alloc
buddy_alloc-Allocs order z small v =
    alloc_loop-Allocs (11 - order) order order z v (omega arith) (omega arith)
      (λ k low high. absurd (omega arith))

module _ (order corder : ℕ) (z z' : Zone) (p : ℕ) (v : IsValid z)
    (a : Allocated order corder z z' p) where
  -- From a valid state, where the block that `expand` puts on the list is not free already, what
  -- `buddy_alloc` leaves is a valid state in which no page of the returned block is free.
  pub Allocated-IsValid :
      ((x : ℕ) → cover z.free x + following corder p x ≤ 1)
      → IsValid z' × ((x : ℕ) → inside order p x ≡ 1 → cover z'.free x ≡ 0)
  Allocated-IsValid once = (
    record { apart = λ x. omega (arith, a.covers x, once x); marked = a.marked },
    λ x h. omega (arith, a.covers x, once x),
  )
