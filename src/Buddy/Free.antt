-- ===== src/Buddy/Free.antt =====
-- `buddy_free` of Kernel/mm.c: merging a block with its free buddies loses no page and frees none
-- twice.
use native.Mathlib.Nat.{div-eq_of_lt}
use shaunos.Base.{
  ℕ, zero, suc, ◌+◌, ◌-◌, ◌^◌, ◌/◌, ◌%◌, ◌<◌, ◌≤◌, ◌≡◌, ◌⊎◌, refl, subst, ◌∙◌, arith, true, false,
  ltb, leb, ◌==◌, ◌&&◌, Bool-cases, inl, inr, ==→eq, ==→ne, ltb→lt, ltb→le,
}
use shaunos.Base.Int.{sub32}
use shaunos.Buddy.{
  Zone, max_order, page_of, buddy_alloc, update, put_block, drop_buddy, free_loop, buddy_free,
  buddy_of, lower_of, page_is_buddy, page_is_ok, give_back,
}
use shaunos.Buddy.Cover.{inside, cover, Listed, IsValid, cover-list_del}
use shaunos.Buddy.Expand.{Marked, give_back-Marked, inside_split}
use shaunos.Buddy.Alloc.{
  Allocs, following, buddy_alloc-Allocs, Allocated-IsValid, rmv_page_order-Marked,
}

inside-cases : (o p x : ℕ) → (inside o p x ≡ 0) ⊎ (inside o p x ≡ 1)
unfolding inside
inside-cases o p x = elim (Bool-cases (leb p x && ltb x (p + 2 ^ o))) [
  | inl h ↦ inr (rw h refl)
  | inr h ↦ inl (rw h refl)
]

-- A block and its buddy make up the block of the next order.
inside-buddy :
    (i order x : ℕ)
    → inside (order + 1) (lower_of i order) x ≡ inside order i x + inside order (buddy_of i order) x
unfolding lower_of buddy_of
inside-buddy i order x = elim (Bool-cases (i / 2 ^ order % 2 == 0)) [
  | inl even ↦
      let e : order + 1 ≡ suc order = omega arith in rw (even, e, inside_split order i x) refl
  | inr odd ↦
      let e : order + 1 ≡ suc order = omega arith in
      let lower : i - 2 ^ order + 2 ^ order ≡ i = omega (arith, large odd) in
      rw (odd, e, inside_split order (i - 2 ^ order) x, lower) (omega arith)
]
  where
    large : (i / 2 ^ order % 2 == 0) ≡ false → 2 ^ order ≤ i
    large odd = elim (Bool-cases (ltb i (2 ^ order))) [
      | inl small ↦
          let q : i / 2 ^ order ≡ 0 = div-eq_of_lt (ltb→lt _ _ small) in
          absurd (==→ne _ _ odd (rw q refl))
      | inr h ↦ ltb→le _ _ h
    ]

-- a valid state in which no page of the block is free
abbrev FreeSlot : ℕ → ℕ → Zone → Type 0
FreeSlot i order z = (x : ℕ) → cover z.free x + inside order i x ≤ 1

buddy-Listed :
    (b order : ℕ) (z : Zone)
    → Marked z
    → order < max_order
    → page_is_buddy (z.pages b) order ≡ true
    → Listed order b z.free
unfolding page_is_buddy
buddy-Listed b order z m lt h =
    let e : (z.pages b).order ≡ order = ground arith in
    subst (λ o. Listed o b z.free) e (m b (ground arith) (rw e lt))

abbrev Freed : ℕ → ℕ → Zone → Zone → Type 0
Freed i order z z' = ((x : ℕ) → cover z'.free x ≡ cover z.free x + inside order i x) × Marked z'

put_block-Freed : (i order : ℕ) (z : Zone) → Marked z → Freed i order z (put_block i order z)
unfolding put_block give_back cover
put_block-Freed i order z m = ((λ x. omega arith), give_back-Marked order i z m)

drop_buddy-Marked : (b order : ℕ) (z : Zone) → Marked z → Marked (drop_buddy b order z)
unfolding drop_buddy
drop_buddy-Marked b order z m =
    rmv_page_order-Marked b z (update z.free_num order (sub32 (z.free_num order) 1)) m

cover-drop_buddy :
    (b order : ℕ) (z : Zone) (x : ℕ)
    → cover z.free b ≤ 1
    → Listed order b z.free
    → cover (drop_buddy b order z).free x + inside order b x ≡ cover z.free x
unfolding drop_buddy
cover-drop_buddy b order z x le listed = cover-list_del order b z.free le listed x

free_loop-Freed :
    (n i order : ℕ) (z : Zone)
    → order + n ≤ max_order
    → Marked z
    → FreeSlot i order z
    → Freed i order z (free_loop n i order z)
unfolding free_loop
free_loop-Freed zero i order z small m slot = put_block-Freed i order z m
free_loop-Freed (suc n) i order z small m slot =
    elim (Bool-cases (page_is_buddy (z.pages (buddy_of i order)) order)) [
      | inr alone ↦ rw alone (put_block-Freed i order z m)
      | inl pair ↦ elim (Bool-cases (page_is_ok (z.pages (buddy_of i order)))) [
        | inr resvd ↦ rw (pair, resvd) (put_block-Freed i order z m)
        | inl fine ↦
            let listed = buddy-Listed (buddy_of i order) order z m (omega arith) pair in
            rw (pair, fine)
              (merged
                (free_loop n (lower_of i order) (order + 1) (drop_buddy (buddy_of i order) order z))
                listed
                (free_loop-Freed n (lower_of i order) (order + 1)
                  (drop_buddy (buddy_of i order) order z) (omega arith)
                  (drop_buddy-Marked (buddy_of i order) order z m)
                  (λ x. omega (arith, rest listed x, slot x))))
      ]
    ]
  where
    b : ℕ
    b = buddy_of i order

    rest :
        Listed order b z.free
        → (x : ℕ)
        → cover (drop_buddy b order z).free x + inside (order + 1) (lower_of i order) x
          ≡ cover z.free x + inside order i x
    rest listed x =
        omega (
          arith,
          cover-drop_buddy b order z x (omega (arith, slot b)) listed,
          inside-buddy i order x,
        )

    merged :
        (z' : Zone)
        → Listed order b z.free
        → Freed (lower_of i order) (order + 1) (drop_buddy b order z) z'
        → Freed i order z z'
    merged z' listed (covers, marked) = ((λ x. covers x ∙ rest listed x), marked)

-- From a valid state in which no page of the block is free, `buddy_free` leads to a valid state: it
-- covers what was covered, and the block, whatever buddies it was merged with.
pub buddy_free-IsValid :
    (i order : ℕ) (z : Zone)
    → order ≤ max_order
    → IsValid z
    → ((x : ℕ) → inside order i x ≡ 1 → cover z.free x ≡ 0)
    → IsValid (buddy_free i order z)
      × ((x : ℕ) → cover (buddy_free i order z).free x ≡ cover z.free x + inside order i x)
unfolding buddy_free
buddy_free-IsValid i order z small v unused =
    let (covers, marked) =
      free_loop-Freed (max_order - order) i order z (omega arith) v.marked slot in
    (record { apart = λ x. omega (arith, covers x, slot x); marked = marked }, covers)
  where
    slot : (x : ℕ) → cover z.free x + inside order i x ≤ 1
    slot x = elim (inside-cases order i x) [
      | inl zero_in ↦ omega (arith, zero_in, v.apart x)
      | inr one ↦ omega (arith, one, unused x one)
    ]

-- From a valid state in which no free block of the highest order has a page free in the block behind it:
-- giving the block that `buddy_alloc` returned, of an order that there is, back with `buddy_free` leads to
-- a valid state. It covers what was covered before the two and, if the block was cut from a free one of
-- the highest order, the block behind that one.
pub buddy_free-buddy_alloc :
    (order : ℕ) (z z' : Zone) (p : ℕ)
    → order ≤ max_order
    → IsValid z
    → ((q : ℕ)
        → Listed max_order q z.free
        → (x : ℕ) → cover z.free x + inside max_order (q + 2 ^ max_order) x ≤ 1)
    → buddy_alloc order z ≡ page_of z' p
    → IsValid (buddy_free p order z')
      × ((corder : ℕ) × Listed corder p z.free
          × ((x : ℕ)
              → cover (buddy_free p order z').free x ≡ cover z.free x + following corder p x))
buddy_free-buddy_alloc order z z' p small v alone got =
    let (corder, a) = subst (Allocs order z) got (buddy_alloc-Allocs order z small v) in
    let (v', unused) = Allocated-IsValid order corder z z' p v a (once corder a.listed) in
    let (freed, covers) = buddy_free-IsValid p order z' small v' unused in
    (freed, (corder, a.listed, λ x. covers x ∙ a.covers x))
  where
    once :
        (corder : ℕ) → Listed corder p z.free → (x : ℕ) → cover z.free x + following corder p x ≤ 1
    once corder listed x = elim (Bool-cases (corder == max_order)) [
      | inl top ↦ rw top (alone p (subst (λ k. Listed k p z.free) (==→eq _ _ top) listed) x)
      | inr low ↦ rw low (omega (arith, v.apart x))
    ]
