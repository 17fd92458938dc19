-- ===== src/Buddy/Cover.antt =====
-- Which pages the free lists of Kernel/mm.c cover, and how often; the invariant of the allocator.
use native.Mathlib.Nat.{pow-suc}
use shaunos.Base.{
  ℕ, zero, suc, ◌+◌, ◌^◌, ◌<◌, ◌≤◌, ◌≡◌, ◌⊎◌, refl, subst, sym, ◌∙◌, arith, true, false, some, List,
  [], ◌∷◌, ltb, leb, ◌==◌, ◌&&◌, if◌then◌else◌, Bool-cases, inl, inr, ==→eq, ==→ne, ne→==, le→leb,
  lt→ltb,
}
use shaunos.Buddy.{Block, Zone, max_order, first_of, list_del}

pub pow_pos : (o : ℕ) → 0 < 2 ^ o
pow_pos zero = omega arith
pow_pos (suc o) = rw (pow-suc 2 o) (omega (arith, pow_pos o))

-- 1 for a page of the block, else 0
unfoldable pub inside : ℕ → ℕ → ℕ → ℕ
inside o p x = if leb p x && ltb x (p + 2 ^ o) then 1 else 0

unfoldable pub cover : List Block → ℕ → ℕ
unfolding inside
cover [] x = 0
cover (b ∷ bs) x = inside b.order b.page x + cover bs x

-- a block stands in the free lists
abbrev pub Listed : ℕ → ℕ → List Block → Type 0
Listed o p [] = ⊥
Listed o p (b ∷ bs) = ((b.order ≡ o) × (b.page ≡ p)) ⊎ Listed o p bs

-- No page lies in two free blocks, and a page that is marked as the head of a free block of less than
-- the highest order stands in the list of that order. (The highest order is never looked for: the
-- allocator starts with that mark on every page.)
pub record IsValid (z : Zone) : Type 0 where
  pub apart : (x : ℕ) → cover z.free x ≤ 1
  pub marked :
      (p : ℕ)
      → (z.pages p).buddy ≡ true
      → (z.pages p).order < max_order
      → Listed (z.pages p).order p z.free

pub inside_self : (o p : ℕ) → inside o p p ≡ 1
unfolding inside
inside_self o p =
    rw (le→leb p p (omega arith), lt→ltb p (p + 2 ^ o) (omega (arith, pow_pos o))) refl

pub Listed-first_of : (o p : ℕ) (bs : List Block) → first_of o bs ≡ some p → Listed o p bs
unfolding first_of
Listed-first_of o p [] e = cc
Listed-first_of o p (b ∷ bs) e = elim (Bool-cases (b.order == o)) [
  | inl h ↦ inl (==→eq _ _ h, ground arith)
  | inr h ↦ inr (Listed-first_of o p bs (ground arith))
]

pub Listed-cover : (o p : ℕ) (bs : List Block) → Listed o p bs → 1 ≤ cover bs p
unfolding cover
Listed-cover o p [] h = absurd h
Listed-cover o p (b ∷ bs) (inl (q, r)) = rw (r, inside_self b.order p) (omega arith)
Listed-cover o p (b ∷ bs) (inr h) = omega (arith, Listed-cover o p bs h)

-- Taking a listed block out takes its pages out, and nothing else.
pub cover-list_del :
    (o p : ℕ) (bs : List Block)
    → cover bs p ≤ 1
    → Listed o p bs
    → (x : ℕ) → cover (list_del p bs) x + inside o p x ≡ cover bs x
unfolding cover list_del
cover-list_del o p [] le h x = absurd h
cover-list_del o p (b ∷ bs) le h x = elim (Bool-cases (b.page == p)) [
  | inl here ↦
      let e : inside o p x ≡ inside b.order b.page x = at_head h (==→eq _ _ here) in
      rw here (omega (arith, e))
  | inr later ↦
      rw later
        (omega (arith, cover-list_del o p bs (omega (arith, le)) (behind h (==→ne _ _ later)) x))
]
  where
    at_head : Listed o p (b ∷ bs) → b.page ≡ p → inside o p x ≡ inside b.order b.page x
    at_head (inl (q, r)) e = cc
    at_head (inr h) e =
        let one : inside b.order b.page p ≡ 1 =
          subst (λ k. inside b.order b.page k ≡ 1) e (inside_self b.order b.page) in
        absurd (omega (arith, one, le, Listed-cover o p bs h))

    behind : Listed o p (b ∷ bs) → ¬ (b.page ≡ p) → Listed o p bs
    behind (inl (q, r)) ne = absurd (ne r)
    behind (inr h) ne = h

pub Listed-list_del :
    (o q p : ℕ) (bs : List Block) → ¬ (q ≡ p) → Listed o q bs → Listed o q (list_del p bs)
unfolding list_del
Listed-list_del o q p [] ne h = h
Listed-list_del o q p (b ∷ bs) ne (inl (e, r)) =
    let miss : (b.page == p) ≡ false = ne→== b.page p (λ s. ne (sym r ∙ s)) in
    simp miss (inl (e, r))
Listed-list_del o q p (b ∷ bs) ne (inr h) = elim (Bool-cases (b.page == p)) [
  | inl here ↦ rw here h
  | inr later ↦ rw later (inr (Listed-list_del o q p bs ne h))
]
