-- ===== src/Buddy/Expand.antt =====
-- `expand` of Kernel/mm.c: splitting a block gives back all of it but the part that was asked for.
use native.Mathlib.Nat.{pow-suc}
use shaunos.Base.{
  ℕ, zero, suc, ◌+◌, ◌^◌, ◌<◌, ◌≡◌, refl, subst, sym, arith, true, List, ◌==◌, Bool-cases, inl, inr,
  ==→eq,
}
use shaunos.Buddy.{Block, Zone, Page, max_order, give_back, set_page_order, expand_loop}
use shaunos.Buddy.Cover.{inside, cover, Listed}

-- A block is its two halves.
pub inside_split : (k p x : ℕ) → inside (suc k) p x ≡ inside k p x + inside k (p + 2 ^ k) x
unfolding inside
inside_split k p x = rw (pow-suc 2 k) (ground arith)

-- The splits cover what the block covered, less the lowest part.
pub cover-expand_loop :
    (n order p : ℕ) (z : Zone) (x : ℕ)
    → cover (expand_loop n order p z).free x + inside order p x
      ≡ cover z.free x + inside (order + n) p x
unfolding expand_loop give_back cover
cover-expand_loop zero order p z x = let e : order + 0 ≡ order = omega arith in rw e refl
cover-expand_loop (suc n) order p z x =
    let e : order + suc n ≡ suc (order + n) = omega arith in
    rw (e, inside_split (order + n) p x)
      (omega (arith, cover-expand_loop n order p (give_back (order + n) (p + 2 ^ (order + n)) z) x))

-- Every page that a free block can start at is marked where it is listed.
abbrev pub MarkFits : Page → ℕ → List Block → Type 0
MarkFits g p bs = g.buddy ≡ true → g.order < max_order → Listed g.order p bs

abbrev pub Marked : Zone → Type 0
Marked z = (p : ℕ) → MarkFits (z.pages p) p z.free

pub give_back-Marked : (k q : ℕ) (z : Zone) → Marked z → Marked (give_back k q z)
unfolding give_back set_page_order
give_back-Marked k q z m p = elim (Bool-cases (p == q)) [
  | inl here ↦
      let e : (give_back k q z).pages p ≡ record (z.pages q) { buddy = true; order = k } =
        rw here refl in
      subst (λ g. MarkFits g p (give_back k q z).free) (sym e)
        (λ b lt. inl (refl, sym (==→eq _ _ here)))
  | inr other ↦
      let e : (give_back k q z).pages p ≡ z.pages p = rw other refl in
      subst (λ g. MarkFits g p (give_back k q z).free) (sym e) (λ b lt. inr (m p b lt))
]

pub expand_loop-Marked : (n order p : ℕ) (z : Zone) → Marked z → Marked (expand_loop n order p z)
unfolding expand_loop
expand_loop-Marked zero order p z m = m
expand_loop-Marked (suc n) order p z m =
    expand_loop-Marked n order p (give_back (order + n) (p + 2 ^ (order + n)) z)
      (give_back-Marked (order + n) (p + 2 ^ (order + n)) z m)
