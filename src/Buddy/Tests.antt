-- ===== src/Buddy/Tests.antt =====
-- Kernel/mm.c: the theorems at zones of one and of two free blocks.
use shaunos.Base.{
  ℕ, zero, suc, ◌+◌, ◌^◌, ◌≤◌, ◌≡◌, ◌≢◌, refl, arith, true, false, List, [], ◌∷◌, inl, inr,
}
use native.Mathlib.Nat.{pow-suc}
use shaunos.Buddy.{
  Page, Block, block, Zone, page_of, relinked, relinks, buddy_alloc, buddy_free, take_block,
}
use shaunos.Buddy.Cover.{inside, cover, Listed, IsValid}
use shaunos.Buddy.Alloc.{following, Allocs, buddy_alloc-Allocs}
use shaunos.Buddy.Free.{buddy_free-IsValid, buddy_free-buddy_alloc}

abbrev unmarked : Page
unmarked = record { buddy = false; resvd = false; count = 0; order = 0 }

abbrev zone_of : List Block → Zone
zone_of bs = record { free = bs; free_num = λ o. 0; pages = λ p. unmarked }

not_true : false ≡ true → ⊥
not_true e = cc

-- a block of 8 pages
abbrev one_block : Zone
one_block = zone_of (block 3 2048 ∷ [])

one_block-IsValid : IsValid one_block
unfolding cover inside
one_block-IsValid = record { apart = λ x. ground arith; marked = λ p b lt. absurd (not_true b) }

buddy_alloc-Allocs_example : Allocs 1 one_block (buddy_alloc 1 one_block)
buddy_alloc-Allocs_example = buddy_alloc-Allocs 1 one_block (omega arith) one_block-IsValid

-- what is left of it when 2 pages are taken
abbrev cut : Zone
cut = take_block 2048 1 3 one_block

cut-page_of : buddy_alloc 1 one_block ≡ page_of cut 2048
unfolding buddy_alloc relinks
cut-page_of = refl

-- its block is none of the highest order
none_behind :
    (q : ℕ)
    → Listed 10 q one_block.free
    → (x : ℕ) → cover one_block.free x + inside 10 (q + 2 ^ 10) x ≤ 1
none_behind q (inl (e, here)) x = absurd (omega (arith, e))
none_behind q (inr later) x = absurd later

-- two blocks of the highest order, side by side: the second one is linked a second time
abbrev two_blocks : Zone
two_blocks = zone_of (block 10 1024 ∷ block 10 2048 ∷ [])

two_blocks-relinked : buddy_alloc 1 two_blocks ≡ relinked
unfolding buddy_alloc relinks
two_blocks-relinked = refl

-- the 2 pages at 2048 are not free where only those from 2056 on are
abbrev other_block : Zone
other_block = zone_of (block 3 2056 ∷ [])

other_block-IsValid : IsValid other_block
unfolding cover inside
other_block-IsValid = record { apart = λ x. ground arith; marked = λ p b lt. absurd (not_true b) }

unused : (x : ℕ) → inside 1 2048 x ≡ 1 → cover other_block.free x ≡ 0
unfolding cover inside
unused x h = ground arith

buddy_free-IsValid_example :
    IsValid (buddy_free 2048 1 other_block)
    × ((x : ℕ)
        → cover (buddy_free 2048 1 other_block).free x ≡ cover other_block.free x + inside 1 2048 x)
buddy_free-IsValid_example =
    buddy_free-IsValid 2048 1 other_block (omega arith) other_block-IsValid unused

-- 3 is no power of two.
three_pages : (k : ℕ) → 3 ≢ 2 ^ k
three_pages zero = λ e. omega (arith, e)
three_pages (suc zero) = λ e. omega (arith, e)
three_pages (suc (suc k)) = λ e. omega (arith, e, pow-suc 2 (suc k), pow-suc 2 k)

buddy_free-buddy_alloc_example :
    IsValid (buddy_free 2048 1 cut)
    × ((corder : ℕ) × Listed corder 2048 one_block.free
        × ((x : ℕ)
            → cover (buddy_free 2048 1 cut).free x
              ≡ cover one_block.free x + following corder 2048 x))
buddy_free-buddy_alloc_example =
    buddy_free-buddy_alloc 1 one_block cut 2048 (omega arith) one_block-IsValid none_behind
      cut-page_of
