-- ===== src/Buddy/Order.antt =====
-- Kernel/mm.c: sizes and orders, addresses and pages, and the calls that tie the buddy allocator to
-- the counts of the pages.
pub mod Log
use shaunos.Base.{
  ℕ, zero, suc, ◌+◌, ◌-◌, ◌*◌, ◌/◌, ◌%◌, ◌^◌, Bool, true, false, Option, none, some, ltb, leb, ◌==◌,
  ◌&&◌, ◌||◌, not, if◌then◌else◌,
}
use shaunos.Base.Int.{u32_mod}
use shaunos.Base.Fault.{Result, ok, assert_failed}
use shaunos.Buddy.{Zone, Page, no_page, page_of, relinked, buddy_alloc, buddy_free}

abbrev pub page_size : ℕ
page_size = 4096

-- `while (n >>= 1) order++`, with fuel
unfoldable pub halvings : ℕ → ℕ → ℕ → ℕ
halvings zero n order = order
halvings (suc fuel) n order =
    let rest = halvings fuel (n / 2) (order + 1) in if n / 2 == 0 then order else rest

-- `get_order`; 32 rounds are enough for a 32-bit size.
unfoldable pub get_order : ℕ → ℕ
unfolding halvings
get_order size = halvings 32 (size / page_size) 0

-- `mem_calc_order`; `PAGE_ALIGN` rounds the size up, in 32 bits.
unfoldable pub mem_calc_order : ℕ → ℕ
unfolding halvings
mem_calc_order size = halvings 32 ((size + page_size - 1) % u32_mod / page_size) 0

-- `page_to_virt` and `virt_to_page`, where `origin` is the index of `mem_upper_map`
unfoldable pub page_to_virt : ℕ → ℕ → ℕ
page_to_virt origin p = ((p - origin) * page_size + 0xC0100000) % u32_mod

unfoldable pub virt_to_page : ℕ → ℕ → ℕ
virt_to_page origin addr = origin + (addr + u32_mod - 0xC0100000) % u32_mod / page_size

-- the pages of a block, with their counts changed
unfoldable pub recount : (ℕ → ℕ) → ℕ → ℕ → (ℕ → Page) → ℕ → Page
recount f order p pages q =
    if leb p q && ltb q (p + 2 ^ order)
    then record (pages q) { count = f (pages q).count }
    else pages q

-- `alloc_pages_buddy`: the address of a block, or 0; none where `buddy_alloc` relinks a block
unfoldable pub alloc_pages_buddy : ℕ → ℕ → Zone → Option (Zone × ℕ)
unfolding recount page_to_virt
alloc_pages_buddy origin order z = elim (buddy_alloc order z) [
  | no_page ↦ some (z, 0)
  | relinked ↦ none
  | page_of z' p ↦
      some (record z' { pages = recount (λ c. c + 1) order p z'.pages }, page_to_virt origin p)
]

-- the loop of `free_pages_buddy` over the pages of the block: each must be counted once
unfoldable pub counted_once : ℕ → ℕ → (ℕ → Page) → Bool
counted_once zero p pages = true
counted_once (suc n) p pages = (pages p).count == 1 && counted_once n (p + 1) pages

-- `free_pages_buddy`; `BUG()` stops the kernel.
unfoldable pub free_pages_buddy : ℕ → ℕ → ℕ → Zone → Result Zone
unfolding counted_once recount virt_to_page
free_pages_buddy origin order addr z =
    let p = virt_to_page origin addr in
    let freed = buddy_free p order (record z { pages = recount (λ c. c - 1) order p z.pages }) in
    if not (addr % page_size == 0)
    then ok z
    else if (z.pages p).buddy
    then ok z
    else if counted_once (2 ^ order) p z.pages
    then ok freed
    else assert_failed
