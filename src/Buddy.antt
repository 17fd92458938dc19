-- ===== src/Buddy.antt =====
-- Kernel/mm.c: the buddy allocator of page frames.
-- A page is named by its index `page - buddy_map_base`, read as the 32-bit number that the code
-- computes with. (The base is the end of the map, so that the index of a page of the map is negative
-- as an `int`; the arithmetic is the same.) The eleven free lists are one list of blocks, each with its
-- order; the list of an order is the blocks of that order, in this order. `list_add` puts a block in
-- front, where the block is on no list, and `list_del` takes the block out of the list that it is in.
-- `expand` may add a block that is on a list: the pointers then no longer form lists, and `buddy_alloc`
-- ends in `relinked`.
pub mod Cover
pub mod Expand
pub mod Alloc
pub mod Free
pub mod Order
mod Tests
use shaunos.Base.{
  ℕ, zero, suc, ◌+◌, ◌-◌, ◌*◌, ◌/◌, ◌%◌, ◌^◌, Bool, true, false, Option, none, some, List, [], ◌∷◌,
  ltb, leb, ◌==◌, ◌&&◌, ◌||◌, not, if◌then◌else◌,
}
use shaunos.Base.Int.{add32, sub32}
use shaunos.Base.Fault.{Result, ok, assert_failed, ◌>>=◌}

-- `struct page`: the bits `PAGE_BUDDY` and `PAGE_RESVD` of its flag, its count and its order
pub record Page : Type 0 where
  pub buddy : Bool
  pub resvd : Bool
  pub count : ℕ
  pub order : ℕ

pub record Block : Type 0 where
  pub order : ℕ
  pub page : ℕ

abbrev pub block : ℕ → ℕ → Block
block o p = record { order = o; page = p }

-- `mm_buddy_array` and `mem_map`
pub record Zone : Type 0 where
  pub free : List Block
  pub free_num : ℕ → ℕ
  pub pages : ℕ → Page

-- `BUDDY_CHUNK_NUM - 1`
abbrev pub max_order : ℕ
max_order = 10

abbrev pub update {ℓ} : {A : Type ℓ} → (ℕ → A) → ℕ → A → ℕ → A
update f k v i = if i == k then v else f i

-- the entry of `mm_buddy_array[order]` that comes first
unfoldable pub first_of : ℕ → List Block → Option ℕ
first_of o [] = none
first_of o (b ∷ bs) = if b.order == o then some b.page else first_of o bs

unfoldable pub list_del : ℕ → List Block → List Block
list_del p [] = []
list_del p (b ∷ bs) = if b.page == p then bs else b ∷ list_del p bs

-- `rmv_page_order` and `set_page_order`
unfoldable pub rmv_page_order : ℕ → (ℕ → Page) → ℕ → Page
rmv_page_order p pages = update pages p (record (pages p) { buddy = false; order = 0 })

unfoldable pub set_page_order : ℕ → ℕ → (ℕ → Page) → ℕ → Page
set_page_order p o pages = update pages p (record (pages p) { buddy = true; order = o })

-- one round of the loop of `expand`: the upper half of a block goes to the list of order `k`
unfoldable pub give_back : ℕ → ℕ → Zone → Zone
unfolding set_page_order
give_back k q z = record {
  free = block k q ∷ z.free;
  free_num = update z.free_num k (add32 (z.free_num k) 1);
  pages = set_page_order q k z.pages;
}

-- the loop of `expand` from `curr_order` at `order + n` on; `size` is `1 << curr_order`
unfoldable pub expand_loop : ℕ → ℕ → ℕ → Zone → Zone
unfolding give_back
expand_loop zero order p z = z
expand_loop (suc n) order p z =
    expand_loop n order p (give_back (order + n) (p + 2 ^ (order + n)) z)

-- `expand`: a block of the highest order first puts the block behind it on its list.
unfoldable pub expand : ℕ → ℕ → ℕ → Zone → Zone
unfolding expand_loop
expand p order curr z =
    let z' =
      if curr == max_order
      then record z { free = block max_order (p + 2 ^ max_order) ∷ z.free }
      else z in
    expand_loop (curr - order) order p z'

-- `buddy_alloc` at the order whose list is not empty
unfoldable pub take_block : ℕ → ℕ → ℕ → Zone → Zone
unfolding expand rmv_page_order list_del
take_block p order corder z = expand p order corder (record {
  free = list_del p z.free;
  free_num = update z.free_num corder (sub32 (z.free_num corder) 1);
  pages = rmv_page_order p z.pages;
})

-- the page is the head of a block in the lists
unfoldable pub is_linked : ℕ → List Block → Bool
is_linked p [] = false
is_linked p (b ∷ bs) = b.page == p || is_linked p bs

-- the first `list_add` of `expand`, if it is made, is of a block that is on a list
unfoldable pub relinks : ℕ → ℕ → Zone → Bool
unfolding is_linked
relinks p corder z = corder == max_order && is_linked (p + 2 ^ max_order) (list_del p z.free)

-- What `buddy_alloc` does: it returns null, or a page; or it links a block into a list a second time, and
-- what the lists then are is not modelled.
pub data Outcome : Type 0 where
  no_page : Outcome
  page_of : Zone → ℕ → Outcome
  relinked : Outcome

-- the loop of `buddy_alloc`, with `n` orders left to look at
unfoldable pub alloc_loop : ℕ → ℕ → ℕ → Zone → Outcome
unfolding take_block first_of relinks
alloc_loop zero order corder z = no_page
alloc_loop (suc n) order corder z = elim (first_of corder z.free) [
  | none ↦ alloc_loop n order (corder + 1) z
  | some p ↦ if relinks p corder z then relinked else page_of (take_block p order corder z) p
]

unfoldable pub buddy_alloc : ℕ → Zone → Outcome
unfolding alloc_loop
buddy_alloc order z = alloc_loop (11 - order) order order z

-- `page_is_buddy` and `page_is_ok`
unfoldable pub page_is_buddy : Page → ℕ → Bool
page_is_buddy p order = p.order == order && p.buddy && p.count == 0

unfoldable pub page_is_ok : Page → Bool
page_is_ok p = not p.resvd

-- `page_idx ^ (1 << order)`, and `page_idx & buddy_idx` for it: bit `order` flipped, and cleared
unfoldable pub buddy_of : ℕ → ℕ → ℕ
buddy_of i order = if i / 2 ^ order % 2 == 0 then i + 2 ^ order else i - 2 ^ order

unfoldable pub lower_of : ℕ → ℕ → ℕ
lower_of i order = if i / 2 ^ order % 2 == 0 then i else i - 2 ^ order

-- the end of `buddy_free`
unfoldable pub put_block : ℕ → ℕ → Zone → Zone
unfolding give_back
put_block i order z = give_back order i z

-- one round of its loop: the free buddy leaves its list
unfoldable pub drop_buddy : ℕ → ℕ → Zone → Zone
unfolding list_del rmv_page_order
drop_buddy b order z = record {
  free = list_del b z.free;
  free_num = update z.free_num order (sub32 (z.free_num order) 1);
  pages = rmv_page_order b z.pages;
}

-- the loop of `buddy_free`, with `n` orders left up to the highest
unfoldable pub free_loop : ℕ → ℕ → ℕ → Zone → Zone
free_loop zero i order z = put_block i order z
free_loop (suc n) i order z =
    let b = buddy_of i order in
    let merged = free_loop n (lower_of i order) (order + 1) (drop_buddy b order z) in
    if not (page_is_buddy (z.pages b) order)
    then put_block i order z
    else if not (page_is_ok (z.pages b))
    then put_block i order z
    else merged

unfoldable pub buddy_free : ℕ → ℕ → Zone → Zone
unfolding free_loop
buddy_free i order z = free_loop (max_order - order) i order z
