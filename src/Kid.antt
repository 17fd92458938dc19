-- ===== src/Kid.antt =====
-- Kernel/pid.c: identifiers handed out from a bit map, in which a set bit is a free identifier.
pub mod Inv
pub mod Alloc
pub mod Release
mod Tests
use shaunos.Base.{
  ℕ, zero, suc, ◌+◌, ◌*◌, ◌/◌, ◌%◌, Bool, true, false, Option, none, some, List, [], ◌∷◌, ltb, ◌==◌,
  get_or, get_elem?, set, length, replicate, if◌then◌else◌,
}
use shaunos.Base.Fault.{Result, ok, out_of_bounds, assert_failed, out_of_fuel, ◌>>=◌}
use shaunos.Bitops.{Word, bit, set_bit, clear_bit, find_first_bit}

-- `struct kid_object`: the words of the map, the word at which the search starts, and the size of
-- the map in bytes
pub record KidObject : Type 0 where
  pub kid_map : List Word
  pub offset : ℕ
  pub size : ℕ

abbrev pub page_size : ℕ
page_size = 4096

-- a map in which `memset(..., 0xFF, size)` has set every bit
abbrev pub all_free : ℕ → List Word
all_free words = replicate words (replicate 32 true)

-- `room` says whether `kmalloc` finds memory; a page from `get_zero_page` is taken as it comes.
unfoldable pub kernel_id_map_init : Bool → ℕ → Result KidObject
kernel_id_map_init room size =
    if ltb size page_size
    then (if room
        then ok (record { kid_map = all_free (size / 4); offset = 0; size = size })
        else assert_failed)
    else ok (record { kid_map = all_free (page_size / 4); offset = 0; size = page_size })

-- `obj->offset++`, and back to 0 at the end of the map
unfoldable pub next_offset : KidObject → ℕ
next_offset o = if o.offset + 1 == o.size / 4 then 0 else o.offset + 1

-- the code of `get_unused_id` behind the loop, at the bit `index` that it has found
unfoldable pub take_id : KidObject → Word → ℕ → KidObject × ℕ
unfolding clear_bit next_offset
take_id o w index = (
  record o {
    kid_map = set o.kid_map o.offset (clear_bit index w).0;
    offset = if index == 31 then next_offset o else o.offset;
  },
  o.offset * 32 + index,
)

-- `get_unused_id`, whose `goto AGAIN` takes one unit of fuel a round
unfoldable pub get_unused_id : Option ℕ → ℕ → KidObject → Result (KidObject × ℕ)
unfolding take_id next_offset find_first_bit
get_unused_id residue zero o = out_of_fuel
get_unused_id residue (suc fuel) o =
    let again = get_unused_id residue fuel (record o { offset = next_offset o }) in
    elim (get_elem? o.kid_map o.offset) [
      | none ↦ out_of_bounds
      | some w ↦ elim (find_first_bit residue w) [
        | none ↦ again
        | some index ↦ ok (take_id o w index)
      ]
    ]

-- `put_id`, at an identifier that is not negative
unfoldable pub put_id : KidObject → ℕ → Result KidObject
unfolding set_bit
put_id o pid = elim (get_elem? o.kid_map (pid / 32)) [
  | none ↦ out_of_bounds
  | some w ↦ ok (record o {
    kid_map = set o.kid_map (pid / 32) (set_bit (pid % 32) w).0;
    offset = if ltb (pid / 32) o.offset then pid / 32 else o.offset;
  })
]

-- `resv_id`
unfoldable pub resv_id : KidObject → ℕ → Result KidObject
unfolding clear_bit
resv_id o id = elim (get_elem? o.kid_map (id / 32)) [
  | none ↦ out_of_bounds
  | some w ↦ ok (record o { kid_map = set o.kid_map (id / 32) (clear_bit (id % 32) w).0 })
]

-- the first `n` words of a map written over by those of another
unfoldable pub overwrite : ℕ → List Word → List Word → Result (List Word)
overwrite zero to from = ok to
overwrite (suc n) [] from = out_of_bounds
overwrite (suc n) (t ∷ to) [] = out_of_bounds
overwrite (suc n) (t ∷ to) (f ∷ from) = do rest ← overwrite n to from; ok (f ∷ rest)

-- `kid_dup`, at two objects that are there; `memcpy` copies `dobj->size` bytes
unfoldable pub kid_dup : KidObject → KidObject → Result KidObject
unfolding overwrite
kid_dup d s = do
  words ← overwrite (s.size / 4) d.kid_map s.kid_map
  ok (record { kid_map = words; offset = s.offset; size = s.size })
