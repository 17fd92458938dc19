-- ===== src/Kid/Tests.antt =====
-- Runs of the identifier maps of Kernel/pid.c, and their theorems at concrete maps.
use shaunos.Base.{ℕ, ◌≡◌, ◌≢◌, refl, arith, true, none, some, inr, replicate}
use shaunos.Base.Fault.{ok}
use shaunos.Bitops.{lowest_one, find_first_bit}
use shaunos.Kid.{KidObject, all_free, get_unused_id, put_id, take_id}
use shaunos.Kid.Inv.{IsValid, is_free}
use shaunos.Kid.Alloc.{Finds, get_unused_id-Allocated}
use shaunos.Kid.Release.{all_free-IsValid, put_id-get_unused_id}

-- two words, all free
abbrev fresh : KidObject
fresh = record { kid_map = all_free 2; offset = 0; size = 8 }

fresh-IsValid : IsValid fresh
fresh-IsValid = (all_free-IsValid 2 8 refl (omega arith)).0

first_id : (o : KidObject) × (get_unused_id none 1 fresh ≡ ok (o, 0))
unfolding get_unused_id find_first_bit lowest_one take_id
first_id = ((take_id fresh (replicate 32 true) 0).0, refl)

starts_full : lowest_one (replicate 32 true) ≢ none
unfolding lowest_one
starts_full e = cc

-- the register holds 12 after a word of zeros
get_unused_id-Allocated_example : Finds (some 12) fresh 2
get_unused_id-Allocated_example =
    get_unused_id-Allocated (some 12) 2 fresh 40 (inr starts_full) fresh-IsValid refl (omega arith)

put_id-get_unused_id_example :
    (id : ℕ) × (o1 : KidObject) × (o2 : KidObject) × (o3 : KidObject) × (get_unused_id
        (some 12)
        2
        fresh
      ≡ ok (o1, id))
    × (put_id o1 id ≡ ok o2)
    × ((j : ℕ) → is_free o2 j ≡ is_free fresh j)
    × IsValid o2
    × (get_unused_id (some 12) 2 o2 ≡ ok (o3, id))
put_id-get_unused_id_example =
    put_id-get_unused_id (some 12) 2 fresh 40 (inr (starts_full, omega arith)) fresh-IsValid refl
      (omega arith) (omega arith)
