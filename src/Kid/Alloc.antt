-- ===== src/Kid/Alloc.antt =====
-- `get_unused_id` of Kernel/pid.c: which identifier it hands out, and when it does not return.
use shaunos.Base.{
  ℕ, zero, suc, ◌+◌, ◌*◌, ◌/◌, ◌%◌, ◌<◌, ◌≤◌, ◌≡◌, refl, sym, arith, true, false, [], get_or,
  length, Option, none, some, set, length-set, ◌≢◌, ◌⊎◌, ◌∙◌, Bool-cases, ltb, ltb→lt, ltb→le,
  Option-cases, inl, inr, ◌==◌, ==→eq, ==→ne, eq→==, if◌then◌else◌, get_elem?-eq-some, get_or_past,
  ap,
}
use shaunos.Base.Fault.{ok, out_of_fuel}
use shaunos.Bitops.{Word, bit, lowest_one, find_first_bit, clear_bit}
use shaunos.Kid.{KidObject, get_unused_id, take_id, next_offset}
use shaunos.Kid.Inv.{IsValid, is_free, lowest_one-none, lowest_one-some, is_free-set, words-set}

-- What `get_unused_id` promises: the lowest free identifier, which alone is no longer free.
pub record Allocated (o o' : KidObject) (id : ℕ) : Type 0 where
  pub was_free : is_free o id ≡ true
  pub lowest : (j : ℕ) → is_free o j ≡ true → id ≤ j
  pub taken : (j : ℕ) → is_free o' j ≡ (if j == id then false else is_free o j)
  pub valid : IsValid o'
  pub same_size : o'.size ≡ o.size
  pub nearby : (o'.offset ≡ id / 32) ⊎ (o'.offset ≡ id / 32 + 1) ⊎ (id / 32 + 1 ≡ o.size / 4)

next_offset-cases :
    (o : KidObject)
    → (next_offset o ≡ 0) × (o.offset + 1 ≡ o.size / 4)
      ⊎ (next_offset o ≡ o.offset + 1) × (o.offset + 1 ≢ o.size / 4)
unfolding next_offset
next_offset-cases o = elim (Bool-cases (o.offset + 1 == o.size / 4)) [
  | inl e ↦ inl (rw e, ==→eq _ _ e)
  | inr e ↦ inr (rw e, ==→ne _ _ e)
]

-- Moving on from a word with no free identifier keeps the invariant.
skip-IsValid :
    (o : KidObject)
    → IsValid o
    → ((id : ℕ) → id / 32 ≡ o.offset → is_free o id ≡ false)
    → IsValid (record o { offset = next_offset o })
skip-IsValid o v empty = elim (next_offset-cases o) [
  | inl (e, end) ↦ rw e (record {
    sized = v.sized;
    inside = omega (arith, v.inside);
    words = v.words;
    none_below = λ id h. absurd (omega arith);
  })
  | inr (e, ne) ↦ rw e (record {
    sized = v.sized;
    inside = omega (arith, v.inside, v.sized);
    words = v.words;
    none_below = λ id h. elim (Bool-cases (id / 32 == o.offset)) [
      | inl q ↦ empty id (==→eq _ _ q)
      | inr q ↦ v.none_below id (omega (arith, ==→ne _ _ q))
    ];
  })
]

module _ (o : KidObject) (v : IsValid o) (index : ℕ) where
  abbrev word : Word
  word = get_or o.kid_map o.offset []

  abbrev got : ℕ
  got = o.offset * 32 + index

  -- the map with the bit cleared, before the offset is looked at
  abbrev cleared : KidObject
  cleared = record o { kid_map = set o.kid_map o.offset (set word index false) }

  module _ (e : lowest_one word ≡ some index) where
    index_lt : index < 32
    index_lt = omega (arith, (lowest_one-some word index e).1, v.words o.offset v.inside)

    is_free-cleared : (j : ℕ) → is_free cleared j ≡ (if j == got then false else is_free o j)
    is_free-cleared j =
        is_free-set o.kid_map index o.offset j false v.inside index_lt (v.words o.offset v.inside)

    cleared_le : (j : ℕ) → is_free o j ≡ false → is_free cleared j ≡ false
    cleared_le j h = ground (arith, is_free-cleared j)

    got-is_free : is_free o got ≡ true
    got-is_free =
        let q : got / 32 ≡ o.offset = omega (arith, index_lt) in
        let r : got % 32 ≡ index = omega (arith, index_lt) in
        rw (q, r) (lowest_one-some word index e).0

    got-le : (j : ℕ) → is_free o j ≡ true → got ≤ j
    got-le j h = elim (Bool-cases (ltb (j / 32) o.offset)) [
      | inl below ↦ absurd (ground (arith, v.none_below j (ltb→lt _ _ below)))
      | inr above ↦ elim (Bool-cases (j / 32 == o.offset)) [
        | inr later ↦ omega (arith, ltb→le _ _ above, ==→ne _ _ later, index_lt)
        | inl same ↦
            let here : bit word (j % 32) ≡ true = rw (==→eq _ _ same) at h in
            elim (Bool-cases (ltb (j % 32) index)) [
              | inl less ↦
                  absurd
                    (ground (arith, (lowest_one-some word index e).2 (j % 32) (ltb→lt _ _ less)))
              | inr more ↦ omega (arith, ltb→le _ _ more, ==→eq _ _ same)
            ]
      ]
    ]

    cleared-IsValid : IsValid cleared
    cleared-IsValid = record {
      sized = rw (length-set o.kid_map o.offset (set word index false)) v.sized;
      inside = rw (length-set o.kid_map o.offset (set word index false)) v.inside;
      words = λ j h.
          words-set o.kid_map index o.offset false v.inside v.words j
            (rw (length-set o.kid_map o.offset (set word index false)) at h);
      none_below = λ j h. cleared_le j (v.none_below j h);
    }

    -- once the last bit of a word is taken, nothing in the word is free
    word_done : index ≡ 31 → (j : ℕ) → j / 32 ≡ o.offset → is_free cleared j ≡ false
    word_done last j here = elim (Bool-cases (is_free o j)) [
      | inr no_more ↦ cleared_le j no_more
      | inl free ↦
          let q : j ≡ got = omega (arith, got-le j free) in rw (is_free-cleared j, eq→== j got q)
    ]

    take_id-IsValid : IsValid (take_id o word index).0
    unfolding take_id clear_bit next_offset
    take_id-IsValid = elim (Bool-cases (index == 31)) [
      | inl last ↦ rw last (skip-IsValid cleared cleared-IsValid (word_done (==→eq _ _ last)))
      | inr more ↦ rw more cleared-IsValid
    ]

    offset-nearby :
        ((take_id o word index).0.offset ≡ got / 32)
        ⊎ ((take_id o word index).0.offset ≡ got / 32 + 1)
        ⊎ (got / 32 + 1 ≡ o.size / 4)
    unfolding take_id
    offset-nearby =
        let q : got / 32 ≡ o.offset = omega (arith, index_lt) in
        elim (Bool-cases (index == 31)) [
          | inr more ↦ rw more (inl (sym q))
          | inl last ↦ rw last (elim (next_offset-cases o) [
            | inl (e, end) ↦ inr (inr (omega (arith, end, q)))
            | inr (e, ne) ↦ inr (inl (omega (arith, e, q)))
          ])
        ]

    take_id-Allocated : Allocated o (take_id o word index).0 got
    unfolding take_id clear_bit
    take_id-Allocated = record {
      was_free = got-is_free;
      lowest = got-le;
      taken = is_free-cleared;
      valid = take_id-IsValid;
      same_size = refl;
      nearby = offset-nearby;
    }

-- What holds of a word that `find_first_bit` finds empty.
empty_word :
    (o : KidObject)
    → lowest_one (get_or o.kid_map o.offset []) ≡ none
    → (id : ℕ) → id / 32 ≡ o.offset
    → is_free o id ≡ false
empty_word o e id q = rw q (lowest_one-none (get_or o.kid_map o.offset []) (id % 32) e)

module _ (o : KidObject) (fuel : ℕ) (v : IsValid o) where
  -- one round of the loop, on a word with no set bit and on one with a set bit
  round_empty :
      lowest_one (get_or o.kid_map o.offset []) ≡ none
      → get_unused_id none (suc fuel) o
        ≡ get_unused_id none fuel (record o { offset = next_offset o })
  unfolding get_unused_id find_first_bit
  round_empty e = ground (arith, get_elem?-eq-some o.kid_map o.offset [] v.inside, e)

  round_found :
      (index : ℕ)
      → lowest_one (get_or o.kid_map o.offset []) ≡ some index
      → get_unused_id none (suc fuel) o ≡ ok (take_id o (get_or o.kid_map o.offset []) index)
  unfolding get_unused_id find_first_bit
  round_found index e = ground (arith, get_elem?-eq-some o.kid_map o.offset [] v.inside, e)

take_id_parts :
    (o : KidObject) (w : Word) (index : ℕ)
    → take_id o w index ≡ ((take_id o w index).0, o.offset * 32 + index)
unfolding take_id
take_id_parts o w index = refl

pub is_free-inside : (o : KidObject) (k : ℕ) → is_free o k ≡ true → k / 32 < length o.kid_map
is_free-inside o k free = elim (Bool-cases (ltb (k / 32) (length o.kid_map))) [
  | inl h ↦ ltb→lt _ _ h
  | inr h ↦ absurd (ground (arith, get_or_past o.kid_map (k / 32) [] (ltb→le _ _ h)))
]

abbrev pub Finds : Option ℕ → KidObject → ℕ → Type 0
Finds residue o fuel =
    (o' : KidObject) × (id : ℕ) × (get_unused_id residue fuel o ≡ ok (o', id)) × Allocated o o' id

search-Finds :
    (fuel : ℕ) (o : KidObject) (k : ℕ)
    → IsValid o
    → is_free o k ≡ true
    → k / 32 < o.offset + fuel
    → Finds none o fuel
search-Finds zero o k v free enough = absurd (ground (arith, v.none_below k (omega arith)))
search-Finds (suc fuel) o k v free enough =
    elim (Option-cases (lowest_one (get_or o.kid_map o.offset []))) [
      | inr (index, e) ↦ (
        (take_id o (get_or o.kid_map o.offset []) index).0,
        o.offset * 32 + index,
        found index e,
        take_id-Allocated o v index e,
      )
      | inl e ↦
          let (o', id, got, a) =
            search-Finds fuel (record o { offset = next_offset o }) k
              (skip-IsValid o v (empty_word o e)) free (reaches e) in
          (
            o',
            id,
            round_empty o fuel v e ∙ got,
            record {
              was_free = a.was_free;
              lowest = a.lowest;
              taken = a.taken;
              valid = a.valid;
              same_size = a.same_size;
              nearby = a.nearby;
            },
          )
    ]
  where
    found :
        (index : ℕ)
        → lowest_one (get_or o.kid_map o.offset []) ≡ some index
        → get_unused_id none (suc fuel) o
          ≡ ok ((take_id o (get_or o.kid_map o.offset []) index).0, o.offset * 32 + index)
    found index e =
        round_found o fuel v index e ∙ ap ok (take_id_parts o (get_or o.kid_map o.offset []) index)

    later : lowest_one (get_or o.kid_map o.offset []) ≡ none → o.offset < k / 32
    later e = elim (Bool-cases (ltb o.offset (k / 32))) [
      | inl h ↦ ltb→lt _ _ h
      | inr h ↦ elim (Bool-cases (k / 32 == o.offset)) [
        | inl q ↦ absurd (ground (arith, empty_word o e k (==→eq _ _ q)))
        | inr q ↦ absurd (ground (arith, v.none_below k (omega (arith, ltb→le _ _ h, ==→ne _ _ q))))
      ]
    ]

    reaches : lowest_one (get_or o.kid_map o.offset []) ≡ none → k / 32 < next_offset o + fuel
    reaches e = elim (next_offset-cases o) [
      | inl (z, end) ↦ absurd (omega (arith, later e, is_free-inside o k free, v.sized))
      | inr (z, ne) ↦ omega (arith, later e)
    ]

-- `bsf` does not meet a word of zeros, or the register holds -1 after it did.
abbrev pub Defined : Option ℕ → KidObject → Type 0
Defined residue o = (residue ≡ none) ⊎ (lowest_one (get_or o.kid_map o.offset []) ≢ none)

round_any :
    (residue : Option ℕ) (o : KidObject) (fuel index : ℕ)
    → IsValid o
    → lowest_one (get_or o.kid_map o.offset []) ≡ some index
    → get_unused_id residue (suc fuel) o ≡ ok (take_id o (get_or o.kid_map o.offset []) index)
unfolding get_unused_id find_first_bit
round_any residue o fuel index v e =
    ground (arith, get_elem?-eq-some o.kid_map o.offset [] v.inside, e)

-- In a map that keeps the invariant: if any identifier `k` is free, and the fuel reaches from the start
-- of the search to the word of `k`, `get_unused_id` returns the lowest free identifier, takes it alone, and keeps the invariant. What
-- `bsf` leaves in its register at a word of zeros, which is undefined, is an argument: either it is the
-- -1 that the code looks for, or the word where the search starts is not 0, so that no such word is met.
pub get_unused_id-Allocated :
    (residue : Option ℕ) (fuel : ℕ) (o : KidObject) (k : ℕ)
    → Defined residue o
    → IsValid o
    → is_free o k ≡ true
    → k / 32 < o.offset + fuel
    → Finds residue o fuel
get_unused_id-Allocated residue fuel o k (inl e) v free enough =
    rw e (search-Finds fuel o k v free enough)
get_unused_id-Allocated residue zero o k (inr there) v free enough =
    absurd (ground (arith, v.none_below k (omega arith)))
get_unused_id-Allocated residue (suc fuel) o k (inr there) v free enough =
    elim (Option-cases (lowest_one (get_or o.kid_map o.offset []))) [
      | inl e ↦ absurd (there e)
      | inr (index, e) ↦ (
        (take_id o (get_or o.kid_map o.offset []) index).0,
        o.offset * 32 + index,
        round_any residue o fuel index v e
            ∙ ap ok (take_id_parts o (get_or o.kid_map o.offset []) index),
        take_id-Allocated o v index e,
      )
    ]

-- In a valid map with nothing free `get_unused_id` returns with no fuel: it goes round for ever. (The
-- instruction `bsf` is taken to leave its result as it was at a word of zeros.)
pub get_unused_id-out_of_fuel :
    (fuel : ℕ) (o : KidObject)
    → IsValid o
    → ((id : ℕ) → is_free o id ≡ false)
    → get_unused_id none fuel o ≡ out_of_fuel
unfolding get_unused_id
get_unused_id-out_of_fuel zero o v full = refl
get_unused_id-out_of_fuel (suc fuel) o v full =
    elim (Option-cases (lowest_one (get_or o.kid_map o.offset []))) [
      | inl e ↦
          round_empty o fuel v e
          ∙ get_unused_id-out_of_fuel fuel (record o { offset = next_offset o })
              (skip-IsValid o v (λ id q. full id)) full
      | inr (index, e) ↦
          absurd (ground (arith, got-is_free o v index e, full (o.offset * 32 + index)))
    ]
