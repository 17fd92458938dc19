-- ===== src/Kid/Release.antt =====
-- The other operations of Kernel/pid.c: an identifier given back or reserved, a new map, a copy.
use shaunos.Base.{
  ℕ, zero, suc, ◌+◌, ◌*◌, ◌/◌, ◌%◌, ◌<◌, ◌≤◌, ◌≡◌, refl, arith, Bool, true, false, List, [], ◌∷◌,
  get_or, length, none, set, length-set, ◌∙◌, Bool-cases, ltb, inl, inr, ◌==◌, ==→eq, if◌then◌else◌,
  get_elem?-eq-some, replicate, ap, sym, ◌≢◌, ◌⊎◌, Option, some, Option-cases, ltb→lt, ltb→le,
}
use shaunos.Base.Fault.{Result, ok}
use shaunos.Bitops.{Word, bit, set_bit, clear_bit, lowest_one}
use shaunos.Kid.{
  KidObject, kernel_id_map_init, all_free, put_id, resv_id, get_unused_id, kid_dup, overwrite,
  page_size,
}
use shaunos.Kid.Inv.{IsValid, is_free, is_free-set, words-set, lowest_one-none, lowest_one-some}
use shaunos.Kid.Alloc.{Allocated, Defined, get_unused_id-Allocated, is_free-inside}

-- The map with one bit of word `id / 32` written.
abbrev written : KidObject → ℕ → Bool → KidObject
written o id b = record o {
  kid_map = set o.kid_map (id / 32) (set (get_or o.kid_map (id / 32) []) (id % 32) b);
}

module _ (o : KidObject) (id : ℕ) (v : IsValid o) (inside : id / 32 < length o.kid_map) where
  is_free-written :
      (b : Bool) (j : ℕ) → is_free (written o id b) j ≡ (if j == id then b else is_free o j)
  is_free-written b j =
      let whole : id / 32 * 32 + id % 32 ≡ id = omega arith in
      is_free-set o.kid_map (id % 32) (id / 32) j b inside (omega arith) (v.words (id / 32) inside)
      ∙ ap (λ n. if j == n then b else is_free o j) whole

  -- In a valid map, `put_id` of an identifier that the map has room for succeeds, makes it free, and it
  -- alone, and leaves a valid map: the search starts early enough to see it.
  pub put_id-frees :
      (o' : KidObject) × (put_id o id ≡ ok o')
      × IsValid o'
      × ((j : ℕ) → is_free o' j ≡ (if j == id then true else is_free o j))
  unfolding put_id set_bit
  put_id-frees = (
    record (written o id true) { offset = if ltb (id / 32) o.offset then id / 32 else o.offset },
    rw (get_elem?-eq-some o.kid_map (id / 32) [] inside, put_id) refl,
    record {
      sized =
          rw (length-set o.kid_map (id / 32) (set (get_or o.kid_map (id / 32) []) (id % 32) true))
            v.sized;
      inside =
          rw (length-set o.kid_map (id / 32) (set (get_or o.kid_map (id / 32) []) (id % 32) true))
            (ground (arith, v.inside));
      words = λ j h. words-set o.kid_map (id % 32) (id / 32) true inside v.words j (
          rw (length-set o.kid_map (id / 32) (set (get_or o.kid_map (id / 32) []) (id % 32) true))
            at h);
      none_below = λ j h. ground (arith, is_free-written true j, v.none_below j);
    },
    is_free-written true,
  )

  -- Reserving an identifier makes it taken, and it alone.
  pub resv_id-takes :
      (o' : KidObject) × (resv_id o id ≡ ok o')
      × IsValid o'
      × ((j : ℕ) → is_free o' j ≡ (if j == id then false else is_free o j))
  unfolding resv_id clear_bit
  resv_id-takes = (
    written o id false,
    rw (get_elem?-eq-some o.kid_map (id / 32) [] inside, resv_id) refl,
    record {
      sized =
          rw (length-set o.kid_map (id / 32) (set (get_or o.kid_map (id / 32) []) (id % 32) false))
            v.sized;
      inside =
          rw (length-set o.kid_map (id / 32) (set (get_or o.kid_map (id / 32) []) (id % 32) false))
            v.inside;
      words = λ j h. words-set o.kid_map (id % 32) (id / 32) false inside v.words j (
          rw (length-set o.kid_map (id / 32) (set (get_or o.kid_map (id / 32) []) (id % 32) false))
            at h);
      none_below = λ j h. ground (arith, is_free-written false j, v.none_below j);
    },
    is_free-written false,
  )

get_or-replicate : (n j : ℕ) (w : Word) → j < n → get_or (replicate n w) j [] ≡ w
get_or-replicate zero j w h = absurd (omega arith)
get_or-replicate (suc n) zero w h = refl
get_or-replicate (suc n) (suc j) w h = get_or-replicate n j w (omega arith)

length-replicate {ℓ} : {A : Type ℓ} (n : ℕ) (w : A) → length (replicate n w) ≡ n
length-replicate zero w = refl
length-replicate (suc n) w = ap suc (length-replicate n w)

bit-replicate : (n j : ℕ) → j < n → bit (replicate n true) j ≡ true
bit-replicate zero j h = absurd (omega arith)
bit-replicate (suc n) zero h = refl
bit-replicate (suc n) (suc j) h = bit-replicate n j (omega arith)

-- A map of `n` words of ones is valid.
pub all_free-IsValid :
    (n size : ℕ)
    → n ≡ size / 4
    → 0 < n
    → IsValid (record { kid_map = all_free n; offset = 0; size = size })
      × ((id : ℕ)
          → id < n * 32
          → is_free (record { kid_map = all_free n; offset = 0; size = size }) id ≡ true)
all_free-IsValid n size e pos = (
  record {
    sized = length-replicate n (replicate 32 true) ∙ e;
    inside = rw (length-replicate n (replicate 32 true)) pos;
    words = λ j h.
        rw
          (get_or-replicate n j (replicate 32 true)
            (rw (length-replicate n (replicate 32 true)) at h))
          (length-replicate 32 true);
    none_below = λ id h. absurd (omega arith);
  },
  λ id h.
      rw (get_or-replicate n (id / 32) (replicate 32 true) (omega arith))
        (bit-replicate 32 (id % 32) (omega arith)),
)

-- A new map of at least four bytes is valid, and every identifier that it has room for is free.
pub kernel_id_map_init-IsValid :
    (size : ℕ)
    → 4 ≤ size
    → (o : KidObject) × (kernel_id_map_init true size ≡ ok o)
      × IsValid o
      × ((id : ℕ)
          → id < (if ltb size page_size then size / 4 else page_size / 4) * 32
          → is_free o id ≡ true)
unfolding kernel_id_map_init
kernel_id_map_init-IsValid size h = elim (Bool-cases (ltb size page_size)) [
  | inl small ↦
      let (valid, free) = all_free-IsValid (size / 4) size refl (omega arith) in
      (
        record { kid_map = all_free (size / 4); offset = 0; size = size },
        rw small refl,
        valid,
        rw small free,
      )
  | inr large ↦
      let (valid, free) = all_free-IsValid (page_size / 4) page_size refl (omega arith) in
      (
        record { kid_map = all_free (page_size / 4); offset = 0; size = page_size },
        rw large refl,
        valid,
        rw large free,
      )
]

overwrite_all :
    (to from : List Word) (n : ℕ) → length to ≡ n → length from ≡ n → overwrite n to from ≡ ok from
unfolding overwrite
overwrite_all [] [] n p q = rw (← p) refl
overwrite_all [] (f ∷ from) n p q = absurd (omega arith)
overwrite_all (t ∷ to) [] n p q = absurd (omega arith)
overwrite_all (t ∷ to) (f ∷ from) zero p q = absurd (omega arith)
overwrite_all (t ∷ to) (f ∷ from) (suc n) p q =
    rw (overwrite_all to from n (omega arith) (omega arith)) refl

-- A copy onto a map of the same size is the map that it was copied from.
pub kid_dup-same :
    (d s : KidObject) → IsValid s → length d.kid_map ≡ length s.kid_map → kid_dup d s ≡ ok s
unfolding kid_dup
kid_dup-same d s v same =
    rw (overwrite_all d.kid_map s.kid_map (s.size / 4) (same ∙ v.sized) v.sized) refl

word_nonempty :
    (o : KidObject) (id : ℕ)
    → is_free o id ≡ true
    → id / 32 ≡ o.offset
    → lowest_one (get_or o.kid_map o.offset []) ≢ none
word_nonempty o id free here empty = true_not_false (sym free ∙ lowest_empty)
  where
    true_not_false : true ≡ false → ⊥
    true_not_false e = cc

    lowest_empty : is_free o id ≡ false
    lowest_empty = rw here (lowest_one-none (get_or o.kid_map o.offset []) (id % 32) empty)

-- where the search starts after an identifier has been given back
put_id-offset :
    (o o' : KidObject) (id : ℕ)
    → id / 32 < length o.kid_map
    → put_id o id ≡ ok o'
    → (if ltb (id / 32) o.offset then id / 32 else o.offset) ≡ o'.offset
unfolding put_id set_bit
put_id-offset o o' id inside e =
    let done = rw (put_id, get_elem?-eq-some o.kid_map (id / 32) [] inside) at e in
    ap offset_of done
  where
    offset_of : Result KidObject → ℕ
    offset_of (ok z) = z.offset
    offset_of r = 0

-- That `bsf` meets no word of zeros before and after an identifier is handed out, or that the register
-- holds -1 after it did.
abbrev pub Settled : Option ℕ → KidObject → Type 0
Settled residue o =
    (residue ≡ none)
    ⊎ ((lowest_one (get_or o.kid_map o.offset []) ≢ none) × (o.offset + 1 ≢ o.size / 4))

Settled-Defined : (residue : Option ℕ) (o : KidObject) → Settled residue o → Defined residue o
Settled-Defined residue o (inl e) = inl e
Settled-Defined residue o (inr (full, more)) = inr full

-- The first search takes an identifier of the word that it starts at.
first_word :
    (o : KidObject) (id : ℕ) (index : ℕ)
    → IsValid o
    → lowest_one (get_or o.kid_map o.offset []) ≡ some index
    → is_free o id ≡ true
    → ((j : ℕ) → is_free o j ≡ true → id ≤ j)
    → id / 32 ≡ o.offset
first_word o id index v e free lowest =
    let (set_there, low, first) = lowest_one-some (get_or o.kid_map o.offset []) index e in
    let small : index < 32 = omega (arith, low, v.words o.offset v.inside) in
    let at : (o.offset * 32 + index) / 32 ≡ o.offset = omega (arith, small) in
    let bit_at : (o.offset * 32 + index) % 32 ≡ index = omega (arith, small) in
    let there : is_free o (o.offset * 32 + index) ≡ true = rw (at, bit_at) set_there in
    let no_later = lowest (o.offset * 32 + index) there in
    elim (Bool-cases (ltb (id / 32) o.offset)) [
      | inl before ↦ absurd (ground (arith, v.none_below id (ltb→lt _ _ before)))
      | inr after ↦ omega (arith, no_later, small, ltb→le _ _ after)
    ]

Settled-again :
    (residue : Option ℕ) (o o1 o2 : KidObject) (id : ℕ)
    → IsValid o
    → Settled residue o
    → Allocated o o1 id
    → (if ltb (id / 32) o1.offset then id / 32 else o1.offset) ≡ o2.offset
    → is_free o2 id ≡ true
    → Defined residue o2
Settled-again residue o o1 o2 id v (inl e) a at free = inl e
Settled-again residue o o1 o2 id v (inr (full, more)) a at free =
    elim (Option-cases (lowest_one (get_or o.kid_map o.offset []))) [
      | inl empty ↦ absurd (full empty)
      | inr (index, e) ↦
          let here = first_word o id index v e a.was_free a.lowest in
          elim a.nearby [
            | inl same ↦
                let stays : ltb (id / 32) o1.offset ≡ false = ground (arith, same) in
                inr (word_nonempty o2 id free (sym same ∙ (rw stays at at)))
            | inr (inl next) ↦
                let back : ltb (id / 32) o1.offset ≡ true = ground (arith, next) in
                inr (word_nonempty o2 id free (rw back at at))
            | inr (inr end) ↦ absurd (more (omega (arith, end, here)))
          ]
    ]

-- An identifier that is handed out and given back leaves the same identifiers free, and the next search
-- hands it out again. The map keeps the invariant, some identifier is free, the fuel reaches its word and is no less than the words of
-- the map, and what `bsf` leaves in its register at a word of zeros, which is undefined, is either the
-- -1 that the code looks for, or no such word is met: the word where the search starts is not 0 and is
-- not the last.
pub put_id-get_unused_id :
    (residue : Option ℕ) (fuel : ℕ) (o : KidObject) (k : ℕ)
    → Settled residue o
    → IsValid o
    → is_free o k ≡ true
    → k / 32 < o.offset + fuel
    → length o.kid_map ≤ fuel
    → (id : ℕ) × (o1 : KidObject) × (o2 : KidObject) × (o3 : KidObject) × (get_unused_id residue
          fuel o
        ≡ ok (o1, id))
      × (put_id o1 id ≡ ok o2)
      × ((j : ℕ) → is_free o2 j ≡ is_free o j)
      × IsValid o2
      × (get_unused_id residue fuel o2 ≡ ok (o3, id))
put_id-get_unused_id residue fuel o k settled v free enough whole =
    let (o1, id, got, a) =
      get_unused_id-Allocated residue fuel o k (Settled-Defined residue o settled) v free enough in
    let inside = is_free-inside o id a.was_free in
    let inside1 : id / 32 < length o1.kid_map =
      omega (arith, inside, ap (λ n. n / 4) a.same_size, a.valid.sized, v.sized) in
    let (o2, put, valid, freed) = put_id-frees o1 id a.valid inside1 in
    let same : (j : ℕ) → is_free o2 j ≡ is_free o j =
      λ j. ground (arith, freed j, a.taken j, a.was_free, ==→eq j id) in
    let free2 : is_free o2 id ≡ true = same id ∙ a.was_free in
    let defined =
      Settled-again residue o o1 o2 id v settled a (put_id-offset o1 o2 id inside1 put) free2 in
    let (o3, id', got', a') =
      get_unused_id-Allocated residue fuel o2 id defined valid free2
        (omega (arith, inside, whole)) in
    let up : id ≤ id' = a.lowest id' (sym (same id') ∙ a'.was_free) in
    let down : id' ≤ id = a'.lowest id free2 in
    let again : id' ≡ id = omega (arith, up, down) in
    (id, o1, o2, o3, got, put, same, valid, got' ∙ ap (λ n. ok (o3, n)) again)
