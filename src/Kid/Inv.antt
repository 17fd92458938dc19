-- ===== src/Kid/Inv.antt =====
-- The invariant of a bit map of Kernel/pid.c, and which identifiers it holds to be free.
use shaunos.Base.{
  ℕ, zero, suc, ◌+◌, ◌*◌, ◌/◌, ◌%◌, ◌<◌, ◌≡◌, refl, arith, Bool, true, false, List, [], ◌∷◌, get_or,
  length, none, some, set, length-set, ◌≢◌, sym, Bool-cases, inl, inr, ◌==◌, ==→eq, ==→ne, eq→==,
  ne→==, get_or-set_self, get_or-set_ne, if◌then◌else◌,
}
use shaunos.Bitops.{Word, bit, lowest_one}
use shaunos.Kid.{KidObject}

-- Bit `pid % 32` of word `pid / 32`; an identifier past the end of the map is not free.
abbrev pub is_free : KidObject → ℕ → Bool
is_free o id = bit (get_or o.kid_map (id / 32) []) (id % 32)

-- The search starts inside the map, and no word before that start holds a free identifier.
pub record IsValid (o : KidObject) : Type 0 where
  pub sized : length o.kid_map ≡ o.size / 4
  pub inside : o.offset < length o.kid_map
  pub words : (j : ℕ) → j < length o.kid_map → length (get_or o.kid_map j []) ≡ 32
  pub none_below : (id : ℕ) → id / 32 < o.offset → is_free o id ≡ false

pub lowest_one-none : (w : Word) (i : ℕ) → lowest_one w ≡ none → bit w i ≡ false
unfolding lowest_one
lowest_one-none [] i e = refl
lowest_one-none (true ∷ w) i e = cc
lowest_one-none (false ∷ w) zero e = refl
lowest_one-none (false ∷ w) (suc i) e = lowest_one-none w i (ground arith)

pub lowest_one-some :
    (w : Word) (i : ℕ)
    → lowest_one w ≡ some i
    → (bit w i ≡ true) × (i < length w) × ((j : ℕ) → j < i → bit w j ≡ false)
unfolding lowest_one
lowest_one-some [] i e = cc
lowest_one-some (true ∷ w) zero e = (refl, omega arith, λ j h. absurd (omega arith))
lowest_one-some (true ∷ w) (suc i) e = absurd (ground arith)
lowest_one-some (false ∷ w) zero e = absurd (ground arith)
lowest_one-some (false ∷ w) (suc i) e =
    let (found, inside, first) = lowest_one-some w i (ground arith) in
    (found, omega arith, later first)
  where
    later : ((j : ℕ) → j < i → bit w j ≡ false) → (j : ℕ) → j < suc i → bit (false ∷ w) j ≡ false
    later first zero h = refl
    later first (suc j) h = first j (omega arith)

-- A bit that is set anywhere in the map is one that the search for the word finds.
pub find-ne-none : (w : Word) (i : ℕ) → bit w i ≡ true → lowest_one w ≢ none
find-ne-none w i set e = ground (arith, lowest_one-none w i e)

-- A write to one word of a map, seen through `is_free`.
pub is_free-set :
    (map : List Word) (n k id : ℕ) (b : Bool)
    → k < length map
    → n < 32
    → length (get_or map k []) ≡ 32
    → bit (get_or (set map k (set (get_or map k []) n b)) (id / 32) []) (id % 32)
      ≡ (if id == k * 32 + n then b else bit (get_or map (id / 32) []) (id % 32))
is_free-set map n k id b inside small full = elim (Bool-cases (id / 32 == k)) [
  | inl same ↦
      let e : id / 32 ≡ k = ==→eq _ _ same in
      elim (Bool-cases (id % 32 == n)) [
        | inl hit ↦
            let f : id % 32 ≡ n = ==→eq _ _ hit in
            rw (
              e,
              f,
              get_or-set_self map k (set (get_or map k []) n b) [] inside,
              get_or-set_self (get_or map k []) n b false (omega arith),
              eq→== id (k * 32 + n) (omega arith),
            )
        | inr miss ↦
            let f : id % 32 ≢ n = ==→ne _ _ miss in
            rw (
              e,
              get_or-set_self map k (set (get_or map k []) n b) [] inside,
              get_or-set_ne (get_or map k []) n (id % 32) b false (λ p. f (sym p)),
              ne→== id (k * 32 + n) (omega arith),
            )
      ]
  | inr other ↦
      let e : id / 32 ≢ k = ==→ne _ _ other in
      rw (
        get_or-set_ne map k (id / 32) (set (get_or map k []) n b) [] (λ p. e (sym p)),
        ne→== id (k * 32 + n) (omega arith),
      )
]

-- A write that keeps the length of a word keeps the lengths of all words.
pub words-set :
    (map : List Word) (n k : ℕ) (b : Bool)
    → k < length map
    → ((j : ℕ) → j < length map → length (get_or map j []) ≡ 32)
    → (j : ℕ) → j < length map
    → length (get_or (set map k (set (get_or map k []) n b)) j []) ≡ 32
words-set map n k b inside full j h = elim (Bool-cases (k == j)) [
  | inl same ↦
      rw
        (
          ← ==→eq _ _ same,
          get_or-set_self map k (set (get_or map k []) n b) [] inside,
          length-set (get_or map k []) n b,
        )
        (full k inside)
  | inr other ↦
      rw (get_or-set_ne map k j (set (get_or map k []) n b) [] (==→ne _ _ other)) (full j h)
]
