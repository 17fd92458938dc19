-- ===== src/Print/Numerals.antt =====
-- The digits that `number` of lib/vsprintf.c makes: numerals that read back as the number.
use native.Mathlib.Nat.{pow-suc}
use shaunos.Base.{
  ℕ, zero, suc, ◌+◌, ◌-◌, ◌*◌, ◌/◌, ◌%◌, ◌^◌, ◌<◌, ◌≤◌, ◌≡◌, reverse, reverse-cons, refl, sym,
  subst, ◌∙◌, ap, arith, Bool, true, false, List, [], ◌∷◌, ◌++◌, ltb, leb, ◌||◌, ◌==◌, ◌&&◌, length,
  replicate, length-append, if◌then◌else◌, Bool-cases, inl, inr, ==→eq, ◌⊎◌,
}
use shaunos.Base.Int.{u32_mod}
use shaunos.Print.{digit, digits_from, tmp_of}

-- the value of a digit, upper or lower case
abbrev pub digit_value : ℕ → ℕ
digit_value c = if ltb c 58 then c - 48 else if ltb c 71 then c - 55 else c - 87

-- a digit of a base, and digits only
abbrev pub is_numeral : ℕ → ℕ → Bool
is_numeral base c =
    (leb b'0' c && leb c b'9' || leb b'A' c && leb c b'F' || leb b'a' c && leb c b'f')
    && ltb (digit_value c) base

abbrev pub all_numerals : ℕ → List ℕ → Bool
all_numerals base [] = true
all_numerals base (c ∷ cs) = is_numeral base c && all_numerals base cs

-- digits read from the left
unfoldable pub read : ℕ → ℕ → List ℕ → ℕ
read base acc [] = acc
read base acc (c ∷ cs) = read base (acc * base + digit_value c) cs

digit_round : (small : Bool) (d : ℕ) → d < 16 → digit_value (digit small d) ≡ d
digit_round true d h = ground arith
digit_round false d h = ground arith

and-left : (a b : Bool) → a && b ≡ true → a ≡ true
and-left true b h = refl
and-left false b h = h

and-right : (a b : Bool) → a && b ≡ true → b ≡ true
and-right true b h = h
and-right false b h = cc

digit_numeral :
    (small : Bool) (d base : ℕ) → d < 16 → d < base → is_numeral base (digit small d) ≡ true
digit_numeral true d base h lt = ground arith
digit_numeral false d base h lt = ground arith

numerals-append :
    (base : ℕ) (xs ys : List ℕ)
    → all_numerals base xs ≡ true
    → all_numerals base ys ≡ true
    → all_numerals base (xs ++ ys) ≡ true
numerals-append base [] ys h k = k
numerals-append base (x ∷ xs) ys h k =
    let here : is_numeral base x ≡ true = and-left (is_numeral base x) (all_numerals base xs) h in
    let rest : all_numerals base xs ≡ true =
      and-right (is_numeral base x) (all_numerals base xs) h in
    rw (here, numerals-append base xs ys rest k) refl

pub numerals-reverse :
    (base : ℕ) (xs : List ℕ) → all_numerals base xs ≡ true → all_numerals base (reverse xs) ≡ true
numerals-reverse base [] h = refl
numerals-reverse base (x ∷ xs) h =
    let here : is_numeral base x ≡ true = and-left (is_numeral base x) (all_numerals base xs) h in
    let rest : all_numerals base xs ≡ true =
      and-right (is_numeral base x) (all_numerals base xs) h in
    let back = numerals-reverse base xs rest in
    rw (reverse-cons x xs) (numerals-append base (reverse xs) (x ∷ []) back (rw here refl))

pub numerals-zeros :
    (base k : ℕ) (xs : List ℕ)
    → 0 < base
    → all_numerals base xs ≡ true
    → all_numerals base (replicate k 48 ++ xs) ≡ true
numerals-zeros base zero xs pos_base h = h
numerals-zeros base (suc k) xs pos_base h =
    let zero_fits : ltb 0 base ≡ true = ground arith in
    rw (zero_fits, numerals-zeros base k xs pos_base h) refl

read-append :
    (base acc : ℕ) (xs ys : List ℕ) → read base acc (xs ++ ys) ≡ read base (read base acc xs) ys
unfolding read
read-append base acc [] ys = refl
read-append base acc (x ∷ xs) ys = read-append base (acc * base + digit_value x) xs ys

pub length-reverse : (xs : List ℕ) → length (reverse xs) ≡ length xs
length-reverse [] = refl
length-reverse (x ∷ xs) =
    ap length (reverse-cons x xs)
    ∙ omega (arith, length-append (reverse xs) (x ∷ []), length-reverse xs)

pub read-zeros : (base k : ℕ) (xs : List ℕ) → read base 0 (replicate k 48 ++ xs) ≡ read base 0 xs
unfolding read
read-zeros base zero xs = refl
read-zeros base (suc k) xs =
    let e : 0 * base + 0 ≡ 0 = omega arith in rw (e, read) (read-zeros base k xs)

-- What the loops need to know of a base.
pub record IsBase (base : ℕ) : Type 0 where
  pub whole : (n : ℕ) → n / base * base + n % base ≡ n
  pub falls : (n : ℕ) → n / base ≤ n / 2
  pub below : (n : ℕ) → n % base < 16
  pub less : (n : ℕ) → n % base < base

abbrev higher : ℕ → Bool → ℕ → ℕ → List ℕ
higher rounds small base n = if n / base == 0 then [] else digits_from rounds small base (n / base)

one_digit :
    (rounds : ℕ) (small : Bool) (base n : ℕ)
    → IsBase base
    → read base 0 (reverse (higher rounds small base n)) ≡ n / base
    → read base 0 (reverse (digits_from (suc rounds) small base n)) ≡ n
unfolding digits_from read
one_digit rounds small base n b reads =
    ap (read base 0) (reverse-cons (digit small (n % base)) (higher rounds small base n))
    ∙ read-append base 0 (reverse (higher rounds small base n)) (digit small (n % base) ∷ [])
    ∙ last
  where
    last :
        read base 0 (reverse (higher rounds small base n)) * base
          + digit_value (digit small (n % base))
        ≡ n
    last = rw (reads, digit_round small (n % base) (b.below n)) (b.whole n)

digits_from-reads :
    (rounds : ℕ) (small : Bool) (base n : ℕ)
    → IsBase base
    → n < 2 ^ suc rounds
    → read base 0 (reverse (digits_from (suc rounds) small base n)) ≡ n
unfolding read
digits_from-reads zero small base n b h =
    let none_left : n / base ≡ 0 = omega (arith, b.falls n) in
    one_digit zero small base n b (rw none_left refl)
digits_from-reads (suc rounds) small base n b h =
    one_digit (suc rounds) small base n b (elim (Bool-cases (n / base == 0)) [
      | inl done ↦ rw done (sym (==→eq _ _ done))
      | inr more ↦
          let less : n / base < 2 ^ suc rounds = omega (arith, b.falls n, pow-suc 2 (suc rounds)) in
          rw more (digits_from-reads rounds small base (n / base) b less)
    ])

digits_from-numerals :
    (rounds : ℕ) (small : Bool) (base n : ℕ)
    → IsBase base
    → all_numerals base (digits_from rounds small base n) ≡ true
unfolding digits_from
digits_from-numerals zero small base n b = refl
digits_from-numerals (suc rounds) small base n b =
    let here = digit_numeral small (n % base) base (b.below n) (b.less n) in
    elim (Bool-cases (n / base == 0)) [
      | inl done ↦ rw (here, done) refl
      | inr more ↦ rw (here, more) (digits_from-numerals rounds small base (n / base) b)
    ]

-- The number that `number` prints: base 10 takes its low 32 bits.
abbrev pub printed : ℕ → ℕ → ℕ
printed base num = if base == 10 then num % u32_mod else num

ten-IsBase : IsBase 10
ten-IsBase = record {
  whole = λ n. omega arith;
  falls = λ n. omega arith;
  below = λ n. omega arith;
  less = λ n. omega arith;
}

abbrev pub Printable : ℕ → Type 0
Printable base = (base ≡ 8) ⊎ (base ≡ 10) ⊎ (base ≡ 16)

pub Printable-IsBase : (base : ℕ) → Printable base → IsBase base
Printable-IsBase base (inl e) = rw e (record {
  whole = λ n. omega arith;
  falls = λ n. omega arith;
  below = λ n. omega arith;
  less = λ n. omega arith;
})
Printable-IsBase base (inr (inl e)) = rw e ten-IsBase
Printable-IsBase base (inr (inr e)) = rw e (record {
  whole = λ n. omega arith;
  falls = λ n. omega arith;
  below = λ n. omega arith;
  less = λ n. omega arith;
})

pub tmp_of-reads :
    (small : Bool) (base num : ℕ)
    → IsBase base
    → num < 2 ^ 64
    → read base 0 (reverse (tmp_of small base num)) ≡ printed base num
unfolding tmp_of
tmp_of-reads small base num b fits = elim (Bool-cases (num == 0)) [
  | inl zero_num ↦ rw (zero_num, ==→eq _ _ zero_num) (unfold read in ground arith)
  | inr nz ↦ elim (Bool-cases (base == 10)) [
    | inl ten ↦
        let q : base ≡ 10 = ==→eq _ _ ten in
        rw (nz, ten, q) (digits_from-reads 63 small 10 (num % u32_mod) ten-IsBase (omega arith))
    | inr other ↦ rw (nz, other) (digits_from-reads 63 small base num b fits)
  ]
]

pub tmp_of-numerals :
    (small : Bool) (base num : ℕ) → IsBase base → all_numerals base (tmp_of small base num) ≡ true
unfolding tmp_of
tmp_of-numerals small base num b =
    let some_base : 0 < base = omega (arith, b.less 0) in
    let zero_fits : ltb 0 base ≡ true = ground arith in
    elim (Bool-cases (num == 0)) [
      | inl zero_num ↦ rw (zero_num, zero_fits) refl
      | inr nz ↦ elim (Bool-cases (base == 10)) [
        | inl ten ↦
            let q : base ≡ 10 = ==→eq _ _ ten in
            rw (nz, ten)
              (subst (λ k. all_numerals k (digits_from 64 small 10 (num % u32_mod)) ≡ true) (sym q)
                (digits_from-numerals 64 small 10 (num % u32_mod) ten-IsBase))
        | inr other ↦ rw (nz, other) (digits_from-numerals 64 small base num b)
      ]
    ]
