-- ===== src/Checksum/Value.antt =====
-- Sums of 16-bit words in ones' complement: numbers that are equal modulo 65535, and 0 only to 0.
use shaunos.Base.{
  ℕ, ◌+◌, ◌-◌, ◌*◌, ◌%◌, ◌≤◌, ◌<◌, ◌^◌, none, some, length, ◌&&◌, ◌≡◌, refl, sym, subst, arith,
  Bool, true, false, List, [], ◌∷◌, ltb, ◌==◌, not, Bool-cases, inl, inr, ==→eq, ==→ne, ◌≢◌,
  if◌then◌else◌,
}
use shaunos.Checksum.{reduce, Partial}

-- equal as sums in ones' complement
pub record Same (a b : ℕ) : Type 0 where
  pub mod_eq : a % 65535 ≡ b % 65535
  pub zero_left : a ≡ 0 → b ≡ 0
  pub zero_right : b ≡ 0 → a ≡ 0

-- The words of a list of bytes, the low half first, added up; `high` tells that the first byte is the
-- high half of a word.
abbrev pub value : Bool → List ℕ → ℕ
value high [] = 0
value false (b ∷ bs) = b + value true bs
value true (b ∷ bs) = 256 * b + value false bs

-- the sum folded to 16 bits: what a ones' complement adder keeps
abbrev pub fold : ℕ → ℕ
fold s = if s == 0 then 0 else (s - 1) % 65535 + 1

pub refl-Same : (a : ℕ) → Same a a
refl-Same a = record { mod_eq = refl; zero_left = λ h. h; zero_right = λ h. h }

pub trans-Same : {a b c : ℕ} → Same a b → Same b c → Same a c
trans-Same ab bc = record {
  mod_eq = cc;
  zero_left = λ h. bc.zero_left (ab.zero_left h);
  zero_right = λ h. ab.zero_right (bc.zero_right h);
}

pub add-Same : {a b c d : ℕ} → Same a b → Same c d → Same (a + c) (b + d)
add-Same ab cd = record {
  mod_eq = omega (arith, ab.mod_eq, cd.mod_eq);
  zero_left = λ h. omega (arith, ab.zero_left (omega arith), cd.zero_left (omega arith));
  zero_right = λ h. omega (arith, ab.zero_right (omega arith), cd.zero_right (omega arith));
}

pub times-Same : {a b : ℕ} → Same a b → Same (a * 256) (b * 256)
times-Same ab = record {
  mod_eq = omega (arith, ab.mod_eq);
  zero_left = λ h. omega (arith, ab.zero_left (omega arith));
  zero_right = λ h. omega (arith, ab.zero_right (omega arith));
}

pub reduce-Same : (s : ℕ) → Same (reduce s) s
reduce-Same s = record {
  mod_eq = ground arith;
  zero_left = λ h. ground arith;
  zero_right = λ h. ground arith;
}

pub word_shift : (a : ℕ) → Same (a * 256 * 256) a
word_shift a = record {
  mod_eq = omega arith;
  zero_left = λ h. omega arith;
  zero_right = λ h. omega arith;
}

pub fold-Same : (a b : ℕ) → a ≤ 65535 → Same a b → a ≡ fold b
fold-Same a b h ab = elim (Bool-cases (b == 0)) [
  | inl z ↦ rw z (ab.zero_right (==→eq _ _ z))
  | inr nz ↦
      let b_some : b ≢ 0 = ==→ne _ _ nz in
      let a_some : a ≢ 0 = λ e. b_some (ab.zero_left e) in
      rw nz (omega (arith, ab.mod_eq, a_some, b_some))
]

pub eq-Same : {a b : ℕ} → a ≡ b → Same a b
eq-Same {a} e = subst (λ x. Same a x) e (refl-Same a)

pub sym-Same : {a b : ℕ} → Same a b → Same b a
sym-Same ab = record {
  mod_eq = sym ab.mod_eq;
  zero_left = ab.zero_right;
  zero_right = ab.zero_left;
}

-- the bytes of a list in the other halves of the words
pub value_shift : (high : Bool) (bs : List ℕ) → Same (value (not high) bs) (value high bs * 256)
value_shift true [] = eq-Same (omega arith)
value_shift false [] = eq-Same (omega arith)
value_shift false (b ∷ bs) =
    trans-Same (add-Same (refl-Same (256 * b)) (value_shift true bs)) (eq-Same (omega arith))
value_shift true (b ∷ bs) =
    let high_byte : Same b (256 * b * 256) = record {
      mod_eq = omega arith;
      zero_left = λ h. omega arith;
      zero_right = λ h. omega arith;
    } in
    trans-Same (add-Same high_byte (value_shift false bs)) (eq-Same (omega arith))

-- while the sum is an `int`
pub reduce-small : (s : ℕ) → s < 2 ^ 32 → reduce s ≤ 65535
reduce-small s h = ground arith

-- reducing a sum does not make it larger
pub reduce-le : (s : ℕ) → reduce s ≤ s
reduce-le s = ground arith

-- the total of the sums so far and of the bytes that follow
abbrev pub total_of : Partial → List ℕ → ℕ
total_of (sum, none) bs = sum + value false bs
total_of (sum, some c) bs = sum + (c + value true bs)

abbrev pub are_bytes : List ℕ → Bool
are_bytes [] = true
are_bytes (b ∷ bs) = ltb b 256 && are_bytes bs

pub head_and_tail :
    (b : ℕ) (bs : List ℕ) → are_bytes (b ∷ bs) ≡ true → (b < 256) × (are_bytes bs ≡ true)
head_and_tail b bs h = (ground arith, ground arith)

pub value-le : (high : Bool) (bs : List ℕ) → are_bytes bs ≡ true → value high bs ≤ 65280 * length bs
value-le high [] h = omega arith
value-le false (b ∷ bs) h =
    let (first, others) = head_and_tail b bs h in omega (arith, value-le true bs others, first)
value-le true (b ∷ bs) h =
    let (first, others) = head_and_tail b bs h in omega (arith, value-le false bs others, first)
