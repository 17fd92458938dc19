-- ===== src/Display/Sequence.antt =====
-- Kernel/console.c: `write_string` on whole escape sequences, with their numbers.
use native.Mathlib.Nat.{zero-add}
use shaunos.Base.{
  ℕ, ◌+◌, ◌-◌, ◌*◌, ◌<◌, ◌≤◌, ◌≡◌, refl, ◌∙◌, ap, arith, Bool, true, false, List, [], ◌∷◌, ◌++◌,
  ◌==◌, ◌&&◌,
}
use shaunos.Base.Int.{u32_mod}
use shaunos.Display.{Console, put_char}
use shaunos.Display.Escape.{
  process_sequence, is_decimal, after_escape, after_bracket, more_digits, in_first, in_second,
  process_multichar, write_char, write_chars,
}

-- the decimal number that the digits go on with after `n`
abbrev pub decimal : ℕ → List ℕ → ℕ
decimal n [] = n
decimal n (d ∷ ds) = decimal (n * 10 + (d - b'0')) ds

abbrev pub all_digits : List ℕ → Bool
all_digits [] = true
all_digits (d ∷ ds) = is_decimal d && all_digits ds

decimal-le : (n : ℕ) (ds : List ℕ) → n ≤ decimal n ds
decimal-le n [] = omega arith
decimal-le n (d ∷ ds) = omega (arith, decimal-le (n * 10 + (d - b'0')) ds)

-- within the first number, and within the second
abbrev pub at_first : ℕ → Console → Console
at_first x con = record con { video_state = 3; seq_x = x }

abbrev pub at_second : ℕ → ℕ → Console → Console
at_second x y con = record con { video_state = 4; seq_x = x; seq_y = y }

first_digit :
    (d x : ℕ) (con : Console)
    → is_decimal d ≡ true
    → write_char d (at_first x con) ≡ at_first (more_digits x d) con
unfolding write_char process_multichar in_first
first_digit d x con h = simp h

second_digit :
    (d x y : ℕ) (con : Console)
    → is_decimal d ≡ true
    → write_char d (at_second x y con) ≡ at_second x (more_digits y d) con
unfolding write_char process_multichar in_second
second_digit d x y con h = simp h

first_digits :
    (ds rest : List ℕ) (x : ℕ) (con : Console)
    → all_digits ds ≡ true
    → decimal x ds < u32_mod
    → write_chars (ds ++ rest) (at_first x con) ≡ write_chars rest (at_first (decimal x ds) con)
unfolding write_chars
first_digits [] rest x con h low = refl
first_digits (d ∷ ds) rest x con h low =
    let here : is_decimal d ≡ true = ground arith in
    let others : all_digits ds ≡ true = ground arith in
    let exact : more_digits x d ≡ x * 10 + (d - b'0') =
      omega (arith, decimal-le (x * 10 + (d - b'0')) ds) in
    ap (write_chars (ds ++ rest)) (first_digit d x con here ∙ ap (λ n. at_first n con) exact)
    ∙ first_digits ds rest (x * 10 + (d - b'0')) con others low

second_digits :
    (ds rest : List ℕ) (x y : ℕ) (con : Console)
    → all_digits ds ≡ true
    → decimal y ds < u32_mod
    → write_chars (ds ++ rest) (at_second x y con)
      ≡ write_chars rest (at_second x (decimal y ds) con)
unfolding write_chars
second_digits [] rest x y con h low = refl
second_digits (d ∷ ds) rest x y con h low =
    let here : is_decimal d ≡ true = ground arith in
    let others : all_digits ds ≡ true = ground arith in
    let exact : more_digits y d ≡ y * 10 + (d - b'0') =
      omega (arith, decimal-le (y * 10 + (d - b'0')) ds) in
    ap (write_chars (ds ++ rest)) (second_digit d x y con here ∙ ap (λ n. at_second x n con) exact)
    ∙ second_digits ds rest x (y * 10 + (d - b'0')) con others low

-- the escape, the bracket and the first digit
opening :
    (d : ℕ) (con : Console)
    → con.video_state ≡ 0
    → is_decimal d ≡ true
    → write_char d (write_char b'[' (write_char 27 con)) ≡ at_first (d - b'0') con
unfolding write_char process_multichar after_escape after_bracket put_char
opening d con e h = let not_question : d == b'?' ≡ false = ground arith in simp (e, not_question, h)

last_of_one :
    (ch x : ℕ) (con : Console)
    → is_decimal ch ≡ false
    → ch == b';' ≡ false
    → write_char ch (at_first x con)
      ≡ record (process_sequence x 1 ch (at_first x con)) { video_state = 0 }
unfolding write_char process_multichar in_first
last_of_one ch x con h e = simp (h, e)

semicolon : (x : ℕ) (con : Console) → write_char b';' (at_first x con) ≡ at_second x 0 con
unfolding write_char process_multichar in_first
semicolon x con = refl

last_of_two :
    (ch x y : ℕ) (con : Console)
    → is_decimal ch ≡ false
    → write_char ch (at_second x y con)
      ≡ record (process_sequence x y ch (at_second x y con)) { video_state = 0 }
unfolding write_char process_multichar in_second
last_of_two ch x y con h = simp h

-- An escape sequence with one number, outside another one: the number is read in decimal, the last
-- character is acted on with it and a second number of 1, and the sequence is over. The number is below
-- 2^32, and the last character neither a digit nor a semicolon.
pub sequence_one_number :
    (d : ℕ) (ds : List ℕ) (ch : ℕ) (con : Console)
    → con.video_state ≡ 0
    → all_digits (d ∷ ds) ≡ true
    → decimal 0 (d ∷ ds) < u32_mod
    → is_decimal ch ≡ false
    → ch == b';' ≡ false
    → write_chars (27 ∷ b'[' ∷ d ∷ ds ++ ch ∷ []) con
      ≡ record (process_sequence (decimal 0 (d ∷ ds)) 1 ch (at_first (decimal 0 (d ∷ ds)) con)) {
        video_state = 0;
      }
unfolding write_chars
sequence_one_number d ds ch con e h low last other =
    let here : is_decimal d ≡ true = ground arith in
    let others : all_digits ds ≡ true = ground arith in
    let first = zero-add (d - b'0') in
    let start : write_char d (write_char b'[' (write_char 27 con)) ≡ at_first (0 + (d - b'0')) con =
      rw first (opening d con e here) in
    ap (write_chars (ds ++ ch ∷ [])) start
    ∙ first_digits ds (ch ∷ []) (0 + (d - b'0')) con others low
    ∙ last_of_one ch (decimal (0 + (d - b'0')) ds) con last other

-- An escape sequence with two numbers, outside another one: both are read in decimal, the last
-- character is acted on with them, and the sequence is over. The numbers are below 2^32, the first has a
-- digit at least, and the last character is not a digit.
pub sequence_two_numbers :
    (d : ℕ) (ds es : List ℕ) (ch : ℕ) (con : Console)
    → con.video_state ≡ 0
    → all_digits (d ∷ ds) ≡ true
    → all_digits es ≡ true
    → decimal 0 (d ∷ ds) < u32_mod
    → decimal 0 es < u32_mod
    → is_decimal ch ≡ false
    → write_chars (27 ∷ b'[' ∷ d ∷ ds ++ (b';' ∷ es ++ ch ∷ [])) con
      ≡ record (process_sequence
          (decimal 0 (d ∷ ds))
          (decimal 0 es)
          ch
          (at_second (decimal 0 (d ∷ ds)) (decimal 0 es) con)) { video_state = 0 }
unfolding write_chars
sequence_two_numbers d ds es ch con e h h' low low' last =
    let here : is_decimal d ≡ true = ground arith in
    let others : all_digits ds ≡ true = ground arith in
    let x = decimal (0 + (d - b'0')) ds in
    let first = zero-add (d - b'0') in
    let start : write_char d (write_char b'[' (write_char 27 con)) ≡ at_first (0 + (d - b'0')) con =
      rw first (opening d con e here) in
    ap (write_chars (ds ++ (b';' ∷ es ++ ch ∷ []))) start
    ∙ first_digits ds (b';' ∷ es ++ ch ∷ []) (0 + (d - b'0')) con others low
    ∙ ap (write_chars (es ++ ch ∷ [])) (semicolon x con)
    ∙ second_digits es (ch ∷ []) x 0 con h' low'
    ∙ last_of_two ch x (decimal 0 es) con last
