-- ===== src/Print/Tests.antt =====
-- Runs of formatted printing, and examples of its theorems.
use shaunos.Base.{ℕ, ◌+◌, ◌≡◌, refl, arith, true, List, [], ◌∷◌, ◌++◌, some, take, inr}
use shaunos.Base.Int.{pos, sub32}
use shaunos.Base.Fault.{ok}
use shaunos.Print.{Flags, number, tmp_of, lay_out}
use shaunos.Print.Number.{Prints, number-Prints}
use shaunos.Print.Format.{
  word, text, no_flags, vsnprintf, print, convert, commit, setting, print_signed, print_number,
  signed_argument, take_star,
}
use shaunos.Print.Format.Output.{vsnprintf-string}

-- "ab", "cd" and "e"
abbrev ab : List ℕ
ab = 97 ∷ 98 ∷ []

abbrev e : List ℕ
e = 101 ∷ []

abbrev zero_padded : Flags
zero_padded = record no_flags { zeropad = true; small = true }

abbrev leftward : Flags
leftward = record no_flags { left = true }

-- `"%4x"` of 255
hex_run : number 1 255 zero_padded 16 (pos 4) 0 ≡ ok (48 ∷ 48 ∷ 102 ∷ 102 ∷ [])
unfolding number tmp_of lay_out
hex_run = refl

-- a width that is set once stays for the next conversion: `"%3d%d"` of 1 and 2
width_run :
    vsnprintf 1 9 (37 ∷ 51 ∷ 100 ∷ 37 ∷ 100 ∷ []) (word 1 ∷ word 2 ∷ [])
    ≡ ok (32 ∷ 32 ∷ 49 ∷ 32 ∷ 32 ∷ 50 ∷ 0 ∷ [])
unfolding vsnprintf print commit setting convert print_signed signed_argument print_number number
    tmp_of lay_out
width_run = refl

-- a `*` ends its conversion: `"%*d"` of 3 and 1
star_run : vsnprintf 1 9 (37 ∷ 42 ∷ 100 ∷ []) (word 3 ∷ word 1 ∷ []) ≡ ok (100 ∷ 0 ∷ [])
unfolding vsnprintf print commit setting convert take_star
star_run = refl

number-Prints_example : Prints 16 255 4 0 (number 1 255 zero_padded 16 (pos 4) 0)
number-Prints_example =
    number-Prints 0 255 zero_padded 16 4 0 (inr (inr refl)) (omega arith) refl refl refl

-- `"e%se"` with a bound of 2, where three characters fit
vsnprintf-string_example :
    vsnprintf 0 (1 + 1) (e ++ b'%' ∷ b's' ∷ e) (text (some ab) ∷ [])
    ≡ ok (e ++ (ab ++ (take (sub32 1 2) e ++ 0 ∷ [])))
vsnprintf-string_example = vsnprintf-string 0 0 e ab e [] refl refl
