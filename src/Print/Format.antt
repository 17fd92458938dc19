-- ===== src/Print/Format.antt =====
-- `vsnprintf` of lib/vsprintf.c.
-- A format is the list of its characters before the byte of 0. What is written goes from `str` up and
-- is the list of its bytes. The variable arguments are the slots of the stack: a 32-bit word, or the
-- pointer to a string, which may be NULL. The function's result is one less than what it writes.

pub mod Output
use shaunos.Base.{
  ℕ, zero, suc, ◌+◌, ◌-◌, ◌*◌, ◌/◌, ◌%◌, ◌^◌, min, Bool, true, false, Option, none, some, List, [],
  ◌∷◌, ◌++◌, ltb, leb, ◌==◌, ◌&&◌, ◌||◌, not, length, take, replicate, if◌then◌else◌,
}
use shaunos.Base.Int.{ℤ, pos, negsuc, u32_mod, sub32, shift_ℤ}
use shaunos.Base.Fault.{Result, ok, out_of_bounds, ◌>>=◌}
use shaunos.Print.{Flags, number}

pub data Arg : Type 0 where
  word : ℕ → Arg
  text : Option (List ℕ) → Arg

-- What a conversion collects after its `%`: `flag`, `qualifier` or 0, `dot`, `precesion`, and the
-- number that is being read, if one is.
pub record Conversion : Type 0 where
  pub flags : Flags
  pub qualifier : ℕ
  pub dot : Bool
  pub precision : ℕ
  pub reading : Option ℕ

-- `width`, `len` and `ap`
pub record Run : Type 0 where
  pub width : ℤ
  pub len : ℕ
  pub args : List Arg

abbrev pub no_flags : Flags
no_flags = record {
  sign = false;
  left = false;
  space = false;
  zeropad = false;
  special = false;
  small = false;
  plus = false;
}

-- what the lines before `reswitch` set
abbrev pub fresh : Conversion
fresh = record { flags = no_flags; qualifier = 0; dot = false; precision = 0; reading = none }

abbrev pub is_digit : ℕ → Bool
is_digit c = leb 48 c && leb c 57

-- `n * 10 + ch - '0'`
abbrev digit_after : Option ℕ → ℕ → Option ℕ
digit_after none c = if c == 48 then none else some (c - 48)
digit_after (some n) c = some (n * 10 + (c - 48))

-- The end of a number, at a character that is no digit, sets `precesion` or `width`.
unfoldable pub commit : ℕ → Conversion → ℤ → Conversion × ℤ
commit c v width = if is_digit c then (v, width) else elim v.reading [
  | none ↦ (v, width)
  | some n ↦
      if v.dot
      then (record v { precision = n; reading = none }, width)
      else (record v { reading = none }, pos n)
]

abbrev flag_of : ℕ → Flags → Option Flags
flag_of c f =
    if c == b'#'
    then some (record f { special = true })
    else if c == b'+'
    then some (record f { plus = true })
    else if c == b'-'
    then some (record f { left = true })
    else if c == b' '
    then some (record f { space = true })
    else if c == b'0'
    then some (record f { zeropad = true })
    else none

abbrev qualifier_of : ℕ → ℕ → Option ℕ
qualifier_of c q =
    if c == b'L'
    then some b'L'
    else if c == b'H'
    then some b'H'
    else if c == b'l'
    then some (if q == b'l' then b'L' else b'l')
    else if c == b'z' || c == b'Z'
    then some b'z'
    else if c == b'h'
    then some (if q == b'h' then b'H' else b'h')
    else if c == b't'
    then some b't'
    else none

abbrev with_qualifier : Conversion → Option ℕ → Option Conversion
with_qualifier v none = none
with_qualifier v (some q) = some (record v { qualifier = q })

abbrev with_flags : Conversion → Option Flags → Option Conversion → Option Conversion
with_flags v none other = other
with_flags v (some f) other = some (record v { flags = f })

-- the cases of the switch that end in `goto reswitch`
unfoldable pub setting : ℕ → Conversion → Option Conversion
setting c v = elim (if is_digit c then digit_after v.reading c else none) [
  | some n ↦ some (record v { reading = some n })
  | none ↦ with_flags v (flag_of c v.flags) (
      if c == b'.'
      then some (record v { dot = true })
      else with_qualifier v (qualifier_of c v.qualifier))
]

-- `va_arg` of a type of 32 bits
unfoldable pub va_word : List Arg → Result (ℕ × List Arg)
va_word [] = out_of_bounds
va_word (word n ∷ args) = ok (n % u32_mod, args)
va_word (text s ∷ args) = out_of_bounds

-- and of `long long`
unfoldable pub va_long_long : List Arg → Result (ℕ × List Arg)
unfolding va_word
va_long_long args = do
  (low, args') ← va_word args
  (high, args'') ← va_word args'
  ok (low + u32_mod * high, args'')

unfoldable pub va_text : List Arg → Result (Option (List ℕ) × List Arg)
va_text [] = out_of_bounds
va_text (word n ∷ args) = out_of_bounds
va_text (text s ∷ args) = ok (s, args)

-- the low bits of a number as a signed type, widened to 64 bits
abbrev pub signed : ℕ → ℕ → ℕ
signed bits n = let m = n % 2 ^ bits in if leb (2 ^ (bits - 1)) m then m + 2 ^ 64 - 2 ^ bits else m

-- the switch at `handle_nosign`
unfoldable pub unsigned_argument : ℕ → List Arg → Result (ℕ × List Arg)
unfolding va_word va_long_long
unsigned_argument q args = if q == b'L' then va_long_long args else do
  (n, args') ← va_word args
  ok (
    if q == b'h'
        then n % 2 ^ 16
        else if q == b'H'
        then n % 2 ^ 8
        else if q == b't'
        then signed 32 n
        else n,
    args',
  )

-- the switch at `handle_sign`
unfoldable pub signed_argument : ℕ → List Arg → Result (ℕ × List Arg)
unfolding va_word va_long_long
signed_argument q args = if q == b'L' then va_long_long args else do
  (n, args') ← va_word args
  ok (if q == b'h' then signed 16 n else if q == b'H' then signed 8 n else signed 32 n, args')

-- `while (--width > 0) *str++ = ' '`: what it writes, and the `width` that it leaves
unfoldable pub pad_one_less : ℤ → List ℕ × ℤ
pad_one_less (pos zero) = ([], negsuc 0)
pad_one_less (pos (suc n)) = (replicate n 32, pos 0)
pad_one_less (negsuc n) = ([], negsuc (suc n))

-- `while (width-- > 0) *str++ = ' '` where `width` is positive
unfoldable pub pad_width : Bool → ℤ → List ℕ × ℤ
pad_width on (pos (suc n)) = if on then (replicate (suc n) 32, negsuc 0) else ([], pos (suc n))
pad_width on width = ([], width)

-- the case of `%c`
unfoldable pub print_char : Conversion → Run → Result (List ℕ × Run)
unfolding va_word pad_one_less
print_char v r =
    let before = if v.flags.left then ([], r.width) else pad_one_less r.width in
    let after = pad_one_less before.1 in
    do
      (c, args) ← va_word r.args
      ok (
        before.0 ++ (c % 256 ∷ after.0),
        record r { width = after.1; len = sub32 r.len 1; args = args },
      )

-- `"(null)"`
abbrev pub null_text : List ℕ
null_text = 40 ∷ 110 ∷ 117 ∷ 108 ∷ 108 ∷ 41 ∷ []

abbrev pub string_or_null : Option (List ℕ) → List ℕ
string_or_null none = null_text
string_or_null (some s) = s

-- the case of `%s`
unfoldable pub print_text : Conversion → Run → Result (List ℕ × Run)
unfolding va_text pad_width
print_text v r = do
  (s, args) ← va_text r.args
  let chars = if v.dot then take v.precision (string_or_null s) else string_or_null s
  let before = pad_width (not v.flags.left) (shift_ℤ r.width 0 (length chars))
  let after = pad_width v.flags.left before.1
  ok (
    before.0 ++ (chars ++ after.0),
    record r { width = after.1; len = sub32 r.len (length chars); args = args },
  )

-- `handle_number`
unfoldable pub print_number :
    ℕ → ℕ → Flags → ℕ → Conversion → Run → List Arg → Result (List ℕ × Run)
print_number fuel num f base v r args = do
  out ← number fuel num f base r.width v.precision
  ok (out, record r { args = args })

-- the case of `*`, whose `break` leaves the conversion
unfoldable pub take_star : Conversion → Run → Result (List ℕ × Run)
unfolding va_word
take_star v r = do
  (n, args) ← va_word r.args
  let width = if leb (2 ^ 31) n then negsuc (u32_mod - n - 1) else pos n
  ok ([], record r { width = if v.dot then r.width else width; len = sub32 r.len 1; args = args })

unfoldable pub print_signed : ℕ → Conversion → Run → Result (List ℕ × Run)
print_signed fuel v r = do
  (num, args) ← signed_argument v.qualifier r.args
  print_number fuel num (record v.flags { sign = true }) 10 v r args

unfoldable pub print_unsigned : ℕ → ℕ → Conversion → Run → Result (List ℕ × Run)
unfolding unsigned_argument print_number
print_unsigned fuel c v r = do
  (num, args) ← unsigned_argument v.qualifier r.args
  let f = if c == b'x' then record v.flags { small = true } else v.flags
  print_number fuel num f (if c == b'o' then 8 else if c == b'u' then 10 else 16) v r args

unfoldable pub print_pointer : ℕ → Conversion → Run → Result (List ℕ × Run)
unfolding va_word print_number
print_pointer fuel v r = do (num, args) ← va_word r.args; print_number fuel num v.flags 16 v r args

-- the cases of the switch that leave it, and the characters without a case
unfoldable pub convert : ℕ → ℕ → Conversion → Run → Result (List ℕ × Run)
convert fuel c v r =
    if c == b'%'
    then ok (b'%' ∷ [], record r { len = sub32 r.len 1 })
    else if c == b'*'
    then take_star v r
    else if c == b'c'
    then print_char v r
    else if c == b's'
    then print_text v r
    else if c == b'i' || c == b'd'
    then print_signed fuel v r
    else if c == b'p'
    then print_pointer fuel v r
    else if c == b'o' || c == b'u' || c == b'x' || c == b'X'
    then print_unsigned fuel c v r
    else ok ([], r)

-- the loop, inside a conversion or outside of one; a conversion that the format's end cuts off is
-- read past that end
unfoldable pub print : ℕ → Option Conversion → Run → List ℕ → Result (List ℕ)
print fuel none r [] = ok (0 ∷ [])
print fuel (some v) r [] = out_of_bounds
print fuel none r (c ∷ fmt) =
    let percent = c == b'%' in
    let rest =
      print fuel (if percent then some fresh else none)
        (if percent then r else record r { len = r.len - 1 }) fmt in
    if r.len == 0 then ok (0 ∷ []) else if percent then rest else rest >>= (λ out. ok (c ∷ out))
print fuel (some v) r (c ∷ fmt) =
    let (v', width) = commit c v r.width in
    elim (setting c v') [
      | some next ↦ print fuel (some next) (record r { width = width }) fmt
      | none ↦ do
        (out, r') ← convert fuel c v' (record r { width = width })
        rest ← print fuel none r' fmt
        ok (out ++ rest)
    ]

unfoldable pub vsnprintf : ℕ → ℕ → List ℕ → List Arg → Result (List ℕ)
vsnprintf fuel size fmt args =
    print fuel none (record { width = pos 0; len = size; args = args }) fmt
