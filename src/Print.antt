-- ===== src/Print.antt =====
-- lib/vsprintf.c: formatted printing.
-- What is printed is the list of the bytes written. `int`s are integers that do not overflow; the
-- number to print is its 64-bit pattern.
pub mod Numerals
pub mod Number
pub mod Format
mod Tests
use shaunos.Base.{
  ℕ, zero, suc, ◌+◌, ◌-◌, ◌*◌, ◌/◌, ◌%◌, ◌^◌, max, reverse, Bool, true, false, List, [], ◌∷◌, ◌++◌,
  ltb, leb, ◌==◌, ◌&&◌, ◌||◌, not, length, replicate, if◌then◌else◌,
}
use shaunos.Base.Int.{ℤ, pos, negsuc, u32_mod, shift_ℤ}
use shaunos.Base.Fault.{Result, ok, out_of_fuel, ◌>>=◌}

-- `SIGN`, `LEFT`, `SPACE`, `ZEROPAD`, `SPECIAL`, `SMALL` and `PLUS`
pub record Flags : Type 0 where
  pub sign : Bool
  pub left : Bool
  pub space : Bool
  pub zeropad : Bool
  pub special : Bool
  pub small : Bool
  pub plus : Bool

-- `digits[d] | locase`
abbrev pub digit : Bool → ℕ → ℕ
digit small d = if ltb d 10 then 48 + d else if small then 87 + d else 55 + d

-- the loops that fill `tmp`, lowest digit first: at most 22 rounds for 64 bits
unfoldable pub digits_from : ℕ → Bool → ℕ → ℕ → List ℕ
digits_from zero small base num = []
digits_from (suc rounds) small base num =
    let rest = digits_from rounds small base (num / base) in
    digit small (num % base) ∷ (if num / base == 0 then [] else rest)

-- `tmp`; `do_div` takes the number to be an `unsigned long`.
unfoldable pub tmp_of : Bool → ℕ → ℕ → List ℕ
unfolding digits_from
tmp_of small base num =
    if num == 0
    then 48 ∷ []
    else if base == 10
    then digits_from 64 small 10 (num % u32_mod)
    else digits_from 64 small base num

-- `while (--width >= 0) *buf++ = c`: what it writes, and the `width` that it leaves
unfoldable pub pad : ℕ → ℤ → List ℕ × ℤ
pad c (pos n) = (replicate n c, negsuc 0)
pad c (negsuc n) = ([], negsuc (suc n))

-- the last loop, which does not change `width`
unfoldable pub trail : ℕ → ℤ → Result (List ℕ)
trail zero width = out_of_fuel
trail (suc fuel) (negsuc n) = ok []
trail (suc fuel) (pos n) = do rest ← trail fuel (pos n); ok (32 ∷ rest)

-- the sign that is printed, or 0
abbrev pub sign_of : Flags → ℕ → ℕ
sign_of f num =
    if not f.sign
    then 0
    else if leb (2 ^ 63) num
    then b'-'
    else if f.plus
    then b'+'
    else if f.space
    then b' '
    else 0

abbrev pub magnitude : Flags → ℕ → ℕ
magnitude f num = if f.sign && leb (2 ^ 63) num then 2 ^ 64 - num else num

abbrev pub prefix : Flags → ℕ → List ℕ
prefix f base =
    if f.special && not (base == 10)
    then 48 ∷ (if base == 16 then (if f.small then b'x' else b'X') ∷ [] else [])
    else []

-- `number` from the leading padding on: the flags `LEFT` and `ZEROPAD`, the `width` that is left, the
-- sign, the prefix, the `precision` and `tmp`
unfoldable pub lay_out : ℕ → Bool → Bool → ℤ → List ℕ → List ℕ → ℕ → List ℕ → Result (List ℕ)
unfolding pad trail
lay_out fuel left zeropad width sign prefix precision tmp =
    let spaces = if zeropad || left then ([], width) else pad 32 width in
    let padding = if left then ([], spaces.1) else pad (if zeropad then 48 else 32) spaces.1 in
    do
      rest ← trail fuel padding.1
      ok (
          spaces.0
          ++ (sign
              ++ (prefix
                  ++ (padding.0
                      ++ (replicate (precision - length tmp) 48 ++ (reverse tmp ++ rest))))))

-- `number`
unfoldable pub number : ℕ → ℕ → Flags → ℕ → ℤ → ℕ → Result (List ℕ)
number fuel num f base width precision =
    let zeropad = f.zeropad && not f.left in
    let sign = sign_of f num in
    let tmp = tmp_of f.small base (magnitude f num) in
    let precision' = max precision (length tmp) in
    let width' =
      shift_ℤ width 0 ((if sign == 0 then 0 else 1) + length (prefix f base) + precision') in
    let signs = if sign == 0 then [] else sign ∷ [] in
    lay_out fuel f.left zeropad width' signs (prefix f base) precision' tmp
