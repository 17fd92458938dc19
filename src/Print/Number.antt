-- ===== src/Print/Number.antt =====
-- `number` of lib/vsprintf.c: what is printed reads back as the number.
use shaunos.Base.{
  ℕ, zero, suc, ◌+◌, ◌-◌, ◌^◌, ◌<◌, ◌≤◌, ◌≡◌, max, reverse, refl, ◌∙◌, arith, Bool, true, false,
  List, [], ◌++◌, ◌&&◌, not, length, replicate, append-nil, if◌then◌else◌,
}
use shaunos.Base.Int.{ℤ, pos, negsuc, shift_ℤ, pos_part}
use shaunos.Base.Fault.{Result, ok, out_of_fuel}
use shaunos.Print.{Flags, tmp_of, pad, trail, sign_of, magnitude, prefix, lay_out, number}
use shaunos.Print.Numerals.{
  all_numerals, read, length-reverse, read-zeros, numerals-zeros, numerals-reverse, printed,
  Printable, Printable-IsBase, tmp_of-reads, tmp_of-numerals,
}

-- What a number is printed as: spaces, then digits of the base that read as the number; the spaces fill up
-- the width, and there are no more of them.
pub record Prints (base num w p : ℕ) (r : Result (List ℕ)) : Type 0 where
  pub spaces : ℕ
  pub text : List ℕ
  pub written : r ≡ ok (replicate spaces 32 ++ text)
  pub digits : all_numerals base text ≡ true
  pub reads : read base 0 text ≡ printed base num
  pub wide : w ≤ spaces + length text
  pub tight : spaces ≤ w - length text
  pub exact : p ≤ length text

trail-endless : (fuel n : ℕ) → trail fuel (pos n) ≡ out_of_fuel
unfolding trail
trail-endless zero n = refl
trail-endless (suc fuel) n = rw (trail-endless fuel n) refl

magnitude_lem : (f : Flags) (num : ℕ) → sign_of f num ≡ 0 → magnitude f num ≡ num
magnitude_lem f num e = ground arith

room_lem : (w n : ℕ) → pos_part (shift_ℤ (pos w) 0 n) ≡ w - n
room_lem w n = ground arith

prefix_lem : (f : Flags) (base : ℕ) → f.special ≡ false → prefix f base ≡ []
prefix_lem f base e = rw e refl

length-zeros : (k c : ℕ) (xs : List ℕ) → length (replicate k c ++ xs) ≡ k + length xs
length-zeros zero c xs = omega arith
length-zeros (suc k) c xs = omega (arith, length-zeros k c xs)

-- a number laid out to the right, without a sign and a prefix
lay_out-right :
    (fuel : ℕ) (zeropad : Bool) (width : ℤ) (precision : ℕ) (tmp : List ℕ)
    → lay_out (suc fuel) false zeropad width [] [] precision tmp
      ≡ ok (
          replicate (pos_part width) (if zeropad then 48 else 32)
          ++ (replicate (precision - length tmp) 48 ++ reverse tmp))
unfolding lay_out pad trail
lay_out-right fuel true (pos n) precision tmp = rw (append-nil (reverse tmp)) refl
lay_out-right fuel true (negsuc n) precision tmp = rw (append-nil (reverse tmp)) refl
lay_out-right fuel false (pos n) precision tmp = rw (append-nil (reverse tmp)) refl
lay_out-right fuel false (negsuc n) precision tmp = rw (append-nil (reverse tmp)) refl

lay_out-left :
    (fuel n precision : ℕ) (tmp : List ℕ)
    → lay_out fuel true false (pos n) [] [] precision tmp ≡ out_of_fuel
unfolding lay_out
lay_out-left fuel n precision tmp = rw (trail-endless fuel n) refl

-- `number` without a sign and a prefix
number-unsigned :
    (fuel num : ℕ) (f : Flags) (base w p : ℕ)
    → f.special ≡ false
    → sign_of f num ≡ 0
    → number fuel num f base (pos w) p ≡ (
        let tmp = tmp_of f.small base num in
        lay_out fuel f.left
          (f.zeropad && not f.left)
          (shift_ℤ (pos w) 0 (max p (length tmp)))
          []
          []
          (max p (length tmp))
          tmp)
unfolding number
number-unsigned fuel num f base w p no_special no_sign =
    let d : ℕ = max p (length (tmp_of f.small base num)) in
    let no_chars : 0 + d ≡ d = omega arith in
    rw (no_sign, magnitude_lem f num no_sign, prefix_lem f base no_special, no_chars) refl

-- laid out to the right, a number is padded up to the width
lay_out-Prints :
    (fuel num base w p : ℕ) (zeropad : Bool) (W : ℤ) (d : ℕ) (tmp : List ℕ)
    → 0 < base
    → all_numerals base (reverse tmp) ≡ true
    → read base 0 (reverse tmp) ≡ printed base num
    → pos_part W ≡ w - d
    → p ≤ d
    → length tmp ≤ d
    → Prints base num w p (lay_out (suc fuel) false zeropad W [] [] d tmp)
lay_out-Prints fuel num base w p zeropad W d tmp some_base numerals reads room precise fits =
    go zeropad (lay_out-right fuel zeropad W d tmp)
  where
    digits : List ℕ
    digits = replicate (d - length tmp) 48 ++ reverse tmp

    digits_only : all_numerals base digits ≡ true
    digits_only = numerals-zeros base (d - length tmp) (reverse tmp) some_base numerals

    digits_read : read base 0 digits ≡ printed base num
    digits_read = read-zeros base (d - length tmp) (reverse tmp) ∙ reads

    digits_long : length digits ≡ d
    digits_long = omega (arith, length-zeros (d - length tmp) 48 (reverse tmp), length-reverse tmp)

    go :
        (z : Bool)
        → lay_out (suc fuel) false z W [] [] d tmp
          ≡ ok (replicate (pos_part W) (if z then 48 else 32) ++ digits)
        → Prints base num w p (lay_out (suc fuel) false z W [] [] d tmp)
    go true e = record {
      spaces = 0;
      text = replicate (pos_part W) 48 ++ digits;
      written = e;
      digits = numerals-zeros base (pos_part W) digits some_base digits_only;
      reads = read-zeros base (pos_part W) digits ∙ digits_read;
      wide = omega (arith, length-zeros (pos_part W) 48 digits, digits_long, room);
      tight = omega arith;
      exact = omega (arith, length-zeros (pos_part W) 48 digits, digits_long);
    }
    go false e = record {
      spaces = pos_part W;
      text = digits;
      written = e;
      digits = digits_only;
      reads = digits_read;
      wide = omega (arith, digits_long, room);
      tight = omega (arith, digits_long, room);
      exact = omega (arith, digits_long);
    }

-- A 64-bit number that is printed in base 8, 10 or 16 without a sign, a prefix and `LEFT` comes out as
-- spaces and then digits of the base, and nothing else, that read back as it, in base 10 modulo 2^32.
-- There are at least as many digits as the precision says, and the spaces fill up the width and no more.
pub number-Prints :
    (fuel num : ℕ) (f : Flags) (base w p : ℕ)
    → Printable base
    → num < 2 ^ 64
    → f.left ≡ false
    → f.special ≡ false
    → sign_of f num ≡ 0
    → Prints base num w p (number (suc fuel) num f base (pos w) p)
number-Prints fuel num f base w p printable fits no_left no_special no_sign =
    let d : ℕ = max p (length (tmp_of f.small base num)) in
    let b = Printable-IsBase base printable in
    let reads = tmp_of-reads f.small base num b fits in
    let numerals =
      numerals-reverse base (tmp_of f.small base num) (tmp_of-numerals f.small base num b) in
    rw (number-unsigned (suc fuel) num f base w p no_special no_sign, no_left)
      (lay_out-Prints fuel num base w p (f.zeropad && true) (shift_ℤ (pos w) 0 d) d
        (tmp_of f.small base num) (omega (arith, b.less 0)) numerals reads (room_lem w d)
        (omega arith) (omega arith))

shift_ℤ-room : (w n : ℕ) → n ≤ w → shift_ℤ (pos w) 0 n ≡ pos (w - n)
shift_ℤ-room w n h = grind arith

-- With `LEFT`, no sign and no prefix, and a width that is no less than the digits and the precision
-- ask for, `number` never returns: its last loop does not count `width` down, so that it runs out
-- of any fuel.
pub number-endless :
    (fuel num : ℕ) (f : Flags) (base w p : ℕ)
    → f.left ≡ true
    → f.special ≡ false
    → sign_of f num ≡ 0
    → p ≤ w
    → length (tmp_of f.small base num) ≤ w
    → number fuel num f base (pos w) p ≡ out_of_fuel
number-endless fuel num f base w p left no_special no_sign precise fits =
    let d : ℕ = max p (length (tmp_of f.small base num)) in
    let z : f.zeropad && false ≡ false = ground arith in
    rw
      (
        number-unsigned fuel num f base w p no_special no_sign,
        left,
        z,
        shift_ℤ-room w d (omega arith),
      )
      (lay_out-left fuel (w - d) d (tmp_of f.small base num))
