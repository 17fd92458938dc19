-- ===== src/Print/Format/Output.antt =====
-- `vsnprintf` of lib/vsprintf.c: what it writes for a format, beside the bound that it is given.
use shaunos.Base.{
  ℕ, zero, suc, ◌+◌, ◌-◌, ◌%◌, ◌^◌, ◌<◌, ◌≡◌, refl, sym, ◌∙◌, arith, Bool, true, false, none, some,
  List, [], ◌∷◌, ◌++◌, ◌==◌, ◌&&◌, not, length, take, leb, append-nil, inl, inr,
}
use shaunos.Base.Int.{ℤ, pos, negsuc, u32_mod, sub32, shift_ℤ}
use shaunos.Base.Fault.{Result, null_deref, out_of_bounds, assert_failed, out_of_fuel, ok, ◌>>=◌}
use shaunos.Print.{Flags, number, sign_of}
use shaunos.Print.Number.{Prints, number-Prints}
use shaunos.Print.Numerals.{printed, read}
use shaunos.Print.Format.{
  Arg, word, text, Run, fresh, print, vsnprintf, commit, setting, convert, print_text, print_signed,
  va_text, va_word, signed_argument, pad_width, print_number, no_flags,
}

-- characters that are printed as they are
abbrev pub plain : List ℕ → Bool
plain [] = true
plain (c ∷ cs) = not (c == b'%') && plain cs

abbrev at : ℤ → ℕ → List Arg → Run
at width len args = record { width = width; len = len; args = args }

-- the characters `l` before what is written next
abbrev after : List ℕ → Result (List ℕ) → Result (List ℕ)
after l written = written >>= (λ out. ok (l ++ out))

after-nil : (written : Result (List ℕ)) → after [] written ≡ written
after-nil null_deref = refl
after-nil out_of_bounds = refl
after-nil assert_failed = refl
after-nil out_of_fuel = refl
after-nil (ok out) = refl

after-cons :
    (c : ℕ) (l : List ℕ) (written : Result (List ℕ))
    → (after l written >>= (λ out. ok (c ∷ out))) ≡ after (c ∷ l) written
after-cons c l null_deref = refl
after-cons c l out_of_bounds = refl
after-cons c l assert_failed = refl
after-cons c l out_of_fuel = refl
after-cons c l (ok out) = refl

plain_head : (c : ℕ) (l : List ℕ) → plain (c ∷ l) ≡ true → c == b'%' ≡ false
plain_head c l p = ground arith

plain_tail : (c : ℕ) (l : List ℕ) → plain (c ∷ l) ≡ true → plain l ≡ true
plain_tail c l p = ground arith

-- a plain character is written, and counted
print_plain_char :
    (fuel : ℕ) (width : ℤ) (k : ℕ) (args : List Arg) (c : ℕ) (fmt : List ℕ)
    → c == b'%' ≡ false
    → print fuel none (at width (suc k) args) (c ∷ fmt)
      ≡ (print fuel none (at width k args) fmt >>= (λ out. ok (c ∷ out)))
unfolding print
print_plain_char fuel width k args c fmt e =
    let less : suc k - 1 ≡ k = omega arith in
    let some_room : suc k == 0 ≡ false = ground arith in rw (e, less, some_room) refl

print-plain :
    (fuel : ℕ) (width : ℤ) (k : ℕ) (args : List Arg) (l fmt : List ℕ)
    → plain l ≡ true
    → print fuel none (at width (length l + k) args) (l ++ fmt)
      ≡ after l (print fuel none (at width k args) fmt)
print-plain fuel width k args [] fmt p =
    let none_yet : 0 + k ≡ k = omega arith in
    rw none_yet (sym (after-nil (print fuel none (at width k args) fmt)))
print-plain fuel width k args (c ∷ l) fmt p =
    let one_more : suc (length l) + k ≡ suc (length l + k) = omega arith in
    rw
      (
        one_more,
        print_plain_char fuel width (length l + k) args c (l ++ fmt) (plain_head c l p),
        print-plain fuel width k args l fmt (plain_tail c l p),
      )
      (after-cons c l (print fuel none (at width k args) fmt))

print-full :
    (fuel : ℕ) (width : ℤ) (args : List Arg) (fmt : List ℕ)
    → print fuel none (at width 0 args) fmt ≡ ok (0 ∷ [])
unfolding print
print-full fuel width args [] = refl
print-full fuel width args (c ∷ fmt) = refl

commit-fresh : (c : ℕ) (width : ℤ) → commit c fresh width ≡ (fresh, width)
unfolding commit
commit-fresh c width = ground arith

print_percent :
    (fuel : ℕ) (width : ℤ) (k : ℕ) (args : List Arg) (fmt : List ℕ)
    → print fuel none (at width (suc k) args) (b'%' ∷ fmt)
      ≡ print fuel (some fresh) (at width (suc k) args) fmt
unfolding print
print_percent fuel width k args fmt =
    let some_room : suc k == 0 ≡ false = ground arith in rw some_room refl

-- a letter directly behind a `%`
print_letter :
    (fuel : ℕ) (width : ℤ) (k : ℕ) (args : List Arg) (c : ℕ) (fmt : List ℕ)
    → setting c fresh ≡ none
    → print fuel (some fresh) (at width k args) (c ∷ fmt) ≡ (
        convert fuel c fresh (at width k args)
        >>= (λ o. print fuel none o.1 fmt >>= (λ rest. ok (o.0 ++ rest))))
unfolding print
print_letter fuel width k args c fmt e =
    rw (print, commit-fresh c width, e, commit-fresh c width) refl

-- what a run of plain characters to the format's end writes
print-last :
    (fuel : ℕ) (width : ℤ) (k : ℕ) (args : List Arg) (l : List ℕ)
    → plain l ≡ true
    → print fuel none (at width k args) l ≡ ok (take k l ++ 0 ∷ [])
print-last fuel width zero args l p = print-full fuel width args l
print-last fuel width (suc k) args [] p = unfold print in refl
print-last fuel width (suc k) args (c ∷ l) p =
    rw
      (
        print_plain_char fuel width k args c l (plain_head c l p),
        print-last fuel width k args l (plain_tail c l p),
      )
      refl

-- A format without conversions is written up to `size` characters of it, and the byte of 0 behind
-- them: where the format is no shorter than `size`, that is one byte more than `size`.
pub vsnprintf-plain :
    (fuel size : ℕ) (fmt : List ℕ) (args : List Arg)
    → plain fmt ≡ true
    → vsnprintf fuel size fmt args ≡ ok (take size fmt ++ 0 ∷ [])
unfolding vsnprintf
vsnprintf-plain fuel size fmt args p = print-last fuel (pos 0) size args fmt p

short : (n : ℕ) → shift_ℤ (pos 0) 0 (suc n) ≡ negsuc n
short n = grind arith

-- without a width, a string is not padded
no_padding : (on : Bool) (n : ℕ) → pad_width on (shift_ℤ (pos 0) 0 n) ≡ ([], shift_ℤ (pos 0) 0 n)
unfolding pad_width
no_padding on zero = refl
no_padding on (suc n) = rw (short n) refl

convert-string :
    (fuel k : ℕ) (s : List ℕ) (args : List Arg)
    → convert fuel b's' fresh (at (pos 0) k (text (some s) ∷ args))
      ≡ ok (s, at (shift_ℤ (pos 0) 0 (length s)) (sub32 k (length s)) args)
unfolding convert print_text va_text
convert-string fuel k s args =
    rw (no_padding true (length s), no_padding false (length s), append-nil s) refl

-- A `%s` between plain characters, the first of which fit in `size`, is replaced by the whole string,
-- whatever is left of `size`; what follows is cut at `size` less the characters so far, a difference
-- that wraps to a bound near 2^32 when the string does not fit.
pub vsnprintf-string :
    (fuel size : ℕ) (l s r : List ℕ) (args : List Arg)
    → plain l ≡ true
    → plain r ≡ true
    → vsnprintf fuel (length l + suc size) (l ++ b'%' ∷ b's' ∷ r) (text (some s) ∷ args)
      ≡ ok (l ++ (s ++ (take (sub32 (suc size) (length s)) r ++ 0 ∷ [])))
unfolding vsnprintf setting
vsnprintf-string fuel size l s r args p q =
    rw
      (
        print-plain fuel (pos 0) (suc size) (text (some s) ∷ args) l (b'%' ∷ b's' ∷ r) p,
        print_percent fuel (pos 0) size (text (some s) ∷ args) (b's' ∷ r),
        print_letter fuel (pos 0) (suc size) (text (some s) ∷ args) b's' r refl,
        convert-string fuel (suc size) s args,
        print-last fuel (shift_ℤ (pos 0) 0 (length s)) (sub32 (suc size) (length s)) args r q,
      )
      refl

abbrev signed_flags : Flags
signed_flags = record no_flags { sign = true }

-- a word that is not negative as an `int`
signed_word :
    (n : ℕ) (args : List Arg) → n < 2 ^ 31 → signed_argument 0 (word n ∷ args) ≡ ok (n, args)
unfolding signed_argument va_word
signed_word n args h =
    let low : n % u32_mod ≡ n = omega arith in
    let not_negative : leb (2 ^ 31) n ≡ false = ground arith in rw (low, low, not_negative) refl

no_spaces :
    (base num : ℕ) (r : Result (List ℕ))
    → Prints base num 0 0 r
    → (out : List ℕ) × (r ≡ ok out) × (read base 0 out ≡ printed base num)
no_spaces base num r prints =
    let none_left : prints.spaces ≡ 0 = omega (arith, prints.tight) in
    (prints.text, rw none_left at prints.written, prints.reads)

convert-int :
    (fuel k n : ℕ) (out : List ℕ) (args : List Arg)
    → n < 2 ^ 31
    → number fuel n signed_flags 10 (pos 0) 0 ≡ ok out
    → convert fuel b'd' fresh (at (pos 0) k (word n ∷ args)) ≡ ok (out, at (pos 0) k args)
unfolding convert print_signed print_number
convert-int fuel k n out args small written = rw (signed_word n args small, written) refl

-- A `%d` between plain characters, the first of which fit in `size`, is replaced, for an `int` that is
-- not negative, by digits that read back as it; they are not counted, so that what follows has what
-- was left of `size` before them.
pub vsnprintf-int :
    (fuel size n : ℕ) (l r : List ℕ) (args : List Arg)
    → plain l ≡ true
    → plain r ≡ true
    → n < 2 ^ 31
    → (out : List ℕ) × (vsnprintf
          (suc fuel)
          (length l + suc size)
          (l ++ b'%' ∷ b'd' ∷ r)
          (word n ∷ args)
        ≡ ok (l ++ (out ++ (take (suc size) r ++ 0 ∷ []))))
      × (read 10 0 out ≡ n)
unfolding vsnprintf setting
vsnprintf-int fuel size n l r args p q small =
    let unsigned : sign_of signed_flags n ≡ 0 = ground arith in
    let prints =
      number-Prints fuel n signed_flags 10 0 0 (inr (inl refl)) (omega arith) refl refl unsigned in
    let (out, written, reads) = no_spaces 10 n _ prints in
    let low : n % u32_mod ≡ n = omega arith in
    (
      out,
      rw
          (
            print-plain (suc fuel) (pos 0) (suc size) (word n ∷ args) l (b'%' ∷ b'd' ∷ r) p,
            print_percent (suc fuel) (pos 0) size (word n ∷ args) (b'd' ∷ r),
            print_letter (suc fuel) (pos 0) (suc size) (word n ∷ args) b'd' r refl,
            convert-int (suc fuel) (suc size) n out args small written,
            print-last (suc fuel) (pos 0) (suc size) args r q,
          )
          refl,
      reads ∙ low,
    )
