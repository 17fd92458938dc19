-- ===== src/Text/Copy.antt =====
-- `strcpy`, `strcat` and `strncpy` of lib/string.c.
use shaunos.Base.{
  ℕ, zero, suc, ◌+◌, ◌-◌, ◌<◌, ◌≤◌, ◌≡◌, ◌≢◌, ◌⊎◌, refl, sym, ◌∙◌, ap, subst, arith, false, ◌==◌,
  inl, inr, ne→==, eq→==,
}
use shaunos.Base.Fault.{ok}
use shaunos.Bytes.{Memory, null, move, store, rep_store}
use shaunos.Bytes.Copy.{Apart, move_up, move_zero, move_out}
use shaunos.Text.{copy_string, strcpy, strcat, strncpy_loop, strncpy, IsString}
use shaunos.Text.Scan.{IsString-tail, at_start, at_end, scan_lem}

Apart-out : (n d s i : ℕ) → Apart (suc n) d s → i < n → (s + 1 + i < d) ⊎ (d + 1 ≤ s + 1 + i)
Apart-out n d s i (inl h) lt = inr (omega arith)
Apart-out n d s i (inr h) lt = inl (omega arith)

Apart-tail : (n d s : ℕ) → Apart (suc n) d s → Apart n (d + 1) (s + 1)
Apart-tail n d s (inl h) = inl (omega arith)
Apart-tail n d s (inr h) = inr (omega arith)

-- What is left of a string stays as it was when its first byte is copied away.
move-IsString :
    (n d s : ℕ) (m : Memory)
    → Apart (suc (suc n)) d s
    → IsString m s (suc n)
    → IsString (move 1 d s m) (s + 1) n
move-IsString n d s m apart str =
    let t = IsString-tail m s n str in
    record {
      body = λ i lt e.
          t.body i lt
            (sym (move_out 1 d s (s + 1 + i) m (Apart-out (suc n) d s i apart (omega arith))) ∙ e);
      ends = move_out 1 d s (s + 1 + n) m (Apart-out (suc n) d s n apart (omega arith)) ∙ t.ends;
    }

move_first :
    (n d s : ℕ) (m : Memory)
    → Apart (suc n) d s
    → move n (d + 1) (s + 1) (move 1 d s m) ≡ move (suc n) d s m
move_first n d s m apart = move_up 1 n d s m (whole apart) ∙ ap (λ k. move k d s m) (omega arith)
  where
    whole : Apart (suc n) d s → Apart (1 + n) d s
    whole (inl h) = inl h
    whole (inr h) = inr (omega arith)

copy_string_lem :
    (n fuel d s : ℕ) (m : Memory)
    → Apart (suc n) d s
    → IsString m s n
    → n < fuel
    → copy_string fuel d s m ≡ ok (move (suc n) d s m, d + n + 1)
unfolding copy_string
copy_string_lem n zero d s m apart str enough = absurd (omega arith)
copy_string_lem zero (suc fuel) d s m apart str enough =
    let e : d + 1 ≡ d + 0 + 1 = omega arith in
    rw (eq→== _ _ (at_end m s str)) (ap (λ k. ok (move 1 d s m, k)) e)
copy_string_lem (suc n) (suc fuel) d s m apart str enough =
    let e : d + 1 + n + 1 ≡ d + suc n + 1 = omega arith in
    rw (ne→== _ _ (at_start m s n str)) (
      copy_string_lem n fuel (d + 1) (s + 1) (move 1 d s m) (Apart-tail (suc n) d s apart)
        (move-IsString n d s m apart str) (omega arith)
      ∙ ap (λ k. ok (k, d + 1 + n + 1)) (move_first (suc n) d s m apart)
      ∙ ap (λ k. ok (move (suc (suc n)) d s m, k)) e)

-- `strcpy` of a string, where it does not lie below the destination and reach into it, moves its bytes
-- and the byte of 0 to the destination, changes nothing else and returns the destination: fuel above the
-- length is enough.
pub strcpy-moves :
    (n fuel dest src : ℕ) (m : Memory)
    → dest ≢ null
    → src ≢ null
    → Apart (suc n) dest src
    → IsString m src n
    → n < fuel
    → strcpy fuel dest src m ≡ ok (move (suc n) dest src m, dest)
unfolding strcpy
strcpy-moves n fuel dest src m some_dest some_src apart str enough =
    rw (ne→== _ _ some_dest, ne→== _ _ some_src, copy_string_lem n fuel dest src m apart str enough)
      refl

-- `strcat` moves the source with its byte of 0 to the end of the string at the destination, where the
-- source does not lie below that place and reach into it. It returns the address behind the result.
pub strcat-appends :
    (k n fuel dest src : ℕ) (m : Memory)
    → dest ≢ null
    → src ≢ null
    → IsString m dest k
    → Apart (suc n) (dest + k) src
    → IsString m src n
    → k < fuel
    → n < fuel
    → strcat fuel dest src m ≡ ok (move (suc n) (dest + k) src m, dest + k + n + 1)
unfolding strcat
strcat-appends k n fuel dest src m some_dest some_src first apart str enough_k enough_n =
    let at : dest + k + 1 - 1 ≡ dest + k = omega arith in
    rw (ne→== _ _ some_dest, ne→== _ _ some_src, scan_lem k fuel m dest first enough_k, at)
      (copy_string_lem n fuel (dest + k) src m apart str enough_n)

strncpy_loop-short :
    (l n d s : ℕ) (m : Memory)
    → l < n
    → Apart (suc l) d s
    → IsString m s l
    → strncpy_loop n d s m ≡ rep_store (n - l - 1) 1 (d + l + 1) 0 (move (suc l) d s m)
unfolding strncpy_loop
strncpy_loop-short l zero d s m lt apart str = absurd (omega arith)
strncpy_loop-short zero (suc n) d s m lt apart str =
    let e : suc n - 0 - 1 ≡ n = omega arith in
    let f : d + 0 + 1 ≡ d + 1 = omega arith in rw (eq→== _ _ (at_end m s str), e, f) refl
strncpy_loop-short (suc l) (suc n) d s m lt apart str =
    let e : n - l - 1 ≡ suc n - suc l - 1 = omega arith in
    let f : d + 1 + l + 1 ≡ d + suc l + 1 = omega arith in
    rw (ne→== _ _ (at_start m s l str)) (
      strncpy_loop-short l n (d + 1) (s + 1) (move 1 d s m) (omega arith)
        (Apart-tail (suc l) d s apart) (move-IsString l d s m apart str)
      ∙ rw (e, f)
          (ap (rep_store (suc n - suc l - 1) 1 (d + suc l + 1) 0) (move_first (suc l) d s m apart)))

strncpy_loop-long :
    (n d s : ℕ) (m : Memory)
    → Apart n d s
    → ((i : ℕ) → i < n → m (s + i) ≢ 0)
    → strncpy_loop n d s m ≡ store 1 (d + n) 0 (move n d s m)
unfolding strncpy_loop
strncpy_loop-long zero d s m apart full =
    let e : d + 0 ≡ d = omega arith in rw e (ap (store 1 d 0) (sym (move_zero d s m)))
strncpy_loop-long (suc n) d s m apart full =
    let z : s + 0 ≡ s = omega arith in
    let e : d + 1 + n ≡ d + suc n = omega arith in
    rw (ne→== _ _ (subst (λ q. m q ≢ 0) z (full 0 (omega arith)))) (
      strncpy_loop-long n (d + 1) (s + 1) (move 1 d s m) (Apart-tail n d s apart) (λ i lt z'.
        let q : s + suc i ≡ s + 1 + i = omega arith in
        subst (λ q. m q ≢ 0) q (full (suc i) (omega arith))
          (sym (move_out 1 d s (s + 1 + i) m (Apart-out n d s i apart lt)) ∙ z'))
      ∙ rw e (ap (store 1 (d + suc n) 0) (move_first n d s m apart)))

-- `strncpy` of a string shorter than `n`, where it does not lie below the destination and reach into it,
-- moves it with its byte of 0, sets the rest of the `n` bytes to 0 and returns the destination.
pub strncpy-short :
    (l n dest src : ℕ) (m : Memory)
    → l < n
    → Apart (suc l) dest src
    → IsString m src l
    → strncpy dest src n m
      ≡ (rep_store (n - l - 1) 1 (dest + l + 1) 0 (move (suc l) dest src m), dest)
unfolding strncpy
strncpy-short l n dest src m lt apart str =
    let some_n : (n == 0) ≡ false = ne→== _ _ (omega arith) in
    rw some_n (ap (λ k. (k, dest)) (strncpy_loop-short l n dest src m lt apart str))

-- `strncpy` of `n` bytes that are none of them 0, where they do not lie below the destination and reach
-- into it, moves them and writes a byte of 0 behind them, as byte `n` of the destination.
pub strncpy-long :
    (n dest src : ℕ) (m : Memory)
    → n ≢ 0
    → Apart n dest src
    → ((i : ℕ) → i < n → m (src + i) ≢ 0)
    → strncpy dest src n m ≡ (store 1 (dest + n) 0 (move n dest src m), dest)
unfolding strncpy
strncpy-long n dest src m some_n apart full =
    rw (ne→== _ _ some_n) (ap (λ k. (k, dest)) (strncpy_loop-long n dest src m apart full))
