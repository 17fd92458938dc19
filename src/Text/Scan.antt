-- ===== src/Text/Scan.antt =====
-- `strlen`, `strchr` and `strrchr` of lib/string.c.
use shaunos.Base.{
  ℕ, zero, suc, ◌+◌, ◌%◌, ◌<◌, ◌≤◌, ◌≡◌, ◌≢◌, refl, sym, ◌∙◌, ap, subst, arith, false, ◌==◌, ne→==,
  eq→==,
}
use shaunos.Base.Int.{u32_mod, sub32}
use shaunos.Base.Fault.{ok}
use shaunos.Bytes.{Memory, null}
use shaunos.Text.{scan, strlen, strchr, strrchr_loop, strrchr, IsString}

pub IsString-tail : (m : Memory) (p n : ℕ) → IsString m p (suc n) → IsString m (p + 1) n
IsString-tail m p n s = record {
  body = λ i lt. let e : p + 1 + i ≡ p + suc i = omega arith in rw e (s.body (suc i) (omega arith));
  ends = let e : p + 1 + n ≡ p + suc n = omega arith in rw e s.ends;
}

pub at_start : (m : Memory) (p n : ℕ) → IsString m p (suc n) → m p ≢ 0
at_start m p n s =
    let e : p + 0 ≡ p = omega arith in subst (λ q. m q ≢ 0) e (s.body 0 (omega arith))

pub at_end : (m : Memory) (p : ℕ) → IsString m p 0 → m p ≡ 0
at_end m p s = let e : p + 0 ≡ p = omega arith in subst (λ q. m q ≡ 0) e s.ends

pub scan_lem :
    (n fuel : ℕ) (m : Memory) (p : ℕ) → IsString m p n → n < fuel → scan fuel m 0 p ≡ ok (p + n + 1)
unfolding scan
scan_lem n zero m p s lt = absurd (omega arith)
scan_lem zero (suc fuel) m p s lt = rw (eq→== _ _ (at_end m p s)) (ap ok (omega arith))
scan_lem (suc n) (suc fuel) m p s lt =
    rw (ne→== _ _ (at_start m p n s))
      (scan_lem n fuel m (p + 1) (IsString-tail m p n s) (omega arith) ∙ ap ok (omega arith))

-- `strlen` of a string returns the number of its bytes before the byte of 0: fuel above it is enough.
pub strlen-counts :
    (n fuel : ℕ) (m : Memory) (s : ℕ)
    → s ≢ null
    → IsString m s n
    → n < fuel
    → strlen fuel m s ≡ ok n
unfolding strlen
strlen-counts n fuel m s some_s str enough =
    rw (ne→== _ _ some_s, scan_lem n fuel m s str enough) (ap ok (omega arith))

-- `strchr` returns the address of the first byte of the string that is `c`, as a `char`; the byte of 0
-- at the end counts.
pub strchr-first :
    (k fuel : ℕ) (m : Memory) (s c : ℕ)
    → ((i : ℕ) → i < k → (m (s + i) ≢ 0) × (m (s + i) ≢ c % 256))
    → m (s + k) ≡ c % 256
    → k < fuel
    → strchr fuel m s c ≡ ok (s + k)
unfolding strchr
strchr-first k zero m s c before here enough = absurd (omega arith)
strchr-first zero (suc fuel) m s c before here enough =
    let e : s + 0 ≡ s = omega arith in rw (eq→== _ _ (sym (ap m e) ∙ here)) (ap ok (sym e))
strchr-first (suc k) (suc fuel) m s c before here enough =
    let e : s + 0 ≡ s = omega arith in
    let (more, miss) = subst (λ q. (m q ≢ 0) × (m q ≢ c % 256)) e (before 0 (omega arith)) in
    let next : s + 1 + k ≡ s + suc k = omega arith in
    rw (ne→== _ _ miss, ne→== _ _ more)
      (strchr-first k fuel m (s + 1) c
          (λ i lt.
            subst (λ q. (m q ≢ 0) × (m q ≢ c % 256)) (omega arith) (before (suc i) (omega arith)))
          (ap m next ∙ here) (omega arith)
        ∙ ap ok next)

strrchr_loop_lem :
    (n : ℕ) (m : Memory) (s c : ℕ)
    → s + n < u32_mod
    → ((i : ℕ) → 0 < i → i ≤ n → m (s + i) ≢ c % 256)
    → strrchr_loop n m (s + n) c ≡ null
unfolding strrchr_loop
strrchr_loop_lem zero m s c small miss = refl
strrchr_loop_lem (suc n) m s c small miss =
    let back : sub32 (s + suc n) 1 ≡ s + n = omega arith in
    rw (ne→== _ _ (miss (suc n) (omega arith) (omega arith)), back)
      (strrchr_loop_lem n m s c (omega arith) (λ i low le. miss i low (omega arith)))

-- `strrchr` of a string that is not empty returns null where the byte occurs nowhere behind the first
-- byte: it does not look at the first byte, which may be the one.
pub strrchr-skips :
    (n fuel : ℕ) (m : Memory) (s c : ℕ)
    → s ≢ null
    → 0 < n
    → s + n < u32_mod
    → IsString m s n
    → n < fuel
    → ((i : ℕ) → 0 < i → i ≤ n → m (s + i) ≢ c % 256)
    → strrchr fuel m s c ≡ ok null
unfolding strrchr
strrchr-skips n fuel m s c some_s long small str enough miss =
    let some_n : (n == 0) ≡ false = ne→== _ _ (omega arith) in
    let fits : (s + n) % u32_mod ≡ s + n = omega arith in
    rw (strlen-counts n fuel m s some_s str enough, some_n, fits)
      (ap ok (strrchr_loop_lem n m s c small miss))
