-- ===== src/Text/Compare.antt =====
-- `strcmp` and `strncmp` of lib/string.c.
use shaunos.Base.{
  ℕ, zero, suc, ◌+◌, ◌%◌, ◌<◌, ◌≤◌, ◌≡◌, ◌≢◌, ◌↔◌, ◌⊎◌, refl, sym, ◌∙◌, ap, subst, arith, true,
  false, ◌==◌, Bool-cases, inl, inr, ==→eq, ==→ne, ne→==, eq→==,
}
use shaunos.Base.Int.{ℤ, pos}
use shaunos.Base.Fault.{Result, ok}
use shaunos.Bytes.{Memory, null, difference}
use shaunos.Text.{char_difference, go_on, strcmp_loop, strcmp, strncmp_loop, strncmp, IsString}
use shaunos.Text.Scan.{IsString-tail, at_start, at_end}

char_difference_zero : (a b : ℕ) → a < 256 → b < 256 → char_difference a b ≡ pos 0 → a ≡ b
char_difference_zero a b small_a small_b h = omega (arith, zero_diff _ _ h)
  where
    zero_diff : (x y : ℕ) → difference x y ≡ pos 0 → x ≡ y
    zero_diff x y e = ground arith

char_difference_same : (a b : ℕ) → a ≡ b → char_difference a b ≡ pos 0
char_difference_same a b e = rw e (same ((b + 128) % 256))
  where
    same : (x : ℕ) → difference x x ≡ pos 0
    same x = ground arith

-- two strings hold the same bytes up to and with the end of the first
abbrev pub Same : Memory → ℕ → ℕ → ℕ → Type 0
Same m p1 p2 n = (i : ℕ) → i ≤ n → m (p1 + i) ≡ m (p2 + i)

Same-head : (m : Memory) (p1 p2 n : ℕ) → Same m p1 p2 n → m p1 ≡ m p2
Same-head m p1 p2 n h =
    let e1 : p1 + 0 ≡ p1 = omega arith in
    let e2 : p2 + 0 ≡ p2 = omega arith in sym (ap m e1) ∙ h 0 (omega arith) ∙ ap m e2

Same-tail :
    (m : Memory) (p1 p2 n : ℕ) → m p1 ≡ m p2 → Same m p1 p2 (suc n) ↔ Same m (p1 + 1) (p2 + 1) n
Same-tail m p1 p2 n e = (tail, cons)
  where
    tail : Same m p1 p2 (suc n) → Same m (p1 + 1) (p2 + 1) n
    tail h i le =
        let q1 : p1 + 1 + i ≡ p1 + suc i = omega arith in
        let q2 : p2 + 1 + i ≡ p2 + suc i = omega arith in
        ap m q1 ∙ h (suc i) (omega arith) ∙ sym (ap m q2)

    cons : Same m (p1 + 1) (p2 + 1) n → Same m p1 p2 (suc n)
    cons h zero le =
        let q1 : p1 + 0 ≡ p1 = omega arith in
        let q2 : p2 + 0 ≡ p2 = omega arith in ap m q1 ∙ e ∙ sym (ap m q2)
    cons h (suc i) le =
        let q1 : p1 + suc i ≡ p1 + 1 + i = omega arith in
        let q2 : p2 + suc i ≡ p2 + 1 + i = omega arith in
        ap m q1 ∙ h i (omega arith) ∙ sym (ap m q2)

-- What a comparison returns: 0 exactly where the strings are the same.
abbrev pub Decides : Memory → ℕ → ℕ → ℕ → Result ℤ → Type 0
Decides m p1 p2 n r = (v : ℤ) × (r ≡ ok v) × ((v ≡ pos 0) ↔ Same m p1 p2 n)

stops : (m : Memory) (p1 p2 : ℕ) → go_on m p1 p2 ≡ false → (m p1 ≡ 0) ⊎ (m p1 ≢ m p2)
stops m p1 p2 h = elim (Bool-cases (m p1 == 0)) [
  | inl z ↦ inl (==→eq _ _ z)
  | inr nz ↦ elim (Bool-cases (m p1 == m p2)) [
    | inr other ↦ inr (==→ne _ _ other)
    | inl same ↦
        let z2 : (m p2 == 0) ≡ false = ne→== _ _ (λ e. ==→ne _ _ nz (==→eq _ _ same ∙ e)) in
        absurd (true_false (sym (both nz z2 same) ∙ h))
  ]
]
  where
    true_false : true ≡ false → ⊥
    true_false e = cc

    both : (m p1 == 0) ≡ false → (m p2 == 0) ≡ false → (m p1 == m p2) ≡ true → go_on m p1 p2 ≡ true
    both a b c = rw (a, b, c) refl

goes : (m : Memory) (p1 p2 : ℕ) → go_on m p1 p2 ≡ true → (m p1 ≢ 0) × (m p1 ≡ m p2)
goes m p1 p2 h = elim (Bool-cases (m p1 == 0)) [
  | inl z ↦ absurd (no (sym h ∙ (rw z refl)))
  | inr nz ↦ elim (Bool-cases (m p1 == m p2)) [
    | inl same ↦ (==→ne _ _ nz, ==→eq _ _ same)
    | inr other ↦ absurd (no (sym h ∙ ends other))
  ]
]
  where
    no : true ≡ false → ⊥
    no e = cc

    ends : (m p1 == m p2) ≡ false → go_on m p1 p2 ≡ false
    ends other = elim (Bool-cases (m p1 == 0)) [
      | inl z ↦ rw z refl
      | inr nz ↦ elim (Bool-cases (m p2 == 0)) [
        | inl z ↦ rw (nz, z) refl
        | inr nz2 ↦ rw (nz, nz2, other) refl
      ]
    ]

strcmp_loop-Decides :
    (n fuel : ℕ) (m : Memory) (p1 p2 : ℕ)
    → ((x : ℕ) → m x < 256)
    → IsString m p1 n
    → n < fuel
    → Decides m p1 p2 n (strcmp_loop fuel m p1 p2)
unfolding strcmp_loop
strcmp_loop-Decides n zero m p1 p2 bytes s enough = absurd (omega arith)
strcmp_loop-Decides zero (suc fuel) m p1 p2 bytes s enough =
    let z : m p1 ≡ 0 = at_end m p1 s in
    let e : (m p1 == 0) ≡ true = eq→== _ _ z in
    rw e (
      char_difference (m p1) (m p2),
      refl,
      (
        (λ d i le.
            let q1 : p1 + i ≡ p1 = omega arith in
            let q2 : p2 + i ≡ p2 = omega arith in
            ap m q1 ∙ char_difference_zero _ _ (bytes p1) (bytes p2) d ∙ sym (ap m q2)),
        λ h. char_difference_same _ _ (Same-head m p1 p2 0 h),
      ),
    )
strcmp_loop-Decides (suc n) (suc fuel) m p1 p2 bytes s enough = elim (Bool-cases (go_on m p1 p2)) [
  | inl on ↦
      let (nz, same) = goes m p1 p2 on in
      let (v, run, (there, back)) =
        strcmp_loop-Decides n fuel m (p1 + 1) (p2 + 1) bytes (IsString-tail m p1 n s)
          (omega arith) in
      let (tail, cons) = Same-tail m p1 p2 n same in
      (v, (rw on run), ((λ e. cons (there e)), λ h. back (tail h)))
  | inr off ↦ (
    char_difference (m p1) (m p2),
    (rw off refl),
    (
      (λ d. absurd (differ (stops m p1 p2 off) (char_difference_zero _ _ (bytes p1) (bytes p2) d))),
      λ h. absurd (differ (stops m p1 p2 off) (Same-head m p1 p2 (suc n) h)),
    ),
  )
]
  where
    differ : (m p1 ≡ 0) ⊎ (m p1 ≢ m p2) → ¬ (m p1 ≡ m p2)
    differ (inl z) e = at_start m p1 n s z
    differ (inr ne) e = ne e

-- `strcmp` of a string and another address returns a number, which is 0 exactly where the bytes from the
-- other address on are those of the string, its end with them: fuel above the length is enough.
pub strcmp-Decides :
    (n fuel : ℕ) (m : Memory) (s1 s2 : ℕ)
    → s1 ≢ null
    → s2 ≢ null
    → ((x : ℕ) → m x < 256)
    → IsString m s1 n
    → n < fuel
    → Decides m s1 s2 n (strcmp fuel m s1 s2)
unfolding strcmp
strcmp-Decides n fuel m s1 s2 some1 some2 bytes s enough =
    rw (ne→== _ _ some1, ne→== _ _ some2) (strcmp_loop-Decides n fuel m s1 s2 bytes s enough)

strncmp_loop-late :
    (n : ℕ) (m : Memory) (p1 p2 : ℕ)
    → ((i : ℕ) → i < n → (m (p1 + i) ≢ 0) × (m (p1 + i) ≡ m (p2 + i)))
    → strncmp_loop n m p1 p2 ≡ char_difference (m (p1 + n)) (m (p2 + n))
unfolding strncmp_loop
strncmp_loop-late zero m p1 p2 same =
    let e1 : p1 + 0 ≡ p1 = omega arith in let e2 : p2 + 0 ≡ p2 = omega arith in rw (e1, e2) refl
strncmp_loop-late (suc n) m p1 p2 same =
    let e1 : p1 + 0 ≡ p1 = omega arith in
    let e2 : p2 + 0 ≡ p2 = omega arith in
    let (nz', eq') = same 0 (omega arith) in
    let nz : (m p1 == 0) ≡ false = ne→== _ _ (subst (λ q. m q ≢ 0) e1 nz') in
    let eq : m p1 ≡ m p2 = sym (ap m e1) ∙ eq' ∙ ap m e2 in
    let nz2 : (m p2 == 0) ≡ false = ne→== _ _ (λ z. ==→ne _ _ nz (eq ∙ z)) in
    let q1 : p1 + 1 + n ≡ p1 + suc n = omega arith in
    let q2 : p2 + 1 + n ≡ p2 + suc n = omega arith in
    rw (nz, nz2, eq→== _ _ eq)
      (strncmp_loop-late n m (p1 + 1) (p2 + 1) (λ i lt.
          let r1 : p1 + suc i ≡ p1 + 1 + i = omega arith in
          let r2 : p2 + suc i ≡ p2 + 1 + i = omega arith in
          let (a, b) = same (suc i) (omega arith) in
          ((subst (λ q. m q ≢ 0) r1 a), sym (ap m r1) ∙ b ∙ ap m r2))
        ∙ ap₂' q1 q2)
  where
    ap₂' : {a b c d : ℕ} → a ≡ b → c ≡ d → char_difference (m a) (m c) ≡ char_difference (m b) (m d)
    ap₂' e f = rw (e, f) refl

-- Where the first `n` bytes of two strings are the same and none is the end, `strncmp` of `n` bytes
-- returns the difference of the bytes behind them.
pub strncmp-late :
    (n : ℕ) (m : Memory) (s1 s2 : ℕ)
    → s1 ≢ null
    → s2 ≢ null
    → ((i : ℕ) → i < n → (m (s1 + i) ≢ 0) × (m (s1 + i) ≡ m (s2 + i)))
    → strncmp m s1 s2 n ≡ char_difference (m (s1 + n)) (m (s2 + n))
unfolding strncmp
strncmp-late n m s1 s2 some1 some2 same =
    rw (ne→== _ _ some1, ne→== _ _ some2) (strncmp_loop-late n m s1 s2 same)
