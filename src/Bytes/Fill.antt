-- ===== src/Bytes/Fill.antt =====
-- `memset` and `memcmp` of lib/string.c.
use shaunos.Base.{
  ℕ, zero, suc, ◌+◌, ◌-◌, ◌*◌, ◌/◌, ◌%◌, ◌^◌, ◌<◌, ◌≤◌, ◌≡◌, ◌⊎◌, ◌↔◌, refl, sym, ◌∙◌, ap, fun_ext,
  arith, ltb, leb, ◌==◌, ◌&&◌, if◌then◌else◌, Bool-cases, inl, inr, ==→eq, ==→ne, leb→le, le→leb,
  lt→leb, ltb→lt, ltb→le, lt→ltb, le→ltb,
}
use shaunos.Base.Int.{u32_mod, ℤ, pos}
use shaunos.Bytes.{Memory, store, rep_store, padding, store_words, memset, memcmp, difference}
use shaunos.Bytes.Copy.{cases_run_lem}

-- `n` bytes set to `c`
unfoldable pub fill : ℕ → ℕ → ℕ → Memory → Memory
fill n d c m x = if leb d x && ltb x (d + n) then c else m x

fill_in : (n d c x : ℕ) (m : Memory) → d ≤ x → x < d + n → fill n d c m x ≡ c
unfolding fill
fill_in n d c x m low high = rw (le→leb d x low, lt→ltb x (d + n) high) refl

fill_out : (n d c x : ℕ) (m : Memory) → (x < d) ⊎ (d + n ≤ x) → fill n d c m x ≡ m x
unfolding fill
fill_out n d c x m (inl h) = rw (lt→leb d x h) refl
fill_out n d c x m (inr h) = rw (le→leb d x (omega arith), le→ltb x (d + n) h) refl

fill_zero : (d c : ℕ) (m : Memory) → fill 0 d c m ≡ m
fill_zero d c m = fun_ext (λ x. elim (Bool-cases (ltb x d)) [
  | inl h ↦ fill_out 0 d c x m (inl (ltb→lt x d h))
  | inr h ↦ fill_out 0 d c x m (inr (omega (arith, ltb→le x d h)))
])

fill_join : (a b d c : ℕ) (m : Memory) → fill b (d + a) c (fill a d c m) ≡ fill (a + b) d c m
fill_join a b d c m = fun_ext (λ x. elim (Bool-cases (ltb x d)) [
  | inl h ↦
      let low : x < d = ltb→lt x d h in
      fill_out b (d + a) c x _ (inl (omega arith))
      ∙ fill_out a d c x m (inl low)
      ∙ sym (fill_out (a + b) d c x m (inl low))
  | inr h ↦
      let low : d ≤ x = ltb→le x d h in
      elim (Bool-cases (ltb x (d + a))) [
        | inl g ↦
            let first : x < d + a = ltb→lt _ _ g in
            fill_out b (d + a) c x _ (inl first)
            ∙ fill_in a d c x m low first
            ∙ sym (fill_in (a + b) d c x m low (omega arith))
        | inr g ↦
            let second : d + a ≤ x = ltb→le _ _ g in
            elim (Bool-cases (ltb x (d + (a + b)))) [
              | inl f ↦
                  let last : x < d + (a + b) = ltb→lt _ _ f in
                  fill_in b (d + a) c x _ second (omega arith)
                  ∙ sym (fill_in (a + b) d c x m low last)
              | inr f ↦
                  let past : d + (a + b) ≤ x = ltb→le _ _ f in
                  fill_out b (d + a) c x _ (inr (omega arith))
                  ∙ fill_out a d c x m (inr (omega arith))
                  ∙ sym (fill_out (a + b) d c x m (inr past))
            ]
      ]
])

-- a value whose `w` low bytes are all `c`
abbrev pub Repeats : ℕ → ℕ → ℕ → Type 0
Repeats w v c = (i : ℕ) → i < w → v / 256 ^ i % 256 ≡ c

store-fill : (w d v c : ℕ) (m : Memory) → Repeats w v c → store w d v m ≡ fill w d c m
unfolding store fill
store-fill w d v c m same = fun_ext (λ x. elim (Bool-cases (leb d x)) [
  | inr h ↦ rw h refl
  | inl h ↦ elim (Bool-cases (ltb x (d + w))) [
    | inr g ↦ rw (h, g) refl
    | inl g ↦ rw (h, g) (same (x - d) (omega (arith, leb→le d x h, ltb→lt x (d + w) g)))
  ]
])

rep_store-fill :
    (n w d v c : ℕ) (m : Memory) → Repeats w v c → rep_store n w d v m ≡ fill (n * w) d c m
unfolding rep_store
rep_store-fill zero w d v c m same =
    let none_left : 0 * w ≡ 0 = omega arith in
    sym (ap (λ k. fill k d c m) none_left ∙ fill_zero d c m)
rep_store-fill (suc n) w d v c m same =
    rep_store-fill n w (d + w) v c (store w d v m) same
    ∙ ap (fill (n * w) (d + w) c) (store-fill w d v c m same)
    ∙ fill_join w (n * w) d c m
    ∙ ap (λ k. fill k d c m) (omega arith)

Repeats-narrow : (a w v c : ℕ) → a ≤ w → Repeats w v c → Repeats a v c
Repeats-narrow a w v c le same i lt = same i (omega arith)

store_words-fill : (n d v c : ℕ) (m : Memory) → Repeats 4 v c → store_words n d v m ≡ fill n d c m
unfolding store_words
store_words-fill n d v c m same =
    let q = n / 4 * 4 in
    let words : rep_store (n / 4) 4 d v m ≡ fill q d c m = rep_store-fill (n / 4) 4 d v c m same in
    let more = λ (b e : ℕ) (le : b ≤ 4).
      store-fill b e v c (fill q d c m) (Repeats-narrow b 4 v c le same) in
    elim (Bool-cases (n % 4 == 0)) [
      | inl e0 ↦ rw e0 (words ∙ ap (λ k. fill k d c m) (omega (arith, ==→eq _ _ e0)))
      | inr n0 ↦ elim (Bool-cases (n % 4 == 1)) [
        | inl e1 ↦
            rw (n0, e1, words)
              (more 1 (d + q) (omega arith)
                ∙ fill_join q 1 d c m
                ∙ ap (λ k. fill k d c m) (omega (arith, ==→eq _ _ e1)))
        | inr n1 ↦ elim (Bool-cases (n % 4 == 2)) [
          | inl e2 ↦
              rw (n0, n1, e2, words)
                (more 2 (d + q) (omega arith)
                  ∙ fill_join q 2 d c m
                  ∙ ap (λ k. fill k d c m) (omega (arith, ==→eq _ _ e2)))
          | inr n2 ↦
              let r : n % 4 ≡ 3 = omega (arith, ==→ne _ _ n0, ==→ne _ _ n1, ==→ne _ _ n2) in
              let two : store 2 (d + q) v (fill q d c m) ≡ fill (q + 2) d c m =
                more 2 (d + q) (omega arith) ∙ fill_join q 2 d c m in
              let place : d + q + 2 ≡ d + (q + 2) = omega arith in
              rw (n0, n1, n2, words, two, place)
                (store-fill 1 (d + (q + 2)) v c (fill (q + 2) d c m)
                    (Repeats-narrow 1 4 v c (omega arith) same)
                  ∙ fill_join (q + 2) 1 d c m
                  ∙ ap (λ k. fill k d c m) (omega arith))
        ]
      ]
    ]

Repeats-byte : (c : ℕ) → c < 256 → Repeats 1 c c
Repeats-byte c small zero lt = omega arith
Repeats-byte c small (suc i) lt = absurd (omega arith)

Repeats-word : (c : ℕ) → c < 256 → Repeats 4 (c * 0x01010101 % u32_mod) c
Repeats-word c small zero lt = omega arith
Repeats-word c small (suc zero) lt = omega arith
Repeats-word c small (suc (suc zero)) lt = omega arith
Repeats-word c small (suc (suc (suc zero))) lt = omega arith
Repeats-word c small (suc (suc (suc (suc i)))) lt = absurd (omega arith)

-- `memset` with a value that fits into a byte sets each byte of the object to it, changes nothing else
-- and returns the object, whatever the length and the alignment.
pub memset-fills :
    (s c n : ℕ) (m : Memory) → s < u32_mod → c < 256 → memset s c n m ≡ (fill n s c m, s)
unfolding memset
memset-fills s c n m small byte = elim (Bool-cases (n == 0)) [
  | inl e ↦ rw e (ap (λ k. (k, s)) (sym (ap (λ k. fill k s c m) (==→eq _ _ e) ∙ fill_zero s c m)))
  | inr ne ↦ elim (Bool-cases (ltb n 32)) [
    | inl short ↦
        rw (ne, short)
          (ap (λ k. (k, s))
            (rep_store-fill n 1 s c c m (Repeats-byte c byte)
              ∙ ap (λ k. fill k s c m) (omega arith)))
    | inr long ↦
        let p = padding s in
        let head : rep_store p 1 s c m ≡ fill p s c m =
          rep_store-fill p 1 s c c m (Repeats-byte c byte) ∙ ap (λ k. fill k s c m) (omega arith) in
        rw (ne, long, cases_run_lem s small, head)
          (ap (λ k. (k, s))
            (store_words-fill (n - p) (s + p) (c * 0x01010101 % u32_mod) c (fill p s c m)
                (Repeats-word c byte)
              ∙ fill_join p (n - p) s c m
              ∙ ap (λ k. fill k s c m) (omega (arith, ltb→le _ _ long))))
  ]
]

difference_zero : (a b : ℕ) → difference a b ≡ pos 0 → a ≡ b
difference_zero a b h = ground arith

-- `memcmp` returns 0 exactly where the two objects hold the same bytes.
pub memcmp_iff :
    (m : Memory) (s1 s2 n : ℕ)
    → (memcmp m s1 s2 n ≡ pos 0) ↔ ((i : ℕ) → i < n → m (s1 + i) ≡ m (s2 + i))
unfolding memcmp
memcmp_iff m s1 s2 zero = (λ e i lt. absurd (omega arith), λ h. refl)
memcmp_iff m s1 s2 (suc n) = elim (Bool-cases (m s1 == m s2)) [
  | inl same ↦
      let (there, back) = memcmp_iff m (s1 + 1) (s2 + 1) n in
      rw same (all there (==→eq _ _ same), λ h. back (λ i lt. shifted i (h (suc i) (omega arith))))
  | inr other ↦ rw other (
    λ e. absurd (==→ne _ _ other (difference_zero _ _ e)),
    λ h. absurd (==→ne _ _ other (first (h 0 (omega arith)))),
  )
]
  where
    first : m (s1 + 0) ≡ m (s2 + 0) → m s1 ≡ m s2
    first e =
        let p : s1 + 0 ≡ s1 = omega arith in
        let q : s2 + 0 ≡ s2 = omega arith in sym (ap m p) ∙ e ∙ ap m q

    shifted : (i : ℕ) → m (s1 + suc i) ≡ m (s2 + suc i) → m (s1 + 1 + i) ≡ m (s2 + 1 + i)
    shifted i e =
        let p : s1 + 1 + i ≡ s1 + suc i = omega arith in
        let q : s2 + 1 + i ≡ s2 + suc i = omega arith in rw (p, q) e

    all :
        {v : ℤ}
        → (v ≡ pos 0 → (i : ℕ) → i < n → m (s1 + 1 + i) ≡ m (s2 + 1 + i))
        → m s1 ≡ m s2
        → v ≡ pos 0
        → (i : ℕ) → i < suc n
        → m (s1 + i) ≡ m (s2 + i)
    all there same e zero lt =
        let p : s1 + 0 ≡ s1 = omega arith in
        let q : s2 + 0 ≡ s2 = omega arith in ap m p ∙ same ∙ sym (ap m q)
    all there same e (suc i) lt =
        let p : s1 + suc i ≡ s1 + 1 + i = omega arith in
        let q : s2 + suc i ≡ s2 + 1 + i = omega arith in rw (p, q) (there e i (omega arith))
