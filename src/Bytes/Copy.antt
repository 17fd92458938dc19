-- ===== src/Bytes/Copy.antt =====
-- `memcpy` and `memmove` of lib/string.c: bytes, words and the alignment of the destination put
-- together move one block of bytes.
use shaunos.Base.{
  ℕ, zero, suc, ◌+◌, ◌-◌, ◌*◌, ◌/◌, ◌%◌, ◌<◌, ◌≤◌, ◌≡◌, ◌≢◌, ◌⊎◌, refl, sym, ◌∙◌, ap, fun_ext,
  arith, ltb, ◌==◌, Bool-cases, inl, inr, ==→eq, ==→ne, ne→==, le→leb, lt→leb, ltb→lt, ltb→le,
  lt→ltb, le→ltb,
}
use shaunos.Base.Int.{u32_mod}
use shaunos.Bytes.{Memory, null, move, rep_move, padding, cases_run, move_words, memcpy}

pub move_in : (w d s x : ℕ) (m : Memory) → d ≤ x → x < d + w → move w d s m x ≡ m (s + (x - d))
unfolding move
move_in w d s x m low high = rw (le→leb d x low, lt→ltb x (d + w) high) refl

pub move_out : (w d s x : ℕ) (m : Memory) → (x < d) ⊎ (d + w ≤ x) → move w d s m x ≡ m x
unfolding move
move_out w d s x m (inl h) = rw (lt→leb d x h) refl
move_out w d s x m (inr h) = rw (le→leb d x (omega arith), le→ltb x (d + w) h) refl

-- Moving two adjacent blocks, the lower first, moves the whole where the source is not below the
-- destination or ends before it.
pub move_up :
    (a b d s : ℕ) (m : Memory)
    → (d ≤ s) ⊎ (s + (a + b) ≤ d)
    → move b (d + a) (s + a) (move a d s m) ≡ move (a + b) d s m
move_up a b d s m apart = fun_ext pointwise
  where
    below : (y : ℕ) → s + a ≤ y → y < s + (a + b) → (y < d) ⊎ (d + a ≤ y)
    below y low high = elim apart [ inl h ↦ inr (omega arith) | inr h ↦ inl (omega arith) ]

    pointwise : (x : ℕ) → move b (d + a) (s + a) (move a d s m) x ≡ move (a + b) d s m x
    pointwise x = elim (Bool-cases (ltb x d)) [
      | inl h ↦
          move_out b (d + a) (s + a) x _ (inl (omega (arith, ltb→lt x d h)))
          ∙ move_out a d s x m (inl (ltb→lt x d h))
          ∙ sym (move_out (a + b) d s x m (inl (ltb→lt x d h)))
      | inr h ↦
          let low : d ≤ x = ltb→le x d h in
          elim (Bool-cases (ltb x (d + a))) [
            | inl g ↦
                let first : x < d + a = ltb→lt _ _ g in
                move_out b (d + a) (s + a) x _ (inl first)
                ∙ move_in a d s x m low first
                ∙ sym (move_in (a + b) d s x m low (omega arith))
            | inr g ↦
                let second : d + a ≤ x = ltb→le _ _ g in
                elim (Bool-cases (ltb x (d + (a + b)))) [
                  | inl f ↦
                      let inside : x < d + (a + b) = ltb→lt _ _ f in
                      let same : s + a + (x - (d + a)) ≡ s + (x - d) = omega arith in
                      move_in b (d + a) (s + a) x _ second (omega arith)
                      ∙ move_out a d s _ m (below _ (omega arith) (omega arith))
                      ∙ ap m same
                      ∙ sym (move_in (a + b) d s x m low inside)
                  | inr f ↦
                      let past : d + (a + b) ≤ x = ltb→le _ _ f in
                      move_out b (d + a) (s + a) x _ (inr (omega arith))
                      ∙ move_out a d s x m (inr (omega arith))
                      ∙ sym (move_out (a + b) d s x m (inr past))
                ]
          ]
    ]

pub move_zero : (d s : ℕ) (m : Memory) → move 0 d s m ≡ m
move_zero d s m = fun_ext (λ x. elim (Bool-cases (ltb x d)) [
  | inl h ↦ move_out 0 d s x m (inl (ltb→lt x d h))
  | inr h ↦ move_out 0 d s x m (inr (omega (arith, ltb→le x d h)))
])

pub rep_move_lem :
    (n w d s : ℕ) (m : Memory) → (d ≤ s) ⊎ (s + n * w ≤ d) → rep_move n w d s m ≡ move (n * w) d s m
unfolding rep_move
rep_move_lem zero w d s m apart =
    let none_left : 0 * w ≡ 0 = omega arith in
    sym (ap (λ k. move k d s m) none_left ∙ move_zero d s m)
rep_move_lem (suc n) w d s m apart =
    rep_move_lem n w (d + w) (s + w) (move w d s m) (later apart)
    ∙ move_up w (n * w) d s m (same apart)
    ∙ ap (λ k. move k d s m) (omega arith)
  where
    later : (d ≤ s) ⊎ (s + suc n * w ≤ d) → (d + w ≤ s + w) ⊎ (s + w + n * w ≤ d + w)
    later (inl h) = inl (omega arith)
    later (inr h) = inr (omega arith)

    same : (d ≤ s) ⊎ (s + suc n * w ≤ d) → (d ≤ s) ⊎ (s + (w + n * w) ≤ d)
    same (inl h) = inl h
    same (inr h) = inr (omega arith)

abbrev pub Apart : ℕ → ℕ → ℕ → Type 0
Apart n d s = (d ≤ s) ⊎ (s + n ≤ d)

narrow : (a n d s : ℕ) → a ≤ n → Apart n d s → Apart a d s
narrow a n d s le (inl h) = inl h
narrow a n d s le (inr h) = inr (omega arith)

shift : (a b d s : ℕ) → Apart (a + b) d s → Apart b (d + a) (s + a)
shift a b d s (inl h) = inl (omega arith)
shift a b d s (inr h) = inr (omega arith)

move_words_lem : (n d s : ℕ) (m : Memory) → Apart n d s → move_words n d s m ≡ move n d s m
unfolding move_words
move_words_lem n d s m apart =
    let q = n / 4 * 4 in
    let words : rep_move (n / 4) 4 d s m ≡ move q d s m =
      rep_move_lem (n / 4) 4 d s m (narrow q n d s (omega arith) apart) in
    let up = λ (b : ℕ) (le : q + b ≤ n). move_up q b d s m (narrow (q + b) n d s le apart) in
    elim (Bool-cases (n % 4 == 0)) [
      | inl e0 ↦ rw e0 (words ∙ ap (λ k. move k d s m) (omega (arith, ==→eq _ _ e0)))
      | inr n0 ↦ elim (Bool-cases (n % 4 == 1)) [
        | inl e1 ↦
            rw (n0, e1, words)
              (up 1 (omega (arith, ==→eq _ _ e1))
                ∙ ap (λ k. move k d s m) (omega (arith, ==→eq _ _ e1)))
        | inr n1 ↦ elim (Bool-cases (n % 4 == 2)) [
          | inl e2 ↦
              rw (n0, n1, e2, words)
                (up 2 (omega (arith, ==→eq _ _ e2))
                  ∙ ap (λ k. move k d s m) (omega (arith, ==→eq _ _ e2)))
          | inr n2 ↦
              let r : n % 4 ≡ 3 = omega (arith, ==→ne _ _ n0, ==→ne _ _ n1, ==→ne _ _ n2) in
              let two : move 2 (d + q) (s + q) (move q d s m) ≡ move (q + 2) d s m =
                up 2 (omega arith) in
              let byte : move 1 (d + (q + 2)) (s + (q + 2)) (move (q + 2) d s m)
                  ≡ move (q + 2 + 1) d s m =
                move_up (q + 2) 1 d s m (narrow (q + 2 + 1) n d s (omega arith) apart) in
              rw (n0, n1, n2, words, two)
                (ap₂' (d + q + 2) (d + (q + 2)) (s + q + 2) (s + (q + 2)) (omega arith)
                    (omega arith) (move (q + 2) d s m)
                  ∙ byte
                  ∙ ap (λ k. move k d s m) (omega arith))
        ]
      ]
    ]
  where
    ap₂' : (d1 d2 s1 s2 : ℕ) → d1 ≡ d2 → s1 ≡ s2 → (k : Memory) → move 1 d1 s1 k ≡ move 1 d2 s2 k
    ap₂' d1 d2 s1 s2 e f k = rw (e, f) refl

pub cases_run_lem : (p : ℕ) → p < u32_mod → cases_run p ≡ padding p
cases_run_lem p small = elim (Bool-cases (p % 4 == 1)) [
  | inl h ↦ rw h (omega (arith, ==→eq _ _ h))
  | inr h1 ↦ elim (Bool-cases (p % 4 == 2)) [
    | inl h ↦ rw (h1, h) (omega (arith, ==→eq _ _ h))
    | inr h2 ↦ elim (Bool-cases (p % 4 == 3)) [
      | inl h ↦ rw (h1, h2, h) (omega (arith, ==→eq _ _ h))
      | inr h3 ↦ rw (h1, h2, h3) (omega (arith, ==→ne _ _ h1, ==→ne _ _ h2, ==→ne _ _ h3))
    ]
  ]
]

-- `memcpy` of two objects, where the source does not lie below the destination and reach into it, sets
-- the destination to the bytes that the source held, changes nothing else and returns the destination,
-- whatever the length and the alignment.
pub memcpy-moves :
    (dest src n : ℕ) (m : Memory)
    → dest ≢ null
    → src ≢ null
    → dest < u32_mod
    → Apart n dest src
    → memcpy dest src n m ≡ (move n dest src m, dest)
unfolding memcpy
memcpy-moves dest src n m some_dest some_src small apart =
    rw (ne→== _ _ some_src, ne→== _ _ some_dest)
      (elim (Bool-cases (n == 0)) [
        | inl e ↦ rw e (ap (λ k. (k, dest)) (sym (empty (==→eq _ _ e))))
        | inr ne ↦ elim (Bool-cases (ltb n 32)) [
          | inl short ↦
              rw (ne, short)
                (ap (λ k. (k, dest)) (bytes ∙ ap (λ k. move k dest src m) (omega arith)))
          | inr long ↦
              rw (ne, long, cases_run_lem dest small)
                (ap (λ k. (k, dest)) (aligned (ltb→le _ _ long)))
        ]
      ])
  where
    p : ℕ
    p = padding dest

    empty : n ≡ 0 → move n dest src m ≡ m
    empty e = rw e (move_zero dest src m)

    times_one : n * 1 ≡ n
    times_one = omega arith

    bytes : rep_move n 1 dest src m ≡ move (n * 1) dest src m
    bytes = rep_move_lem n 1 dest src m (rw times_one apart)

    aligned :
        32 ≤ n
        → move_words (n - p) (dest + p) (src + p) (rep_move p 1 dest src m) ≡ move n dest src m
    aligned long =
        let one : p * 1 ≡ p = omega arith in
        let whole : p + (n - p) ≡ n = omega arith in
        let head : rep_move p 1 dest src m ≡ move p dest src m =
          rep_move_lem p 1 dest src m (rw one (narrow p n dest src (omega arith) apart))
          ∙ ap (λ k. move k dest src m) one in
        rw head (
          move_words_lem (n - p) (dest + p) (src + p) (move p dest src m)
            (shift p (n - p) dest src (rw whole apart))
          ∙ move_up p (n - p) dest src m (rw whole apart)
          ∙ ap (λ k. move k dest src m) whole)
