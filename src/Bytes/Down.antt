-- ===== src/Bytes/Down.antt =====
-- `memmove` of lib/string.c.
use shaunos.Base.{
  ℕ, zero, suc, ◌+◌, ◌-◌, ◌*◌, ◌/◌, ◌%◌, ◌<◌, ◌≤◌, ◌≡◌, ◌≢◌, ◌⊎◌, refl, sym, ◌∙◌, ap, fun_ext,
  arith, true, false, ltb, leb, ◌==◌, ◌&&◌, Bool-cases, inl, inr, ==→eq, ne→==, eq→==, le→leb,
  lt→leb, ltb→lt, ltb→le, lt→ltb, le→ltb,
}
use shaunos.Base.Int.{u32_mod}
use shaunos.Bytes.{Memory, null, move, rep_move_down, padding, move_words_down, memmove}
use shaunos.Bytes.Copy.{move_in, move_out, move_zero, Apart, memcpy-moves}

-- Where the destination starts at or below the source, or more than a byte behind it, `memmove` sets the
-- destination to the bytes that the source held, changes nothing else and returns the destination.
pub memmove-moves :
    (dest src n : ℕ) (m : Memory)
    → dest ≢ null
    → src ≢ null
    → dest < u32_mod
    → (dest ≤ src) ⊎ (src + n < dest)
    → memmove dest src n m ≡ (move n dest src m, dest)
unfolding memmove
memmove-moves dest src n m some_dest some_src small apart =
    rw (ne→== _ _ some_dest, ne→== _ _ some_src)
      (elim (Bool-cases (n == 0)) [
        | inl e ↦ rw e (
            ap (λ k. (k, dest))
              (sym (ap (λ k. move k dest src m) (==→eq _ _ e) ∙ move_zero dest src m)))
        | inr ne ↦
            rw (ne, up apart) (memcpy-moves dest src n m some_dest some_src small (weaker apart))
      ])
  where
    weaker : (dest ≤ src) ⊎ (src + n < dest) → Apart n dest src
    weaker (inl h) = inl h
    weaker (inr h) = inr (omega arith)

    up : (dest ≤ src) ⊎ (src + n < dest) → (ltb src dest && leb dest (src + n)) ≡ false
    up (inl h) = rw (le→ltb src dest h) refl
    up (inr h) = ground (arith, lt→leb dest (src + n) h)

-- Moving two adjacent blocks, the upper first, moves the whole where the source is below the destination.
move_down :
    (a b d s : ℕ) (m : Memory) → s ≤ d → move a d s (move b (d + a) (s + a) m) ≡ move (a + b) d s m
move_down a b d s m le = fun_ext pointwise
  where
    pointwise : (x : ℕ) → move a d s (move b (d + a) (s + a) m) x ≡ move (a + b) d s m x
    pointwise x = elim (Bool-cases (ltb x d)) [
      | inl h ↦
          let low : x < d = ltb→lt x d h in
          move_out a d s x _ (inl low)
          ∙ move_out b (d + a) (s + a) x m (inl (omega arith))
          ∙ sym (move_out (a + b) d s x m (inl low))
      | inr h ↦
          let low : d ≤ x = ltb→le x d h in
          elim (Bool-cases (ltb x (d + a))) [
            | inl g ↦
                let first : x < d + a = ltb→lt _ _ g in
                move_in a d s x _ low first
                ∙ move_out b (d + a) (s + a) (s + (x - d)) m (inl (omega arith))
                ∙ sym (move_in (a + b) d s x m low (omega arith))
            | inr g ↦
                let second : d + a ≤ x = ltb→le _ _ g in
                move_out a d s x _ (inr second) ∙ elim (Bool-cases (ltb x (d + (a + b)))) [
                  | inl f ↦
                      let inside : x < d + (a + b) = ltb→lt _ _ f in
                      let same : s + a + (x - (d + a)) ≡ s + (x - d) = omega arith in
                      move_in b (d + a) (s + a) x m second (omega arith)
                      ∙ ap m same
                      ∙ sym (move_in (a + b) d s x m low inside)
                  | inr f ↦
                      let past : d + (a + b) ≤ x = ltb→le _ _ f in
                      move_out b (d + a) (s + a) x m (inr (omega arith))
                      ∙ sym (move_out (a + b) d s x m (inr past))
                ]
          ]
    ]

-- The words of a copy down from `d` and `s` are the last at `d`, the one before it below it, and so on.
rep_move_down_lem :
    (n d s : ℕ) (m : Memory)
    → s ≤ d
    → rep_move_down n 4 (d + n * 4) (s + n * 4) m ≡ move (n * 4) (d + 4) (s + 4) m
unfolding rep_move_down
rep_move_down_lem zero d s m le =
    let none_left : 0 * 4 ≡ 0 = omega arith in
    sym (ap (λ k. move k (d + 4) (s + 4) m) none_left ∙ move_zero (d + 4) (s + 4) m)
rep_move_down_lem (suc n) d s m le =
    let d_next : d + suc n * 4 - 4 ≡ d + n * 4 = omega arith in
    let s_next : s + suc n * 4 - 4 ≡ s + n * 4 = omega arith in
    let d_top : d + suc n * 4 ≡ d + 4 + n * 4 = omega arith in
    let s_top : s + suc n * 4 ≡ s + 4 + n * 4 = omega arith in
    let all : n * 4 + 4 ≡ suc n * 4 = omega arith in
    rw (d_next, s_next)
      (rep_move_down_lem n d s (move 4 (d + suc n * 4) (s + suc n * 4) m) le
        ∙ (rw (d_top, s_top) (move_down (n * 4) 4 (d + 4) (s + 4) m (omega arith)))
        ∙ ap (λ k. move k (d + 4) (s + 4) m) all)

-- Where the destination starts inside the source, above its start, and the length and the end of the
-- destination are multiples of 4, `memmove` moves a block of that length that starts four bytes late: the
-- first four bytes of the destination stay as they were, and four bytes behind it are overwritten.
pub memmove-shifted :
    (dest src words : ℕ) (m : Memory)
    → src ≢ null
    → words ≢ 0
    → src < dest
    → dest ≤ src + words * 4
    → dest % 4 ≡ 0
    → dest + words * 4 < u32_mod
    → memmove dest src (words * 4) m ≡ (move (words * 4) (dest + 4) (src + 4) m, dest)
unfolding memmove move_words_down
memmove-shifted dest src words m some_src some_words low high aligned small =
    let n = words * 4 in
    let d0 : (dest == null) ≡ false = ne→== _ _ (omega arith) in
    let s0 : (src == null) ≡ false = ne→== _ _ some_src in
    let n0 : (n == 0) ≡ false = ne→== _ _ (omega arith) in
    let over : ltb src dest ≡ true = lt→ltb _ _ low in
    let lap : leb dest (src + n) ≡ true = le→leb _ _ high in
    let pad : padding (dest + n) ≡ 0 = omega arith in
    let c1 : ((dest + n) % 4 == 1) ≡ false = ne→== _ _ (omega arith) in
    let c2 : ((dest + n) % 4 == 2) ≡ false = ne→== _ _ (omega arith) in
    let c3 : ((dest + n) % 4 == 3) ≡ false = ne→== _ _ (omega arith) in
    let m4 : (n % 4 == 0) ≡ true = eq→== _ _ (omega arith) in
    let q : n / 4 ≡ words = omega arith in
    let n_0 : n - 0 ≡ n = omega arith in
    let d_0 : dest + n - 0 ≡ dest + n = omega arith in
    let s_0 : src + n - 0 ≡ src + n = omega arith in
    rw (d0, s0, n0, over, lap, pad, c1, c2, c3, n_0, d_0, s_0, m4, q)
      (ap (λ k. (k, dest)) (rep_move_down_lem words dest src m (omega arith)))
