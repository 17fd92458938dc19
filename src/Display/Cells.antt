-- ===== src/Display/Cells.antt =====
-- Kernel/console.c: what the writes to video memory leave in it, cell by cell.
use shaunos.Base.{
  ℕ, zero, suc, ◌+◌, ◌-◌, ◌*◌, ◌/◌, ◌%◌, ◌^◌, ◌<◌, ◌≤◌, ◌≡◌, refl, sym, ◌∙◌, ap, fun_ext, arith,
  ltb, Bool-cases, inl, inr, ltb→lt, ltb→le,
}
use shaunos.Bytes.{Memory, store}
use shaunos.Bytes.Store.{Clear, store-Clear, store_here, one_byte}
use shaunos.Display.{put_cell, put_cells, put_words, fill_word}

pub put_cell-Clear : (p c a : ℕ) (m : Memory) (x : ℕ) → Clear 2 p x → put_cell p c a m x ≡ m x
unfolding put_cell
put_cell-Clear p c a m x (inl h) =
    store-Clear 1 (p + 1) a _ x (inl (omega arith)) ∙ store-Clear 1 p c m x (inl h)
put_cell-Clear p c a m x (inr h) =
    store-Clear 1 (p + 1) a _ x (inr (omega arith)) ∙ store-Clear 1 p c m x (inr (omega arith))

pub put_cell-char : (p c a : ℕ) (m : Memory) → put_cell p c a m p ≡ c % 256
unfolding put_cell
put_cell-char p c a m = store-Clear 1 (p + 1) a _ p (inl (omega arith)) ∙ one_byte p c m

pub put_cell-attr : (p c a : ℕ) (m : Memory) → put_cell p c a m (p + 1) ≡ a % 256
unfolding put_cell
put_cell-attr p c a m = one_byte (p + 1) a _

pub put_cells-Clear :
    (n p c a : ℕ) (m : Memory) (x : ℕ) → Clear (n * 2) p x → put_cells n p c a m x ≡ m x
unfolding put_cells
put_cells-Clear zero p c a m x h = refl
put_cells-Clear (suc n) p c a m x (inl h) =
    put_cells-Clear n (p + 2) c a _ x (inl (omega arith)) ∙ put_cell-Clear p c a m x (inl h)
put_cells-Clear (suc n) p c a m x (inr h) =
    put_cells-Clear n (p + 2) c a _ x (inr (omega arith))
    ∙ put_cell-Clear p c a m x (inr (omega arith))

pub put_cells-char :
    (n p c a : ℕ) (m : Memory) (i x : ℕ) → i < n → x ≡ p + i * 2 → put_cells n p c a m x ≡ c % 256
unfolding put_cells
put_cells-char zero p c a m i x h e = absurd (omega arith)
put_cells-char (suc n) p c a m zero x h e =
    let here : x ≡ p = omega arith in
    rw here (
      put_cells-Clear n (p + 2) c a (put_cell p c a m) p (inl (omega arith))
      ∙ put_cell-char p c a m)
put_cells-char (suc n) p c a m (suc i) x h e =
    put_cells-char n (p + 2) c a (put_cell p c a m) i x (omega arith) (omega arith)

pub put_cells-attr :
    (n p c a : ℕ) (m : Memory) (i x : ℕ)
    → i < n
    → x ≡ p + i * 2 + 1
    → put_cells n p c a m x ≡ a % 256
unfolding put_cells
put_cells-attr zero p c a m i x h e = absurd (omega arith)
put_cells-attr (suc n) p c a m zero x h e =
    let here : x ≡ p + 1 = omega arith in
    rw here (
      put_cells-Clear n (p + 2) c a (put_cell p c a m) (p + 1) (inl (omega arith))
      ∙ put_cell-attr p c a m)
put_cells-attr (suc n) p c a m (suc i) x h e =
    put_cells-attr n (p + 2) c a (put_cell p c a m) i x (omega arith) (omega arith)

-- a word of blanks is two blank cells
word_byte :
    (v a : ℕ) (m : Memory) (k : ℕ)
    → a < 256
    → k < 4
    → store 4 v (fill_word a) m (v + k) ≡ put_cells 2 v b' ' a m (v + k)
word_byte v a m zero byte h =
    let value : fill_word a / 256 ^ 0 % 256 ≡ b' ' % 256 = omega (arith, byte) in
    store_here 4 v (fill_word a) m 0 h
    ∙ value
    ∙ sym (put_cells-char 2 v b' ' a m 0 (v + 0) (omega arith) (omega arith))
word_byte v a m (suc zero) byte h =
    let value : fill_word a / 256 ^ 1 % 256 ≡ a % 256 = omega (arith, byte) in
    store_here 4 v (fill_word a) m 1 h
    ∙ value
    ∙ sym (put_cells-attr 2 v b' ' a m 0 (v + 1) (omega arith) (omega arith))
word_byte v a m (suc (suc zero)) byte h =
    let value : fill_word a / 256 ^ 2 % 256 ≡ b' ' % 256 = omega (arith, byte) in
    store_here 4 v (fill_word a) m 2 h
    ∙ value
    ∙ sym (put_cells-char 2 v b' ' a m 1 (v + 2) (omega arith) (omega arith))
word_byte v a m (suc (suc (suc zero))) byte h =
    let value : fill_word a / 256 ^ 3 % 256 ≡ a % 256 = omega (arith, byte) in
    store_here 4 v (fill_word a) m 3 h
    ∙ value
    ∙ sym (put_cells-attr 2 v b' ' a m 1 (v + 3) (omega arith) (omega arith))
word_byte v a m (suc (suc (suc (suc k)))) byte h = absurd (omega arith)

pointwise_cells :
    (v a : ℕ) (m : Memory)
    → a < 256
    → (x : ℕ) → store 4 v (fill_word a) m x ≡ put_cells 2 v b' ' a m x
pointwise_cells v a m byte x = elim (Bool-cases (ltb x v)) [
  | inl h ↦
      store-Clear 4 v _ m x (inl (ltb→lt x v h))
      ∙ sym (put_cells-Clear 2 v b' ' a m x (inl (ltb→lt x v h)))
  | inr h ↦ elim (Bool-cases (ltb x (v + 4))) [
    | inl g ↦
        let split : v + (x - v) ≡ x = omega (arith, ltb→le x v h) in
        let small : x - v < 4 = omega (arith, ltb→le x v h, ltb→lt _ _ g) in
        let there = word_byte v a m (x - v) byte small in rw split at there
    | inr g ↦
        let past : v + 4 ≤ x = ltb→le _ _ g in
        store-Clear 4 v _ m x (inr past) ∙ sym (put_cells-Clear 2 v b' ' a m x (inr past))
  ]
]

-- a row of blank words is a row of blank cells
pub put_words-cells :
    (n v a : ℕ) (m : Memory)
    → a < 256
    → put_words n v (fill_word a) m ≡ put_cells (n * 2) v b' ' a m
unfolding put_words put_cells
put_words-cells zero v a m byte = refl
put_words-cells (suc n) v a m byte =
    let twice : suc n * 2 ≡ suc (suc (n * 2)) = omega arith in
    let two_on : v + 4 ≡ v + 2 + 2 = omega arith in
    put_words-cells n (v + 4) a (store 4 v (fill_word a) m) byte
    ∙ ap (λ k. put_cells (n * 2) (v + 4) b' ' a k) (fun_ext (pointwise_cells v a m byte))
    ∙ ap (λ p. put_cells (n * 2) p b' ' a (put_cells 2 v b' ' a m)) two_on
    ∙ sym (ap (λ k. put_cells k v b' ' a m) twice)
