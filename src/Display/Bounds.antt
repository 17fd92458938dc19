-- ===== src/Display/Bounds.antt =====
-- Kernel/console.c: text that is written stays on the screen and in video memory.
use native.Mathlib.Nat.{mul_assoc, le-mul_of_pos_right, mul-le-mul_right}
use shaunos.Base.{
  ℕ, suc, ◌+◌, ◌-◌, ◌*◌, ◌/◌, ◌<◌, ◌≤◌, ◌≡◌, ◌≢◌, refl, sym, ◌∙◌, ap, arith, ◌==◌, Bool-cases, inl,
  inr, ==→ne,
}
use shaunos.Base.Int.{u32_mod, add32}
use shaunos.Bytes.{Memory, move}
use shaunos.Bytes.Copy.{move_out, memcpy-moves}
use shaunos.Display.{Console, cursor_place, put_cells, put_words, fill_word, scroll_up, new_line}
use shaunos.Display.Cells.{put_cells-Clear, put_words-cells}
use shaunos.Bytes.Store.{Clear}

-- how many bytes the screen takes
abbrev pub size : Console → ℕ
size con = con.rows * con.cols * 2

pub record IsValid (con : Console) : Type 0 where
  pub based : con.video_membase ≢ 0
  pub fits : con.video_membase + con.rows * con.cols * 2 ≤ u32_mod
  pub on_row : con.row < con.rows
  pub on_col : con.col < con.cols
  pub byte : con.attr < 256

-- What an operation of the display does to one that was valid: it is valid still, the screen is the same
-- one, and memory outside it is as it was.
pub record Within (con con' : Console) : Type 0 where
  pub valid : IsValid con'
  pub base : con'.video_membase ≡ con.video_membase
  pub same_rows : con'.rows ≡ con.rows
  pub same_cols : con'.cols ≡ con.cols
  pub same_attr : con'.attr ≡ con.attr
  pub state : con'.video_state ≡ con.video_state
  pub outside : (a : ℕ) → Clear (size con) con.video_membase a → con'.mem a ≡ con.mem a

pub Within-here : (con : Console) → IsValid con → Within con con
Within-here con v = record {
  valid = v;
  base = refl;
  same_rows = refl;
  same_cols = refl;
  same_attr = refl;
  state = refl;
  outside = λ a h. refl;
}

pub Within-trans : (a b c : Console) → Within a b → Within b c → Within a c
Within-trans a b c f g =
    let same : size b ≡ size a =
      ap (λ n. n * b.cols * 2) f.same_rows ∙ ap (λ n. a.rows * n * 2) f.same_cols in
    record {
      valid = g.valid;
      base = g.base ∙ f.base;
      same_rows = g.same_rows ∙ f.same_rows;
      same_cols = g.same_cols ∙ f.same_cols;
      same_attr = g.same_attr ∙ f.same_attr;
      state = g.state ∙ f.state;
      outside = λ x h. g.outside x (rw (same, f.base) h) ∙ f.outside x h;
    }

-- the cells of a screen come row by row
pub cell_lt : (rows cols r k : ℕ) → r < rows → k < cols → r * cols + k < rows * cols
cell_lt rows cols r k hr hk =
    let row_end : suc r * cols ≤ rows * cols = mul-le-mul_right cols hr in
    let next_row : suc r * cols ≡ r * cols + cols = omega arith in omega arith

pub small_sides :
    (con : Console) → IsValid con → (con.rows * 2 < u32_mod) × (con.cols * 2 < u32_mod)
small_sides con v =
    let rows_le : con.rows ≤ con.rows * con.cols =
      le-mul_of_pos_right con.rows (omega (arith, v.on_col)) in
    let cols_le : 1 * con.cols ≤ con.rows * con.cols =
      mul-le-mul_right con.cols (omega (arith, v.on_row)) in
    (omega (arith, v.fits, v.based), omega (arith, v.fits, v.based))

pub cursor_place-cell :
    (con : Console)
    → IsValid con
    → cursor_place con ≡ con.video_membase + (con.row * con.cols + con.col) * 2
cursor_place-cell con v =
    let inside = cell_lt con.rows con.cols con.row con.col v.on_row v.on_col in
    let twice : con.row * (con.cols * 2) ≡ con.row * con.cols * 2 = sym (mul_assoc _ _ _) in
    omega (arith, v.fits, v.based, inside, twice)

-- the cursor is moved to a place on the screen
pub moved-Within :
    (con : Console) (r k : ℕ)
    → IsValid con
    → r < con.rows
    → k < con.cols
    → Within con (record con { row = r; col = k })
moved-Within con r k v hr hk = record {
  valid = record { based = v.based; fits = v.fits; on_row = hr; on_col = hk; byte = v.byte };
  base = refl;
  same_rows = refl;
  same_cols = refl;
  same_attr = refl;
  state = refl;
  outside = λ a h. refl;
}

-- memory is written inside the screen
pub written-Within :
    (con : Console) (m : Memory)
    → IsValid con
    → ((a : ℕ) → Clear (size con) con.video_membase a → m a ≡ con.mem a)
    → Within con (record con { mem = m })
written-Within con m v outside = record {
  valid = record {
    based = v.based;
    fits = v.fits;
    on_row = v.on_row;
    on_col = v.on_col;
    byte = v.byte;
  };
  base = refl;
  same_rows = refl;
  same_cols = refl;
  same_attr = refl;
  state = refl;
  outside = outside;
}

pub Clear-part : (n p k q x : ℕ) → p ≤ q → q + k ≤ p + n → Clear n p x → Clear k q x
Clear-part n p k q x low high (inl h) = inl (omega arith)
Clear-part n p k q x low high (inr h) = inr (omega arith)

-- the two parts that scrolling writes: all rows but the last, and the last in whole words
pub scroll_up-mem :
    (con : Console)
    → IsValid con
    → (scroll_up con).mem
      ≡ put_cells
          (con.cols * 2 / 4 * 2)
          (con.video_membase + (con.rows - 1) * con.cols * 2 / 4 * 4)
          b' '
          con.attr
          (move
            ((con.rows - 1) * con.cols * 2)
            con.video_membase
            (con.video_membase + con.cols * 2)
            con.mem)
unfolding scroll_up
scroll_up-mem con v =
    let inside = cell_lt con.rows con.cols con.row con.col v.on_row v.on_col in
    let copied =
      memcpy-moves con.video_membase (con.video_membase + con.cols * 2)
        ((con.rows - 1) * con.cols * 2) con.mem v.based (omega (arith, v.based))
        (omega (arith, v.fits, inside)) (inl (omega arith)) in
    ap
      (λ r.
        put_words (con.cols * 2 / 4) (con.video_membase + (con.rows - 1) * con.cols * 2 / 4 * 4)
          (fill_word con.attr) r.0)
      copied
    ∙ put_words-cells (con.cols * 2 / 4) _ con.attr _ v.byte

-- the rows but the last, and the last one
pub rows_split : (rows cols r : ℕ) → r < rows → rows * cols ≡ (rows - 1) * cols + cols
rows_split rows cols r h =
    let one_more : rows ≡ suc (rows - 1) = omega arith in
    let split : suc (rows - 1) * cols ≡ (rows - 1) * cols + cols = omega arith in
    ap (λ n. n * cols) one_more ∙ split

pub scroll_up-Within : (con : Console) → IsValid con → Within con (scroll_up con)
unfolding scroll_up
scroll_up-Within con v = written-Within con (scroll_up con).mem v outside
  where
    split : con.rows * con.cols ≡ (con.rows - 1) * con.cols + con.cols
    split = rows_split con.rows con.cols con.row v.on_row

    outside : (a : ℕ) → Clear (size con) con.video_membase a → (scroll_up con).mem a ≡ con.mem a
    outside a h =
        ap (λ m. m a) (scroll_up-mem con v)
        ∙ put_cells-Clear (con.cols * 2 / 4 * 2) _ b' ' con.attr _ a
            (Clear-part (size con) con.video_membase _ _ a (omega arith) (omega (arith, split)) h)
        ∙ move_out _ con.video_membase _ a con.mem (
            Clear-part (size con) con.video_membase _ con.video_membase a (omega arith)
              (omega (arith, split)) h)

pub new_line-Within : (con : Console) → IsValid con → Within con (new_line con)
unfolding new_line scroll_up
new_line-Within con v =
    let (low, narrow) = small_sides con v in
    let next : add32 con.row 1 ≡ con.row + 1 = omega (arith, v.on_row, low) in
    elim (Bool-cases (con.row + 1 == con.rows)) [
      | inl last ↦
          let up = scroll_up-Within con v in
          rw (next, last)
            (Within-trans con (scroll_up con) _ up (
              moved-Within (scroll_up con) (con.rows - 1) con.col up.valid (omega (arith, v.on_row))
                v.on_col))
      | inr more ↦
          rw (next, more)
            (moved-Within con (con.row + 1) con.col v (omega (arith, v.on_row, ==→ne _ _ more))
              v.on_col)
    ]
