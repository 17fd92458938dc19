-- ===== src/Display/Writing.antt =====
-- Kernel/console.c: `put_char` and `write_string` on text.
use native.Mathlib.Nat.{mul_assoc}
use shaunos.Base.{
  ℕ, ◌+◌, ◌-◌, ◌*◌, ◌%◌, ◌≤◌, ◌≡◌, refl, sym, ◌∙◌, ap, arith, Bool, true, false, List, [], ◌∷◌, ltb,
  ◌==◌, ◌&&◌, not, Bool-cases, inl, inr,
}
use shaunos.Display.{Console, fill_to_line_end, set_cursor, put_char}
use shaunos.Display.Escape.{write_char, write_chars, write_string}
use shaunos.Display.Bounds.{
  IsValid, Within, Within-here, Within-trans, moved-Within, cell_lt, new_line-Within,
}
use shaunos.Display.Steps.{
  put_at_cursor-Within, put_spaces-Within, backspace-Within, fill_to_line_end-Within,
}

-- text without the formfeed and the escape
abbrev pub is_text : ℕ → Bool
is_text c = not (c == 12) && not (c == 27)

pub put_char-Within :
    (con : Console) (c : ℕ) → IsValid con → is_text c ≡ true → Within con (put_char c con)
unfolding put_char
put_char-Within con c v text =
    let not_feed : c == 12 ≡ false = ground arith in
    let not_escape : c == 27 ≡ false = ground arith in
    elim (Bool-cases (c == 0)) [
      | inl h ↦ rw h (Within-here con v)
      | inr h0 ↦ elim (Bool-cases (c == b'\n')) [
        | inl h ↦
            let filled = fill_to_line_end-Within con v in
            let end = fill_to_line_end con in
            let home =
              moved-Within end end.row 0 filled.valid filled.valid.on_row
                (omega (arith, filled.valid.on_col)) in
            rw (h0, h)
              (Within-trans con end _ filled (
                Within-trans end (record end { col = 0 }) _ home
                  (new_line-Within (record end { col = 0 }) home.valid)))
        | inr h1 ↦ elim (Bool-cases (c == b'\r')) [
          | inl h ↦ rw (h0, h1, h) (moved-Within con con.row 0 v v.on_row (omega (arith, v.on_col)))
          | inr h2 ↦ elim (Bool-cases (c == b'\t')) [
            | inl h ↦ rw (h0, h1, h2, h) (put_spaces-Within (8 - con.col % 8) con v)
            | inr h3 ↦ elim (Bool-cases (c == b'\x08')) [
              | inl h ↦ rw (h0, h1, h2, h3, h) (backspace-Within con v)
              | inr h4 ↦
                  rw (h0, h1, h2, h3, h4, not_feed, not_escape) (put_at_cursor-Within con c v)
            ]
          ]
        ]
      ]
    ]

pub write_char-plain :
    (con : Console) (c : ℕ) → con.video_state ≡ 0 → write_char c con ≡ put_char c con
unfolding write_char
write_char-plain con c e =
    let none_open : ltb 0 con.video_state ≡ false = ground (arith, e) in simp none_open

abbrev pub all_text : List ℕ → Bool
all_text [] = true
all_text (c ∷ s) = is_text c && all_text s

pub write_chars-Within :
    (s : List ℕ) (con : Console)
    → IsValid con
    → con.video_state ≡ 0
    → all_text s ≡ true
    → Within con (write_chars s con)
unfolding write_chars
write_chars-Within [] con v e text = Within-here con v
write_chars-Within (c ∷ s) con v e text =
    let here : is_text c ≡ true = ground arith in
    let others : all_text s ≡ true = ground arith in
    let one : Within con (write_char c con) =
      rw (write_char-plain con c e) (put_char-Within con c v here) in
    Within-trans con (write_char c con) _ one
      (write_chars-Within s (write_char c con) one.valid (one.state ∙ e) others)

set_cursor-Within : (con : Console) → IsValid con → Within con (set_cursor con)
unfolding set_cursor
set_cursor-Within con v = record {
  valid = record {
    based = v.based;
    fits = v.fits;
    on_row = v.on_row;
    on_col = v.on_col;
    byte = v.byte;
  };
  base = refl;
  same_rows = refl;
  same_cols = refl;
  same_attr = refl;
  state = refl;
  outside = λ a h. refl;
}

-- The registers hold the number of the cell that the cursor is on.
cursor-cell :
    (con : Console)
    → IsValid con
    → con.rows * con.cols ≤ 65536
    → (set_cursor con).cursor_high * 256 + (set_cursor con).cursor_low
      ≡ con.row * con.cols + con.col
unfolding set_cursor
cursor-cell con v small =
    let inside = cell_lt con.rows con.cols con.row con.col v.on_row v.on_col in
    let twice : con.row * (con.cols * 2) ≡ con.row * con.cols * 2 = sym (mul_assoc _ _ _) in
    omega (arith, inside, twice, small)

-- `write_string` of text without formfeeds and escapes, outside an escape sequence, keeps the cursor on
-- the screen and outside a sequence, keeps the screen's place and shape, and changes no byte of memory
-- outside video memory, however the text scrolls.
pub write_string-Within :
    (s : List ℕ) (con : Console)
    → IsValid con
    → con.video_state ≡ 0
    → all_text s ≡ true
    → Within con (write_string s con)
unfolding write_string
write_string-Within s con v e text =
    let written = write_chars-Within s con v e text in
    Within-trans con (write_chars s con) _ written
      (set_cursor-Within (write_chars s con) written.valid)

-- After `write_string` of such text the two registers of the video controller hold the number of the
-- cell that the cursor is on, counted row by row, on a screen of at most 65536 cells.
pub write_string-cursor :
    (s : List ℕ) (con : Console)
    → IsValid con
    → con.video_state ≡ 0
    → all_text s ≡ true
    → con.rows * con.cols ≤ 65536
    → (write_string s con).cursor_high * 256 + (write_string s con).cursor_low
      ≡ (write_string s con).row * (write_string s con).cols + (write_string s con).col
unfolding write_string set_cursor
write_string-cursor s con v e text small =
    let written = write_chars-Within s con v e text in
    let after = write_chars s con in
    let area : after.rows * after.cols ≡ con.rows * con.cols =
      ap (λ n. n * after.cols) written.same_rows ∙ ap (λ n. con.rows * n) written.same_cols in
    cursor-cell after written.valid (omega (arith, small, area))
