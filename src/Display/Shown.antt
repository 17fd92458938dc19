-- ===== src/Display/Shown.antt =====
-- Kernel/console.c: `put_char` and `write_string` implement the screen of Spec.
use shaunos.Base.{
  ℕ, ◌-◌, ◌%◌, ◌≡◌, refl, sym, ◌∙◌, subst, arith, true, false, List, [], ◌∷◌, ◌==◌, Bool-cases, inl,
  inr,
}
use shaunos.Display.{Console, set_cursor, put_spaces, put_char}
use shaunos.Display.Escape.{write_chars, write_string}
use shaunos.Display.Bounds.{IsValid}
use shaunos.Display.Writing.{is_text, all_text, put_char-Within, write_char-plain}
use shaunos.Display.Spec.{Screen, put_many, char, text}
use shaunos.Display.Refine.{
  shape, shape-Within, Shows, put_at_cursor-Shows, put_spaces-Shows, end_line-Shows,
  backspace-Shows,
}

-- `put_char` of a character that is neither a formfeed nor an escape changes the cells and the cursor as
-- the screen says: a zero is left out, a newline blanks the rest of the line and goes to the next, a
-- carriage return goes to the start of the line, a tab puts spaces up to the next multiple of eight, a
-- backspace wipes the cell before the cursor, and all else is put at the cursor with the attribute that
-- is set; where there is no next line all rows move up and a blank one comes in. The number of columns
-- is even.
pub put_char-Shows :
    (con : Console) (s : Screen) (c : ℕ)
    → IsValid con
    → con.cols % 2 ≡ 0
    → is_text c ≡ true
    → Shows con s
    → Shows (put_char c con) (char (shape con) c s)
unfolding put_char
put_char-Shows con s c v even plain h =
    let not_feed : c == 12 ≡ false = ground arith in
    let not_escape : c == 27 ≡ false = ground arith in
    elim (Bool-cases (c == 0)) [
      | inl h0 ↦ simp h0 h
      | inr h0 ↦ elim (Bool-cases (c == b'\n')) [
        | inl h1 ↦ simp (h0, h1) (end_line-Shows con s v even h)
        | inr h1 ↦ elim (Bool-cases (c == b'\r')) [
          | inl h2 ↦
              simp (h0, h1, h2) (record { at_row = h.at_row; at_col = refl; cells = h.cells })
          | inr h2 ↦ elim (Bool-cases (c == b'\t')) [
            | inl h3 ↦
                let spaces = put_spaces-Shows (8 - con.col % 8) con s v even h in
                simp (h0, h1, h2, h3)
                  (subst
                    (λ k.
                      Shows (put_spaces (8 - con.col % 8) con)
                        (put_many (shape con) (8 - k % 8) b' ' s))
                    (sym h.at_col) spaces)
            | inr h3 ↦ elim (Bool-cases (c == b'\x08')) [
              | inl h4 ↦ simp (h0, h1, h2, h3, h4) (backspace-Shows con s v h)
              | inr h4 ↦
                  simp (h0, h1, h2, h3, h4, not_feed, not_escape)
                    (put_at_cursor-Shows con s c v even h)
            ]
          ]
        ]
      ]
    ]

write_chars-Shows :
    (cs : List ℕ) (con : Console) (s : Screen)
    → IsValid con
    → con.cols % 2 ≡ 0
    → con.video_state ≡ 0
    → all_text cs ≡ true
    → Shows con s
    → Shows (write_chars cs con) (text (shape con) cs s)
unfolding write_chars
write_chars-Shows [] con s v even e plain h = h
write_chars-Shows (c ∷ cs) con s v even e plain h =
    let here : is_text c ≡ true = ground arith in
    let others : all_text cs ≡ true = ground arith in
    let one = put_char-Within con c v here in
    let rest =
      write_chars-Shows cs (put_char c con) (char (shape con) c s) one.valid (rw one.same_cols even)
        (one.state ∙ e) others (put_char-Shows con s c v even here h) in
    let same =
      subst (λ sh. Shows (write_chars cs (put_char c con)) (text sh cs (char (shape con) c s)))
        (shape-Within con (put_char c con) one) rest in
    subst (λ d. Shows (write_chars cs d) (text (shape con) cs (char (shape con) c s)))
      (sym (write_char-plain con c e)) same

-- `write_string` of text without formfeeds and escapes, outside an escape sequence, shows what the screen
-- says of its characters, one after the other: every cell of video memory and the cursor are as a grid
-- of cells with a cursor has them, for any text and any number of lines. The number of columns is even.
pub write_string-Shows :
    (cs : List ℕ) (con : Console) (s : Screen)
    → IsValid con
    → con.cols % 2 ≡ 0
    → con.video_state ≡ 0
    → all_text cs ≡ true
    → Shows con s
    → Shows (write_string cs con) (text (shape con) cs s)
unfolding write_string set_cursor
write_string-Shows cs con s v even e plain h =
    let shown = write_chars-Shows cs con s v even e plain h in
    record { at_row = shown.at_row; at_col = shown.at_col; cells = shown.cells }
