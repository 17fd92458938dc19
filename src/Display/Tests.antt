-- ===== src/Display/Tests.antt =====
-- Tests: a screen of two rows and four columns.
use shaunos.Base.{ℕ, ◌+◌, ◌≡◌, refl, arith, List, [], ◌∷◌, ltb, ◌&&◌}
use shaunos.Bytes.{store}
use shaunos.Display.{Console, cls, put_cells, put_cell}
use shaunos.Display.Escape.{
  after_bracket, in_first, write_string, cursor_down, cursor_right, cursor_left,
}
use shaunos.Display.Bounds.{IsValid, Within}
use shaunos.Display.Writing.{write_string-Within}
use shaunos.Display.Spec.{Screen, text}
use shaunos.Display.Refine.{shape, Shows}
use shaunos.Display.Shown.{write_string-Shows}
use shaunos.Display.Effects.{Coloured, Unchanged, goes_to, write_string-goto, write_string-Coloured}

abbrev small : Console
small = record {
  mem = λ a. 0;
  attr = 7;
  video_membase = 100;
  rows = 2;
  cols = 4;
  row = 1;
  col = 3;
  video_state = 0;
  line_wrap = 0;
  seq_x = 0;
  seq_y = 0;
  cursor_high = 0;
  cursor_low = 0;
}

small-IsValid : IsValid small
small-IsValid = record {
  based = omega arith;
  fits = omega arith;
  on_row = omega arith;
  on_col = omega arith;
  byte = omega arith;
}

abbrev dark : Screen
dark = record { grid = λ r k. (0, 0); row = 1; col = 3 }

small-Shows : Shows small dark
small-Shows = record { at_row = refl; at_col = refl; cells = λ r k hr hk. refl }

-- `ab`, a newline, a backspace, a tab, `c`
abbrev words : List ℕ
words = b'a' ∷ b'b' ∷ b'\n' ∷ b'\x08' ∷ b'\t' ∷ b'c' ∷ []

write_string-Within_example : Within small (write_string words small)
write_string-Within_example = write_string-Within words small small-IsValid refl refl

write_string-Shows_example : Shows (write_string words small) (text (shape small) words dark)
write_string-Shows_example =
    write_string-Shows words small dark small-IsValid refl refl refl small-Shows

write_string-goto_example :
    ((write_string (27 ∷ b'[' ∷ b'1' ∷ b';' ∷ b'2' ∷ b'H' ∷ []) small).row
      ≡ goes_to (ltb 1 2 && ltb 2 4) 1 1)
    × ((write_string (27 ∷ b'[' ∷ b'1' ∷ b';' ∷ b'2' ∷ b'H' ∷ []) small).col
        ≡ goes_to (ltb 1 2 && ltb 2 4) 2 3)
    × Unchanged small (write_string (27 ∷ b'[' ∷ b'1' ∷ b';' ∷ b'2' ∷ b'H' ∷ []) small)
write_string-goto_example =
    write_string-goto b'1' [] (b'2' ∷ []) small (omega arith) (omega arith) refl refl refl
      (omega arith) (omega arith) (omega arith) (omega arith)

write_string-Coloured_example :
    Coloured 1 small
      (write_string (27 ∷ b'[' ∷ b'3' ∷ (b'0' + 1) ∷ b'm' ∷ []) small)
      (write_string (27 ∷ b'[' ∷ b'4' ∷ (b'0' + 1) ∷ b'm' ∷ []) small)
write_string-Coloured_example = write_string-Coloured 1 small (omega arith) (omega arith) refl

-- `cls` writes past the end of the screen, which has 16 bytes here
cls_past_the_end : (cls small).mem 130 ≡ b' '
unfolding cls put_cells put_cell store
cls_past_the_end = refl

-- `B` takes the cursor below the last row
below_the_screen : (cursor_down 1 small).row ≡ 2
unfolding cursor_down
below_the_screen = refl

-- `C` stops at the column after the last one
right_of_the_screen : (cursor_right 1 (record small { col = 2 })).col ≡ 4
unfolding cursor_right
right_of_the_screen = refl

-- `D` goes below zero
left_of_the_screen : (cursor_left 2 small).col ≡ 4294967295
unfolding cursor_left
left_of_the_screen = refl

-- `?` goes on with the number of the sequence before it
number_left_over :
    (in_first b'7' (after_bracket b'?' (record small { seq_x = 31 })).1).1.seq_x ≡ 317
unfolding in_first after_bracket
number_left_over = refl
