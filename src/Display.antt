-- ===== src/Display.antt =====
-- Kernel/console.c, the display: text in video memory, the escape sequences and the cursor.
-- Video memory is a part of the memory of Bytes, from `video_membase` on, two bytes to a character. A
-- `u32` is a number below 2^32; an `int` of an escape sequence is such a number, negative from 2^31 on,
-- and goes round where C leaves it open. A screen has at most 256 rows and 65535 columns, so that its
-- size needs no wrap-around. `pos`, which nothing reads, is left out.
pub mod Cells
pub mod Bounds
pub mod Escape
pub mod Grid
pub mod Refine
pub mod Effects
pub mod Sequence
pub mod Shown
pub mod Spec
pub mod Steps
pub mod Writing
mod Tests
use shaunos.Base.{
  ℕ, zero, suc, ◌+◌, ◌-◌, ◌*◌, ◌/◌, ◌%◌, Bool, true, false, List, [], ◌∷◌, ltb, leb, ◌==◌, ◌&&◌,
  ◌||◌, not, if◌then◌else◌,
}
use shaunos.Base.Int.{u32_mod, add32, sub32}
use shaunos.Bytes.{Memory, memcpy, store}

-- `struct con_obj`, with memory, the `x` and `y` of `process_multichar`, and the two registers of the
-- video controller that hold the cursor
pub record Console : Type 0 where
  pub mem : Memory
  pub attr : ℕ
  pub video_membase : ℕ
  pub rows : ℕ
  pub cols : ℕ
  pub row : ℕ
  pub col : ℕ
  pub video_state : ℕ
  pub line_wrap : ℕ
  pub seq_x : ℕ
  pub seq_y : ℕ
  pub cursor_high : ℕ
  pub cursor_low : ℕ

-- `ATTRIB(BLACK, GRAY)`
abbrev pub default_attribute : ℕ
default_attribute = 7

-- `color_map`, at 0 to 7
unfoldable pub color_map : ℕ → ℕ
color_map k =
    if k == 0
    then 0
    else if k == 1
    then 4
    else if k == 2
    then 2
    else if k == 3
    then 6
    else if k == 4
    then 1
    else if k == 5
    then 5
    else if k == 6
    then 3
    else 7

abbrev pub setattr : ℕ → Console → Console
setattr a con = record con { attr = a }

-- `row * (cols * 2) + col * 2`
abbrev pub cursor_offset : Console → ℕ
cursor_offset con = (con.row * (con.cols * 2) + con.col * 2) % u32_mod

-- where the cursor is in memory
abbrev pub cursor_place : Console → ℕ
cursor_place con = add32 con.video_membase (cursor_offset con)

-- a character and its attribute
unfoldable pub put_cell : ℕ → ℕ → ℕ → Memory → Memory
put_cell p c a m = store 1 (p + 1) a (store 1 p c m)

-- `n` times the same
unfoldable pub put_cells : ℕ → ℕ → ℕ → ℕ → Memory → Memory
unfolding put_cell
put_cells zero p c a m = m
put_cells (suc n) p c a m = put_cells n (p + 2) c a (put_cell p c a m)

-- words of `uint_t`
unfoldable pub put_words : ℕ → ℕ → ℕ → Memory → Memory
put_words zero v fill m = m
put_words (suc n) v fill m = put_words n (v + 4) fill (store 4 v fill m)

-- `0x00200020 | (attr << 24) | (attr << 8)`
abbrev pub fill_word : ℕ → ℕ
fill_word a = 0x20 + a * 0x100 + 0x200000 + a * 0x1000000

unfoldable pub scroll_up : Console → Console
scroll_up con =
    let n = (con.rows - 1) * con.cols * 2 / 4 in
    let (moved, dest) =
      memcpy con.video_membase (con.video_membase + con.cols * 2) ((con.rows - 1) * con.cols * 2)
        con.mem in
    record con {
      mem = put_words (con.cols * 2 / 4) (con.video_membase + n * 4) (fill_word con.attr) moved;
    }

-- an `int` that counts down to zero in a loop: how often it runs
abbrev pub times : ℕ → ℕ
times i = if ltb i 0x80000000 then i else 0

unfoldable pub fill_to_line_end : Console → Console
fill_to_line_end con = record con {
  mem = put_cells (times (sub32 con.cols con.col)) (cursor_place con) b' ' con.attr con.mem;
}

unfoldable pub new_line : Console → Console
new_line con =
    let down = record con { row = add32 con.row 1 } in
    if add32 con.row 1 == con.rows then record (scroll_up down) { row = con.rows - 1 } else down

unfoldable pub set_cursor : Console → Console
set_cursor con = record con {
  cursor_high = cursor_offset con / 512 % 256;
  cursor_low = cursor_offset con / 2 % 256;
}

-- `cls`: as many cells as the screen has bytes
unfoldable pub cls : Console → Console
cls con = record con {
  mem =
      put_cells (con.rows * con.cols * 2 % u32_mod) con.video_membase b' ' default_attribute
        con.mem;
  row = 0;
  col = 0;
}

unfoldable pub gotoxy : ℕ → ℕ → Console → Console
gotoxy row col con =
    if leb con.rows row || leb con.cols col
    then con
    else set_cursor (record con { col = col; row = row })

-- `__put_char`
unfoldable pub put_at_cursor : ℕ → Console → Console
put_at_cursor c con =
    let put = record con { mem = put_cell (cursor_place con) c con.attr con.mem } in
    if ltb con.col (con.cols - 1)
    then record put { col = con.col + 1 }
    else new_line (record put { col = 0 })

-- `n` spaces, for a tab
unfoldable pub put_spaces : ℕ → Console → Console
put_spaces zero con = con
put_spaces (suc n) con = put_spaces n (put_at_cursor b' ' con)

-- a backspace, with `--` on a `u32`
unfoldable pub backspace : Console → Console
backspace con =
    let blanked = put_at_cursor b' ' (record con { col = con.col - 1 }) in
    if con.col == 0 then con else record blanked { col = sub32 blanked.col 1 }

unfoldable pub put_char : ℕ → Console → Console
put_char c con =
    if c == 0
    then con
    else if c == b'\n'
    then new_line (record (fill_to_line_end con) { col = 0 })
    else if c == b'\r'
    then record con { col = 0 }
    else if c == b'\t'
    then put_spaces (8 - con.col % 8) con
    else if c == b'\x08'
    then backspace con
    else if c == 12
    then cls con
    else if c == 27
    then record con { video_state = 1 }
    else put_at_cursor c con
