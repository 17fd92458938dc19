-- ===== src/Display/Escape.antt =====
-- Kernel/console.c: the escape sequences that `write_string` reads, a state for each part of one.
use shaunos.Base.{
  ℕ, zero, suc, ◌+◌, ◌-◌, ◌*◌, ◌/◌, ◌%◌, Bool, List, [], ◌∷◌, ltb, leb, ◌==◌, ◌&&◌, ◌||◌,
  if◌then◌else◌,
}
use shaunos.Base.Int.{u32_mod, add32, sub32}
use shaunos.Display.{
  Console, default_attribute, color_map, setattr, scroll_up, times, fill_to_line_end, new_line,
  set_cursor, cls, gotoxy, put_char,
}

-- the attribute that the sequence `m` leaves: `+`, `|`, `&` and shifts of a byte, with `attr & 0xF8` as
-- `attr / 8 * 8`, `attr & 0x8F` as `attr / 128 * 128 + attr % 16` and `attr & 0xF0` as `attr / 16 * 16`
unfoldable pub attr_after : ℕ → ℕ → ℕ
attr_after x attr =
    if leb 30 x && leb x 37
    then (color_map (x - 30) + attr / 8 * 8) % 256
    else if leb 40 x && leb x 47
    then (color_map (x - 40) * 16 + (attr / 128 * 128 + attr % 16)) % 256
    else if x == 1
    then (if attr / 8 % 2 == 0 then attr + 8 else attr)
    else if x == 2
    then (if attr / 8 % 2 == 0 then attr else attr - 8)
    else if x == 5
    then (if attr / 128 % 2 == 0 then attr + 128 else attr)
    else if x == 6
    then (if attr / 128 % 2 == 0 then attr else attr - 128)
    else if x == 7
    then (attr / 16 + attr % 16 * 16) % 256
    else if x == 8
    then (attr / 16 + attr / 16 * 16) % 256
    else default_attribute

-- the cursor up and down, and `n` new lines
unfoldable pub cursor_up : ℕ → Console → Console
cursor_up zero con = con
cursor_up (suc n) con =
    let rest = cursor_up n (record con { row = con.row - 1 }) in if leb 1 con.row then rest else con

unfoldable pub cursor_down : ℕ → Console → Console
cursor_down zero con = con
cursor_down (suc n) con =
    let rest = cursor_down n (record con { row = con.row + 1 }) in
    if ltb con.row con.rows then rest else con

unfoldable pub new_lines : ℕ → Console → Console
new_lines zero con = con
new_lines (suc n) con = new_lines n (new_line con)

-- `C` and `D`
unfoldable pub cursor_right : ℕ → Console → Console
cursor_right x con =
    let col = (con.col + x * 2) % u32_mod in
    record con { col = if ltb con.cols col then sub32 con.cols 1 else col }

unfoldable pub cursor_left : ℕ → Console → Console
cursor_left x con = record con { col = sub32 con.col (x * 2 % u32_mod) }

-- a row or column of `H`, first made at least 1, then at most `limit`
unfoldable pub clamp : ℕ → ℕ → ℕ
clamp x limit =
    let low = if x == 0 || leb 0x80000000 x then 1 else x in if ltb limit low then limit else low

-- `process_sequence`; the sequences that do nothing are together at the end
unfoldable pub process_sequence : ℕ → ℕ → ℕ → Console → Console
process_sequence x y ch con =
    if ch == b'H'
    then gotoxy (clamp x con.rows) (clamp y con.cols) con
    else if ch == b'J'
    then (if x == 1 then con else cls con)
    else if ch == b'K'
    then fill_to_line_end con
    else if ch == b'm'
    then setattr (attr_after x con.attr) con
    else if ch == b'A'
    then cursor_up (times x) con
    else if ch == b'B'
    then cursor_down (times x) con
    else if ch == b'C'
    then cursor_right x con
    else if ch == b'D'
    then cursor_left x con
    else if ch == b'L'
    then new_lines (times x) con
    else if ch == b'h'
    then (if x == 7 then record con { line_wrap = 1 } else con)
    else if ch == b'l'
    then (if x == 7 then record con { line_wrap = 0 } else con)
    else con

abbrev pub is_decimal : ℕ → Bool
is_decimal ch = leb b'0' ch && leb ch b'9'

-- the state that comes next, and what is left
unfoldable pub after_escape : ℕ → Console → ℕ × Console
after_escape ch con =
    if ch == b'['
    then (2, con)
    else if ch == b'P'
    then (
      0,
      record con {
        row = if leb con.rows (add32 con.row 1) then sub32 con.rows 1 else add32 con.row 1;
      },
    )
    else if ch == b'K'
    then (0, record con { col = if ltb 0 con.col then sub32 con.col 2 else con.col })
    else if ch == b'H'
    then (0, record con { row = if ltb 0 con.row then con.row - 1 else con.row })
    else if ch == b'D'
    then (0, scroll_up con)
    else if ch == b'G'
    then (0, record con { row = 0; col = 0 })
    else if ch == b'('
    then (5, con)
    else if ch == b'c'
    then (0, record con { row = 0; col = 0; attr = default_attribute })
    else (0, con)

unfoldable pub after_bracket : ℕ → Console → ℕ × Console
after_bracket ch con =
    if ch == b'?'
    then (3, con)
    else if is_decimal ch
    then (3, record con { seq_x = ch - b'0' })
    else if ch == b's' || ch == b'u' || (ch == b'r' || ch == b'm')
    then (0, process_sequence 0 0 ch con)
    else (0, process_sequence 1 1 ch con)

abbrev pub more_digits : ℕ → ℕ → ℕ
more_digits n ch = (n * 10 + (ch - b'0')) % u32_mod

unfoldable pub in_first : ℕ → Console → ℕ × Console
in_first ch con =
    if is_decimal ch
    then (3, record con { seq_x = more_digits con.seq_x ch })
    else if ch == b';'
    then (4, record con { seq_y = 0 })
    else (0, process_sequence con.seq_x 1 ch con)

unfoldable pub in_second : ℕ → Console → ℕ × Console
in_second ch con =
    if is_decimal ch
    then (4, record con { seq_y = more_digits con.seq_y ch })
    else (0, process_sequence con.seq_x con.seq_y ch con)

unfoldable pub process_multichar : ℕ → ℕ → Console → ℕ × Console
process_multichar state ch con =
    if state == 1
    then after_escape ch con
    else if state == 2
    then after_bracket ch con
    else if state == 3
    then in_first ch con
    else if state == 4
    then in_second ch con
    else (0, con)

-- one round of the loop of `write_string`
unfoldable pub write_char : ℕ → Console → Console
write_char ch con =
    let (state, after) = process_multichar con.video_state ch con in
    if ltb 0 con.video_state then record after { video_state = state } else put_char ch con

unfoldable pub write_chars : List ℕ → Console → Console
write_chars [] con = con
write_chars (ch ∷ s) con = write_chars s (write_char ch con)

unfoldable pub write_string : List ℕ → Console → Console
write_string s con = set_cursor (write_chars s con)
