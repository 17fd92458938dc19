-- ===== src/Display/Steps.antt =====
-- Kernel/console.c: each write of `put_char` stays on the screen and in video memory.
use shaunos.Base.{
  ℕ, zero, suc, ◌+◌, ◌-◌, ◌*◌, ◌<◌, ◌≤◌, ◌≡◌, refl, arith, true, ltb, ◌==◌, Bool-cases, inl, inr,
  ==→ne, ltb→lt,
}
use shaunos.Base.Int.{sub32}
use shaunos.Display.{
  Console, cursor_place, put_cell, times, fill_to_line_end, put_at_cursor, put_spaces, backspace,
}
use shaunos.Display.Cells.{put_cell-Clear, put_cells-Clear}
use shaunos.Display.Bounds.{
  size, IsValid, Within, Within-here, Within-trans, cell_lt, small_sides, cursor_place-cell,
  moved-Within, written-Within, Clear-part, new_line-Within,
}

pub put_at_cursor-Within : (con : Console) (c : ℕ) → IsValid con → Within con (put_at_cursor c con)
unfolding put_at_cursor
put_at_cursor-Within con c v =
    let inside = cell_lt con.rows con.cols con.row con.col v.on_row v.on_col in
    let at = cursor_place-cell con v in
    let m = put_cell (cursor_place con) c con.attr con.mem in
    let put = written-Within con m v (λ a h.
      put_cell-Clear (cursor_place con) c con.attr con.mem a (
        Clear-part (size con) con.video_membase 2 (cursor_place con) a (omega (arith, at))
          (omega (arith, at, inside)) h)) in
    let written = record con { mem = m } in
    elim (Bool-cases (ltb con.col (con.cols - 1))) [
      | inl more ↦ rw more (
          Within-trans con written _ put (
            moved-Within written con.row (con.col + 1) put.valid v.on_row
              (omega (arith, ltb→lt _ _ more))))
      | inr last ↦
          let home = moved-Within written con.row 0 put.valid v.on_row (omega (arith, v.on_col)) in
          rw last (
            Within-trans con written _ put (
              Within-trans written (record written { col = 0 }) _ home
                (new_line-Within (record written { col = 0 }) home.valid)))
    ]

pub put_spaces-Within : (n : ℕ) (con : Console) → IsValid con → Within con (put_spaces n con)
unfolding put_spaces
put_spaces-Within zero con v = Within-here con v
put_spaces-Within (suc n) con v =
    let one = put_at_cursor-Within con b' ' v in
    Within-trans con (put_at_cursor b' ' con) _ one
      (put_spaces-Within n (put_at_cursor b' ' con) one.valid)

put_at_cursor-inner :
    (con : Console) (c : ℕ) → con.col + 1 < con.cols → (put_at_cursor c con).col ≡ con.col + 1
unfolding put_at_cursor
put_at_cursor-inner con c h =
    let more : ltb con.col (con.cols - 1) ≡ true = ground (arith, h) in rw more refl

pub backspace-Within : (con : Console) → IsValid con → Within con (backspace con)
unfolding backspace
backspace-Within con v = elim (Bool-cases (con.col == 0)) [
  | inl first ↦ rw first (Within-here con v)
  | inr more ↦
      let ne = ==→ne _ _ more in
      let left = record con { col = con.col - 1 } in
      let back = moved-Within con con.row (con.col - 1) v v.on_row (omega (arith, v.on_col)) in
      let blanked = put_at_cursor-Within left b' ' back.valid in
      let after = put_at_cursor b' ' left in
      let col : after.col ≡ con.col - 1 + 1 =
        put_at_cursor-inner left b' ' (omega (arith, v.on_col, ne)) in
      let (low, narrow) = small_sides con v in
      let low_col : sub32 after.col 1 < after.cols =
        omega (arith, col, ne, v.on_col, narrow, blanked.same_cols) in
      let home =
        moved-Within after after.row (sub32 after.col 1) blanked.valid blanked.valid.on_row
          low_col in
      rw more (Within-trans con left _ back (Within-trans left after _ blanked home))
]

-- how many cells are filled up to the end of the line
pub rounds_left :
    (con : Console) → IsValid con → times (sub32 con.cols con.col) ≡ con.cols - con.col
rounds_left con v =
    let (low, narrow) = small_sides con v in
    let exact : sub32 con.cols con.col ≡ con.cols - con.col = omega (arith, narrow, v.on_col) in
    let some_left : ltb (con.cols - con.col) 0x80000000 ≡ true = ground (arith, narrow) in
    rw (exact, some_left) refl

pub fill_to_line_end-Within : (con : Console) → IsValid con → Within con (fill_to_line_end con)
unfolding fill_to_line_end
fill_to_line_end-Within con v =
    let (low, narrow) = small_sides con v in
    let at = cursor_place-cell con v in
    let row_end : con.row * con.cols + con.cols ≤ con.rows * con.cols = omega (
      arith,
      cell_lt con.rows con.cols con.row (con.cols - 1) v.on_row (omega (arith, v.on_col)),
      v.on_col,
    ) in
    let n = rounds_left con v in
    written-Within con _ v (λ a h.
      put_cells-Clear (times (sub32 con.cols con.col)) (cursor_place con) b' ' con.attr con.mem a (
        Clear-part (size con) con.video_membase _ (cursor_place con) a (omega (arith, at))
          (omega (arith, at, n, row_end, v.on_col)) h))
