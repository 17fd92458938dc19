-- ===== src/Display/Refine.antt =====
-- Kernel/console.c: the display as a grid of cells and a cursor, and that `put_char` and `write_string`
-- implement what is said of such a screen.
use shaunos.Base.{
  ℕ, zero, suc, ◌+◌, ◌-◌, ◌%◌, ◌<◌, ◌≡◌, ◌≢◌, refl, sym, ◌∙◌, ap, arith, Bool, true, false, ltb,
  leb, ◌==◌, ◌&&◌, if◌then◌else◌, Bool-cases, inl, inr, ==→eq, ==→ne, ltb→lt, subst, ap₂,
}
use shaunos.Base.Int.{add32, sub32}
use shaunos.Display.{
  Console, cursor_place, put_cell, scroll_up, fill_to_line_end, new_line, put_at_cursor, put_spaces,
  backspace,
}
use shaunos.Display.Spec.{Screen, Shape, line_feed, put, put_many, end_line, wipe}
use shaunos.Display.Bounds.{IsValid, Within, small_sides, moved-Within}
use shaunos.Display.Steps.{put_at_cursor-Within, fill_to_line_end-Within}
use shaunos.Display.Grid.{address, cell, cell_in, put-same, put-other, fill-cell, scroll-cell}

abbrev pub shape : Console → Shape
shape con = record { rows = con.rows; cols = con.cols; attr = con.attr }

-- The console shows the screen `s`.
pub record Shows (con : Console) (s : Screen) : Type 0 where
  pub at_row : s.row ≡ con.row
  pub at_col : s.col ≡ con.col
  pub cells : (r k : ℕ) → r < con.rows → k < con.cols → cell con r k ≡ s.grid r k

-- the same choice between two things that are equal where they are chosen
if-then :
    {A : Type 0} (b : Bool) (x y z : A)
    → (b ≡ true → x ≡ y)
    → (if b then x else z) ≡ (if b then y else z)
if-then true x y z e = e refl
if-then false x y z e = refl

if-else :
    {A : Type 0} (b : Bool) (x y z : A)
    → (b ≡ false → x ≡ y)
    → (if b then z else x) ≡ (if b then z else y)
if-else true x y z e = refl
if-else false x y z e = e refl

new_line-Shows :
    (con : Console) (s : Screen)
    → IsValid con
    → con.cols % 2 ≡ 0
    → Shows con s
    → Shows (new_line con) (line_feed (shape con) s)
unfolding new_line scroll_up
new_line-Shows con s v even h =
    let (low, narrow) = small_sides con v in
    let next : add32 con.row 1 ≡ con.row + 1 = omega (arith, v.on_row, low) in
    elim (Bool-cases (con.row + 1 == con.rows)) [
      | inl last ↦
          let last' : s.row + 1 == con.rows ≡ true = ap (λ r. r + 1 == con.rows) h.at_row ∙ last in
          simp (next, last, last')
            (record {
              at_row = omega (arith, h.at_row, ==→eq _ _ last);
              at_col = h.at_col;
              cells = λ r k hr hk.
                  scroll-cell con r k v even hr hk
                  ∙ if-then (ltb (r + 1) con.rows) _ _ _
                      (λ up. h.cells (r + 1) k (ltb→lt _ _ up) hk);
            })
      | inr more ↦
          let more' : s.row + 1 == con.rows ≡ false = ap (λ r. r + 1 == con.rows) h.at_row ∙ more in
          simp (next, more, more')
            (record { at_row = ap (λ r. r + 1) h.at_row; at_col = h.at_col; cells = h.cells })
    ]

-- a character is put on the grid
put_cell-cells :
    (con : Console) (s : Screen) (c r k : ℕ)
    → IsValid con
    → Shows con s
    → r < con.rows
    → k < con.cols
    → cell_in (put_cell (cursor_place con) c con.attr con.mem) (address con r k)
      ≡ (if r == s.row && k == s.col then (c % 256, con.attr) else s.grid r k)
put_cell-cells con s c r k v h hr hk = elim (Bool-cases (r == s.row)) [
  | inl on_row ↦
      let row : r ≡ con.row = ==→eq _ _ on_row ∙ h.at_row in
      elim (Bool-cases (k == s.col)) [
        | inl on_col ↦
            let col : k ≡ con.col = ==→eq _ _ on_col ∙ h.at_col in
            rw (on_row, on_col, row, col) (put-same con c v)
        | inr off ↦
            let ne : k ≢ con.col = λ e. ==→ne _ _ off (e ∙ sym h.at_col) in
            rw (on_row, off) (put-other con c r k v hk (inr ne) ∙ h.cells r k hr hk)
      ]
  | inr off ↦
      let ne : r ≢ con.row = λ e. ==→ne _ _ off (e ∙ sym h.at_row) in
      rw off (put-other con c r k v hk (inl ne) ∙ h.cells r k hr hk)
]

pub put_at_cursor-Shows :
    (con : Console) (s : Screen) (c : ℕ)
    → IsValid con
    → con.cols % 2 ≡ 0
    → Shows con s
    → Shows (put_at_cursor c con) (put (shape con) c s)
unfolding put_at_cursor
put_at_cursor-Shows con s c v even h =
    let m = put_cell (cursor_place con) c con.attr con.mem in
    let written = record con { mem = m; col = 0 } in
    elim (Bool-cases (ltb con.col (con.cols - 1))) [
      | inl more ↦
          let more' : ltb s.col (con.cols - 1) ≡ true =
            ap (λ k. ltb k (con.cols - 1)) h.at_col ∙ more in
          simp (more, more')
            (record {
              at_row = h.at_row;
              at_col = ap (λ k. k + 1) h.at_col;
              cells = λ r k hr hk. put_cell-cells con s c r k v h hr hk;
            })
      | inr last ↦
          let last' : ltb s.col (con.cols - 1) ≡ false =
            ap (λ k. ltb k (con.cols - 1)) h.at_col ∙ last in
          let valid : IsValid written = record {
            based = v.based;
            fits = v.fits;
            on_row = v.on_row;
            on_col = omega (arith, v.on_col);
            byte = v.byte;
          } in
          simp (last, last')
            (new_line-Shows written _ valid even (record {
              at_row = h.at_row;
              at_col = refl;
              cells = λ r k hr hk. put_cell-cells con s c r k v h hr hk;
            }))
    ]

pub shape-Within : (a b : Console) → Within a b → shape b ≡ shape a
shape-Within a b w = rw (w.same_rows, w.same_cols, w.same_attr) refl

pub put_spaces-Shows :
    (n : ℕ) (con : Console) (s : Screen)
    → IsValid con
    → con.cols % 2 ≡ 0
    → Shows con s
    → Shows (put_spaces n con) (put_many (shape con) n b' ' s)
unfolding put_spaces
put_spaces-Shows zero con s v even h = h
put_spaces-Shows (suc n) con s v even h =
    let one = put_at_cursor-Within con b' ' v in
    let rest =
      put_spaces-Shows n (put_at_cursor b' ' con) (put (shape con) b' ' s) one.valid
        (rw one.same_cols even) (put_at_cursor-Shows con s b' ' v even h) in
    let same = shape-Within con (put_at_cursor b' ' con) one in
    subst
      (λ sh.
        Shows (put_spaces n (put_at_cursor b' ' con)) (put_many sh n b' ' (put (shape con) b' ' s)))
      same rest

pub end_line-Shows :
    (con : Console) (s : Screen)
    → IsValid con
    → con.cols % 2 ≡ 0
    → Shows con s
    → Shows (new_line (record (fill_to_line_end con) { col = 0 })) (end_line (shape con) s)
unfolding fill_to_line_end
end_line-Shows con s v even h =
    let filled = fill_to_line_end-Within con v in
    let start = record (fill_to_line_end con) { col = 0 } in
    let home =
      moved-Within (fill_to_line_end con) con.row 0 filled.valid v.on_row
        (omega (arith, v.on_col)) in
    new_line-Shows start _ home.valid even (record {
      at_row = h.at_row;
      at_col = refl;
      cells = λ r k hr hk.
          fill-cell con r k v hk
          ∙ ap₂ (λ row col. if r == row && leb col k then (b' ', con.attr) else cell con r k)
              (sym h.at_row) (sym h.at_col)
          ∙ if-else (r == s.row && leb s.col k) _ _ _ (λ e. h.cells r k hr hk);
    })

pub backspace-Shows :
    (con : Console) (s : Screen)
    → IsValid con
    → Shows con s
    → Shows (backspace con) (wipe (shape con) s)
unfolding backspace put_at_cursor
backspace-Shows con s v h = elim (Bool-cases (con.col == 0)) [
  | inl first ↦
      let first' : s.col == 0 ≡ true = ap (λ k. k == 0) h.at_col ∙ first in simp (first, first') h
  | inr more ↦
      let more' : s.col == 0 ≡ false = ap (λ k. k == 0) h.at_col ∙ more in
      let ne = ==→ne _ _ more in
      let (low, narrow) = small_sides con v in
      let room : ltb (con.col - 1) (con.cols - 1) ≡ true = ground (arith, v.on_col, ne) in
      let back : sub32 (con.col - 1 + 1) 1 ≡ con.col - 1 = omega (arith, v.on_col, narrow, ne) in
      let left = record con { col = con.col - 1 } in
      let moved = moved-Within con con.row (con.col - 1) v v.on_row (omega (arith, v.on_col)) in
      let shown : Shows left (record s { col = s.col - 1 }) = record {
        at_row = h.at_row;
        at_col = ap (λ k. k - 1) h.at_col;
        cells = h.cells;
      } in
      simp (more, more', room, back)
        (record {
          at_row = h.at_row;
          at_col = ap (λ k. k - 1) h.at_col;
          cells = λ r k hr hk.
              put_cell-cells left (record s { col = s.col - 1 }) b' ' r k moved.valid shown hr hk;
        })
]
