-- ===== src/Display/Grid.antt =====
-- Kernel/console.c: video memory as a grid of cells, and what the writes of the display do to the grid.
use native.Mathlib.Nat.{mul_assoc}
use shaunos.Base.{
  ℕ, ◌+◌, ◌-◌, ◌*◌, ◌/◌, ◌%◌, ◌<◌, ◌≤◌, ◌≡◌, ◌≢◌, ◌⊎◌, sym, ◌∙◌, ap, ap₂, arith, ltb, leb, ◌==◌,
  ◌&&◌, if◌then◌else◌, Bool-cases, inl, inr, ==→eq, ==→ne, ltb→lt, ltb→le, leb→le,
}
use shaunos.Bytes.{Memory, move}
use shaunos.Bytes.Copy.{move_in}
use shaunos.Display.{Console, cursor_place, put_cell, put_cells, scroll_up, fill_to_line_end}
use shaunos.Display.Cells.{
  put_cell-Clear, put_cell-char, put_cell-attr, put_cells-Clear, put_cells-char, put_cells-attr,
}
use shaunos.Bytes.Store.{Clear}
use shaunos.Display.Bounds.{IsValid, cell_lt, cursor_place-cell, rows_split, scroll_up-mem}
use shaunos.Display.Steps.{rounds_left}

-- where the cell `k` of row `r` is
abbrev pub address : Console → ℕ → ℕ → ℕ
address con r k = con.video_membase + (r * con.cols + k) * 2

-- the character and the attribute in a cell
abbrev pub cell_in : Memory → ℕ → ℕ × ℕ
cell_in m p = (m p, m (p + 1))

abbrev pub cell : Console → ℕ → ℕ → ℕ × ℕ
cell con r k = cell_in con.mem (address con r k)

-- two cells that are not the same have two numbers
cells_ne :
    (cols r k r' k' : ℕ)
    → k < cols
    → k' < cols
    → (r ≢ r') ⊎ (k ≢ k')
    → r * cols + k ≢ r' * cols + k'
cells_ne cols r k r' k' h h' apart e = elim (Bool-cases (r == r')) [
  | inl same ↦
      let rows : r * cols ≡ r' * cols = ap (λ n. n * cols) (==→eq _ _ same) in
      elim apart [ inl ne ↦ ne (==→eq _ _ same) | inr ne ↦ ne (omega arith) ]
  | inr other ↦ elim (Bool-cases (ltb r r')) [
    | inl less ↦ let before = cell_lt r' cols r k (ltb→lt _ _ less) h in omega arith
    | inr more ↦
        let before = cell_lt r cols r' k' (omega (arith, ltb→le _ _ more, ==→ne _ _ other)) h' in
        omega arith
  ]
]

-- a cell apart from the one that is written
cell_kept :
    (p q c a : ℕ) (m : Memory)
    → Clear 2 p q
    → Clear 2 p (q + 1)
    → cell_in (put_cell p c a m) q ≡ cell_in m q
cell_kept p q c a m h h' =
    ap₂ (λ x y. (x, y)) (put_cell-Clear p c a m q h) (put_cell-Clear p c a m (q + 1) h')

pub put-same :
    (con : Console) (c : ℕ)
    → IsValid con
    → cell_in (put_cell (cursor_place con) c con.attr con.mem) (address con con.row con.col)
      ≡ (c % 256, con.attr)
put-same con c v =
    let whole : con.attr % 256 ≡ con.attr = omega (arith, v.byte) in
    rw (← cursor_place-cell con v) (
      ap₂ (λ x y. (x, y)) (put_cell-char (cursor_place con) c con.attr con.mem)
        (put_cell-attr (cursor_place con) c con.attr con.mem ∙ whole))

pub put-other :
    (con : Console) (c r k : ℕ)
    → IsValid con
    → k < con.cols
    → (r ≢ con.row) ⊎ (k ≢ con.col)
    → cell_in (put_cell (cursor_place con) c con.attr con.mem) (address con r k) ≡ cell con r k
put-other con c r k v hk apart =
    let ne = cells_ne con.cols r k con.row con.col hk v.on_col apart in
    let at = cursor_place-cell con v in
    elim (Bool-cases (ltb (r * con.cols + k) (con.row * con.cols + con.col))) [
      | inl before ↦
          cell_kept _ _ c con.attr con.mem (inl (omega (arith, at, ltb→lt _ _ before)))
            (inl (omega (arith, at, ltb→lt _ _ before)))
      | inr after ↦
          cell_kept _ _ c con.attr con.mem (inr (omega (arith, at, ne, ltb→le _ _ after)))
            (inr (omega (arith, at, ne, ltb→le _ _ after)))
    ]

-- cells of a run of `n` blanks that starts at the cell number `start`, and those apart from it
blanks_here :
    (con : Console) (n start i : ℕ) (m : Memory)
    → con.attr < 256
    → start ≤ i
    → i < start + n
    → cell_in
        (put_cells n (con.video_membase + start * 2) b' ' con.attr m)
        (con.video_membase + i * 2)
      ≡ (b' ', con.attr)
blanks_here con n start i m byte low high =
    let whole : con.attr % 256 ≡ con.attr = omega (arith, byte) in
    ap₂ (λ x y. (x, y))
      (put_cells-char n _ b' ' con.attr m (i - start) _ (omega arith) (omega arith))
      (put_cells-attr n _ b' ' con.attr m (i - start) _ (omega arith) (omega arith) ∙ whole)

blanks_other :
    (con : Console) (n start i : ℕ) (m : Memory)
    → (i < start) ⊎ (start + n ≤ i)
    → cell_in
        (put_cells n (con.video_membase + start * 2) b' ' con.attr m)
        (con.video_membase + i * 2)
      ≡ cell_in m (con.video_membase + i * 2)
blanks_other con n start i m (inl h) =
    ap₂ (λ x y. (x, y)) (put_cells-Clear n _ b' ' con.attr m _ (inl (omega arith)))
      (put_cells-Clear n _ b' ' con.attr m _ (inl (omega arith)))
blanks_other con n start i m (inr h) =
    ap₂ (λ x y. (x, y)) (put_cells-Clear n _ b' ' con.attr m _ (inr (omega arith)))
      (put_cells-Clear n _ b' ' con.attr m _ (inr (omega arith)))

-- the rest of a line is filled with blanks
fill-mem :
    (con : Console)
    → IsValid con
    → (fill_to_line_end con).mem
      ≡ put_cells
          (con.cols - con.col)
          (con.video_membase + (con.row * con.cols + con.col) * 2)
          b' '
          con.attr
          con.mem
unfolding fill_to_line_end
fill-mem con v =
    ap (λ n. put_cells n (cursor_place con) b' ' con.attr con.mem) (rounds_left con v)
    ∙ ap (λ p. put_cells (con.cols - con.col) p b' ' con.attr con.mem) (cursor_place-cell con v)

pub fill-cell :
    (con : Console) (r k : ℕ)
    → IsValid con
    → k < con.cols
    → cell_in (fill_to_line_end con).mem (address con r k)
      ≡ (if r == con.row && leb con.col k then (b' ', con.attr) else cell con r k)
fill-cell con r k v hk =
    let start = con.row * con.cols + con.col in
    let filled = ap (λ m. cell_in m (address con r k)) (fill-mem con v) in
    elim (Bool-cases (r == con.row)) [
      | inl same ↦
          let rows : r * con.cols ≡ con.row * con.cols = ap (λ n. n * con.cols) (==→eq _ _ same) in
          elim (Bool-cases (leb con.col k)) [
            | inl right ↦
                let right_of : con.col ≤ k = leb→le _ _ right in
                rw (same, right)
                  (filled
                    ∙ blanks_here con (con.cols - con.col) start (r * con.cols + k) con.mem v.byte
                        (omega arith) (omega (arith, v.on_col)))
            | inr left ↦
                let left_of : k < con.col = ground arith in
                rw (same, left)
                  (filled
                    ∙ blanks_other con (con.cols - con.col) start (r * con.cols + k) con.mem
                        (inl (omega arith)))
          ]
      | inr other ↦ elim (Bool-cases (ltb r con.row)) [
        | inl above ↦
            let before = cell_lt con.row con.cols r k (ltb→lt _ _ above) hk in
            rw other (
              filled
              ∙ blanks_other con (con.cols - con.col) start (r * con.cols + k) con.mem
                  (inl (omega arith)))
        | inr below ↦
            let before =
              cell_lt r con.cols con.row (con.cols - 1)
                (omega (arith, ltb→le _ _ below, ==→ne _ _ other)) (omega (arith, hk)) in
            rw other (
              filled
              ∙ blanks_other con (con.cols - con.col) start (r * con.cols + k) con.mem
                  (inr (omega (arith, v.on_col))))
      ]
    ]

-- the rows move up by one, and the last is blank
pub scroll-cell :
    (con : Console) (r k : ℕ)
    → IsValid con
    → con.cols % 2 ≡ 0
    → r < con.rows
    → k < con.cols
    → cell_in (scroll_up con).mem (address con r k)
      ≡ (if ltb (r + 1) con.rows then cell con (r + 1) k else (b' ', con.attr))
scroll-cell con r k v even hr hk =
    let copied =
      move ((con.rows - 1) * con.cols * 2) con.video_membase (con.video_membase + con.cols * 2)
        con.mem in
    let split = rows_split con.rows con.cols con.row v.on_row in
    let halves : con.cols ≡ con.cols / 2 * 2 = omega (arith, even) in
    let pairs : (con.rows - 1) * con.cols ≡ (con.rows - 1) * (con.cols / 2) * 2 =
      ap (λ n. (con.rows - 1) * n) halves ∙ sym (mul_assoc (con.rows - 1) (con.cols / 2) 2) in
    let last : (con.rows - 1) * con.cols * 2 / 4 * 4 ≡ (con.rows - 1) * con.cols * 2 =
      omega (arith, pairs) in
    let width : con.cols * 2 / 4 * 2 ≡ con.cols = omega (arith, even) in
    let scrolled : (scroll_up con).mem
        ≡ put_cells con.cols (con.video_membase + (con.rows - 1) * con.cols * 2) b' ' con.attr
            copied =
      scroll_up-mem con v
      ∙ ap₂ (λ n p. put_cells n (con.video_membase + p) b' ' con.attr copied) width last in
    let seen = ap (λ m. cell_in m (address con r k)) scrolled in
    elim (Bool-cases (ltb (r + 1) con.rows)) [
      | inl upper ↦
          let inside = cell_lt (con.rows - 1) con.cols r k (omega (arith, ltb→lt _ _ upper)) hk in
          let next : (r + 1) * con.cols ≡ r * con.cols + con.cols = omega arith in
          rw upper (
            seen
            ∙ blanks_other con con.cols ((con.rows - 1) * con.cols) (r * con.cols + k) copied
                (inl inside)
            ∙ ap₂ (λ x y. (x, y))
                (move_in _ _ _ _ con.mem (omega arith) (omega arith) ∙ ap con.mem (omega arith))
                (move_in _ _ _ _ con.mem (omega arith) (omega arith) ∙ ap con.mem (omega arith)))
      | inr lowest ↦
          let at : r ≡ con.rows - 1 = ground (arith, hr) in
          let rows : r * con.cols ≡ (con.rows - 1) * con.cols = ap (λ n. n * con.cols) at in
          rw lowest (
            seen
            ∙ blanks_here con con.cols ((con.rows - 1) * con.cols) (r * con.cols + k) copied v.byte
                (omega arith) (omega arith))
    ]
