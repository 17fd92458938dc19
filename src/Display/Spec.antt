-- ===== src/Display/Spec.antt =====
-- The screen that Kernel/console.c promises: a grid of cells with a cursor, without addresses.
use shaunos.Base.{ℕ, zero, suc, ◌+◌, ◌-◌, ◌%◌, List, [], ◌∷◌, ltb, leb, ◌==◌, ◌&&◌, if◌then◌else◌}

-- what is on the screen, a character and an attribute in each cell, and where the cursor is
pub record Screen : Type 0 where
  pub grid : ℕ → ℕ → ℕ × ℕ
  pub row : ℕ
  pub col : ℕ

-- the size of a screen, and the attribute of what is written
pub record Shape : Type 0 where
  pub rows : ℕ
  pub cols : ℕ
  pub attr : ℕ

module _ (sh : Shape) where
  -- one row down; on the last row, all rows up
  abbrev pub line_feed : Screen → Screen
  line_feed s =
      if s.row + 1 == sh.rows
      then record s {
        grid = λ r k. if ltb (r + 1) sh.rows then s.grid (r + 1) k else (b' ', sh.attr);
      }
      else record s { row = s.row + 1 }

  abbrev pub put : ℕ → Screen → Screen
  put c s =
      let grid : ℕ → ℕ → ℕ × ℕ =
        λ r k. if r == s.row && k == s.col then (c % 256, sh.attr) else s.grid r k in
      if ltb s.col (sh.cols - 1)
      then record s { grid = grid; col = s.col + 1 }
      else line_feed (record s { grid = grid; col = 0 })

  abbrev pub put_many : ℕ → ℕ → Screen → Screen
  put_many zero c s = s
  put_many (suc n) c s = put_many n c (put c s)

  abbrev pub end_line : Screen → Screen
  end_line s = line_feed (record s {
    grid = λ r k. if r == s.row && leb s.col k then (b' ', sh.attr) else s.grid r k;
    col = 0;
  })

  -- the character before the cursor is wiped
  abbrev pub wipe : Screen → Screen
  wipe s =
      let col = s.col - 1 in
      if s.col == 0 then s else record s {
        grid = λ r k. if r == s.row && k == col then (b' ', sh.attr) else s.grid r k;
        col = col;
      }

  abbrev pub char : ℕ → Screen → Screen
  char c s =
      if c == 0
      then s
      else if c == b'\n'
      then end_line s
      else if c == b'\r'
      then record s { col = 0 }
      else if c == b'\t'
      then put_many (8 - s.col % 8) b' ' s
      else if c == b'\x08'
      then wipe s
      else put c s

  abbrev pub text : List ℕ → Screen → Screen
  text [] s = s
  text (c ∷ cs) s = text cs (char c s)
