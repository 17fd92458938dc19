-- ===== src/Display/Effects.antt =====
-- Kernel/console.c: the escape sequences that set colours and the place of the cursor.
use shaunos.Base.{
  ℕ, ◌+◌, ◌-◌, ◌/◌, ◌%◌, ◌<◌, ◌≤◌, ◌≡◌, ◌≢◌, refl, arith, Bool, true, false, List, [], ◌∷◌, ◌++◌,
  ltb, leb, ◌&&◌, ◌||◌, if◌then◌else◌, Bool-cases, inl, inr, ltb→lt, ltb→le,
}
use shaunos.Base.Int.{u32_mod}
use shaunos.Display.{Console, color_map, gotoxy, set_cursor}
use shaunos.Display.Escape.{
  attr_after, is_decimal, clamp, process_sequence, write_chars, write_string,
}
use shaunos.Display.Sequence.{
  decimal, all_digits, at_second, sequence_one_number, sequence_two_numbers,
}

color_map_lt : (k : ℕ) → color_map k < 8
unfolding color_map
color_map_lt k = ground arith

foreground :
    (k a : ℕ)
    → k < 8
    → a < 256
    → (attr_after (30 + k) a % 8 ≡ color_map k) × (attr_after (30 + k) a / 8 ≡ a / 8)
unfolding attr_after
foreground k a low byte =
    let in_range : leb 30 (30 + k) && leb (30 + k) 37 ≡ true = ground arith in
    let index : 30 + k - 30 ≡ k = omega arith in
    let small = color_map_lt k in
    rw (in_range, index) (omega (arith, small, byte), omega (arith, small, byte))

background :
    (k a : ℕ)
    → k < 8
    → a < 256
    → (attr_after (40 + k) a / 16 % 8 ≡ color_map k)
      × (attr_after (40 + k) a % 16 ≡ a % 16)
      × (attr_after (40 + k) a / 128 ≡ a / 128)
unfolding attr_after
background k a low byte =
    let not_foreground : leb 30 (40 + k) && leb (40 + k) 37 ≡ false = ground arith in
    let in_range : leb 40 (40 + k) && leb (40 + k) 47 ≡ true = ground arith in
    let index : 40 + k - 40 ≡ k = omega arith in
    let small = color_map_lt k in
    rw (not_foreground, in_range, index)
      (omega (arith, small, byte), omega (arith, small, byte), omega (arith, small, byte))

-- reversing the colours twice
reverse_twice : (a : ℕ) → a < 256 → attr_after 7 (attr_after 7 a) ≡ a
unfolding attr_after
reverse_twice a byte = omega (arith, byte)

attribute_sequence :
    (d : ℕ) (ds : List ℕ) (con : Console)
    → con.video_state ≡ 0
    → all_digits (d ∷ ds) ≡ true
    → decimal 0 (d ∷ ds) < u32_mod
    → write_chars (27 ∷ b'[' ∷ d ∷ ds ++ b'm' ∷ []) con ≡ record con {
      attr = attr_after (decimal 0 (d ∷ ds)) con.attr;
      seq_x = decimal 0 (d ∷ ds);
      video_state = 0;
    }
unfolding process_sequence
attribute_sequence d ds con e h low = sequence_one_number d ds b'm' con e h low refl refl

-- what `gotoxy` does with the numbers of `H`
clamp-small : (x limit : ℕ) → x ≢ 0 → x ≤ limit → x < 0x80000000 → clamp x limit ≡ x
unfolding clamp
clamp-small x limit ne le small = ground (arith, ne, le, small)

goto-inside :
    (con : Console) (r k : ℕ)
    → r < con.rows
    → k < con.cols
    → gotoxy r k con ≡ set_cursor (record con { row = r; col = k })
unfolding gotoxy set_cursor
goto-inside con r k hr hk =
    let inside : leb con.rows r || leb con.cols k ≡ false = ground arith in simp inside refl

goto-outside :
    (con : Console) (r k : ℕ) → leb con.rows r || leb con.cols k ≡ true → gotoxy r k con ≡ con
unfolding gotoxy
goto-outside con r k h = simp h refl

clamp-large : (x limit : ℕ) → limit ≤ x → x < 0x80000000 → 0 < limit → clamp x limit ≡ limit
unfolding clamp
clamp-large x limit le small some_limit = ground (arith, le, small, some_limit)

-- where the cursor goes
abbrev pub goes_to : Bool → ℕ → ℕ → ℕ
goes_to inside to from = if inside then to else from

-- What is on the screen is left, and no sequence is open.
pub record Unchanged (con con' : Console) : Type 0 where
  pub mem : con'.mem ≡ con.mem
  pub attr : con'.attr ≡ con.attr
  pub state : con'.video_state ≡ 0

goto-cursor :
    (con : Console) (x y : ℕ)
    → 0 < con.rows
    → 0 < con.cols
    → x ≢ 0
    → y ≢ 0
    → x < 0x80000000
    → y < 0x80000000
    → ((gotoxy (clamp x con.rows) (clamp y con.cols) con).row
        ≡ goes_to (ltb x con.rows && ltb y con.cols) x con.row)
      × ((gotoxy (clamp x con.rows) (clamp y con.cols) con).col
          ≡ goes_to (ltb x con.rows && ltb y con.cols) y con.col)
      × ((gotoxy (clamp x con.rows) (clamp y con.cols) con).mem ≡ con.mem)
      × ((gotoxy (clamp x con.rows) (clamp y con.cols) con).attr ≡ con.attr)
unfolding set_cursor
goto-cursor con x y some_rows some_cols nx ny sx sy = elim (Bool-cases (ltb x con.rows)) [
  | inl low_x ↦ elim (Bool-cases (ltb y con.cols)) [
    | inl low_y ↦
        rw
          (
            low_x,
            low_y,
            clamp-small x con.rows nx (omega (arith, ltb→lt _ _ low_x)) sx,
            clamp-small y con.cols ny (omega (arith, ltb→lt _ _ low_y)) sy,
            goto-inside con x y (ltb→lt _ _ low_x) (ltb→lt _ _ low_y),
          )
          (refl, refl, refl, refl)
    | inr high_y ↦
        let e = clamp-large y con.cols (ltb→le _ _ high_y) sy some_cols in
        rw (low_x, high_y, e, goto-outside con (clamp x con.rows) con.cols (ground arith))
          (refl, refl, refl, refl)
  ]
  | inr high_x ↦
      let e = clamp-large x con.rows (ltb→le _ _ high_x) sx some_rows in
      rw (high_x, e, goto-outside con con.rows (clamp y con.cols) (ground arith))
        (refl, refl, refl, refl)
]

-- `ESC [ r ; c H` with two numbers in decimal, neither of them 0 and both below 2^31, moves the cursor to
-- the row and column of these numbers, counted from 0, where both are on the screen, and leaves it where
-- it is where one is not. What is on the screen and the attribute stay, and the sequence is over.
pub write_string-goto :
    (d : ℕ) (ds es : List ℕ) (con : Console)
    → 0 < con.rows
    → 0 < con.cols
    → con.video_state ≡ 0
    → all_digits (d ∷ ds) ≡ true
    → all_digits es ≡ true
    → decimal 0 (d ∷ ds) ≢ 0
    → decimal 0 es ≢ 0
    → decimal 0 (d ∷ ds) < 0x80000000
    → decimal 0 es < 0x80000000
    → ((write_string (27 ∷ b'[' ∷ d ∷ ds ++ (b';' ∷ es ++ b'H' ∷ [])) con).row
        ≡ goes_to
            (ltb (decimal 0 (d ∷ ds)) con.rows && ltb (decimal 0 es) con.cols)
            (decimal 0 (d ∷ ds))
            con.row)
      × ((write_string (27 ∷ b'[' ∷ d ∷ ds ++ (b';' ∷ es ++ b'H' ∷ [])) con).col
          ≡ goes_to
              (ltb (decimal 0 (d ∷ ds)) con.rows && ltb (decimal 0 es) con.cols)
              (decimal 0 es)
              con.col)
      × Unchanged con (write_string (27 ∷ b'[' ∷ d ∷ ds ++ (b';' ∷ es ++ b'H' ∷ [])) con)
unfolding write_string set_cursor process_sequence
write_string-goto d ds es con some_rows some_cols e h h' nx ny sx sy =
    let read = sequence_two_numbers d ds es b'H' con e h h' (omega arith) (omega arith) refl in
    let (row, col, mem, attr) =
      goto-cursor (at_second (decimal 0 (d ∷ ds)) (decimal 0 es) con) (decimal 0 (d ∷ ds))
        (decimal 0 es) some_rows some_cols nx ny sx sy in
    rw read (row, col, record { mem = mem; attr = attr; state = refl })

-- What `ESC [ 3 k m` and `ESC [ 4 k m` leave: `f` and `b`.
pub record Coloured (k : ℕ) (con f b : Console) : Type 0 where
  pub foreground : f.attr % 8 ≡ color_map k
  pub rest : f.attr / 8 ≡ con.attr / 8
  pub background : b.attr / 16 % 8 ≡ color_map k
  pub low : b.attr % 16 ≡ con.attr % 16
  pub top : b.attr / 128 ≡ con.attr / 128
  pub memory : (f.mem ≡ con.mem) × (b.mem ≡ con.mem)
  pub cursor : (f.row ≡ con.row) × (f.col ≡ con.col) × (b.row ≡ con.row) × (b.col ≡ con.col)
  pub states : (f.video_state ≡ 0) × (b.video_state ≡ 0)

-- For each of the eight colours, `ESC [ 3 k m` sets the three bits of the foreground colour to the one
-- that `color_map` gives and keeps the other bits of the attribute, and `ESC [ 4 k m` sets those of the
-- background colour and keeps the others; what is on the screen and the cursor stay, and the sequence is
-- over.
pub write_string-Coloured :
    (k : ℕ) (con : Console)
    → k < 8
    → con.attr < 256
    → con.video_state ≡ 0
    → Coloured k con
        (write_string (27 ∷ b'[' ∷ b'3' ∷ (b'0' + k) ∷ b'm' ∷ []) con)
        (write_string (27 ∷ b'[' ∷ b'4' ∷ (b'0' + k) ∷ b'm' ∷ []) con)
unfolding write_string set_cursor
write_string-Coloured k con low byte e =
    let digit : is_decimal (b'0' + k) && true ≡ true = ground arith in
    let (fore, kept) = foreground k con.attr low byte in
    let (back, low_bits, top) = background k con.attr low byte in
    let thirty : decimal 0 (b'3' ∷ (b'0' + k) ∷ []) ≡ 30 + k = omega arith in
    let forty : decimal 0 (b'4' ∷ (b'0' + k) ∷ []) ≡ 40 + k = omega arith in
    let f = attribute_sequence b'3' ((b'0' + k) ∷ []) con e digit (omega arith) in
    let b = attribute_sequence b'4' ((b'0' + k) ∷ []) con e digit (omega arith) in
    rw (f, b, thirty, forty)
      (record {
        foreground = fore;
        rest = kept;
        background = back;
        low = low_bits;
        top = top;
        memory = (refl, refl);
        cursor = (refl, refl, refl, refl);
        states = (refl, refl);
      })
