-- ===== src/Bitops.antt =====
-- Kernel/bitops.c: the bit instructions on one 32-bit word. A word is the list of its bits, bit 0
-- first.
use shaunos.Base.{ℕ, suc, Bool, true, false, Option, none, some, List, [], ◌∷◌, get_or, set}

abbrev pub Word : Type 0
Word = List Bool

abbrev pub bit : Word → ℕ → Bool
bit w i = get_or w i false

-- `bts`, `btr` and `bt`: the new word and the old bit, which the functions return
unfoldable pub set_bit : ℕ → Word → Word × Bool
set_bit nr w = (set w nr true, bit w nr)

unfoldable pub clear_bit : ℕ → Word → Word × Bool
clear_bit nr w = (set w nr false, bit w nr)

unfoldable pub get_bit : ℕ → Word → Bool
get_bit nr w = bit w nr

-- The index of the lowest set bit, if there is one.
unfoldable pub lowest_one : Word → Option ℕ
lowest_one [] = none
lowest_one (true ∷ w) = some 0
lowest_one (false ∷ w) = elim (lowest_one w) [ none ↦ none | some i ↦ some (suc i) ]

-- `__find_first_bit` of a word in memory. `bsf` leaves its target undefined at a word of zeros: what
-- the register holds then is the argument `residue`, where `none` is the -1 that the C code looks for.
unfoldable pub find_first_bit : Option ℕ → Word → Option ℕ
find_first_bit residue w = elim (lowest_one w) [ none ↦ residue | some i ↦ some i ]
