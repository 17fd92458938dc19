-- ===== src/Bytes.antt =====
-- lib/string.c: the routines that move and fill memory, with the string instructions that they are
-- made of. An address is a number below 2^32, and no object reaches past the end of the addresses.
pub mod Copy
pub mod Down
pub mod Fill
pub mod Store
mod Tests
use shaunos.Base.{
  ℕ, zero, suc, ◌+◌, ◌-◌, ◌*◌, ◌/◌, ◌%◌, ◌^◌, Bool, true, false, ltb, leb, ◌==◌, ◌&&◌, ◌||◌,
  if◌then◌else◌,
}
use shaunos.Base.Int.{ℤ, pos, negsuc, u32_mod}

-- the bytes of memory
abbrev pub Memory : Type 0
Memory = ℕ → ℕ

abbrev pub null : ℕ
null = 0

-- `movsb`, `movsw`, `movsl`: `w` bytes are read, then written
unfoldable pub move : ℕ → ℕ → ℕ → Memory → Memory
move w d s m x = if leb d x && ltb x (d + w) then m (s + (x - d)) else m x

-- `stosb`, `stosw`, `stosl` of the low bytes of `v`
unfoldable pub store : ℕ → ℕ → ℕ → Memory → Memory
store w d v m x = if leb d x && ltb x (d + w) then v / 256 ^ (x - d) % 256 else m x

-- `n` moves with the direction flag clear (`rep`), and with it set
unfoldable pub rep_move : ℕ → ℕ → ℕ → ℕ → Memory → Memory
unfolding move
rep_move zero w d s m = m
rep_move (suc n) w d s m = rep_move n w (d + w) (s + w) (move w d s m)

unfoldable pub rep_move_down : ℕ → ℕ → ℕ → ℕ → Memory → Memory
unfolding move
rep_move_down zero w d s m = m
rep_move_down (suc n) w d s m = rep_move_down n w (d - w) (s - w) (move w d s m)

unfoldable pub rep_store : ℕ → ℕ → ℕ → ℕ → Memory → Memory
unfolding store
rep_store zero w d v m = m
rep_store (suc n) w d v m = rep_store n w (d + w) v (store w d v m)

-- `-(unsigned long)p % 4`
abbrev pub padding : ℕ → ℕ
padding p = (u32_mod - p) % 4

-- how many of the cases of `switch (p & 3)` are run through, one byte in each
abbrev pub cases_run : ℕ → ℕ
cases_run p = if p % 4 == 1 then 3 else if p % 4 == 2 then 2 else if p % 4 == 3 then 1 else 0

-- the inner `switch (n & 3)`: words, then the bytes that are left
unfoldable pub move_words : ℕ → ℕ → ℕ → Memory → Memory
unfolding move rep_move
move_words n d s m =
    let words = rep_move (n / 4) 4 d s m in
    let d' = d + n / 4 * 4 in
    let s' = s + n / 4 * 4 in
    if n % 4 == 0
    then words
    else if n % 4 == 1
    then move 1 d' s' words
    else if n % 4 == 2
    then move 2 d' s' words
    else move 1 (d' + 2) (s' + 2) (move 2 d' s' words)

unfoldable pub move_words_down : ℕ → ℕ → ℕ → Memory → Memory
unfolding move rep_move_down
move_words_down n d s m =
    let words = rep_move_down (n / 4) 4 d s m in
    let d' = d - n / 4 * 4 in
    let s' = s - n / 4 * 4 in
    if n % 4 == 0
    then words
    else if n % 4 == 1
    then move 1 d' s' words
    else if n % 4 == 2
    then move 2 d' s' words
    else move 1 (d' - 2) (s' - 2) (move 2 d' s' words)

unfoldable pub store_words : ℕ → ℕ → ℕ → Memory → Memory
unfolding store rep_store
store_words n d v m =
    let words = rep_store (n / 4) 4 d v m in
    let d' = d + n / 4 * 4 in
    if n % 4 == 0
    then words
    else if n % 4 == 1
    then store 1 d' v words
    else if n % 4 == 2
    then store 2 d' v words
    else store 1 (d' + 2) v (store 2 d' v words)

-- `memcpy`: the memory after it, and what it returns
unfoldable pub memcpy : ℕ → ℕ → ℕ → Memory → Memory × ℕ
unfolding rep_move move_words
memcpy dest src n m =
    let k = cases_run dest in
    if src == null || dest == null
    then (m, null)
    else if n == 0
    then (m, dest)
    else if ltb n 32
    then (rep_move n 1 dest src m, dest)
    else (move_words (n - padding dest) (dest + k) (src + k) (rep_move k 1 dest src m), dest)

-- `memmove`: where the destination starts inside the source, or right behind it, the copy goes down
-- from the ends.
unfoldable pub memmove : ℕ → ℕ → ℕ → Memory → Memory × ℕ
unfolding rep_move_down move_words_down
memmove dest src n m =
    let d = dest + n in
    let s = src + n in
    let k = cases_run d in
    if dest == null || src == null || n == 0
    then (m, dest)
    else if ltb src dest && leb dest (src + n)
    then (move_words_down (n - padding d) (d - k) (s - k) (rep_move_down k 1 d s m), dest)
    else memcpy dest src n m

-- `memset`; `c` is the bit pattern of an `int`.
unfoldable pub memset : ℕ → ℕ → ℕ → Memory → Memory × ℕ
unfolding rep_store store_words
memset s c n m =
    let uc = c * 0x01010101 % u32_mod in
    let k = cases_run s in
    if n == 0
    then (m, s)
    else if ltb n 32
    then (rep_store n 1 s c m, s)
    else (store_words (n - padding s) (s + k) uc (rep_store k 1 s c m), s)

-- the difference of two `unsigned char`s
abbrev pub difference : ℕ → ℕ → ℤ
difference a b = if leb b a then pos (a - b) else negsuc (b - a - 1)

unfoldable pub memcmp : Memory → ℕ → ℕ → ℕ → ℤ
memcmp m s1 s2 zero = pos 0
memcmp m s1 s2 (suc n) =
    let rest = memcmp m (s1 + 1) (s2 + 1) n in
    if m s1 == m s2 then rest else difference (m s1) (m s2)
