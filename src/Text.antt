-- ===== src/Text.antt =====
-- lib/string.c: the routines on strings that end in a byte of 0. A loop that looks for that byte is run
-- on fuel, since it may not be there.
pub mod Scan
pub mod Compare
pub mod Copy
mod Tests
use shaunos.Base.{
  ℕ, zero, suc, ◌+◌, ◌-◌, ◌*◌, ◌/◌, ◌%◌, ◌^◌, ◌<◌, ◌≡◌, ◌≢◌, Bool, true, false, ltb, leb, ◌==◌,
  ◌&&◌, ◌||◌, not, if◌then◌else◌,
}
use shaunos.Base.Int.{ℤ, pos, negsuc, u32_mod, sub32}
use shaunos.Base.Fault.{Result, ok, out_of_fuel, ◌>>=◌}
use shaunos.Bytes.{Memory, null, move, store, rep_store, difference}

-- `scasb; jnz`: the address behind the first byte `c` from `p` on
unfoldable pub scan : ℕ → Memory → ℕ → ℕ → Result ℕ
scan zero m c p = out_of_fuel
scan (suc fuel) m c p = let rest = scan fuel m c (p + 1) in if m p == c then ok (p + 1) else rest

unfoldable pub strlen : ℕ → Memory → ℕ → Result ℕ
unfolding scan
strlen fuel m s = if s == null then ok (u32_mod - 1) else scan fuel m 0 s >>= (λ e. ok (e - s - 1))

-- `maxlen` is compared as an unsigned number.
unfoldable pub strnlen : ℕ → Memory → ℕ → ℕ → Result ℕ
strnlen fuel m s maxlen = strlen fuel m s >>= (λ n. ok (if leb n maxlen then n else maxlen))

-- the difference of two `char`s, which are signed
abbrev pub char_difference : ℕ → ℕ → ℤ
char_difference a b = difference ((a + 128) % 256) ((b + 128) % 256)

-- `*p1 && *p2 && (*p1 == *p2)`
abbrev pub go_on : Memory → ℕ → ℕ → Bool
go_on m p1 p2 = not (m p1 == 0) && not (m p2 == 0) && m p1 == m p2

unfoldable pub strcmp_loop : ℕ → Memory → ℕ → ℕ → Result ℤ
strcmp_loop zero m p1 p2 = out_of_fuel
strcmp_loop (suc fuel) m p1 p2 =
    let rest = strcmp_loop fuel m (p1 + 1) (p2 + 1) in
    if go_on m p1 p2 then rest else ok (char_difference (m p1) (m p2))

unfoldable pub strcmp : ℕ → Memory → ℕ → ℕ → Result ℤ
unfolding strcmp_loop
strcmp fuel m s1 s2 = if s1 == null || s2 == null then ok (negsuc 0) else strcmp_loop fuel m s1 s2

-- `while (n-- && ...)`, for an `n` that is not negative
unfoldable pub strncmp_loop : ℕ → Memory → ℕ → ℕ → ℤ
strncmp_loop zero m p1 p2 = char_difference (m p1) (m p2)
strncmp_loop (suc n) m p1 p2 =
    let rest = strncmp_loop n m (p1 + 1) (p2 + 1) in
    if go_on m p1 p2 then rest else char_difference (m p1) (m p2)

unfoldable pub strncmp : Memory → ℕ → ℕ → ℕ → ℤ
unfolding strncmp_loop
strncmp m s1 s2 n = if s1 == null || s2 == null then negsuc 0 else strncmp_loop n m s1 s2

-- `lodsb; stosb; testb; jnz`: the memory after it and the address behind the last byte written
unfoldable pub copy_string : ℕ → ℕ → ℕ → Memory → Result (Memory × ℕ)
unfolding move
copy_string zero d s m = out_of_fuel
copy_string (suc fuel) d s m =
    let rest = copy_string fuel (d + 1) (s + 1) (move 1 d s m) in
    if m s == 0 then ok (move 1 d s m, d + 1) else rest

unfoldable pub strcpy : ℕ → ℕ → ℕ → Memory → Result (Memory × ℕ)
unfolding copy_string
strcpy fuel dest src m =
    if dest == null || src == null
    then ok (m, null)
    else copy_string fuel dest src m >>= (λ (m', e). ok (m', dest))

unfoldable pub strcat : ℕ → ℕ → ℕ → Memory → Result (Memory × ℕ)
unfolding scan copy_string
strcat fuel dest src m =
    if dest == null || src == null
    then ok (m, dest)
    else scan fuel m 0 dest >>= (λ e. copy_string fuel (e - 1) src m)

-- the loop of `strncat`, which ends in a byte of 0 also behind the one it has copied
unfoldable pub strncat_loop : ℕ → ℕ → ℕ → Memory → Memory
unfolding move store
strncat_loop zero d s m = store 1 d 0 m
strncat_loop (suc n) d s m =
    let rest = strncat_loop n (d + 1) (s + 1) (move 1 d s m) in
    if m s == 0 then store 1 (d + 1) 0 (move 1 d s m) else rest

unfoldable pub strncat : ℕ → ℕ → ℕ → ℕ → Memory → Result (Memory × ℕ)
unfolding scan strncat_loop
strncat fuel dest src n m =
    if dest == null || src == null || n == 0
    then ok (m, dest)
    else scan fuel m 0 dest >>= (λ e. ok (strncat_loop n (e - 1) src m, dest))

-- the loop of `strncpy`; what is left of `n` behind the end of the string is set to 0.
unfoldable pub strncpy_loop : ℕ → ℕ → ℕ → Memory → Memory
unfolding move store rep_store
strncpy_loop zero d s m = store 1 d 0 m
strncpy_loop (suc n) d s m =
    let rest = strncpy_loop n (d + 1) (s + 1) (move 1 d s m) in
    if m s == 0 then rep_store n 1 (d + 1) 0 (move 1 d s m) else rest

unfoldable pub strncpy : ℕ → ℕ → ℕ → Memory → Memory × ℕ
unfolding strncpy_loop
strncpy dest src n m = if n == 0 then (m, dest) else (strncpy_loop n dest src m, dest)

unfoldable pub strchr : ℕ → Memory → ℕ → ℕ → Result ℕ
strchr zero m p c = out_of_fuel
strchr (suc fuel) m p c =
    let rest = strchr fuel m (p + 1) c in
    if m p == c % 256 then ok p else if m p == 0 then ok null else rest

-- the loop of `strrchr`, with `n` rounds left
unfoldable pub strrchr_loop : ℕ → Memory → ℕ → ℕ → ℕ
strrchr_loop zero m p c = null
strrchr_loop (suc n) m p c =
    let rest = strrchr_loop n m (sub32 p 1) c in if m p == c % 256 then p else rest

-- The count is taken down before it is tested, so that a count of 0 stands for 2^32 rounds.
unfoldable pub strrchr : ℕ → Memory → ℕ → ℕ → Result ℕ
unfolding strlen strrchr_loop
strrchr fuel m s c =
    strlen fuel m s
    >>= (λ len. ok (strrchr_loop (if len == 0 then u32_mod else len) m ((s + len) % u32_mod) c))

-- a string of `n` bytes before its byte of 0
pub record IsString (m : Memory) (p n : ℕ) : Type 0 where
  pub body : (i : ℕ) → i < n → m (p + i) ≢ 0
  pub ends : m (p + n) ≡ 0
