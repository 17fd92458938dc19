-- ===== src/Checksum.antt =====
-- Kernel/netinet/check_sum.c: the Internet checksum of the first bytes of a packet.
-- `w` with `mlen` is the list of the `mlen` bytes at `w`, and `mlen` equal to -1 is the byte of
-- `s_util.c[0]` that waits for its other half. Where the data of an mbuf lies is not known: `odd` tells
-- whether its address is odd. `sum` is an `int`; it is read as its 32-bit pattern, and may pass 2^31,
-- a signed overflow in C. The machine is little-endian.
pub mod Value
pub mod Words
pub mod Bound
pub mod Sum
pub mod Verify
mod Tests
use shaunos.Base.{
  ℕ, zero, suc, ◌+◌, ◌-◌, ◌*◌, ◌/◌, ◌%◌, Bool, true, false, Option, none, some, List, [], ◌∷◌, ltb,
  ◌==◌, not, length, take, drop, if◌then◌else◌,
}
use shaunos.Base.Fault.{Result, ok, assert_failed}
use shaunos.Mbuf.{Mbuf, Chain}

-- `REDUCE`, with `ADDCARRY`
abbrev pub reduce : ℕ → ℕ
reduce sum = let s = sum % 65536 + sum / 65536 in if ltb 65535 s then s - 65535 else s

-- `sum += w[0]; sum += w[1]; ...` of `k` words
unfoldable pub add_words : ℕ → ℕ → List ℕ → ℕ
add_words zero sum w = sum
add_words (suc k) sum [] = sum
add_words (suc k) sum (a ∷ []) = sum
add_words (suc k) sum (a ∷ b ∷ w) = add_words k (sum + (a + 256 * b)) w

-- `while ((mlen -= 2 * k) >= 0)` over `k` words; `mlen` rounds are enough.
unfoldable pub word_loop : ℕ → ℕ → ℕ → List ℕ → ℕ × List ℕ
unfolding add_words
word_loop zero k sum w = (sum, w)
word_loop (suc fuel) k sum w =
    let rest = word_loop fuel k (add_words k sum w) (drop (2 * k) w) in
    if ltb (length w) (2 * k) then (sum, w) else rest

-- `sum` and the byte that waits
abbrev pub Partial : Type 0
Partial = ℕ × Option ℕ

-- the lines behind the last loop; `swapped` is the byte that the alignment set aside.
abbrev pub close : Option ℕ → ℕ → List ℕ → Partial
close none sum [] = (sum, none)
close none sum (b ∷ w) = (sum, some b)
close (some c) sum [] = (reduce sum * 256, some c)
close (some c) sum (b ∷ w) = (reduce sum * 256 + (c + 256 * b), none)

-- the lines from the second `REDUCE` on
unfoldable pub last_words : Option ℕ → ℕ → List ℕ → Partial
unfolding word_loop
last_words swapped sum w =
    let (sum', w') = word_loop (length w) 1 (reduce sum) w in close swapped sum' w'

-- `mlen == 0 && byte_swapped == 0`
abbrev pub none_left : Option ℕ → List ℕ → Bool
none_left none [] = true
none_left swapped w = false

-- the words of 32 and of 8 bytes, and the rest
unfoldable pub sum_words : Option ℕ → ℕ → List ℕ → Partial
unfolding word_loop last_words
sum_words swapped sum w =
    let (sum1, w1) = word_loop (length w) 16 sum w in
    let (sum2, w2) = word_loop (length w1) 4 sum1 w1 in
    if none_left swapped w2 then (sum2, none) else last_words swapped sum2 w2

-- from the alignment of `w` on
unfoldable pub align : Bool → ℕ → List ℕ → Partial
unfolding sum_words
align true sum (b ∷ w) = sum_words (some b) (reduce sum * 256) w
align odd sum w = sum_words none sum w

-- one round of the loop, for an mbuf that is not empty: `len` and the sums
unfoldable pub round : Bool → List ℕ → ℕ → Partial → ℕ × Partial
unfolding align
round odd [] len sums = (len, sums)
round odd (b ∷ w) len (sum, some c) =
    (len - 1 - length (take (len - 1) w), align (not odd) (sum + (c + 256 * b)) (take (len - 1) w))
round odd (b ∷ w) len (sum, none) =
    (len - length (take len (b ∷ w)), align odd sum (take len (b ∷ w)))

unfoldable pub sum_chain : (Mbuf → Bool) → Chain → ℕ → Partial → ℕ × Partial
unfolding round
sum_chain odd [] len sums = (len, sums)
sum_chain odd (m ∷ c) len sums =
    let (len', sums') = round (odd m) m.bytes len sums in
    let rest = sum_chain odd c len' sums' in if len == 0 then (len, sums) else rest

-- what is returned after the loop
unfoldable pub complement : Partial → ℕ
complement (sum, none) = 65535 - reduce sum
complement (sum, some c) = 65535 - reduce (sum + c)

unfoldable pub in_cksum : (Mbuf → Bool) → Chain → ℕ → Result ℕ
unfolding sum_chain complement
in_cksum odd m len =
    let (left, sums) = sum_chain odd m len (0, none) in
    if left == 0 then ok (complement sums) else assert_failed
