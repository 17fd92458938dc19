-- ===== src/Checksum/Bound.antt =====
-- Kernel/netinet/check_sum.c: the sums of a packet of up to 65535 bytes stay within 32 bits.
use shaunos.Base.{
  ℕ, zero, suc, ◌+◌, ◌-◌, ◌*◌, ◌^◌, ◌<◌, ◌≤◌, ◌≡◌, refl, arith, Bool, true, false, none, some, List,
  [], ◌∷◌, ◌++◌, ltb, ◌==◌, not, Bool-cases, inl, inr, append-nil, length, length-take, take, drop,
}
use shaunos.Mbuf.{Mbuf, Chain, contents}
use shaunos.Checksum.{
  reduce, add_words, word_loop, Partial, close, none_left, last_words, sum_words, align, round,
  sum_chain,
}
use shaunos.Checksum.Value.{
  value, total_of, are_bytes, head_and_tail, value-le, reduce-le, reduce-small,
}
use shaunos.Checksum.Words.{word_loop-Added}

-- what is left behind an alignment
abbrev restart : ℕ
restart = 65535 * 257

-- a loop adds at most the value of its bytes
word_loop-le :
    (k sum : ℕ) (w : List ℕ)
    → (let r = word_loop (length w) (suc k) sum w in r.0 + value false r.1 ≤ sum + value false w)
word_loop-le k sum w =
    let total = (word_loop-Added (length w) k sum w [] (omega arith)).total in
    let total' = rw (append-nil w, append-nil (word_loop (length w) (suc k) sum w).1) at total in
    omega (arith, total')

close-le : (sum : ℕ) (w : List ℕ) → total_of (close none sum w) [] ≤ sum + value false w
close-le sum [] = omega arith
close-le sum (b ∷ w) = omega arith

close-restart :
    (c sum : ℕ) (w : List ℕ)
    → c < 256
    → sum < 2 ^ 32
    → are_bytes w ≡ true
    → length w < 2
    → total_of (close (some c) sum w) [] ≤ restart
close-restart c sum [] h s a few = omega (arith, reduce-small sum s)
close-restart c sum (b ∷ []) h s a few = omega (arith, reduce-small sum s, (head_and_tail b [] a).0)
close-restart c sum (b ∷ d ∷ w) h s a few = absurd (omega arith)

drop-bytes : (n : ℕ) (w : List ℕ) → are_bytes w ≡ true → are_bytes (drop n w) ≡ true
drop-bytes zero w h = h
drop-bytes (suc n) [] h = refl
drop-bytes (suc n) (b ∷ w) h = drop-bytes n w (head_and_tail b w h).1

take-bytes : (n : ℕ) (w : List ℕ) → are_bytes w ≡ true → are_bytes (take n w) ≡ true
take-bytes zero w h = refl
take-bytes (suc n) [] h = refl
take-bytes (suc n) (b ∷ w) h =
    let (first, others) = head_and_tail b w h in let rest = take-bytes n w others in ground arith

word_loop-bytes :
    (fuel k sum : ℕ) (w : List ℕ) → are_bytes w ≡ true → are_bytes (word_loop fuel k sum w).1 ≡ true
unfolding word_loop
word_loop-bytes zero k sum w h = h
word_loop-bytes (suc fuel) k sum w h = elim (Bool-cases (ltb (length w) (2 * k))) [
  | inl short ↦ rw short h
  | inr long ↦
      rw long (word_loop-bytes fuel k (add_words k sum w) (drop (2 * k) w) (drop-bytes (2 * k) w h))
]

last_words-le : (sum : ℕ) (w : List ℕ) → total_of (last_words none sum w) [] ≤ sum + value false w
unfolding last_words
last_words-le sum w =
    let r = word_loop (length w) 1 (reduce sum) w in
    omega (arith, close-le r.0 r.1, word_loop-le 0 (reduce sum) w, reduce-le sum)

last_words-restart :
    (c sum : ℕ) (w : List ℕ)
    → c < 256
    → are_bytes w ≡ true
    → sum + value false w < 2 ^ 32
    → total_of (last_words (some c) sum w) [] ≤ restart
unfolding last_words
last_words-restart c sum w h a small =
    let r = word_loop (length w) 1 (reduce sum) w in
    let below : r.0 < 2 ^ 32 = omega (arith, word_loop-le 0 (reduce sum) w, reduce-le sum) in
    close-restart c r.0 r.1 h below (word_loop-bytes (length w) 1 (reduce sum) w a)
      (word_loop-Added (length w) 0 (reduce sum) w [] (omega arith)).few

-- the loops over 16 and over 4 words, one after the other
abbrev words : ℕ → List ℕ → ℕ × List ℕ
words sum w = let r = word_loop (length w) 16 sum w in word_loop (length r.1) 4 r.0 r.1

words-le :
    (sum : ℕ) (w : List ℕ) → (words sum w).0 + value false (words sum w).1 ≤ sum + value false w
words-le sum w =
    let r = word_loop (length w) 16 sum w in
    omega (arith, word_loop-le 15 sum w, word_loop-le 3 r.0 r.1)

sum_words-le : (sum : ℕ) (w : List ℕ) → total_of (sum_words none sum w) [] ≤ sum + value false w
unfolding sum_words
sum_words-le sum w = elim (Bool-cases (none_left none (words sum w).1)) [
  | inl done ↦ rw done (omega (arith, words-le sum w))
  | inr left ↦
      rw left (omega (arith, words-le sum w, last_words-le (words sum w).0 (words sum w).1))
]

sum_words-restart :
    (c sum : ℕ) (w : List ℕ)
    → c < 256
    → are_bytes w ≡ true
    → sum + value false w < 2 ^ 32
    → total_of (sum_words (some c) sum w) [] ≤ restart
unfolding sum_words
sum_words-restart c sum w h a small =
    let r = word_loop (length w) 16 sum w in
    let bytes = word_loop-bytes (length w) 16 sum w a in
    last_words-restart c (words sum w).0 (words sum w).1 h
      (word_loop-bytes (length r.1) 4 r.0 r.1 bytes) (omega (arith, words-le sum w))

-- the sums of `n` bytes
abbrev most : ℕ → ℕ
most n = restart + 65280 * n

align-le :
    (odd : Bool) (sum n : ℕ) (w : List ℕ)
    → are_bytes w ≡ true
    → sum + value false w ≤ most n
    → length w ≤ n
    → n ≤ 65535
    → total_of (align odd sum w) [] ≤ most n
unfolding align
align-le true sum n [] a h l s = omega (arith, sum_words-le sum [])
align-le false sum n w a h l s = omega (arith, sum_words-le sum w)
align-le true sum n (b ∷ w) a h l s =
    let (first, others) = head_and_tail b w a in
    let reduced : reduce sum ≤ 65535 = reduce-small sum (omega arith) in
    omega (
      arith,
      sum_words-restart b (reduce sum * 256) w first others
          (omega (arith, value-le false w others)),
    )

contents-bytes :
    (xs ys : List ℕ) → are_bytes (xs ++ ys) ≡ true → (are_bytes xs ≡ true) × (are_bytes ys ≡ true)
contents-bytes [] ys h = (refl, h)
contents-bytes (b ∷ xs) ys h =
    let (first, others) = head_and_tail b (xs ++ ys) h in
    let (left, right) = contents-bytes xs ys others in (ground arith, right)

length-take-le : (n : ℕ) (w : List ℕ) → length (take n w) ≤ length w
length-take-le n w = omega (arith, length-take n w)

-- one round from the sums of `n` bytes, with `len` more to come
round-le :
    (odd : Bool) (bytes : List ℕ) (m n : ℕ) (sums : Partial)
    → are_bytes bytes ≡ true
    → total_of sums [] ≤ most n
    → n + suc m ≤ 65535
    → (let r = round odd bytes (suc m) sums in
        (k : ℕ) × (total_of r.1 [] ≤ most k) × (k + r.0 ≤ 65535))
unfolding round
round-le odd [] m n sums a h s = (n, h, s)
round-le odd (b ∷ w) m n (sum, none) a h s =
    let w' = take (suc m) (b ∷ w) in
    let few = length-take (suc m) (b ∷ w) in
    let bytes = take-bytes (suc m) (b ∷ w) a in
    (
      n + length w',
      align-le odd sum (n + length w') w' bytes (omega (arith, value-le false w' bytes))
          (omega arith) (omega (arith, few)),
      omega (arith, few),
    )
round-le odd (b ∷ w) m n (sum, some c) a h s =
    let one_less : suc m - 1 ≡ m = omega arith in
    let (first, others) = head_and_tail b w a in
    let w' = take m w in
    let few = length-take m w in
    let bytes = take-bytes m w others in
    let k = suc (n + length w') in
    rw one_less (
      k,
      align-le (not odd) (sum + (c + 256 * b)) k w' bytes
          (omega (arith, value-le false w' bytes, first)) (omega arith) (omega (arith, few)),
      omega (arith, few),
    )

sum_chain-le :
    (odd : Mbuf → Bool) (c : Chain) (len n : ℕ) (sums : Partial)
    → are_bytes (contents c) ≡ true
    → total_of sums [] ≤ most n
    → n + len ≤ 65535
    → total_of (sum_chain odd c len sums).1 [] < 2 ^ 32
unfolding sum_chain
sum_chain-le odd [] len n sums a h s = omega arith
sum_chain-le odd (m ∷ c) zero n sums a h s = omega arith
sum_chain-le odd (m ∷ c) (suc len) n sums a h s =
    let (here, behind) = contents-bytes m.bytes (contents c) a in
    let (k, below, left) = round-le (odd m) m.bytes len n sums here h s in
    let (len', sums') = round (odd m) m.bytes (suc len) sums in
    let some_left : suc len == 0 ≡ false = ground arith in
    rw some_left (sum_chain-le odd c len' k sums' behind below left)

pub sum_chain-small :
    (odd : Mbuf → Bool) (c : Chain) (len : ℕ)
    → are_bytes (contents c) ≡ true
    → len ≤ 65535
    → total_of (sum_chain odd c len (0, none)).1 [] < 2 ^ 32
sum_chain-small odd c len a h = sum_chain-le odd c len 0 (0, none) a (omega arith) (omega arith)
