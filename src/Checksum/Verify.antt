-- ===== src/Checksum/Verify.antt =====
-- Kernel/netinet/check_sum.c: a packet that carries its checksum.
use shaunos.Base.{
  ℕ, ◌+◌, ◌-◌, ◌/◌, ◌%◌, ◌≤◌, ◌≡◌, ◌≢◌, refl, sym, ◌∙◌, ap, arith, Bool, true, false, List, [], ◌∷◌,
  ◌++◌, leb, ltb, ◌==◌, Bool-cases, inl, inr, ==→eq, ==→ne, length, length-append, take,
}
use shaunos.Base.Fault.{ok}
use shaunos.Mbuf.{Mbuf, Chain, contents}
use shaunos.Checksum.{in_cksum}
use shaunos.Checksum.Value.{value, fold, are_bytes, head_and_tail}
use shaunos.Checksum.Sum.{in_cksum-fold}

take-length : (xs : List ℕ) → take (length xs) xs ≡ xs
take-length [] = refl
take-length (x ∷ xs) = ap (λ ys. x ∷ ys) (take-length xs)

-- the checksum of a whole packet
whole :
    (odd : Mbuf → Bool) (m : Chain)
    → are_bytes (contents m) ≡ true
    → length (contents m) ≤ 65535
    → in_cksum odd m (length (contents m)) ≡ ok (65535 - fold (value false (contents m)))
whole odd m a h =
    let fits : leb (length (contents m)) (length (contents m)) ≡ true = ground arith in
    let sum = in_cksum-fold odd m (length (contents m)) a h in
    rw (fits, take-length (contents m)) at sum

-- the words behind an even number of bytes
value-append :
    (hd bs : List ℕ) → length hd % 2 ≡ 0 → value false (hd ++ bs) ≡ value false hd + value false bs
value-append [] bs even = omega arith
value-append (a ∷ []) bs even = absurd (omega arith)
value-append (a ∷ b ∷ hd) bs even = omega (arith, value-append hd bs (omega arith))

ok-injective : {a b : ℕ} → ok a ≡ ok b → a ≡ b
ok-injective e = cc

fold-complement : (v : ℕ) → fold (v + (65535 - fold v)) ≡ 65535
fold-complement v = elim (Bool-cases (v == 0)) [
  | inl z ↦ rw (==→eq _ _ z) refl
  | inr nz ↦
      let some_v : v ≢ 0 = ==→ne _ _ nz in
      let more : v + (65535 - ((v - 1) % 65535 + 1)) == 0 ≡ false = ground arith in
      rw (nz, more) (omega arith)
]

-- the bytes of the checksum in their field
abbrev field : ℕ → List ℕ → List ℕ
field sum tl = sum % 256 ∷ sum / 256 ∷ tl

same_bytes :
    (hd : List ℕ) (sum : ℕ) (tl : List ℕ)
    → sum ≤ 65535
    → are_bytes (hd ++ 0 ∷ 0 ∷ tl) ≡ true
    → are_bytes (hd ++ field sum tl) ≡ true
same_bytes [] sum tl h a =
    let (_, behind) = head_and_tail 0 (0 ∷ tl) a in
    let (_, tl_bytes) = head_and_tail 0 tl behind in
    let low : ltb (sum % 256) 256 ≡ true = ground arith in
    let high : ltb (sum / 256) 256 ≡ true = ground arith in rw (low, high) tl_bytes
same_bytes (b ∷ hd) sum tl h a =
    let (first, others) = head_and_tail b (hd ++ 0 ∷ 0 ∷ tl) a in
    let byte : ltb b 256 ≡ true = ground arith in rw byte (same_bytes hd sum tl h others)

-- A packet whose checksum was taken with 0 in a field at an even place, and put into that field, has
-- the checksum 0, also when its bytes are spread over other mbufs at other addresses.
pub in_cksum-verifies :
    (odd odd' : Mbuf → Bool) (m m' : Chain) (hd tl : List ℕ) (sum : ℕ)
    → contents m ≡ hd ++ 0 ∷ 0 ∷ tl
    → contents m' ≡ hd ++ field sum tl
    → length hd % 2 ≡ 0
    → are_bytes (contents m) ≡ true
    → length (contents m) ≤ 65535
    → in_cksum odd m (length (contents m)) ≡ ok sum
    → in_cksum odd' m' (length (contents m')) ≡ ok 0
in_cksum-verifies odd odd' m m' hd tl sum before after even a h taken =
    let v = value false (contents m) in
    let total : value false (hd ++ 0 ∷ 0 ∷ tl) ≡ value false hd + value false tl =
      value-append hd (0 ∷ 0 ∷ tl) even ∙ omega arith in
    let total' : value false (hd ++ field sum tl) ≡ value false hd + value false tl + sum =
      value-append hd (field sum tl) even ∙ omega arith in
    let is_sum : sum ≡ 65535 - fold v = ok-injective (sym taken ∙ whole odd m a h) in
    let small : sum ≤ 65535 = omega (arith, is_sum) in
    let bytes : are_bytes (contents m') ≡ true =
      rw after (same_bytes hd sum tl small (rw before at a)) in
    let as_long : length (contents m') ≡ length (contents m) =
      rw (after, before)
        (omega (arith, length-append hd (field sum tl), length-append hd (0 ∷ 0 ∷ tl))) in
    let sums : value false (contents m') ≡ v + (65535 - fold v) =
      omega (arith, ap (value false) after ∙ total', ap (value false) before ∙ total, is_sum) in
    whole odd' m' bytes (omega arith) ∙ rw (sums, fold-complement v) refl
