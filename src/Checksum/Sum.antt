-- ===== src/Checksum/Sum.antt =====
-- `in_cksum` of Kernel/netinet/check_sum.c: its loops add up the words of the packet.
use shaunos.Base.{
  ℕ, zero, suc, ◌+◌, ◌-◌, ◌*◌, ◌^◌, ◌<◌, ◌≤◌, ◌≡◌, refl, ◌∙◌, ap, arith, Bool, true, false, Option,
  none, some, List, [], ◌∷◌, ◌++◌, ◌==◌, not, Bool-cases, inl, inr, leb, length, length-append,
  take-append, take, if◌then◌else◌,
}
use shaunos.Base.Fault.{ok, assert_failed}
use shaunos.Mbuf.{Mbuf, Chain, contents}
use shaunos.Checksum.{
  reduce, word_loop, Partial, close, none_left, last_words, sum_words, align, round, sum_chain,
  complement, in_cksum,
}
use shaunos.Checksum.Words.{word_loop-Added}
use shaunos.Checksum.Bound.{sum_chain-small}
use shaunos.Checksum.Value.{
  are_bytes, total_of, Same, value, fold, refl-Same, trans-Same, add-Same, times-Same, eq-Same,
  sym-Same, reduce-Same, word_shift, fold-Same, reduce-small, value_shift,
}

-- the total at the second `REDUCE`, where the alignment has set `c` aside or not
abbrev due : Option ℕ → ℕ → List ℕ → ℕ
due none sum bs = sum + value false bs
due (some c) sum bs = sum * 256 + (c + value true bs)

-- with the byte `c` set aside, the total counts 256 times
set_aside :
    (c s t u : ℕ) (bs : List ℕ)
    → Same (s + t) (u + value false bs)
    → Same (reduce s * 256 + (c + t * 256)) (u * 256 + (c + value true bs))
set_aside c s t u bs e =
    trans-Same (add-Same (times-Same (reduce-Same s)) (refl-Same (c + t * 256))) (
      trans-Same (eq-Same (omega arith)) (
        trans-Same (add-Same (times-Same e) (refl-Same c)) (
          trans-Same (eq-Same (omega arith)) (
            add-Same (refl-Same (u * 256))
              (add-Same (refl-Same c) (sym-Same (value_shift false bs)))))))

close-Same :
    (swapped : Option ℕ) (s u : ℕ) (w bs rest : List ℕ)
    → length w < 2
    → Same (s + value false (w ++ rest)) (u + value false bs)
    → Same (total_of (close swapped s w) rest) (due swapped u bs)
close-Same none s u [] bs rest h e = e
close-Same none s u (b ∷ []) bs rest h e = e
close-Same (some c) s u [] bs rest h e =
    trans-Same
      (add-Same (refl-Same (reduce s * 256)) (add-Same (refl-Same c) (value_shift false rest)))
      (set_aside c s (value false rest) u bs e)
close-Same (some c) s u (b ∷ []) bs rest h e =
    trans-Same
      (trans-Same (add-Same (refl-Same (reduce s * 256 + (c + 256 * b))) (value_shift true rest))
        (eq-Same (omega arith)))
      (set_aside c s (b + value true rest) u bs e)
close-Same swapped s u (a ∷ b ∷ w) bs rest h e = absurd (omega arith)

last_words-Same :
    (swapped : Option ℕ) (sum : ℕ) (w rest : List ℕ)
    → Same (total_of (last_words swapped sum w) rest) (due swapped sum (w ++ rest))
unfolding last_words
last_words-Same swapped sum w rest =
    let added = word_loop-Added (length w) 0 (reduce sum) w rest (omega arith) in
    close-Same swapped _ sum _ (w ++ rest) rest (omega (arith, added.few)) (
      trans-Same (eq-Same added.total)
        (add-Same (reduce-Same sum) (refl-Same (value false (w ++ rest)))))

due_eq :
    (swapped : Option ℕ) (s u : ℕ) (bs cs : List ℕ)
    → s + value false bs ≡ u + value false cs
    → Same (due swapped s bs) (due swapped u cs)
due_eq none s u bs cs e = eq-Same e
due_eq (some c) s u bs cs e =
    let fold_in : (v : ℕ) (ds : List ℕ)
        → Same (v * 256 + (c + value true ds)) ((v + value false ds) * 256 + c) =
      λ v ds.
        trans-Same (add-Same (refl-Same (v * 256)) (add-Same (refl-Same c) (value_shift false ds)))
          (eq-Same (omega arith)) in
    trans-Same (fold_in s bs) (trans-Same (eq-Same (omega (arith, e))) (sym-Same (fold_in u cs)))

none_left_lem :
    (swapped : Option ℕ) (s : ℕ) (w rest : List ℕ)
    → none_left swapped w ≡ true
    → Same (total_of (s, none) rest) (due swapped s (w ++ rest))
none_left_lem none s [] rest h = refl-Same _
none_left_lem none s (b ∷ w) rest h = absurd (ground arith)
none_left_lem (some c) s w rest h = absurd (ground arith)

sum_words-Same :
    (swapped : Option ℕ) (sum : ℕ) (w rest : List ℕ)
    → Same (total_of (sum_words swapped sum w) rest) (due swapped sum (w ++ rest))
unfolding sum_words
sum_words-Same swapped sum w rest =
    let first = word_loop (length w) 16 sum w in
    let second = word_loop (length first.1) 4 first.0 first.1 in
    let added = word_loop-Added (length w) 15 sum w rest (omega arith) in
    let more = word_loop-Added (length first.1) 3 first.0 first.1 rest (omega arith) in
    let same =
      due_eq swapped second.0 sum (second.1 ++ rest) (w ++ rest) (more.total ∙ added.total) in
    elim (Bool-cases (none_left swapped second.1)) [
      | inl done ↦ rw done (trans-Same (none_left_lem swapped second.0 second.1 rest done) same)
      | inr left ↦ rw left (trans-Same (last_words-Same swapped second.0 second.1 rest) same)
    ]

align-Same :
    (odd : Bool) (sum : ℕ) (w rest : List ℕ)
    → Same (total_of (align odd sum w) rest) (sum + value false (w ++ rest))
unfolding align
align-Same true sum [] rest = sum_words-Same none sum [] rest
align-Same false sum w rest = sum_words-Same none sum w rest
align-Same true sum (b ∷ w) rest = trans-Same (sum_words-Same (some b) (reduce sum * 256) w rest) (
    add-Same (trans-Same (word_shift (reduce sum)) (reduce-Same sum))
      (refl-Same (b + value true (w ++ rest))))

-- What a round of the loop leaves: the total of the sums and of the bytes to add.
record Rounded (bytes : List ℕ) (len : ℕ) (sums : Partial) (rest : List ℕ) (r : ℕ × Partial)
    : Type 0 where
  pub left : r.0 ≡ len - length bytes
  pub same : Same (total_of r.1 rest) (total_of sums (take len bytes ++ rest))

length-take_lem : (n : ℕ) (w : List ℕ) → n - length (take n w) ≡ n - length w
length-take_lem zero w = omega arith
length-take_lem (suc n) [] = refl
length-take_lem (suc n) (b ∷ w) = omega (arith, length-take_lem n w)

round-Rounded :
    (odd : Bool) (bytes : List ℕ) (n : ℕ) (sums : Partial) (rest : List ℕ)
    → Rounded bytes (suc n) sums rest (round odd bytes (suc n) sums)
unfolding round
round-Rounded odd [] n sums rest = record { left = omega arith; same = refl-Same _ }
round-Rounded odd (b ∷ w) n (sum, none) rest = record {
  left = length-take_lem (suc n) (b ∷ w);
  same = align-Same odd sum (take (suc n) (b ∷ w)) rest;
}
round-Rounded odd (b ∷ w) n (sum, some c) rest =
    let one_less : suc n - 1 ≡ n = omega arith in
    rw one_less (record {
      left = omega (arith, length-take_lem n w);
      same =
          trans-Same (align-Same (not odd) (sum + (c + 256 * b)) (take n w) rest)
            (eq-Same (omega arith));
    })

record Summed (bytes : List ℕ) (len : ℕ) (sums : Partial) (r : ℕ × Partial) : Type 0 where
  pub left : r.0 ≡ len - length bytes
  pub same : Same (total_of r.1 []) (total_of sums (take len bytes))

sum_chain-Summed :
    (odd : Mbuf → Bool) (c : Chain) (len : ℕ) (sums : Partial)
    → Summed (contents c) len sums (sum_chain odd c len sums)
unfolding sum_chain
sum_chain-Summed odd [] len sums = record { left = omega arith; same = nothing len }
  where
    nothing : (n : ℕ) → Same (total_of sums []) (total_of sums (take n []))
    nothing zero = refl-Same _
    nothing (suc n) = refl-Same _
sum_chain-Summed odd (m ∷ c) zero sums = record { left = omega arith; same = refl-Same _ }
sum_chain-Summed odd (m ∷ c) (suc n) sums =
    let (len', sums') = round (odd m) m.bytes (suc n) sums in
    let rounded = round-Rounded (odd m) m.bytes n sums (take len' (contents c)) in
    let rest = sum_chain-Summed odd c len' sums' in
    let some_left : suc n == 0 ≡ false = ground arith in
    rw some_left (record {
      left = omega (arith, rest.left, rounded.left, length-append m.bytes (contents c));
      same =
          rw (take-append (suc n) m.bytes (contents c), ← rounded.left)
            (trans-Same rest.same rounded.same);
    })

-- what is returned at the end
complement_lem :
    (sums : Partial) (v : ℕ)
    → total_of sums [] < 2 ^ 32
    → Same (total_of sums []) v
    → complement sums ≡ 65535 - fold v
unfolding complement
complement_lem (sum, none) v h e =
    ap (λ r. 65535 - r)
      (fold-Same _ v (reduce-small sum (omega arith))
        (trans-Same (reduce-Same sum) (trans-Same (eq-Same (omega arith)) e)))
complement_lem (sum, some c) v h e =
    ap (λ r. 65535 - r)
      (fold-Same _ v (reduce-small (sum + c) (omega arith))
        (trans-Same (reduce-Same _) (trans-Same (eq-Same (omega arith)) e)))

-- The checksum of the first `len` bytes of a packet, 65535 at most, is the complement of the ones'
-- complement sum of its 16-bit words, however its bytes are spread over mbufs and wherever those
-- lie; the kernel panics exactly when the packet has fewer bytes.
pub in_cksum-fold :
    (odd : Mbuf → Bool) (m : Chain) (len : ℕ)
    → are_bytes (contents m) ≡ true
    → len ≤ 65535
    → in_cksum odd m len ≡ (
        if leb len (length (contents m))
        then ok (65535 - fold (value false (take len (contents m))))
        else assert_failed)
unfolding in_cksum
in_cksum-fold odd m len bytes h =
    let summed = sum_chain-Summed odd m len (0, none) in
    let sums = (sum_chain odd m len (0, none)).1 in
    let v = value false (take len (contents m)) in
    let small = sum_chain-small odd m len bytes h in
    let result = complement_lem sums v small (trans-Same summed.same (eq-Same (omega arith))) in
    elim (Bool-cases (leb len (length (contents m)))) [
      | inl fits ↦
          let used : len - length (contents m) ≡ 0 = ground arith in
          rw (fits, summed.left, used) (ap ok result)
      | inr short ↦
          let unused : len - length (contents m) == 0 ≡ false = ground arith in
          rw (short, summed.left, unused) refl
    ]
