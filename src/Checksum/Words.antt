-- ===== src/Checksum/Words.antt =====
-- Kernel/netinet/check_sum.c: the loops that add up words.
use shaunos.Base.{
  ℕ, zero, suc, ◌+◌, ◌*◌, ◌<◌, ◌≤◌, ◌≡◌, refl, ◌∙◌, arith, false, List, [], ◌∷◌, ◌++◌, ltb,
  Bool-cases, inl, inr, ltb→lt, ltb→le, length, length-drop, drop,
}
use shaunos.Checksum.{add_words, word_loop}
use shaunos.Checksum.Value.{value}

add_words-value :
    (k sum : ℕ) (w rest : List ℕ)
    → 2 * k ≤ length w
    → add_words k sum w + value false (drop (2 * k) w ++ rest) ≡ sum + value false (w ++ rest)
unfolding add_words
add_words-value zero sum w rest h = refl
add_words-value (suc k) sum [] rest h = absurd (omega arith)
add_words-value (suc k) sum (a ∷ []) rest h = absurd (omega arith)
add_words-value (suc k) sum (a ∷ b ∷ w) rest h =
    let two_more : 2 * suc k ≡ suc (suc (2 * k)) = omega arith in
    rw two_more (omega (arith, add_words-value k (sum + (a + 256 * b)) w rest (omega arith)))

-- What a loop over the words at `w` leaves: the same total, and fewer bytes than it takes at a time.
pub record Added (k sum : ℕ) (w rest : List ℕ) (r : ℕ × List ℕ) : Type 0 where
  pub total : r.0 + value false (r.1 ++ rest) ≡ sum + value false (w ++ rest)
  pub few : length r.1 < 2 * k

pub word_loop-Added :
    (fuel k sum : ℕ) (w rest : List ℕ)
    → length w ≤ fuel
    → Added (suc k) sum w rest (word_loop fuel (suc k) sum w)
unfolding word_loop
word_loop-Added zero k sum [] rest h = record { total = refl; few = omega arith }
word_loop-Added zero k sum (b ∷ w) rest h = absurd (omega arith)
word_loop-Added (suc fuel) k sum w rest h = elim (Bool-cases (ltb (length w) (2 * suc k))) [
  | inl short ↦ rw short (record { total = refl; few = ltb→lt _ _ short })
  | inr long ↦
      let enough : 2 * suc k ≤ length w = ltb→le _ _ long in
      let shorter : length (drop (2 * suc k) w) ≤ fuel = omega (arith, length-drop (2 * suc k) w) in
      let more =
        word_loop-Added fuel k (add_words (suc k) sum w) (drop (2 * suc k) w) rest shorter in
      rw long
        (record { total = more.total ∙ add_words-value (suc k) sum w rest enough; few = more.few })
]
