-- ===== src/Text/Tests.antt =====
-- lib/string.c, the routines on strings: the theorems at the strings "ab" and "ac".
use shaunos.Base.{ℕ, zero, suc, ◌+◌, ◌<◌, ◌≤◌, ◌≡◌, ◌≢◌, refl, arith, ◌==◌, if◌then◌else◌}
use shaunos.Bytes.{Memory}
use shaunos.Text.{IsString}

-- "ab" at 100 and "ac" at 200
abbrev words : Memory
words x =
    if x == 100
    then 97
    else if x == 101
    then 98
    else if x == 200
    then 97
    else if x == 201
    then 99
    else 0

words-bytes : (x : ℕ) → words x < 256
words-bytes x = ground arith

ab-body : (i : ℕ) → i < 2 → words (100 + i) ≢ 0
ab-body zero lt = λ e. omega (arith, e)
ab-body (suc zero) lt = λ e. omega (arith, e)
ab-body (suc (suc i)) lt = absurd (omega arith)

ab-IsString : IsString words 100 2
ab-IsString = record { body = ab-body; ends = refl }

no_a : (i : ℕ) → 0 < i → i ≤ 2 → words (100 + i) ≢ 97
no_a zero low le = absurd (omega arith)
no_a (suc zero) low le = λ e. omega (arith, e)
no_a (suc (suc zero)) low le = λ e. omega (arith, e)
no_a (suc (suc (suc i))) low le = absurd (omega arith)

both_a : (i : ℕ) → i < 1 → (words (100 + i) ≢ 0) × (words (100 + i) ≡ words (200 + i))
both_a zero lt = ((λ e. omega (arith, e)), refl)
both_a (suc i) lt = absurd (omega arith)
