-- ===== src/Terminal/Loops.antt =====
-- The loops of `tty_start` and `tty_read` of Kernel/console.c come to an end.
use shaunos.Base.{
  ℕ, zero, suc, ◌+◌, ◌<◌, ◌≡◌, refl, ap, arith, List, [], ◌∷◌, ltb, ◌==◌, ◌&&◌, ◌||◌, not,
  if◌then◌else◌, Bool-cases, inl, inr,
}
use shaunos.Base.Int.{ℤ, pos, negsuc}
use shaunos.Terminal.{Cbuf, tty_getc, drain, read_loop}

-- Whether `tty_getc` finds nothing, or leaves less.
data Step (p : Cbuf) : ℤ × Cbuf → Type 0 where
  nothing : (n : ℕ) (q : Cbuf) → Step p (negsuc n, q)
  less : (c : ℕ) (q : Cbuf) → q.cc < p.cc → Step p (pos c, q)

tty_getc-Step : (p : Cbuf) → Step p (tty_getc p)
unfolding tty_getc
tty_getc-Step p = elim (Bool-cases (not (p.head == p.tail) && ltb 0 p.cc)) [
  | inr empty ↦ rw empty (nothing 0 p)
  | inl ready ↦
      let some_held : 0 < p.cc = ground arith in
      elim (Bool-cases (ltb (p.buf p.head) 128)) [
        | inl low ↦ rw (ready, low) (less _ _ (omega arith))
        | inr high ↦ rw (ready, high) (nothing _ _)
      ]
]

-- one round, with what `tty_getc` gives
drain_round : ℕ → ℤ × Cbuf → List ℕ × Cbuf
drain_round n g = elim g.0 [
  | negsuc k ↦ ([], g.1)
  | pos c ↦ let rest = drain n g.1 in (c ∷ rest.0, rest.1)
]

drain_round-settles :
    (r s : ℕ) (p : Cbuf) (g : ℤ × Cbuf)
    → Step p g
    → ((q : Cbuf) → q.cc < p.cc → drain r q ≡ drain s q)
    → drain_round r g ≡ drain_round s g
unfolding drain_round
drain_round-settles r s p g (nothing n q) later = refl
drain_round-settles r s p g (less c q h) later =
    ap (λ (rest : List ℕ × Cbuf). (c ∷ rest.0, rest.1)) (later q h)

drain-settles : (r s : ℕ) (p : Cbuf) → p.cc < r → p.cc < s → drain r p ≡ drain s p
unfolding drain drain_round
drain-settles zero s p h k = absurd (omega arith)
drain-settles (suc r) zero p h k = absurd (omega arith)
drain-settles (suc r) (suc s) p h k =
    drain_round-settles r s p (tty_getc p) (tty_getc-Step p)
      (λ q less_held. drain-settles r s q (omega arith) (omega arith))

read_round : ℕ → ℕ → ℕ → ℤ × Cbuf → List ℕ × Cbuf
read_round n nbytes cnt g = elim g.0 [
  | negsuc k ↦ ([], g.1)
  | pos c ↦
      let rest = read_loop n g.1 nbytes (cnt + 1) in
      if cnt + 1 == nbytes || c == b'\n' then (c ∷ [], g.1) else (c ∷ rest.0, rest.1)
]

read_round-settles :
    (r s nbytes cnt : ℕ) (p : Cbuf) (g : ℤ × Cbuf)
    → Step p g
    → ((q : Cbuf) → q.cc < p.cc → read_loop r q nbytes (cnt + 1) ≡ read_loop s q nbytes (cnt + 1))
    → read_round r nbytes cnt g ≡ read_round s nbytes cnt g
unfolding read_round
read_round-settles r s nbytes cnt p g (nothing n q) later = refl
read_round-settles r s nbytes cnt p g (less c q h) later =
    ap
      (λ (rest : List ℕ × Cbuf).
        if cnt + 1 == nbytes || c == b'\n' then (c ∷ [], q) else (c ∷ rest.0, rest.1))
      (later q h)

read_loop-settles :
    (r s : ℕ) (p : Cbuf) (nbytes cnt : ℕ)
    → p.cc < r
    → p.cc < s
    → read_loop r p nbytes cnt ≡ read_loop s p nbytes cnt
unfolding read_loop read_round
read_loop-settles zero s p nbytes cnt h k = absurd (omega arith)
read_loop-settles (suc r) zero p nbytes cnt h k = absurd (omega arith)
read_loop-settles (suc r) (suc s) p nbytes cnt h k =
    read_round-settles r s nbytes cnt p (tty_getc p) (tty_getc-Step p)
      (λ q less_held. read_loop-settles r s q nbytes (cnt + 1) (omega arith) (omega arith))

-- The loops of `tty_start` and `tty_read` end by themselves, for every queue and every byte in it: as
-- many rounds as the queue counts, and one, are enough, and with more of them what is written or read
-- and the queue that is left are the same.
pub loops-settle :
    (rounds : ℕ) (p : Cbuf) (nbytes : ℕ)
    → p.cc < rounds
    → (drain rounds p ≡ drain (suc p.cc) p)
      × (read_loop rounds p nbytes 0 ≡ read_loop (suc p.cc) p nbytes 0)
loops-settle rounds p nbytes enough = (
  drain-settles rounds (suc p.cc) p enough (omega arith),
  read_loop-settles rounds (suc p.cc) p nbytes 0 enough (omega arith),
)
