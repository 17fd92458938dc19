-- ===== src/Terminal/Reading.antt =====
-- `tty_read` of Kernel/console.c: what is taken from the queue.
use shaunos.Base.{
  ℕ, zero, suc, ◌+◌, ◌<◌, ◌≡◌, ◌≢◌, refl, ◌∙◌, ap, arith, Bool, true, false, some, List, [], ◌∷◌,
  ltb, ◌==◌, ◌&&◌, ◌||◌, length, drop, if◌then◌else◌, Bool-cases, inl, inr, ne→==, lt→ltb,
}
use shaunos.Base.Int.{pos}
use shaunos.Terminal.{Cbuf, tty_getc, read_loop, tty_read}
use shaunos.Terminal.Queue.{held, IsValid, length-held, tty_getc-empty, tty_getc-Got}

abbrev pub all : (ℕ → Bool) → List ℕ → Bool
all p [] = true
all p (c ∷ cs) = p c && all p cs

abbrev pub ascii : List ℕ → Bool
ascii = all (λ c. ltb c 128)

-- characters up to a newline, `n` at most
abbrev pub first_part : ℕ → List ℕ → List ℕ
first_part zero bs = []
first_part (suc n) [] = []
first_part (suc n) (b ∷ bs) = b ∷ (if b == b'\n' then [] else first_part n bs)

pub ascii-tail : (c : ℕ) (cs : List ℕ) → ascii (c ∷ cs) ≡ true → (c < 128) × (ascii cs ≡ true)
ascii-tail c cs h = (ground arith, ground arith)

-- What a read has taken from the queue: what is read, and the rest.
pub record Taken (out bs : List ℕ) (r : List ℕ × Cbuf) : Type 0 where
  pub read : r.0 ≡ out
  pub valid : IsValid r.1
  pub rest : held r.1 ≡ drop (length out) bs

read_loop-Taken :
    (rounds : ℕ) (p : Cbuf) (left cnt : ℕ) (bs : List ℕ)
    → IsValid p
    → held p ≡ bs
    → ascii bs ≡ true
    → length bs < rounds
    → Taken (first_part (suc left) bs) bs (read_loop rounds p (cnt + suc left) cnt)
unfolding read_loop
read_loop-Taken zero p left cnt bs v e a h = absurd (omega arith)
read_loop-Taken (suc rounds) p left cnt [] v e a h =
    let none_held : p.cc ≡ 0 = omega (arith, ap length e, length-held p.buf p.head p.cc) in
    rw (read_loop, tty_getc-empty p none_held, tty_getc-empty p none_held)
      (record { read = refl; valid = v; rest = e })
read_loop-Taken (suc rounds) p left cnt (b ∷ bs) v e a h =
    let (small, others) = ascii-tail b bs a in
    let got = tty_getc-Got p b bs v e in
    let byte : (tty_getc p).0 ≡ pos b = got.byte ∙ (let s = lt→ltb _ _ small in rw s refl) in
    elim (Bool-cases (b == b'\n')) [
      | inl end ↦
          let stop : cnt + 1 == cnt + suc left || b == b'\n' ≡ true = ground arith in
          rw (read_loop, byte, stop, end)
            (record { read = refl; valid = got.valid; rest = got.rest })
      | inr more ↦
          elim left
            as (λ m.
              Taken (first_part (suc m) (b ∷ bs)) (b ∷ bs)
                (read_loop (suc rounds) p (cnt + suc m) cnt)) [
                  | zero ↦
                      let stop : cnt + 1 == cnt + 1 || b == b'\n' ≡ true = ground arith in
                      rw (read_loop, byte, stop, more)
                        (record { read = refl; valid = got.valid; rest = got.rest })
                  | suc k ↦
                      let stop : cnt + 1 == cnt + suc (suc k) || b == b'\n' ≡ false =
                        ground arith in
                      let shift : cnt + suc (suc k) ≡ cnt + 1 + suc k = omega arith in
                      let rest =
                        read_loop-Taken rounds (tty_getc p).1 k (cnt + 1) bs got.valid got.rest
                          others (omega arith) in
                      rw (read_loop, byte, stop, more, shift)
                        (record {
                          read = ap (λ cs. b ∷ cs) rest.read;
                          valid = rest.valid;
                          rest = rest.rest;
                        })
                ]
    ]

-- A read of at least one byte from a queue of ASCII characters that is not empty takes the characters up
-- to the first newline, and `nbytes` at most, off its front; it does not wait.
pub tty_read-Taken :
    (wait : Cbuf → Cbuf) (nonblock : Bool) (p : Cbuf) (nbytes : ℕ)
    → IsValid p
    → p.cc ≢ 0
    → ascii (held p) ≡ true
    → nbytes ≢ 0
    → (r : List ℕ × Cbuf) × (tty_read wait nonblock p nbytes ≡ some r)
      × Taken (first_part nbytes (held p)) (held p) r
unfolding tty_read
tty_read-Taken wait nonblock p zero v some_held a nz = absurd (nz refl)
tty_read-Taken wait nonblock p (suc n) v some_held a nz =
    let ready : p.cc == 0 ≡ false = ne→== _ _ some_held in
    let from_zero : 0 + suc n ≡ suc n = omega arith in
    let taken =
      read_loop-Taken (suc p.cc) p n 0 (held p) v refl a
        (omega (arith, length-held p.buf p.head p.cc)) in
    (read_loop (suc p.cc) p (suc n) 0, rw ready refl, rw from_zero at taken)
