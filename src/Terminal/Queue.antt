-- ===== src/Terminal/Queue.antt =====
-- `tty_getc`, `tty_putc` and `tty_erc` of Kernel/console.c: a bounded queue of 511 bytes.
use shaunos.Base.{
  ℕ, zero, suc, ◌+◌, ◌-◌, ◌%◌, ◌<◌, ◌≤◌, ◌≡◌, ◌≢◌, refl, sym, ◌∙◌, ap, arith, true, false, List, [],
  ◌∷◌, ◌++◌, ltb, ◌==◌, ◌&&◌, not, length, if◌then◌else◌, Bool-cases, inl, inr, ne→==,
}
use shaunos.Base.Int.{ℤ, negsuc}
use shaunos.Terminal.{Cbuf, next, put_at, signed8, tty_getc, tty_putc, tty_erc}

-- the `n` bytes from place `h` on
abbrev pub held_from : (ℕ → ℕ) → ℕ → ℕ → List ℕ
held_from buf h zero = []
held_from buf h (suc n) = buf h ∷ held_from buf (next h) n

-- what a queue holds, oldest first
abbrev pub held : Cbuf → List ℕ
held p = held_from p.buf p.head p.cc

pub record IsValid (p : Cbuf) : Type 0 where
  pub in_head : p.head < 512
  pub room : p.cc < 512
  pub at_tail : p.tail ≡ (p.head + p.cc) % 512

pub length-held : (buf : ℕ → ℕ) (h n : ℕ) → length (held_from buf h n) ≡ n
length-held buf h zero = refl
length-held buf h (suc n) = ap suc (length-held buf (next h) n)

put_at-here : (i b : ℕ) (buf : ℕ → ℕ) → put_at i b buf i ≡ b
put_at-here i b buf = let same : i == i ≡ true = ground arith in rw same refl

put_at-other : (i b : ℕ) (buf : ℕ → ℕ) (j : ℕ) → j ≢ i → put_at i b buf j ≡ buf j
put_at-other i b buf j ne = rw (ne→== j i ne) refl

-- a byte written `k` places behind the ones that are held
held-put_at :
    (i b : ℕ) (buf : ℕ → ℕ) (h n k : ℕ)
    → h < 512
    → n + k < 512
    → i ≡ (h + (n + k)) % 512
    → held_from (put_at i b buf) h n ≡ held_from buf h n
held-put_at i b buf h zero k hh hn e = refl
held-put_at i b buf h (suc n) k hh hn e =
    let ne : h ≢ i = omega (arith, e) in
    let rest = held-put_at i b buf (next h) n k (omega arith) (omega arith) (omega (arith, e)) in
    rw (put_at-other i b buf h ne, rest) refl

-- one more byte at the end
held-suc :
    (buf : ℕ → ℕ) (h n : ℕ)
    → h < 512
    → held_from buf h (suc n) ≡ held_from buf h n ++ buf ((h + n) % 512) ∷ []
held-suc buf h zero hh = let e : (h + 0) % 512 ≡ h = omega arith in rw e refl
held-suc buf h (suc n) hh =
    let e : (h + suc n) % 512 ≡ (next h + n) % 512 = omega arith in
    rw (e, held-suc buf (next h) n (omega arith)) refl

-- `tty_putc` puts the low byte of the character behind those that are held, unless there are 511.
pub tty_putc-held :
    (p : Cbuf) (c : ℕ)
    → IsValid p
    → IsValid (tty_putc p c)
      × (held (tty_putc p c) ≡ (if p.cc == 511 then held p else held p ++ c % 256 ∷ []))
unfolding tty_putc
tty_putc-held p c v = elim (Bool-cases (p.cc == 511)) [
  | inl full ↦
      let stop : next p.tail == p.head ≡ true = ground (arith, v.at_tail, v.in_head, v.room) in
      rw (stop, full) (v, refl)
  | inr some_room ↦
      let going : next p.tail == p.head ≡ false = ground (arith, v.at_tail, v.in_head, v.room) in
      let few : suc p.cc < 512 = ground (arith, v.room) in
      let more : p.cc + 1 ≡ suc p.cc = omega arith in
      rw (going, some_room, more)
        (
          record { in_head = v.in_head; room = few; at_tail = omega (arith, v.at_tail) },
          held-suc (put_at p.tail (c % 256) p.buf) p.head p.cc v.in_head
              ∙ rw
                  (
                    held-put_at p.tail (c % 256) p.buf p.head p.cc 0 v.in_head
                        (omega (arith, v.room)) (omega (arith, v.at_tail)),
                    ← v.at_tail,
                    put_at-here p.tail (c % 256) p.buf,
                  )
                  refl,
        )
]

uncons : {x y : ℕ} {xs ys : List ℕ} → x ∷ xs ≡ y ∷ ys → (x ≡ y) × (xs ≡ ys)
uncons e = (cc, cc)

-- a queue that is not empty
getc-ready : (p : Cbuf) → IsValid p → p.cc ≢ 0 → not (p.head == p.tail) && ltb 0 p.cc ≡ true
getc-ready p v ne = ground (arith, v.at_tail, v.in_head, v.room)

pub tty_getc-empty : (p : Cbuf) → p.cc ≡ 0 → tty_getc p ≡ (negsuc 0, p)
unfolding tty_getc
tty_getc-empty p e = ground (arith, e)

-- What `tty_getc` leaves where it finds the byte `b` before `bs`.
pub record Got (b : ℕ) (bs : List ℕ) (r : ℤ × Cbuf) : Type 0 where
  pub byte : r.0 ≡ signed8 b
  pub valid : IsValid r.1
  pub rest : held r.1 ≡ bs

-- `tty_getc` takes the byte that was put in first, as a signed one.
pub tty_getc-Got :
    (p : Cbuf) (b : ℕ) (bs : List ℕ) → IsValid p → held p ≡ b ∷ bs → Got b bs (tty_getc p)
unfolding tty_getc
tty_getc-Got p b bs v e =
    let some_held : p.cc ≢ 0 = omega (arith, ap length e, length-held p.buf p.head p.cc) in
    let one_more : p.cc ≡ suc (p.cc - 1) = omega arith in
    let (first, others) = uncons (ap (held_from p.buf p.head) (sym one_more) ∙ e) in
    rw (getc-ready p v some_held) (record {
      byte = ap signed8 first;
      valid = record {
        in_head = omega arith;
        room = omega (arith, v.room);
        at_tail = omega (arith, v.at_tail, some_held);
      };
      rest = others;
    })

-- `tty_erc` takes the byte that was put in last away, where the tail is not at the first place.
pub tty_erc-held :
    (p : Cbuf)
    → IsValid p
    → p.tail ≢ 0
    → p.cc ≢ 0
    → IsValid (tty_erc p) × (held p ≡ held (tty_erc p) ++ p.buf (p.tail - 1) ∷ [])
unfolding tty_erc
tty_erc-held p v nz ne =
    let nonempty : ltb 0 p.cc ≡ true = ground arith in
    let not_first : p.tail == 0 ≡ false = ne→== _ _ nz in
    let one_more : p.cc ≡ suc (p.cc - 1) = omega arith in
    let before : (p.head + (p.cc - 1)) % 512 ≡ p.tail - 1 = omega (arith, v.at_tail, nz, ne) in
    let valid : p.tail - 1 ≡ (p.head + (p.cc - 1)) % 512 = sym before in
    let kept =
      held-put_at p.tail 0 p.buf p.head (p.cc - 1) 1 v.in_head (omega (arith, v.room, ne))
        (omega (arith, v.at_tail, ne)) in
    rw (nonempty, not_first)
      (
        record { in_head = v.in_head; room = omega (arith, v.room); at_tail = valid },
        ap (held_from p.buf p.head) one_more
            ∙ held-suc p.buf p.head (p.cc - 1) v.in_head
            ∙ rw (kept, before) refl,
      )

pub tty_erc-empty : (p : Cbuf) → p.cc ≡ 0 → tty_erc p ≡ p
unfolding tty_erc
tty_erc-empty p e = ground (arith, e)

pub tty_erc-le : (p : Cbuf) → (tty_erc p).head + (tty_erc p).cc ≤ p.head + p.cc
unfolding tty_erc
tty_erc-le p = elim (Bool-cases (ltb 0 p.cc)) [
  | inl h ↦ rw h (omega arith)
  | inr h ↦ rw h (omega arith)
]

pub tty_putc-le : (p : Cbuf) (c : ℕ) → (tty_putc p c).head + (tty_putc p c).cc ≤ p.head + p.cc + 1
unfolding tty_putc
tty_putc-le p c = elim (Bool-cases (next p.tail == p.head)) [
  | inl h ↦ rw h (omega arith)
  | inr h ↦ rw h (omega arith)
]
