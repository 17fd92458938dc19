-- ===== src/Terminal/Line.antt =====
-- `tty_input` of Kernel/console.c: one character is typed and edits the line.
use shaunos.Base.{
  ℕ, zero, suc, ◌+◌, ◌-◌, ◌%◌, ◌<◌, ◌≤◌, ◌≡◌, ◌≢◌, refl, sym, ◌∙◌, ap, arith, Bool, true, false,
  List, [], ◌∷◌, ◌++◌, ltb, ◌==◌, ◌&&◌, ◌||◌, not, length, if◌then◌else◌, Bool-cases, inl, inr,
  ==→eq, ==→ne, lt→ltb, subst,
}
use shaunos.Base.Int.{pos}
use shaunos.Terminal.{
  Cbuf, tty_getc, tty_putc, tty_erc, Termios, Tty, cceq, drain, Way, go_on, signal_way, flow_way,
  newline_way, way_of, canonical, Typed, started, tty_input,
}
use shaunos.Terminal.Queue.{
  held, held_from, IsValid, tty_erc-empty, tty_erc-le, tty_putc-le, length-held, tty_putc-held,
  tty_getc-empty, tty_getc-Got, tty_erc-held,
}
use shaunos.Terminal.Reading.{all, ascii, ascii-tail}

-- the input that is edited: a backspace takes the last character back
abbrev pub drop_last : List ℕ → List ℕ
drop_last [] = []
drop_last (c ∷ []) = []
drop_last (c ∷ d ∷ cs) = c ∷ drop_last (d ∷ cs)

abbrev pub edit : List ℕ → List ℕ → List ℕ
edit line [] = line
edit line (c ∷ cs) = edit (if c == b'\x08' then drop_last line else line ++ c ∷ []) cs

-- whether the flags and the special characters let a character through
abbrev pub lets_through : Termios → ℕ → Bool
lets_through t c =
    not (t.isig && (cceq t.vintr c || cceq t.vquit c || cceq t.vsusp c))
    && not (t.ixon && (cceq t.vstop c || cceq t.vstart c))
    && not (c == b'\r')
    && not (c == b'\n' && t.inlcr)

abbrev pub is_ordinary : Termios → ℕ → Bool
is_ordinary t c = ltb c 128 && (t.extproc || lets_through t c)

abbrev pub all_ordinary : Termios → List ℕ → Bool
all_ordinary t = all (is_ordinary t)

signal-pass :
    (t : Termios) (tp : Tty) (c : ℕ) (w : Way)
    → t.isig && (cceq t.vintr c || cceq t.vquit c || cceq t.vsusp c) ≡ false
    → signal_way t tp c w ≡ w
signal-pass t tp c w h = ground arith

flow-pass :
    (t : Termios) (tp : Tty) (c : ℕ) (w : Way)
    → t.ixon && (cceq t.vstop c || cceq t.vstart c) ≡ false
    → flow_way t tp c w ≡ w
flow-pass t tp c w h = ground arith

newline-pass :
    (t : Termios) (tp : Tty) (c : ℕ)
    → c == b'\r' ≡ false
    → c == b'\n' && t.inlcr ≡ false
    → newline_way t tp c ≡ go_on c
newline-pass t tp c r n = rw (r, n) refl

-- the tests of `is_ordinary`, one by one
and-right : (a b : Bool) → a && b ≡ true → b ≡ true
and-right true b h = h
and-right false b h = cc

or-right : (a b : Bool) → a ≡ false → a || b ≡ true → b ≡ true
or-right true b e h = cc
or-right false b e h = h

and-not : (a b : Bool) → a && not b ≡ true → (a ≡ true) × (b ≡ false)
and-not true false h = (refl, refl)
and-not true true h = (cc, cc)
and-not false b h = (cc, cc)

not-true : (a : Bool) → not a ≡ true → a ≡ false
not-true false h = refl
not-true true h = cc

else-eq : {A : Type 0} (b : Bool) (x y w : A) → b ≡ false → y ≡ w → (if b then x else y) ≡ w
else-eq b x y w off e = rw off e

way_of-ordinary :
    (t : Termios) (tp : Tty) (c : ℕ) → is_ordinary t c ≡ true → way_of t tp c ≡ go_on c
unfolding way_of
way_of-ordinary t tp c h = elim (Bool-cases t.extproc) [
  | inl raw ↦ rw raw refl
  | inr cooked ↦
      let either = and-right (ltb c 128) (t.extproc || lets_through t c) h in
      let tests : lets_through t c ≡ true = or-right t.extproc (lets_through t c) cooked either in
      let (more, newline) = and-not _ _ tests in
      let (signals_flow, return) = and-not _ _ more in
      let (signals, flow) = and-not _ _ signals_flow in
      let flowing = newline_way t tp c in
      else-eq t.extproc (go_on c) (signal_way t tp c (flow_way t tp c flowing)) (go_on c) cooked (
        signal-pass t tp c (flow_way t tp c flowing) (not-true _ signals)
        ∙ flow-pass t tp c flowing flow
        ∙ newline-pass t tp c return newline)
]

drop_last-append : (xs : List ℕ) (x : ℕ) → drop_last (xs ++ x ∷ []) ≡ xs
drop_last-append [] x = refl
drop_last-append (y ∷ []) x = refl
drop_last-append (y ∷ z ∷ xs) x = ap (λ ys. y ∷ ys) (drop_last-append (z ∷ xs) x)

-- While the queue of input does not go round its 512 places, it is edited as a list.
record Edited (erase : Bool) (p p' : Cbuf) (c : ℕ) : Type 0 where
  pub valid : IsValid p'
  pub line : held p' ≡ (if erase then drop_last (held p) else held p ++ c ∷ [])
  pub low : p'.head + p'.cc ≤ p.head + p.cc + 1

erc-Edited : (p : Cbuf) (c : ℕ) → IsValid p → p.head + p.cc < 511 → Edited true p (tty_erc p) c
erc-Edited p c v low = elim (Bool-cases (p.cc == 0)) [
  | inl empty ↦
      let none_held : p.cc ≡ 0 = ==→eq _ _ empty in
      rw (tty_erc-empty p none_held) (record {
        valid = v;
        line =
            ap (λ n. held_from p.buf p.head n) none_held
            ∙ sym (ap (λ n. drop_last (held_from p.buf p.head n)) none_held);
        low = omega arith;
      })
  | inr some_held ↦
      let ne : p.cc ≢ 0 = ==→ne _ _ some_held in
      let (valid, line) = tty_erc-held p v (omega (arith, v.at_tail, ne)) ne in
      record {
        valid = valid;
        line = sym (ap drop_last line ∙ drop_last-append (held (tty_erc p)) (p.buf (p.tail - 1)));
        low = omega (arith, tty_erc-le p);
      }
]

putc-Edited :
    (p : Cbuf) (c : ℕ) → IsValid p → c < 128 → p.head + p.cc < 511 → Edited false p (tty_putc p c) c
putc-Edited p c v small low =
    let (valid, line) = tty_putc-held p c v in
    let not_full : p.cc == 511 ≡ false = ground (arith, low) in
    let byte : c % 256 ≡ c = omega arith in
    record { valid = valid; line = rw (not_full, byte) at line; low = tty_putc-le p c }

-- one character that is put into the queue of input, or takes one out of it
either-Edited :
    (p : Cbuf) (c : ℕ) (erase : Bool)
    → IsValid p
    → c < 128
    → p.head + p.cc < 511
    → Edited erase p (if erase then tty_erc p else tty_putc p c) c
either-Edited p c true v small low = erc-Edited p c v low
either-Edited p c false v small low = putc-Edited p c v small low

-- What is written when the queue of output is drained.
record Drained (out : List ℕ) (r : List ℕ × Cbuf) : Type 0 where
  pub written : r.0 ≡ out
  pub valid : IsValid r.1
  pub empty : r.1.cc ≡ 0

drain-Drained :
    (rounds : ℕ) (p : Cbuf) (bs : List ℕ)
    → IsValid p
    → held p ≡ bs
    → ascii bs ≡ true
    → length bs < rounds
    → Drained bs (drain rounds p)
unfolding drain
drain-Drained zero p bs v e a h = absurd (omega arith)
drain-Drained (suc rounds) p [] v e a h =
    let none_held : p.cc ≡ 0 = omega (arith, ap length e, length-held p.buf p.head p.cc) in
    rw (drain, tty_getc-empty p none_held, tty_getc-empty p none_held)
      (record { written = refl; valid = v; empty = none_held })
drain-Drained (suc rounds) p (b ∷ bs) v e a h =
    let (small, others) = ascii-tail b bs a in
    let got = tty_getc-Got p b bs v e in
    let byte : (tty_getc p).0 ≡ pos b = got.byte ∙ (let s = lt→ltb _ _ small in rw s refl) in
    let rest = drain-Drained rounds (tty_getc p).1 bs got.valid got.rest others (omega arith) in
    rw (drain, byte)
      (record { written = ap (λ cs. b ∷ cs) rest.written; valid = rest.valid; empty = rest.empty })

-- the queue of output while it is empty
pub record Ready (tp : Tty) : Type 0 where
  pub canq-IsValid : IsValid tp.canq
  pub outq-IsValid : IsValid tp.outq
  pub drained : tp.outq.cc ≡ 0

-- What a character leaves, before the queue of output is started.
record Kept (erase echo : Bool) (tp tp' : Tty) (c : ℕ) : Type 0 where
  pub input : tp'.canq ≡ (if erase then tty_erc tp.canq else tty_putc tp.canq c)
  pub outq-IsValid : IsValid tp'.outq
  pub output : held tp'.outq ≡ (if echo then c ∷ [] else [])

putc-one :
    (p : Cbuf) (c : ℕ)
    → IsValid p
    → p.cc ≡ 0
    → c < 128
    → IsValid (tty_putc p (c % 256)) × (held (tty_putc p (c % 256)) ≡ c ∷ [])
putc-one p c v none_held small =
    let byte : c % 256 ≡ c = omega arith in
    let (valid, line) = tty_putc-held p c v in
    let not_full : p.cc == 511 ≡ false = ground (arith, none_held) in
    let nothing : held p ≡ [] = ap (λ n. held_from p.buf p.head n) none_held in
    rw byte (valid, rw (not_full, nothing, byte) at line)

canonical-Kept :
    (t : Termios) (tp : Tty) (c : ℕ)
    → Ready tp
    → c < 128
    → Kept (c == b'\x08') t.echo tp (canonical t tp c).0 c
unfolding canonical
canonical-Kept t tp c r small =
    let nothing : held tp.outq ≡ [] = ap (λ n. held_from tp.outq.buf tp.outq.head n) r.drained in
    let (valid, line) = putc-one tp.outq c r.outq-IsValid r.drained small in
    elim (Bool-cases t.echo) [
      | inl shown ↦ elim (Bool-cases (c == b'\x08')) [
        | inl erase ↦
            rw (shown, erase) (record { input = refl; outq-IsValid = valid; output = line })
        | inr put ↦ rw (shown, put) (record { input = refl; outq-IsValid = valid; output = line })
      ]
      | inr silent ↦ elim (Bool-cases (c == b'\x08')) [
        | inl erase ↦
            rw (silent, erase)
              (record { input = refl; outq-IsValid = r.outq-IsValid; output = nothing })
        | inr put ↦
            rw (silent, put)
              (record { input = refl; outq-IsValid = r.outq-IsValid; output = nothing })
      ]
    ]

-- What a typed character leaves.
pub record Entered (erase echo : Bool) (tp : Tty) (c : ℕ) (r : Typed) : Type 0 where
  pub ready : Ready r.tty
  pub line : held r.tty.canq ≡ (if erase then drop_last (held tp.canq) else held tp.canq ++ c ∷ [])
  pub low : r.tty.canq.head + r.tty.canq.cc ≤ tp.canq.head + tp.canq.cc + 1
  pub written : r.written ≡ (if echo then c ∷ [] else [])

shown-ascii : (echo : Bool) (c : ℕ) → c < 128 → ascii (if echo then c ∷ [] else []) ≡ true
shown-ascii true c small = let s = lt→ltb _ _ small in rw s refl
shown-ascii false c small = refl

started-Entered :
    (erase echo : Bool) (tp tp' : Tty) (c : ℕ) (woken : Bool)
    → Ready tp
    → c < 128
    → tp.canq.head + tp.canq.cc < 511
    → Kept erase echo tp tp' c
    → Entered erase echo tp c (started (record tp' { ttstop = false }) woken)
started-Entered erase echo tp tp' c woken r small low k =
    let edited = either-Edited tp.canq c erase r.canq-IsValid small low in
    let out =
      drain-Drained (suc tp'.outq.cc) tp'.outq (if echo then c ∷ [] else []) k.outq-IsValid k.output
        (shown-ascii echo c small)
        (omega (arith, ap length k.output, length-held tp'.outq.buf tp'.outq.head tp'.outq.cc)) in
    record {
      ready = record {
        canq-IsValid = subst IsValid (sym k.input) edited.valid;
        outq-IsValid = out.valid;
        drained = out.empty;
      };
      line = ap held k.input ∙ edited.line;
      low = omega (arith, edited.low, ap (λ q. q.head + q.cc) k.input);
      written = out.written;
    }

tty_input-canonical :
    (t : Termios) (tp : Tty) (c : ℕ)
    → t.icanon ≡ true
    → way_of t tp c ≡ go_on c
    → tty_input t tp c
      ≡ started (record (canonical t tp c).0 { ttstop = false }) (canonical t tp c).1
unfolding tty_input
tty_input-canonical t tp c canon e = simp (tty_input, e, canon)

pub tty_input-Entered :
    (t : Termios) (tp : Tty) (c : ℕ)
    → Ready tp
    → t.icanon ≡ true
    → is_ordinary t c ≡ true
    → tp.canq.head + tp.canq.cc < 511
    → Entered (c == b'\x08') t.echo tp c (tty_input t tp c)
tty_input-Entered t tp c r canon ordinary low =
    let small : c < 128 = ground arith in
    let kept = canonical-Kept t tp c r small in
    rw (tty_input-canonical t tp c canon (way_of-ordinary t tp c ordinary)) (
      started-Entered (c == b'\x08') t.echo tp (canonical t tp c).0 c (canonical t tp c).1 r small
        low kept)
