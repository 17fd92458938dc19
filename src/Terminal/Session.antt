-- ===== src/Terminal/Session.antt =====
-- `tty_input` and `tty_read` of Kernel/console.c together: a line is typed at a terminal with `ICANON`,
-- corrected with backspaces, and read by a program.
use shaunos.Base.{
  ℕ, zero, suc, ◌+◌, ◌<◌, ◌≤◌, ◌≡◌, ◌≢◌, refl, sym, ◌∙◌, ap, arith, Bool, true, false, some, List,
  [], ◌∷◌, ◌++◌, ltb, ◌==◌, ◌&&◌, not, length, length-append, drop, if◌then◌else◌, Bool-cases, inl,
  inr,
}
use shaunos.Terminal.{Cbuf, Termios, Tty, tty_input, tty_read}
use shaunos.Terminal.Queue.{held, length-held}
use shaunos.Terminal.Line.{drop_last, edit, is_ordinary, all_ordinary, Ready, tty_input-Entered}
use shaunos.Terminal.Reading.{all, first_part, tty_read-Taken}

-- the characters of a list are typed, one after the other
abbrev pub type_all : Termios → Tty → List ℕ → Tty × List ℕ
type_all t tp [] = (tp, [])
type_all t tp (c ∷ cs) =
    let r = tty_input t tp c in let rest = type_all t r.tty cs in (rest.0, r.written ++ rest.1)

-- What is left when `cs` has been typed.
pub record Entry (echo : Bool) (line cs : List ℕ) (r : Tty × List ℕ) : Type 0 where
  pub ready : Ready r.0
  pub edited : held r.0.canq ≡ edit line cs
  pub written : r.1 ≡ (if echo then cs else [])

both : (a b : Bool) → a && b ≡ true → (a ≡ true) × (b ≡ true)
both true b h = (refl, h)
both false b h = (cc, cc)

nothing-written : (echo : Bool) (cs : List ℕ) → cs ≡ [] → [] ≡ (if echo then cs else [])
nothing-written true cs e = sym e
nothing-written false cs e = refl

more-written :
    (echo : Bool) (c : ℕ) (cs : List ℕ)
    → (if echo then c ∷ [] else []) ++ (if echo then cs else []) ≡ (if echo then c ∷ cs else [])
more-written true c cs = refl
more-written false c cs = refl

-- ASCII characters, below 128, that no flag and no special character stops, typed at a terminal with `ICANON` whose queue
-- of output is empty and whose queue of input does not go round its 512 places, edit what the queue of
-- input holds, a backspace taking the last character back; they are written in the order they came if
-- `ECHO` is set and not at all otherwise, and the queue of output is empty again.
pub type_all-Entry :
    (t : Termios) (tp : Tty) (cs : List ℕ)
    → Ready tp
    → t.icanon ≡ true
    → all_ordinary t cs ≡ true
    → tp.canq.head + tp.canq.cc + length cs < 512
    → Entry t.echo (held tp.canq) cs (type_all t tp cs)
type_all-Entry t tp [] r canon o low = record {
  ready = r;
  edited = refl;
  written = nothing-written t.echo [] refl;
}
type_all-Entry t tp (c ∷ cs) r canon o low =
    let (first, others) = both (is_ordinary t c) (all_ordinary t cs) o in
    let one = tty_input-Entered t tp c r canon first (omega arith) in
    let rest =
      type_all-Entry t (tty_input t tp c).tty cs one.ready canon others (omega (arith, one.low)) in
    record {
      ready = rest.ready;
      edited = rest.edited ∙ ap (λ line. edit line cs) one.line;
      written = rw (one.written, rest.written) (more-written t.echo c cs);
    }

abbrev pub is_newline : ℕ → Bool
is_newline c = c == b'\n'

abbrev pub one_line : List ℕ → Bool
one_line = all (λ c. not (is_newline c))

module _ (p : ℕ → Bool) where
  all-append : (xs ys : List ℕ) → all p xs ≡ true → all p ys ≡ true → all p (xs ++ ys) ≡ true
  all-append [] ys h k = k
  all-append (x ∷ xs) ys h k =
      let (first, others) = both (p x) (all p xs) h in
      let rest = all-append xs ys others k in rw (first, rest) refl

  all-drop_last : (xs : List ℕ) → all p xs ≡ true → all p (drop_last xs) ≡ true
  all-drop_last [] h = refl
  all-drop_last (x ∷ []) h = refl
  all-drop_last (x ∷ y ∷ xs) h =
      let (first, others) = both (p x) (all p (y ∷ xs)) h in
      let rest = all-drop_last (y ∷ xs) others in rw (first, rest) refl

  all-edit : (line cs : List ℕ) → all p line ≡ true → all p cs ≡ true → all p (edit line cs) ≡ true
  all-edit line [] h k = h
  all-edit line (c ∷ cs) h k =
      let (first, others) = both (p c) (all p cs) k in
      elim (Bool-cases (c == b'\x08')) [
        | inl erase ↦ rw erase (all-edit (drop_last line) cs (all-drop_last line h) others)
        | inr put ↦
            rw put
              (all-edit (line ++ c ∷ []) cs (all-append line (c ∷ []) h (rw first refl)) others)
      ]

  all-weaken :
      (q : ℕ → Bool)
      → ((c : ℕ) → p c ≡ true → q c ≡ true)
      → (xs : List ℕ) → all p xs ≡ true
      → all q xs ≡ true
  all-weaken q w [] h = refl
  all-weaken q w (x ∷ xs) h =
      let (first, others) = both (p x) (all p xs) h in
      let here = w x first in let rest = all-weaken q w xs others in rw (here, rest) refl

length-drop_last : (xs : List ℕ) → length (drop_last xs) ≤ length xs
length-drop_last [] = omega arith
length-drop_last (x ∷ []) = omega arith
length-drop_last (x ∷ y ∷ xs) = omega (arith, length-drop_last (y ∷ xs))

length-edit : (line cs : List ℕ) → length (edit line cs) ≤ length line + length cs
length-edit line [] = omega arith
length-edit line (c ∷ cs) = elim (Bool-cases (c == b'\x08')) [
  | inl erase ↦ rw erase (omega (arith, length-edit (drop_last line) cs, length-drop_last line))
  | inr put ↦ rw put (omega (arith, length-edit (line ++ c ∷ []) cs, length-append line (c ∷ [])))
]

edit-append : (line cs ds : List ℕ) → edit line (cs ++ ds) ≡ edit (edit line cs) ds
edit-append line [] ds = refl
edit-append line (c ∷ cs) ds =
    edit-append (if c == b'\x08' then drop_last line else line ++ c ∷ []) cs ds

first_part-line :
    (n : ℕ) (xs : List ℕ)
    → one_line xs ≡ true
    → length xs < n
    → first_part n (xs ++ b'\n' ∷ []) ≡ xs ++ b'\n' ∷ []
first_part-line zero xs h l = absurd (omega arith)
first_part-line (suc n) [] h l = refl
first_part-line (suc n) (x ∷ xs) h l =
    let (first, others) = both (not (is_newline x)) (one_line xs) h in
    let going : x == b'\n' ≡ false = ground arith in
    let rest = first_part-line n xs others (omega arith) in rw (going, rest) refl

is_ordinary-ascii : (t : Termios) (c : ℕ) → is_ordinary t c ≡ true → ltb c 128 ≡ true
is_ordinary-ascii t c h = let (small, others) = both (ltb c 128) _ h in small

no_bytes : (xs : List ℕ) → length xs ≡ 0 → xs ≡ []
no_bytes [] e = refl
no_bytes (x ∷ xs) e = absurd (omega arith)

drop-length : (xs : List ℕ) → drop (length xs) xs ≡ []
drop-length [] = refl
drop-length (x ∷ xs) = drop-length xs

-- what is in the queue when the whole line has been typed
typed_line :
    (t : Termios) (tp : Tty) (line : List ℕ)
    → Ready tp
    → tp.canq.cc ≡ 0
    → t.icanon ≡ true
    → all_ordinary t line ≡ true
    → is_ordinary t b'\n' ≡ true
    → tp.canq.head + length line + 1 < 512
    → Entry t.echo [] (line ++ b'\n' ∷ []) (type_all t tp (line ++ b'\n' ∷ []))
typed_line t tp line r empty canon o newline low =
    let nothing : held tp.canq ≡ [] =
      no_bytes (held tp.canq) (length-held tp.canq.buf tp.canq.head tp.canq.cc ∙ empty) in
    let ordinary = all-append (is_ordinary t) line (b'\n' ∷ []) o (rw newline refl) in
    let room : tp.canq.head + tp.canq.cc + length (line ++ b'\n' ∷ []) < 512 =
      omega (arith, length-append line (b'\n' ∷ [])) in
    let entry = type_all-Entry t tp (line ++ b'\n' ∷ []) r canon ordinary room in
    rw nothing at entry

-- A line that is typed at a terminal with `ICANON`, whose queues are empty, and ended by a newline, is
-- given to the program that reads as it was edited, the newline included, and nothing is left in the
-- queue: a program that gives room for it gets the whole line, whether or not it may wait. The characters
-- are ASCII, below 128, and ones that no flag and no special character stops, and the line fits behind the head of the queue.
pub tty_read-type_all :
    (t : Termios) (tp : Tty) (line : List ℕ) (wait : Cbuf → Cbuf) (nonblock : Bool) (nbytes : ℕ)
    → Ready tp
    → tp.canq.cc ≡ 0
    → t.icanon ≡ true
    → all_ordinary t line ≡ true
    → one_line line ≡ true
    → is_ordinary t b'\n' ≡ true
    → tp.canq.head + length line + 1 < 512
    → length line < nbytes
    → (r : List ℕ × Cbuf) × (tty_read wait nonblock
          (type_all t tp (line ++ b'\n' ∷ [])).0.canq
          nbytes
        ≡ some r)
      × (r.0 ≡ edit [] line ++ b'\n' ∷ [])
      × (held r.1 ≡ [])
tty_read-type_all t tp line wait nonblock nbytes r empty canon o single newline low room =
    let after = typed_line t tp line r empty canon o newline low in
    let queue = (type_all t tp (line ++ b'\n' ∷ [])).0.canq in
    let whole = edit [] line ++ b'\n' ∷ [] in
    let edited : held queue ≡ whole = after.edited ∙ edit-append [] line (b'\n' ∷ []) in
    let ascii_line = all-weaken (is_ordinary t) (λ c. ltb c 128) (is_ordinary-ascii t) line o in
    let ascii_whole =
      all-append (λ c. ltb c 128) (edit [] line) (b'\n' ∷ [])
        (all-edit (λ c. ltb c 128) [] line refl ascii_line) refl in
    let some_held : queue.cc ≢ 0 = omega (
      arith,
      ap length edited,
      length-append (edit [] line) (b'\n' ∷ []),
      length-held queue.buf queue.head queue.cc,
    ) in
    let (taken, reads, what) =
      tty_read-Taken wait nonblock queue nbytes after.ready.canq-IsValid some_held
        (rw edited ascii_whole) (omega arith) in
    let part : first_part nbytes (held queue) ≡ whole =
      ap (first_part nbytes) edited
      ∙ first_part-line nbytes (edit [] line)
          (all-edit (λ c. not (is_newline c)) [] line refl single)
          (omega (arith, length-edit [] line)) in
    (taken, reads, what.read ∙ part, what.rest ∙ rw (part, edited) (drop-length whole))
