-- ===== src/Terminal/Tests.antt =====
-- Tests: the terminal on a short line.
use shaunos.Base.{ℕ, ◌+◌, ◌≡◌, refl, arith, true, false, some, none, List, [], ◌∷◌, ◌++◌}
use shaunos.Terminal.{
  read_loop, Cbuf, Termios, Tty, tty_getc, tty_putc, tty_erc, tty_input, tty_read, tty_output,
  tty_flush, tty_echo, drain, way_of,
}
use shaunos.Terminal.Queue.{held, IsValid}
use shaunos.Terminal.Line.{Ready, edit}
use shaunos.Terminal.Loops.{loops-settle}
use shaunos.Terminal.Session.{type_all, Entry, type_all-Entry, tty_read-type_all}

abbrev empty_queue : Cbuf
empty_queue = record { head = 0; tail = 0; cc = 0; buf = λ j. 0 }

abbrev two_held : Cbuf
two_held = record { head = 3; tail = 5; cc = 2; buf = λ j. 100 + j }

abbrev cooked : Termios
cooked = record {
  isig = true;
  icanon = true;
  echo = true;
  echonl = false;
  echoctl = true;
  noflsh = false;
  extproc = false;
  ixon = true;
  igncr = false;
  icrnl = true;
  inlcr = false;
  vintr = 3;
  vquit = 28;
  vsusp = 26;
  vstop = 19;
  vstart = 17;
  veof = 4;
  veol = 255;
  veol2 = 255;
}

abbrev at_rest : Tty
at_rest = record {
  canq = empty_queue;
  outq = empty_queue;
  cancc = 0;
  ttstop = false;
  cnttb = false;
  local_bits = false;
  flusho = false;
}

empty_queue-IsValid : IsValid empty_queue
empty_queue-IsValid = record { in_head = omega arith; room = omega arith; at_tail = refl }

two_held-IsValid : IsValid two_held
two_held-IsValid = record { in_head = omega arith; room = omega arith; at_tail = refl }

at_rest-Ready : Ready at_rest
at_rest-Ready = record {
  canq-IsValid = empty_queue-IsValid;
  outq-IsValid = empty_queue-IsValid;
  drained = refl;
}

-- `ab`, a backspace, `c`
abbrev corrected : List ℕ
corrected = b'a' ∷ b'b' ∷ b'\x08' ∷ b'c' ∷ []

type_all-Entry_example : Entry true [] corrected (type_all cooked at_rest corrected)
type_all-Entry_example =
    type_all-Entry cooked at_rest corrected at_rest-Ready refl refl (omega arith)

tty_read-type_all_example :
    (r : List ℕ × Cbuf) × (tty_read
        (λ p. p)
        false
        (type_all cooked at_rest (corrected ++ b'\n' ∷ [])).0.canq
        80
      ≡ some r)
    × (r.0 ≡ edit [] corrected ++ b'\n' ∷ [])
    × (held r.1 ≡ [])
tty_read-type_all_example =
    tty_read-type_all cooked at_rest corrected (λ p. p) false 80 at_rest-Ready refl refl refl refl
      refl (omega arith) (omega arith)

loops-settle_example :
    (drain 8 two_held ≡ drain 3 two_held) × (read_loop 8 two_held 5 0 ≡ read_loop 3 two_held 5 0)
loops-settle_example = loops-settle 8 two_held 5 (omega arith)

edit-corrected : edit [] corrected ≡ b'a' ∷ b'c' ∷ []
edit-corrected = refl

-- `tty_erc` with the tail at the first place writes another byte than the last
erc_wrapped : (tty_erc (record { head = 510; tail = 0; cc = 2; buf = λ j. 7 })).tail ≡ 254
unfolding tty_erc
erc_wrapped = refl

-- the interrupt character is echoed as `^C` and not put into the queue
interrupt : (tty_input cooked at_rest 3).written ≡ b'^' ∷ b'C' ∷ []
unfolding tty_input way_of tty_echo tty_output tty_putc drain tty_getc tty_flush
interrupt = refl

-- a read where nothing is typed does not block with `O_NONBLOCK`
nothing_typed : tty_read (λ p. p) true empty_queue 80 ≡ none
unfolding tty_read
nothing_typed = refl
