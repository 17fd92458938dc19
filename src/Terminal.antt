-- ===== src/Terminal.antt =====
-- Kernel/console.c, the terminal: its queues of characters and what becomes of a character that is typed.
-- `c_cbuf` is a function from the 512 places to bytes. What `dev->ops->write` is given is a list of
-- characters. `t_rawq` and the counters `t_raqcc` and `t_outcc`, which nothing uses, are left out.
pub mod Queue
pub mod Line
pub mod Loops
pub mod Reading
pub mod Session
mod Tests
use shaunos.Base.{
  ℕ, zero, suc, ◌+◌, ◌-◌, ◌%◌, Bool, true, false, Option, none, some, List, [], ◌∷◌, ◌++◌, ltb, leb,
  ◌==◌, ◌&&◌, ◌||◌, not, if◌then◌else◌,
}
use shaunos.Base.Int.{ℤ, pos, negsuc, add32, sub32}

-- `struct cbuf`
pub record Cbuf : Type 0 where
  pub head : ℕ
  pub tail : ℕ
  pub cc : ℕ
  pub buf : ℕ → ℕ

-- `NEXT`
abbrev pub next : ℕ → ℕ
next x = (x + 1) % 512

abbrev pub put_at : ℕ → ℕ → (ℕ → ℕ) → ℕ → ℕ
put_at i b buf j = if j == i then b else buf j

-- an `s8` as an `int`
abbrev pub signed8 : ℕ → ℤ
signed8 b = if ltb b 128 then pos b else negsuc (255 - b)

unfoldable pub tty_getc : Cbuf → ℤ × Cbuf
tty_getc p =
    if not (p.head == p.tail) && ltb 0 p.cc
    then (signed8 (p.buf p.head), record p { head = next p.head; cc = p.cc - 1 })
    else (negsuc 0, p)

unfoldable pub tty_putc : Cbuf → ℕ → Cbuf
tty_putc p c =
    if not (next p.tail == p.head)
    then record p { buf = put_at p.tail (c % 256) p.buf; tail = next p.tail; cc = p.cc + 1 }
    else p

unfoldable pub tty_erc : Cbuf → Cbuf
tty_erc p =
    let tail = if p.tail == 0 then 255 else p.tail in
    if ltb 0 p.cc then record p { buf = put_at tail 0 p.buf; tail = tail - 1; cc = p.cc - 1 } else p

-- the flags of `t_lflag` and `t_iflag` that are read, and the special characters of `t_cc`
pub record Termios : Type 0 where
  pub isig : Bool
  pub icanon : Bool
  pub echo : Bool
  pub echonl : Bool
  pub echoctl : Bool
  pub noflsh : Bool
  pub extproc : Bool
  pub ixon : Bool
  pub igncr : Bool
  pub icrnl : Bool
  pub inlcr : Bool
  pub vintr : ℕ
  pub vquit : ℕ
  pub vsusp : ℕ
  pub vstop : ℕ
  pub vstart : ℕ
  pub veof : ℕ
  pub veol : ℕ
  pub veol2 : ℕ

-- `struct tty`: the bits `TS_TTSTOP`, `TS_CNTTB` and the rest of `TS_LOCAL` of `t_state`, and the flag
-- `FLUSHO` of `t_lflag`
pub record Tty : Type 0 where
  pub canq : Cbuf
  pub outq : Cbuf
  pub cancc : ℕ
  pub ttstop : Bool
  pub cnttb : Bool
  pub local_bits : Bool
  pub flusho : Bool

-- `CCEQ`
abbrev pub cceq : ℕ → ℕ → Bool
cceq val c = c == val && not (val == 255)

-- `TTBREAKC`
abbrev pub is_break : Termios → ℕ → Bool
is_break t c = c == b'\n' || (c == t.veof || c == t.veol || c == t.veol2) && not (c == 255)

-- `CLR(c, ~TTY_CHARMASK)` and `tty_putc`
unfoldable pub tty_output : Tty → ℕ → Tty
tty_output tp c = record tp { outq = tty_putc tp.outq (c % 256) }

-- whether `tty_echo` returns before it writes
abbrev pub is_silent : Termios → ℕ → Bool
is_silent t c = not t.echo && (not t.echonl || c == b'\n') || t.extproc

-- whether it writes `^` before the character
abbrev pub is_control : Termios → ℕ → Bool
is_control t c =
    t.echoctl && (ltb (c % 256) 32 && not (c == b'\t') && not (c == b'\n') || c % 256 == 127)

unfoldable pub tty_echo : Termios → Tty → ℕ → Tty
unfolding tty_output
tty_echo t tp c =
    let tp1 = if tp.cnttb then tp else record tp { flusho = false } in
    let shown = if c % 256 == 127 then b'?' else c % 256 + 64 in
    if is_silent t c
    then tp1
    else if is_control t c
    then tty_output (tty_output tp1 b'^') shown
    else tty_output tp1 c

unfoldable pub tty_flush : Bool → Bool → Tty → Tty
tty_flush read write tp =
    let tp1 = if read then record tp { cnttb = false; local_bits = false } else tp in
    if write then record tp1 { ttstop = false } else tp1

-- `tty_start`: what is written, and the queue that is left; as many rounds as the queue holds, and one
unfoldable pub drain : ℕ → Cbuf → List ℕ × Cbuf
unfolding tty_getc
drain zero p = ([], p)
drain (suc rounds) p =
    let got = tty_getc p in
    elim got.0 [
      | negsuc n ↦ ([], got.1)
      | pos c ↦ let rest = drain rounds got.1 in (c ∷ rest.0, rest.1)
    ]

abbrev pub start : Tty → Tty × List ℕ
start tp = let (out, outq) = drain (suc tp.outq.cc) tp.outq in (record tp { outq = outq }, out)

-- Where the tests on the flags send a character: `return 0`, the labels `end` and `restart`, or on.
pub data Way : Type 0 where
  leave : Tty → Way
  to_end : Tty → Way
  to_restart : Tty → Way
  go_on : ℕ → Way

-- the signals
abbrev pub signal_way : Termios → Tty → ℕ → Way → Way
signal_way t tp c other =
    if t.isig && (cceq t.vintr c || cceq t.vquit c)
    then to_end (tty_echo t (if t.noflsh then tp else tty_flush true true tp) c)
    else if t.isig && cceq t.vsusp c
    then to_end (tty_echo t (if t.noflsh then tp else tty_flush true false tp) c)
    else other

-- the stopping and starting of output
abbrev pub flow_way : Termios → Tty → ℕ → Way → Way
flow_way t tp c other =
    if t.ixon && cceq t.vstop c
    then (if cceq t.vstart c
        then to_restart (record tp { ttstop = true })
        else leave (record tp { ttstop = true }))
    else if t.ixon && cceq t.vstart c
    then to_restart tp
    else other

-- carriage return and newline
abbrev pub newline_way : Termios → Tty → ℕ → Way
newline_way t tp c =
    if c == b'\r'
    then (if t.igncr then to_end tp else go_on (if t.icrnl then b'\n' else c))
    else go_on (if c == b'\n' && t.inlcr then b'\r' else c)

unfoldable pub way_of : Termios → Tty → ℕ → Way
way_of t tp c =
    if t.extproc then go_on c else signal_way t tp c (flow_way t tp c (newline_way t tp c))

-- the part for `ICANON`, and whether a reader is woken
unfoldable pub canonical : Termios → Tty → ℕ → Tty × Bool
unfolding tty_output
canonical t tp c =
    let erased = record tp { canq = tty_erc tp.canq; cancc = sub32 (add32 tp.cancc 1) 1 } in
    let kept = record tp { canq = tty_putc tp.canq c; cancc = add32 tp.cancc 1 } in
    let tp1 = if c == b'\x08' then erased else kept in
    (if t.echo then tty_output tp1 c else tp1, not (c == b'\x08') && is_break t c)

-- What `tty_input` leaves, writes and wakes.
pub record Typed : Type 0 where
  pub tty : Tty
  pub written : List ℕ
  pub woken : Bool

abbrev pub started : Tty → Bool → Typed
started tp woken =
    let (tty, written) = start tp in record { tty = tty; written = written; woken = woken }

unfoldable pub tty_input : Termios → Tty → ℕ → Typed
tty_input t tp c = elim (way_of t tp c) [
  | leave tp1 ↦ record { tty = tp1; written = []; woken = false }
  | to_end tp1 ↦ started tp1 false
  | to_restart tp1 ↦ started (record tp1 { ttstop = false }) false
  | go_on c1 ↦
      let (tp1, woken) = if t.icanon then canonical t tp c1 else (tp, false) in
      started (record tp1 { ttstop = false }) woken
]

-- the loop of `tty_read`, with `cnt`
unfoldable pub read_loop : ℕ → Cbuf → ℕ → ℕ → List ℕ × Cbuf
unfolding tty_getc
read_loop zero p nbytes cnt = ([], p)
read_loop (suc rounds) p nbytes cnt =
    let got = tty_getc p in
    elim got.0 [
      | negsuc n ↦ ([], got.1)
      | pos c ↦
          let rest = read_loop rounds got.1 nbytes (cnt + 1) in
          if cnt + 1 == nbytes || c == b'\n' then (c ∷ [], got.1) else (c ∷ rest.0, rest.1)
    ]

-- `tty_read`: nothing when it would block, or what is read and the queue that is left. `wait` is what
-- the queue becomes while the reader sleeps.
unfoldable pub tty_read : (Cbuf → Cbuf) → Bool → Cbuf → ℕ → Option (List ℕ × Cbuf)
tty_read wait nonblock canq nbytes =
    let p = if canq.cc == 0 then wait canq else canq in
    if canq.cc == 0 && nonblock then none else some (read_loop (suc p.cc) p nbytes 0)
