-- ===== src/Mbuf/Extend/Pullup.antt =====
-- `m_pullup` of Kernel/mbuf.c: when it keeps the packet, and when it loses a part of it.
use shaunos.Base.{
  ℕ, ◌+◌, ◌-◌, ◌<◌, min, ◌≡◌, refl, arith, Bool, true, false, none, some, [], ◌∷◌, ◌++◌, ◌==◌, take,
  drop, length-append, append_assoc, append-nil, lt→leb, lt→ltb, ne→==, eq→==, sym, ◌∙◌, ap,
  length-take, take_all, take-append-drop,
}
use shaunos.Base.Fault.{ok}
use shaunos.Mbuf.{Mbuf, Chain, m_len, contents, m_size}
use shaunos.Mbuf.Extend.{m_pullup, pullup_loop, pullup_round}

module _ (len : ℕ) (m n : Mbuf) (c : Chain) where
  -- the second mbuf has more than what is missing
  pullup_loop-keeps :
      len < m_len n
      → (m' : Mbuf) × (d : Chain) × (pullup_loop len m (n ∷ c) ≡ ok (some (m' ∷ d)))
        × (contents (m' ∷ d) ≡ m.bytes ++ contents (n ∷ c))
        × (m_len m' ≡ m_len m + len)
  unfolding pullup_loop pullup_round
  pullup_loop-keeps h =
      let all : min len (m_len n) ≡ len = omega arith in
      let some_left : (m_len n - len == 0) ≡ false = ne→== _ _ (omega arith) in
      let done : (len - len == 0) ≡ true = eq→== _ _ (omega arith) in
      (
        record m { bytes = m.bytes ++ take len n.bytes },
        record n { bytes = drop len n.bytes; data_off = n.data_off + len } ∷ c,
        rw (all, some_left, done) refl,
        append_assoc m.bytes (take len n.bytes) (drop len n.bytes ++ contents c)
            ∙ ap (λ xs. m.bytes ++ xs)
                (sym (append_assoc (take len n.bytes) (drop len n.bytes) (contents c))
                  ∙ ap (λ xs. xs ++ contents c) (take-append-drop len n.bytes)),
        omega (arith, length-append m.bytes (take len n.bytes), length-take len n.bytes),
      )

  -- it has exactly what is missing: the mbufs behind it are freed with it
  pullup_loop-loses :
      len ≡ m_len n
      → pullup_loop len m (n ∷ c) ≡ ok (some (record m { bytes = m.bytes ++ n.bytes } ∷ []))
  unfolding pullup_loop pullup_round
  pullup_loop-loses e =
      let all : min len (m_len n) ≡ m_len n = omega arith in
      let none_left : (m_len n - m_len n == 0) ≡ true = eq→== _ _ (omega arith) in
      let done : (len - m_len n == 0) ≡ true = eq→== _ _ (omega arith) in
      rw (all, none_left, done, take_all (m_len n) n.bytes (omega arith)) refl

  -- it has less: the whole packet is given up, however long it is
  pullup_loop-none : m_len n < len → pullup_loop len m (n ∷ c) ≡ ok none
  unfolding pullup_loop pullup_round
  pullup_loop-none h =
      let all : min len (m_len n) ≡ m_len n = omega arith in
      let none_left : (m_len n - m_len n == 0) ≡ true = eq→== _ _ (omega arith) in
      let more : (len - m_len n == 0) ≡ false = ne→== _ _ (omega arith) in
      rw (all, none_left, more) refl

-- A first mbuf without a cluster that has room for `len` bytes and fewer than that.
pub record Gathers (len : ℕ) (m : Mbuf) : Type 0 where
  pub plain : m.ext ≡ false
  pub room : m.data_off + len < m_size
  pub short : m_len m < len

into_loop :
    (room : ℕ → Bool) (len : ℕ) (m n : Mbuf) (c : Chain)
    → Gathers len m
    → m_pullup room (m ∷ n ∷ c) len ≡ pullup_loop (len - m_len m) m (n ∷ c)
unfolding m_pullup
into_loop room len m n c g = rw (g.plain, lt→ltb _ _ g.room, lt→leb _ _ g.short) refl

module _ (room : ℕ → Bool) (len : ℕ) (m n : Mbuf) (c : Chain) (g : Gathers len m) where
  -- Where the first mbuf has no cluster, has room for `len` bytes and lacks some, and the second mbuf
  -- has more than those, `m_pullup` returns a packet with the same bytes, whose first mbuf has `len`.
  pub m_pullup-keeps :
      len < m_len m + m_len n
      → (m' : Mbuf) × (d : Chain) × (m_pullup room (m ∷ n ∷ c) len ≡ ok (some (m' ∷ d)))
        × (contents (m' ∷ d) ≡ contents (m ∷ n ∷ c))
        × (m_len m' ≡ len)
  m_pullup-keeps h =
      let (m', d, run, same, count) = pullup_loop-keeps (len - m_len m) m n c (omega arith) in
      (m', d, into_loop room len m n c g ∙ run, same, omega (arith, count, g.short))

  -- Where the first mbuf has no cluster, has room for `len` bytes and lacks some, and the second mbuf
  -- has exactly those, `m_pullup` returns the bytes of the two: all mbufs behind them are lost.
  pub m_pullup-loses :
      len ≡ m_len m + m_len n
      → (m' : Mbuf) × (m_pullup room (m ∷ n ∷ c) len ≡ ok (some (m' ∷ [])))
        × (contents (m' ∷ []) ≡ m.bytes ++ n.bytes)
  m_pullup-loses e = (
    record m { bytes = m.bytes ++ n.bytes },
    into_loop room len m n c g ∙ pullup_loop-loses (len - m_len m) m n c (omega arith),
    append-nil (m.bytes ++ n.bytes),
  )

  -- Where the missing bytes reach into a third mbuf, `m_pullup` gives the packet up.
  pub m_pullup-none : m_len m + m_len n < len → m_pullup room (m ∷ n ∷ c) len ≡ ok none
  m_pullup-none h =
      into_loop room len m n c g ∙ pullup_loop-none (len - m_len m) m n c (omega arith)
