-- ===== src/Mbuf/Extend/Prepend.antt =====
-- `m_prepend` of Kernel/mbuf.c: the bytes, the packet length and the bounds of what it returns.
use shaunos.Base.{
  ℕ, ◌-◌, ◌≤◌, ◌≡◌, refl, arith, true, false, some, List, [], ◌∷◌, ◌++◌, leb, length, take,
  if◌then◌else◌, length-append, append_assoc, Bool-cases, inl, inr, leb→le, length-take,
}
use shaunos.Base.Int.{add32}
use shaunos.Base.Fault.{ok}
use shaunos.Mbuf.{Mbuf, Chain, contents, m_leadingspace, mh_size}
use shaunos.Mbuf.Adjust.Join.{AllInBuffer}
use shaunos.Mbuf.Extend.{m_prepend, grow_header, front}

-- `m_pkthdr.len` of the first mbuf
abbrev pub header_len : Chain → ℕ
header_len [] = 0
header_len (m ∷ c) = m.pkt_len

-- What `m_prepend` promises of the packet that it returns.
pub record Prepended (fresh : List ℕ) (len : ℕ) (m : Mbuf) (c d : Chain) : Type 0 where
  pub same : contents d ≡ take len fresh ++ contents (m ∷ c)
  pub bounds : AllInBuffer (m ∷ c) → AllInBuffer d
  pub counted : m.pkthdr ≡ true → header_len d ≡ add32 m.pkt_len len

module _ (fresh : List ℕ) (len : ℕ) (m : Mbuf) (c : Chain) (long : len ≤ length fresh)
    (small : len ≤ mh_size) where
  abbrev in_place : Chain
  in_place =
      grow_header len (record m { data_off = m.data_off - len; bytes = take len fresh ++ m.bytes })
      ∷ c

  in_place-Prepended : len ≤ m_leadingspace m → Prepended fresh len m c in_place
  unfolding grow_header m_leadingspace
  in_place-Prepended h =
      let count = length-take len fresh in
      let whole = length-append (take len fresh) m.bytes in
      record {
        same = ground (arith, append_assoc (take len fresh) m.bytes (contents c));
        bounds = λ b. (ground (arith, count, whole, b.0), b.1);
        counted = ground arith;
      }

  abbrev new_front : Chain
  new_front =
      grow_header len (front fresh len m)
      ∷ (if m.pkthdr then record m { pkthdr = false } else m)
      ∷ c

  new_front-Prepended : Prepended fresh len m c new_front
  unfolding grow_header front
  new_front-Prepended =
      let count = length-take len fresh in
      record {
        same = ground arith;
        bounds = λ b. (ground (arith, count), (ground (arith, b.0), b.1));
        counted = ground arith;
      }

  -- Where memory is found, `m_prepend` by at most `MHLEN` bytes returns a packet with that many bytes
  -- of fresh memory before the old ones; a packet header counts them, and if the data of every mbuf
  -- lie in its buffer before, they do after.
  pub m_prepend-Prepended :
      (d : Chain) × (m_prepend true fresh (m ∷ c) len ≡ ok (some d)) × Prepended fresh len m c d
  unfolding m_prepend
  m_prepend-Prepended = elim (Bool-cases (leb len (m_leadingspace m))) [
    | inl lead ↦ (in_place, rw lead refl, in_place-Prepended (leb→le _ _ lead))
    | inr tight ↦ (new_front, rw tight refl, new_front-Prepended)
  ]
