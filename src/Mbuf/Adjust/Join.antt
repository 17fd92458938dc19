-- ===== src/Mbuf/Adjust/Join.antt =====
-- `m_cat` of Kernel/mbuf.c: the bytes of the joined packet, and the bounds of its buffers.
use shaunos.Base.{
  ◌+◌, ◌<◌, ◌≤◌, ◌≡◌, refl, arith, false, [], ◌∷◌, ◌++◌, leb, ◌||◌, if◌then◌else◌, length-append,
  append-nil, append_assoc, Bool-cases, inl, inr, sym, ◌∙◌, ap,
}
use shaunos.Base.Fault.{Result, ok, null_deref, out_of_bounds, assert_failed, out_of_fuel, ◌>>=◌}
use shaunos.Mbuf.{Mbuf, Chain, m_len, contents, m_size, cl_size, pkt_off}
use shaunos.Mbuf.Adjust.{m_cat, cat_last}

-- The data of an mbuf lie in its buffer: in its cluster, or else in `m_dat`, behind the packet header
-- where it has one.
abbrev pub InBuffer : Mbuf → Type 0
InBuffer m =
    (m.data_off + m_len m ≤ (if m.ext then cl_size else m_size))
    × ((if m.ext then 0 else if m.pkthdr then pkt_off else 0) ≤ m.data_off)

abbrev pub AllInBuffer : Chain → Type 0
AllInBuffer [] = Unit {0}
AllInBuffer (m ∷ c) = InBuffer m × AllInBuffer c

cat_last-lem :
    (m : Mbuf) (n : Chain)
    → (contents (cat_last m n) ≡ m.bytes ++ contents n)
      × (AllInBuffer (m ∷ n) → AllInBuffer (cat_last m n))
unfolding cat_last
cat_last-lem m [] = (refl, λ b. b)
cat_last-lem m (n ∷ c) = elim (Bool-cases (m.ext || leb m_size (m.data_off + m_len m + m_len n))) [
  | inl apart ↦ rw apart (refl, λ b. b)
  | inr merged ↦
      let m' : Mbuf = record m { bytes = m.bytes ++ n.bytes } in
      let (same, bounds) = cat_last-lem m' c in
      let whole = length-append m.bytes n.bytes in
      let plain : m.ext ≡ false = ground arith in
      let room : m.data_off + m_len m + m_len n < m_size = ground arith in
      rw merged (
        same ∙ append_assoc m.bytes n.bytes (contents c),
        λ b. bounds (ground (arith, whole), b.1.1),
      )
]

-- what `m_cat` gives: the bytes of both packets, in buffers that hold them
abbrev pub Joined : Chain → Chain → Result Chain → Type 0
Joined c n (ok d) =
    (contents d ≡ contents c ++ contents n) × (AllInBuffer c → AllInBuffer n → AllInBuffer d)
Joined c n _ = ⊥

AllInBuffer-step :
    (m : Mbuf) (c n : Chain) (r : Result Chain)
    → Joined c n r
    → Joined (m ∷ c) n (do rest ← r; ok (m ∷ rest))
AllInBuffer-step m c n (ok d) (same, bounds) = (
  ap (λ xs. m.bytes ++ xs) same ∙ sym (append_assoc m.bytes (contents c) (contents n)),
  λ bc bn. (bc.0, bounds bc.1 bn),
)
AllInBuffer-step m c n null_deref j = j
AllInBuffer-step m c n out_of_bounds j = j
AllInBuffer-step m c n assert_failed j = j
AllInBuffer-step m c n out_of_fuel j = j

-- `m_cat` of a packet and a second one gives a packet with the bytes of the first and then those of
-- the second, and if the data of every mbuf lie in its buffer before, they do after.
pub m_cat-Joined : (m : Mbuf) (c n : Chain) → Joined (m ∷ c) n (m_cat (m ∷ c) n)
unfolding m_cat
m_cat-Joined m [] n =
    let (same, bounds) = cat_last-lem m n in
    (same ∙ ap (λ xs. xs ++ contents n) (sym (append-nil m.bytes)), λ bc bn. bounds (bc.0, bn))
m_cat-Joined m (m' ∷ c) n = AllInBuffer-step m (m' ∷ c) n (m_cat (m' ∷ c) n) (m_cat-Joined m' c n)
