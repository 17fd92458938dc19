-- ===== src/Mbuf/Extend.antt =====
-- Kernel/mbuf.c: `m_prepend`, which makes room in front of a packet, and `m_pullup`, which gathers its
-- first bytes in one mbuf.
pub mod Prepend
pub mod Pullup
use shaunos.Base.{
  ℕ, zero, suc, ◌+◌, ◌-◌, ◌*◌, ◌/◌, min, Bool, true, false, Option, none, some, List, [], ◌∷◌, ◌++◌,
  ltb, leb, ◌==◌, ◌&&◌, ◌||◌, not, length, take, drop, if◌then◌else◌,
}
use shaunos.Base.Int.{add32}
use shaunos.Base.Fault.{Result, ok, null_deref, ◌>>=◌}
use shaunos.Mbuf.{
  Mbuf, Chain, m_len, contents, m_get, m_clget, m_leadingspace, move_pkthdr, m_size, mh_size,
  cl_size, max_cl_size,
}

-- `if (m->m_flags & M_PKTHDR) m->m_pkthdr.len += len`
unfoldable pub grow_header : ℕ → Mbuf → Mbuf
grow_header len m = if m.pkthdr then record m { pkt_len = add32 m.pkt_len len } else m

-- The new first mbuf `mn` of `m_prepend`. `MH_ALIGN` rounds the distance down to a multiple of four.
unfoldable pub front : List ℕ → ℕ → Mbuf → Mbuf
front fresh len m =
    let mn = if m.pkthdr then move_pkthdr (m_get m.typ) m else m_get m.typ in
    record mn { data_off = mn.data_off + (mh_size - len) / 4 * 4; bytes = take len fresh }

-- `m_prepend`, for a length of at most `MHLEN`. The bytes of the new area are whatever the memory
-- holds there: the argument `fresh`. `room` says whether `kzalloc` finds memory.
unfoldable pub m_prepend : Bool → List ℕ → Chain → ℕ → Result (Option Chain)
unfolding grow_header front
m_prepend room fresh [] len = null_deref
m_prepend room fresh (m ∷ c) len =
    if leb len (m_leadingspace m)
    then ok (
        some (
          grow_header len
            (record m { data_off = m.data_off - len; bytes = take len fresh ++ m.bytes })
          ∷ c))
    else if room
    then ok (
        some (
          grow_header len (front fresh len m)
          ∷ (if m.pkthdr then record m { pkthdr = false } else m)
          ∷ c))
    else ok none

-- The loop of `m_pullup`: `m` gathers bytes from `n`. Once an mbuf is used up, `m_freem` frees it
-- with the whole chain behind it, and `n` is NULL.
unfoldable pub pullup_round : ℕ → Mbuf → Mbuf → Chain → Mbuf × Chain × ℕ
pullup_round len m n c =
    let count = min len (m_len n) in
    let m' = record m { bytes = m.bytes ++ take count n.bytes } in
    if m_len n - count == 0 then (m', [], len - count) else (
      m',
      record n { bytes = drop count n.bytes; data_off = n.data_off + count } ∷ c,
      len - count,
    )

-- The loop, and `m->m_next = n`. A round that leaves an mbuf with data has `len` at 0, so that the
-- loop makes one round only.
unfoldable pub pullup_loop : ℕ → Mbuf → Chain → Result (Option Chain)
unfolding pullup_round
pullup_loop len m [] = null_deref
pullup_loop len m (n ∷ c) =
    let (m', rest, left) = pullup_round len m n c in
    if left == 0 then ok (some (m' ∷ rest)) else ok none

-- the mbuf that `m_pullup` gathers in where the first one will not do
unfoldable pub pullup_new : (ℕ → Bool) → ℕ → Mbuf → Chain → Result (Option Chain)
unfolding pullup_loop
pullup_new room len n c =
    if ltb max_cl_size len
    then ok none
    else if not (room 0)
    then ok none
    else if ltb mh_size len && not (room 1)
    then null_deref
    else (let m = if ltb mh_size len then m_clget (m_get n.typ) else m_get n.typ in
        if n.pkthdr
        then pullup_loop len (move_pkthdr m n) (record n { pkthdr = false } ∷ c)
        else pullup_loop len m (n ∷ c))

unfoldable pub m_pullup : (ℕ → Bool) → Chain → ℕ → Result (Option Chain)
unfolding pullup_loop pullup_new
m_pullup room [] len = null_deref
m_pullup room (n ∷ []) len = pullup_new room len n []
m_pullup room (n ∷ n' ∷ c) len =
    if (not n.ext && ltb (n.data_off + len) m_size)
      || (n.ext && ltb mh_size len && ltb (n.data_off + len) cl_size)
    then (if leb len (m_len n)
        then ok (some (n ∷ n' ∷ c))
        else pullup_loop (len - m_len n) n (n' ∷ c))
    else pullup_new room len n (n' ∷ c)
