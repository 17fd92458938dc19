-- ===== src/Mbuf/Copy.antt =====
-- Kernel/mbuf.c: `_m_copym`, which copies a part of a packet, and its shallow form `m_copym`.
pub mod Content
use shaunos.Base.{
  ℕ, zero, suc, ◌+◌, ◌-◌, ◌<◌, ◌≤◌, min, ◌≡◌, refl, arith, Bool, true, false, Option, none, some,
  List, [], ◌∷◌, ◌++◌, ltb, ◌==◌, ◌&&◌, not, length, take, drop, if◌then◌else◌, append-nil,
  Bool-cases, inl, inr, ltb→lt, lt→ltb, ==→eq, ne→==, sym, length-drop, length-take,
}
use shaunos.Base.Fault.{Result, ok, null_deref, out_of_bounds, assert_failed, out_of_fuel, ◌>>=◌}
use shaunos.Mbuf.{
  Mbuf, Chain, m_len, contents, m_get, m_clget, m_getptr, pkt_off, cl_size, copy_all,
}
use shaunos.Mbuf.Chain.{Located, m_getptr-Located, take-split}

-- `m_dup_pkthdr(to, from)` on a new mbuf, with `n->m_pkthdr.len = len` unless everything is copied
unfoldable pub dup_pkthdr : Bool → ℕ → Mbuf → Mbuf → Mbuf
dup_pkthdr copyhdr len from to =
    if copyhdr
    then record to {
      pkthdr = from.pkthdr;
      eor = from.eor;
      pkt_len = if len == copy_all then from.pkt_len else len;
      data_off = pkt_off;
    }
    else to

-- The new mbuf `n` for the mbuf `m`. A shallow copy of a cluster shares it: `n->m_data` is
-- `m->m_data`, at which the copied bytes begin. A deep copy has a cluster of its own.
unfoldable pub copied : Bool → Bool → ℕ → Mbuf → ℕ → Mbuf
unfolding dup_pkthdr
copied deep copyhdr len m offset =
    let n = dup_pkthdr copyhdr len m (m_get m.typ) in
    let count = min len (m_len m - offset) in
    if m.ext
    then (if deep
        then record (m_clget n) {
          bytes = take (min (min cl_size len) (m_len m - offset)) (drop offset m.bytes);
        }
        else record n { ext = true; data_off = m.data_off; bytes = take count m.bytes })
    else record n { bytes = take count (drop offset m.bytes) }

-- What is left to copy: `len -= n->m_len`, unless everything is copied.
abbrev pub left_over : ℕ → ℕ → ℕ
left_over len count = if len == copy_all then len else len - count

-- `*np = n`, before what the later rounds give
unfoldable pub prepended : Mbuf → Option Chain → Result (Option Chain)
prepended n none = ok none
prepended n (some ns) = ok (some (n ∷ ns))

-- The loop of `_m_copym` over the mbufs from the first one on. `call` counts the calls of `kzalloc`
-- so far. Where one finds no memory, `m_freem(top)` follows the null pointer `top` if no mbuf is
-- copied yet, and `MCLGET` follows the null pointer that it gets; else the copy is given up.
unfoldable pub copy_loop :
    (ℕ → Bool) → Bool → Bool → Bool → ℕ → ℕ → Chain → ℕ → Result (Option Chain)
unfolding copied prepended
copy_loop room deep started copyhdr call len [] offset = ok (some [])
copy_loop room deep started copyhdr call len (m ∷ c) offset =
    let n = copied deep copyhdr len m offset in
    let clusters = deep && m.ext in
    let rest =
      copy_loop room deep true false (if clusters then call + 2 else call + 1)
        (left_over len (m_len n)) c 0 in
    if len == 0
    then ok (some [])
    else if not (room call)
    then (if started then ok none else null_deref)
    else if clusters && not (room (call + 1))
    then null_deref
    else rest >>= prepended n

-- `return (top)`, which is NULL where no mbuf is copied
unfoldable pub top_of : Option Chain → Result (Option Chain)
top_of none = ok none
top_of (some []) = ok none
top_of (some (n ∷ c)) = ok (some (n ∷ c))

-- `_m_copym` behind its call of `m_getptr`, for the first mbuf `m0` of the packet
unfoldable pub copy_from :
    (ℕ → Bool) → Bool → Mbuf → ℕ → ℕ → Option (Chain × ℕ) → Result (Option Chain)
unfolding copy_loop top_of
copy_from room deep m0 offset len none = ok none
copy_from room deep m0 offset len (some (m, off)) =
    copy_loop room deep false (offset == 0 && m0.pkthdr) 0 len m off >>= top_of

-- `_m_copym`, at an offset and a length that are not negative
unfoldable pub m_copym' : (ℕ → Bool) → Bool → Chain → ℕ → ℕ → Result (Option Chain)
unfolding copy_from
m_copym' room deep [] offset len = null_deref
m_copym' room deep (m0 ∷ c) offset len = do
  found ← m_getptr (m0 ∷ c) offset
  copy_from room deep m0 offset len found

-- `m_copym`
unfoldable pub m_copym : (ℕ → Bool) → Chain → ℕ → ℕ → Result (Option Chain)
unfolding m_copym'
m_copym room = m_copym' room false
