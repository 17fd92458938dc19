-- ===== src/Mbuf/Adjust.antt =====
-- Kernel/mbuf.c: `m_adj`, which trims a packet at either end, and `m_cat`, which joins two.
pub mod Trim
pub mod Join
use shaunos.Base.{
  ℕ, suc, ◌+◌, ◌-◌, Bool, true, false, List, [], ◌∷◌, ◌++◌, ltb, leb, ◌==◌, ◌||◌, length, take,
  drop, if◌then◌else◌,
}
use shaunos.Base.Int.{ℤ, pos, negsuc, sub32}
use shaunos.Base.Fault.{Result, ok, null_deref, ◌>>=◌}
use shaunos.Mbuf.{Mbuf, Chain, m_len, contents, m_size}

-- `if (mp->m_flags & M_PKTHDR) mp->m_pkthdr.len -= n`
unfoldable pub shorten_header : ℕ → Chain → Chain
shorten_header n [] = []
shorten_header n (m ∷ c) = (if m.pkthdr then record m { pkt_len = sub32 m.pkt_len n } else m) ∷ c

-- `if (m->m_flags & M_PKTHDR) m->m_pkthdr.len = count`
unfoldable pub set_header : ℕ → Chain → Chain
set_header n [] = []
set_header n (m ∷ c) = (if m.pkthdr then record m { pkt_len = n } else m) ∷ c

-- the loop that trims from the head, with the `len` that it leaves
unfoldable pub trim_head : ℕ → Chain → Chain × ℕ
trim_head len [] = ([], len)
trim_head len (m ∷ c) =
    let rest = trim_head (len - m_len m) c in
    if len == 0
    then (m ∷ c, len)
    else if leb (m_len m) len
    then (record m { bytes = [] } ∷ rest.0, rest.1)
    else (record m { bytes = drop len m.bytes; data_off = m.data_off + len } ∷ c, 0)

-- `count`, and the last mbuf's `m_len`
unfoldable pub total : Chain → ℕ
total [] = 0
total (m ∷ c) = m_len m + total c

unfoldable pub last_len : Mbuf → Chain → ℕ
last_len m [] = m_len m
last_len m (n ∷ c) = last_len n c

-- `m->m_len -= len` at the last mbuf
unfoldable pub shorten_last : ℕ → Chain → Chain
shorten_last len [] = []
shorten_last len (m ∷ []) = record m { bytes = take (m_len m - len) m.bytes } ∷ []
shorten_last len (m ∷ n ∷ c) = m ∷ shorten_last len (n ∷ c)

-- `m->m_len = 0` at every mbuf
unfoldable pub emptied : Chain → Chain
emptied [] = []
emptied (m ∷ c) = record m { bytes = [] } ∷ emptied c

-- The loops that keep `count` bytes. Run to the end of the chain, the second one follows NULL.
unfoldable pub truncate : ℕ → Chain → Result Chain
unfolding emptied
truncate count [] = null_deref
truncate count (m ∷ c) =
    let rest = truncate (count - m_len m) c in
    if leb count (m_len m)
    then ok (record m { bytes = take count m.bytes } ∷ emptied c)
    else (do c' ← rest; ok (m ∷ c'))

unfoldable pub adj_tail : ℕ → Mbuf → Chain → Result Chain
unfolding shorten_header shorten_last set_header truncate total last_len
adj_tail len m c =
    if leb len (last_len m c)
    then ok (shorten_header len (shorten_last len (m ∷ c)))
    else truncate (total (m ∷ c) - len) (set_header (total (m ∷ c) - len) (m ∷ c))

-- `m_adj`: `count -= len; if (count < 0) count = 0` is the subtraction that stops at 0.
unfoldable pub m_adj : Chain → ℤ → Result Chain
unfolding shorten_header trim_head adj_tail
m_adj [] req_len = ok []
m_adj (m ∷ c) (pos n) = let (c', left) = trim_head n (m ∷ c) in ok (shorten_header (n - left) c')
m_adj (m ∷ c) (negsuc n) = adj_tail (suc n) m c

-- `m_cat` from the last mbuf of the first packet on
unfoldable pub cat_last : Mbuf → Chain → Chain
cat_last m [] = m ∷ []
cat_last m (n ∷ c) =
    let rest = cat_last (record m { bytes = m.bytes ++ n.bytes }) c in
    if m.ext || leb m_size (m.data_off + m_len m + m_len n) then m ∷ n ∷ c else rest

unfoldable pub m_cat : Chain → Chain → Result Chain
unfolding cat_last
m_cat [] n = null_deref
m_cat (m ∷ []) n = ok (cat_last m n)
m_cat (m ∷ m' ∷ c) n = do rest ← m_cat (m' ∷ c) n; ok (m ∷ rest)
