-- ===== src/Sockbuf.antt =====
-- Kernel/net/uipc_socket2.c: the buffers of a socket.
-- `sb_mb`, the records linked by `m_nextpkt`, is the list of the records, and each of them is a chain.
-- The wait queues, the flags and the time limits of the buffers are left out.
pub mod Append
pub mod Account
pub mod Drop
pub mod Flush
mod Tests
use shaunos.Base.{
  ℕ, zero, suc, ◌+◌, ◌-◌, ◌*◌, ◌/◌, ◌%◌, ◌≡◌, min, Bool, true, false, Option, none, some, List, [],
  ◌∷◌, ◌++◌, ltb, leb, ◌==◌, ◌&&◌, ◌||◌, not, length, drop, if◌then◌else◌,
}
use shaunos.Base.Int.{u32_mod, add32, sub32}
use shaunos.Base.Fault.{Result, ok, assert_failed, ◌>>=◌}
use shaunos.Mbuf.{Mbuf, Chain, m_len, contents, m_size, cl_size}

-- `struct sockbuf`
pub record Sockbuf : Type 0 where
  pub cc : ℕ
  pub hiwat : ℕ
  pub mbcnt : ℕ
  pub mbmax : ℕ
  pub lowat : ℕ
  pub mb : List Chain

-- `MSIZE` and `SB_MAX`
abbrev pub msize : ℕ
msize = 128

abbrev pub sb_max : ℕ
sb_max = 256 * 1024

-- what `sballoc` adds to `sb_mbcnt`
abbrev pub space_of : Mbuf → ℕ
space_of m = if m.ext then msize + cl_size else msize

-- the counters `sb_cc` and `sb_mbcnt`
abbrev pub Counts : Type 0
Counts = ℕ × ℕ

unfoldable pub sballoc : Mbuf → Counts → Counts
sballoc m (cc, mbcnt) = (add32 cc (m_len m), add32 mbcnt (space_of m))

unfoldable pub sbfree : Mbuf → Counts → Counts
sbfree m (cc, mbcnt) = (sub32 cc (m_len m), sub32 mbcnt (space_of m))

abbrev pub counted : Sockbuf → Counts → List Chain → Sockbuf
counted sb (cc, mbcnt) mb = record sb { cc = cc; mbcnt = mbcnt; mb = mb }

-- `sbreserve`
unfoldable pub sbreserve : Sockbuf → ℕ → Sockbuf × Bool
sbreserve sb cc =
    let lower = if ltb cc sb.lowat then cc else sb.lowat in
    if ltb (sb_max * cl_size % u32_mod / (msize + cl_size)) cc
    then (sb, false)
    else (record sb { hiwat = cc; mbmax = min (cc * 2 % u32_mod) sb_max; lowat = lower }, true)

-- `(o = m->m_next) || (o = n)`, and its type is `t`
unfoldable pub same_type : ℕ → Option Mbuf → Chain → Bool
same_type t n (o ∷ c) = o.typ == t
same_type t (some o) [] = o.typ == t
same_type t none [] = false

-- the test of the second `if` of `sbcompress`
unfoldable pub fits : Mbuf → Option Mbuf → Bool
fits m none = false
fits m (some n) =
    not (n.ext || n.eor) && ltb (n.data_off + m_len n + m_len m) m_size && n.typ == m.typ

-- `n` and the bytes of `m`
unfoldable pub splat : Mbuf → Option Mbuf → Option Mbuf
splat m none = none
splat m (some n) = some (record n { bytes = n.bytes ++ m.bytes })

abbrev pub chain_of : Option Mbuf → Chain
chain_of none = []
chain_of (some n) = n ∷ []

-- the end of `sbcompress`
unfoldable pub mark_eor : Bool → Option Mbuf → Option Mbuf
mark_eor eor none = none
mark_eor eor (some n) = some (if eor then record n { eor = true } else n)

-- `sbcompress`: the chain from `n` on after it, and the counters
unfoldable pub sbcompress : Bool → Counts → Chain → Option Mbuf → Chain × Counts
unfolding same_type fits splat sballoc mark_eor
sbcompress eor counts [] n = (chain_of (mark_eor eor n), counts)
sbcompress eor counts (m ∷ c) n =
    let eor' = eor || m.eor in
    let skipped = sbcompress eor' counts c n in
    let splatted = sbcompress eor' (add32 counts.0 (m_len m), counts.1) c (splat m n) in
    let linked = sbcompress eor' (sballoc m counts) c (some (record m { eor = false })) in
    if m_len m == 0 && (not eor' || same_type m.typ n c)
    then skipped
    else if fits m n
    then splatted
    else (chain_of n ++ linked.0, linked.1)

-- the mark of the end of a record moves from the first mbuf of a chain to the second.
unfoldable pub pass_eor : Mbuf → Chain → Mbuf × Chain
pass_eor m [] = (m, [])
pass_eor m (n ∷ c) =
    if m.eor then (record m { eor = false }, record n { eor = true } ∷ c) else (m, n ∷ c)

unfoldable pub sbappendrecord : Sockbuf → Chain → Sockbuf
unfolding sballoc sbcompress pass_eor
sbappendrecord sb [] = sb
sbappendrecord sb (m0 ∷ c) =
    let (m, c') = pass_eor m0 c in
    let (r, counts) = sbcompress false (sballoc m0 (sb.cc, sb.mbcnt)) c' (some m) in
    counted sb counts (sb.mb ++ r ∷ [])

-- whether a record holds the mark of its end
unfoldable pub ended : Chain → Bool
ended [] = false
ended (m ∷ c) = m.eor || ended c

unfoldable pub last_record : List Chain → Chain
last_record [] = []
last_record (r ∷ []) = r
last_record (r ∷ s ∷ rs) = last_record (s ∷ rs)

-- `sbcompress` behind the last mbuf of a record
unfoldable pub compress_behind : Counts → Chain → Chain → Chain × Counts
unfolding sbcompress
compress_behind counts c [] = sbcompress false counts c none
compress_behind counts c (m ∷ []) = sbcompress false counts c (some m)
compress_behind counts c (m ∷ n ∷ r) =
    let rest = compress_behind counts c (n ∷ r) in (m ∷ rest.0, rest.1)

-- the records that hold one chain, which may be NULL
abbrev pub as_record : Chain → List Chain
as_record [] = []
as_record (m ∷ r) = (m ∷ r) ∷ []

-- and in place of the last record
unfoldable pub compress_last : Counts → Chain → List Chain → List Chain × Counts
unfolding compress_behind
compress_last counts c [] = let r = sbcompress false counts c none in (as_record r.0, r.1)
compress_last counts c (r ∷ []) = let r' = compress_behind counts c r in (r'.0 ∷ [], r'.1)
compress_last counts c (r ∷ s ∷ rs) =
    let rest = compress_last counts c (s ∷ rs) in (r ∷ rest.0, rest.1)

unfoldable pub sbappend : Sockbuf → Chain → Sockbuf
unfolding sbappendrecord ended last_record compress_last
sbappend sb [] = sb
sbappend sb (m ∷ c) =
    let (mb, counts) = compress_last (sb.cc, sb.mbcnt) (m ∷ c) sb.mb in
    if ended (last_record sb.mb) then sbappendrecord sb (m ∷ c) else counted sb counts mb

-- the second loop of `sbdrop`: empty mbufs at the front of the record
unfoldable pub skip_empty : Counts → Chain → Chain × Counts
unfolding sbfree
skip_empty counts [] = ([], counts)
skip_empty counts (m ∷ c) =
    let rest = skip_empty (sbfree m counts) c in if m_len m == 0 then rest else (m ∷ c, counts)

-- what `sbdrop` leaves of the record in hand, before the others
abbrev pub requeue : Chain → List Chain → List Chain
requeue [] next = next
requeue (m ∷ c) next = (m ∷ c) ∷ next

abbrev pub finish : Counts → Chain → List Chain → List Chain × Counts
finish counts c next = let rest = skip_empty counts c in (requeue rest.0 next, rest.1)

-- `sbdrop` with the record `c` in hand and the others behind it
unfoldable pub drop_chain :
    (ℕ → Counts → Result (List Chain × Counts))
    → ℕ
    → Counts
    → Chain
    → List Chain
    → Result (List Chain × Counts)
unfolding sbfree skip_empty
drop_chain go len counts [] next =
    let more = go len counts in if len == 0 then ok (finish counts [] next) else more
drop_chain go len counts (m ∷ c) next =
    let rest = drop_chain go (len - m_len m) (sbfree m counts) c next in
    if len == 0
    then ok (finish counts (m ∷ c) next)
    else if ltb len (m_len m)
    then ok (
        finish (sub32 counts.0 len, counts.1)
          (record m { bytes = drop len m.bytes; data_off = m.data_off + len } ∷ c) next)
    else rest

-- the records, taken up one after the other; with none left the kernel panics.
unfoldable pub drop_records : List Chain → ℕ → Counts → Result (List Chain × Counts)
unfolding drop_chain
drop_records [] len counts = assert_failed
drop_records (c ∷ next) len counts = drop_chain (drop_records next) len counts c next

unfoldable pub sbdrop : Sockbuf → ℕ → Result Sockbuf
unfolding drop_records
sbdrop sb len =
    (if len == 0 then none_dropped sb.mb else drop_records sb.mb len (sb.cc, sb.mbcnt))
    >>= (λ (mb, counts). ok (counted sb counts mb))
  where
    none_dropped : List Chain → Result (List Chain × Counts)
    none_dropped [] = ok ([], (sb.cc, sb.mbcnt))
    none_dropped (c ∷ next) = ok (finish (sb.cc, sb.mbcnt) c next)

-- `sbdroprecord`
unfoldable pub free_chain : Counts → Chain → Counts
unfolding sbfree
free_chain counts [] = counts
free_chain counts (m ∷ c) = free_chain (sbfree m counts) c

unfoldable pub sbdroprecord : Sockbuf → Sockbuf
unfolding free_chain
sbdroprecord sb = drop_first sb.mb
  where
    drop_first : List Chain → Sockbuf
    drop_first [] = sb
    drop_first (r ∷ rs) = counted sb (free_chain (sb.cc, sb.mbcnt) r) rs
