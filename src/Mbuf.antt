-- ===== src/Mbuf.antt =====
-- Kernel/mbuf.c: packets as chains of small buffers.
-- A chain (`struct mbuf *`, linked by `m_next`) is the list of its mbufs, and NULL is the empty
-- list. An mbuf is what lies between `m_data` and `m_data + m_len`, with the place of that area.
-- The argument `room` tells which of the calls of `kzalloc`, counted from 0, find memory.
-- Reference counts of clusters and the counters of allocated mbufs are left out.
pub mod Chain
pub mod Copy
pub mod Adjust
pub mod Extend
mod Tests
use shaunos.Base.{
  ℕ, zero, suc, ◌+◌, ◌-◌, ◌*◌, ◌/◌, min, Bool, true, false, Option, none, some, List, [], ◌∷◌, ◌++◌,
  ltb, leb, ◌==◌, ◌&&◌, ◌||◌, not, length, take, drop, if◌then◌else◌,
}
use shaunos.Base.Int.{ℤ, pos, negsuc, add32, sub32}
use shaunos.Base.Fault.{Result, ok, null_deref, ◌>>=◌}

-- `MLEN`, `MHLEN`, `MCLBYTES`, `MINCLSIZE`, `MAXMCLBYTES`, `M_COPYALL`; `pkt_off` is where
-- `m_pktdat` lies in `m_dat`.
abbrev pub m_size : ℕ
m_size = 108

abbrev pub mh_size : ℕ
mh_size = 100

abbrev pub pkt_off : ℕ
pkt_off = 8

abbrev pub cl_size : ℕ
cl_size = 2048

abbrev pub min_cl_size : ℕ
min_cl_size = 208

abbrev pub max_cl_size : ℕ
max_cl_size = 65536

abbrev pub copy_all : ℕ
copy_all = 1000000000

-- `struct mbuf`: its type, the flags `M_EXT`, `M_PKTHDR` and `M_EOR`, `m_pkthdr.len` as a 32-bit
-- pattern, the distance of `m_data` from `m_dat` (with `M_EXT`, from `ext_buf`), and the `m_len`
-- bytes from `m_data` on.
pub record Mbuf : Type 0 where
  pub typ : ℕ
  pub ext : Bool
  pub pkthdr : Bool
  pub eor : Bool
  pub pkt_len : ℕ
  pub data_off : ℕ
  pub bytes : List ℕ

abbrev pub Chain : Type 0
Chain = List Mbuf

abbrev pub m_len : Mbuf → ℕ
m_len m = length m.bytes

-- the bytes of a packet
abbrev pub contents : Chain → List ℕ
contents [] = []
contents (m ∷ c) = m.bytes ++ contents c

-- `m_get` and `m_gethdr`, where they find memory
abbrev pub m_get : ℕ → Mbuf
m_get typ = record {
  typ = typ;
  ext = false;
  pkthdr = false;
  eor = false;
  pkt_len = 0;
  data_off = 0;
  bytes = [];
}

abbrev pub m_gethdr : ℕ → Mbuf
m_gethdr typ = record {
  typ = typ;
  ext = false;
  pkthdr = true;
  eor = false;
  pkt_len = 0;
  data_off = pkt_off;
  bytes = [];
}

-- `m_clget` on an mbuf, where it finds memory: its data now is an empty part of a new cluster.
abbrev pub m_clget : Mbuf → Mbuf
m_clget m = record m { ext = true; data_off = 0; bytes = [] }

-- `m_getptr`, at a location that is not negative: NULL, or the rest of the chain from the mbuf that
-- holds the location, with the offset in it.
unfoldable pub m_getptr : Chain → ℕ → Result (Option (Chain × ℕ))
m_getptr [] loc = null_deref
m_getptr (m ∷ []) loc =
    if ltb loc (m_len m)
    then ok (some (m ∷ [], loc))
    else if loc - m_len m == 0
    then ok (some (m ∷ [], m_len m))
    else ok none
m_getptr (m ∷ n ∷ rest) loc =
    let further = m_getptr (n ∷ rest) (loc - m_len m) in
    if ltb loc (m_len m) then ok (some (m ∷ n ∷ rest, loc)) else further

-- `m_copydata`, from where its first loop stops on. A cluster is copied from its `m_data` on, and
-- nothing behind it; `memcpy` from a cluster can run past its `m_len` bytes, into `beyond`.
unfoldable pub copydata_loop : Chain → ℕ → ℕ → Result (List ℕ)
copydata_loop [] off len = if len == 0 then ok [] else null_deref
copydata_loop (m ∷ c) off len =
    let rest = copydata_loop c 0 (len - min (m_len m - off) len) in
    if len == 0
    then ok []
    else (do tail ← rest; ok (take (min (m_len m - off) len) (drop off m.bytes) ++ tail))

unfoldable pub copydata_at : List ℕ → Chain → ℕ → ℕ → Result (List ℕ)
unfolding copydata_loop
copydata_at beyond [] off len = null_deref
copydata_at beyond (m ∷ c) off len =
    if m.ext then ok (take (min len cl_size) (m.bytes ++ beyond)) else copydata_loop (m ∷ c) off len

unfoldable pub m_copydata : List ℕ → Chain → ℕ → ℕ → Result (List ℕ)
unfolding copydata_at
m_copydata beyond [] off len = null_deref
m_copydata beyond (m ∷ c) off len =
    let further = m_copydata beyond c (off - m_len m) len in
    if off == 0
    then copydata_at beyond (m ∷ c) off len
    else if ltb off (m_len m)
    then copydata_at beyond (m ∷ c) off len
    else further

-- `m_leadingspace`
unfoldable pub m_leadingspace : Mbuf → ℕ
m_leadingspace m =
    if m.ext then m.data_off else if m.pkthdr then m.data_off - pkt_off else m.data_off

-- `M_MOVE_PKTHDR(to, from)`, the new `to`; `from` then has no `M_PKTHDR`
abbrev pub move_pkthdr : Mbuf → Mbuf → Mbuf
move_pkthdr to from = record to {
  pkthdr = from.pkthdr;
  eor = from.eor;
  pkt_len = from.pkt_len;
  data_off = if to.ext then to.data_off else pkt_off;
}
