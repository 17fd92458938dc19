-- ===== src/Sockbuf/Tests.antt =====
-- Kernel/net/uipc_socket2.c: the theorems at a buffer of two records.
use shaunos.Base.{ℕ, ◌≡◌, refl, arith, false, List, [], ◌∷◌}
use shaunos.Base.Fault.{ok}
use shaunos.Mbuf.{Mbuf}
use shaunos.Sockbuf.{Sockbuf, sbappend, sbdrop}
use shaunos.Sockbuf.Append.{Accounted}
use shaunos.Sockbuf.Account.{Appended, sbappend-Appended}
use shaunos.Sockbuf.Drop.{Dropped, sbdrop-Dropped}

abbrev small_mbuf : List ℕ → Mbuf
small_mbuf bs = record {
  typ = 1;
  ext = false;
  pkthdr = false;
  eor = false;
  pkt_len = 0;
  data_off = 0;
  bytes = bs;
}

abbrev two_records : Sockbuf
two_records = record {
  cc = 5;
  hiwat = 4096;
  mbcnt = 384;
  mbmax = 8192;
  lowat = 1;
  mb = (small_mbuf (1 ∷ 2 ∷ []) ∷ small_mbuf (3 ∷ []) ∷ []) ∷ (small_mbuf (4 ∷ 5 ∷ []) ∷ []) ∷ [];
}

two_records-Accounted : Accounted two_records
two_records-Accounted = record { cc-eq = refl; mbcnt-eq = refl }

sbappend-Appended_example :
    Appended two_records
      (small_mbuf (6 ∷ []) ∷ [])
      (sbappend two_records (small_mbuf (6 ∷ []) ∷ []))
sbappend-Appended_example =
    sbappend-Appended two_records (small_mbuf (6 ∷ []) ∷ []) two_records-Accounted

sbdrop-Dropped_example :
    (sb' : Sockbuf) × (sbdrop two_records 4 ≡ ok sb') × Dropped two_records 4 sb'
sbdrop-Dropped_example =
    sbdrop-Dropped two_records 4 two_records-Accounted (omega arith) (omega arith) (omega arith)
