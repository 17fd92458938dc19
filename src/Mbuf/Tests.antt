-- ===== src/Mbuf/Tests.antt =====
-- Runs of the packets of Kernel/mbuf.c, and their theorems at concrete packets.
use shaunos.Base.{◌≡◌, refl, arith, true, false, [], ◌∷◌, some}
use shaunos.Base.Int.{negsuc}
use shaunos.Base.Fault.{ok}
use shaunos.Mbuf.{Mbuf, Chain, m_len, contents}
use shaunos.Mbuf.Adjust.{m_adj}
use shaunos.Mbuf.Adjust.Trim.{Has, m_adj-neg}
use shaunos.Mbuf.Extend.{m_prepend, m_pullup}
use shaunos.Mbuf.Extend.Prepend.{Prepended, m_prepend-Prepended}
use shaunos.Mbuf.Extend.Pullup.{m_pullup-keeps}

abbrev header : Mbuf
header = record {
  typ = 1;
  ext = false;
  pkthdr = true;
  eor = false;
  pkt_len = 6;
  data_off = 8;
  bytes = 1 ∷ 2 ∷ [];
}

abbrev body : Mbuf
body = record {
  typ = 1;
  ext = false;
  pkthdr = false;
  eor = false;
  pkt_len = 0;
  data_off = 0;
  bytes = 3 ∷ 4 ∷ 5 ∷ [];
}

abbrev tail : Mbuf
tail = record {
  typ = 1;
  ext = false;
  pkthdr = false;
  eor = false;
  pkt_len = 0;
  data_off = 0;
  bytes = 6 ∷ [];
}

abbrev packet : Chain
packet = header ∷ body ∷ tail ∷ []

m_adj-neg_example : Has (1 ∷ 2 ∷ 3 ∷ []) (m_adj packet (negsuc 2))
m_adj-neg_example = m_adj-neg header (body ∷ tail ∷ []) 2

m_prepend-Prepended_example :
    (d : Chain) × (m_prepend true (0 ∷ 0 ∷ 0 ∷ []) packet 3 ≡ ok (some d))
    × Prepended (0 ∷ 0 ∷ 0 ∷ []) 3 header (body ∷ tail ∷ []) d
m_prepend-Prepended_example =
    m_prepend-Prepended (0 ∷ 0 ∷ 0 ∷ []) 3 header (body ∷ tail ∷ []) (omega arith) (omega arith)

m_pullup-keeps_example :
    (m' : Mbuf) × (d : Chain) × (m_pullup (λ i. true) packet 4 ≡ ok (some (m' ∷ d)))
    × (contents (m' ∷ d) ≡ contents packet)
    × (m_len m' ≡ 4)
m_pullup-keeps_example =
    m_pullup-keeps (λ i. true) 4 header body (tail ∷ [])
      (record { plain = refl; room = omega arith; short = omega arith }) (omega arith)
