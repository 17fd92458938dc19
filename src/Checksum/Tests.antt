-- ===== src/Checksum/Tests.antt =====
-- Kernel/netinet/check_sum.c: a packet of two mbufs, the second one at an odd address.
use shaunos.Base.{
  ℕ, ◌+◌, ◌-◌, ◌*◌, ◌≡◌, refl, arith, Bool, false, List, [], ◌∷◌, ◌==◌, length, leb, take,
  if◌then◌else◌,
}
use shaunos.Base.Fault.{ok, assert_failed}
use shaunos.Mbuf.{Mbuf, Chain, m_get, contents}
use shaunos.Checksum.{in_cksum}
use shaunos.Checksum.Value.{value, fold}
use shaunos.Checksum.Sum.{in_cksum-fold}
use shaunos.Checksum.Verify.{in_cksum-verifies}

-- the address is odd where the data begins at an odd place
abbrev at_odd : Mbuf → Bool
at_odd m = m.data_off == 1

abbrev even_place : Mbuf → Bool
even_place m = false

abbrev mbuf_of : ℕ → List ℕ → Mbuf
mbuf_of off bytes = record (m_get 1) { data_off = off; bytes = bytes }

-- 69, 0, 0 | 0, 17
abbrev two_parts : Chain
two_parts = mbuf_of 0 (69 ∷ 0 ∷ 0 ∷ []) ∷ mbuf_of 1 (0 ∷ 17 ∷ []) ∷ []

-- the same packet with its checksum, in one part
abbrev sealed : Chain
sealed = mbuf_of 1 (69 ∷ 0 ∷ 169 ∷ 255 ∷ 17 ∷ []) ∷ []

checksum_run : in_cksum at_odd two_parts 5 ≡ ok (255 * 256 + 169)
unfolding in_cksum
checksum_run = refl

short_run : in_cksum at_odd two_parts 6 ≡ assert_failed
unfolding in_cksum
short_run = refl

in_cksum-fold_example : in_cksum at_odd two_parts 4 ≡ (
    if leb 4 (length (contents two_parts))
    then ok (65535 - fold (value false (take 4 (contents two_parts))))
    else assert_failed)
in_cksum-fold_example = in_cksum-fold at_odd two_parts 4 refl (omega arith)

in_cksum-verifies_example : in_cksum at_odd sealed 5 ≡ ok 0
in_cksum-verifies_example =
    in_cksum-verifies even_place at_odd two_parts sealed (69 ∷ 0 ∷ []) (17 ∷ []) (255 * 256 + 169)
      refl refl refl refl (omega arith) (unfold in_cksum in refl)
