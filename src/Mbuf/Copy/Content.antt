-- ===== src/Mbuf/Copy/Content.antt =====
-- The bytes of a packet that `_m_copym` of Kernel/mbuf.c makes.
use shaunos.Base.{
  ℕ, ◌+◌, ◌≤◌, ◌≡◌, ◌≢◌, Bool, true, Option, none, some, List, [], ◌∷◌, ◌&&◌, if◌then◌else◌,
}
use shaunos.Base.Fault.{Result, ok, null_deref, out_of_bounds, assert_failed, out_of_fuel}
use shaunos.Mbuf.{Mbuf, Chain, m_len, contents, cl_size}

-- What a copy needs to be right wherever it starts in an mbuf: no cluster if it is shallow, and data
-- that fit a cluster if it is deep.
abbrev pub Copyable : Bool → Mbuf → Type 0
Copyable deep m = (m.ext ≡ true) → if deep then m_len m ≤ cl_size else ⊥

abbrev pub AllCopyable : Bool → Chain → Type 0
AllCopyable deep [] = Unit {0}
AllCopyable deep (m ∷ c) = Copyable deep m × AllCopyable deep c

-- what a run of the loop makes
abbrev Copies : List ℕ → Result (Option Chain) → Type 0
Copies xs (ok (some c)) = contents c ≡ xs
Copies xs _ = ⊥

abbrev next_call : Bool → Mbuf → ℕ → ℕ
next_call deep m call = if deep && m.ext then call + 2 else call + 1

-- What `m_getptr` leaves for the loop to start from.
abbrev Reached : Bool → Result (Option (Chain × ℕ)) → Type 0
Reached deep (ok (some ([], off))) = ⊥
Reached deep (ok (some (m ∷ c, off))) = AllCopyable deep (m ∷ c) × (off ≤ m_len m)
Reached deep _ = Unit {0}

-- What is returned: NULL for a length of 0, and else a packet of mbufs that holds the bytes.
abbrev pub Returned : ℕ → List ℕ → Result (Option Chain) → Type 0
Returned len xs (ok none) = len ≡ 0
Returned len xs (ok (some [])) = ⊥
Returned len xs (ok (some (n ∷ c))) = (len ≢ 0) × (contents (n ∷ c) ≡ xs)
Returned len xs null_deref = ⊥
Returned len xs out_of_bounds = ⊥
Returned len xs assert_failed = ⊥
Returned len xs out_of_fuel = ⊥
