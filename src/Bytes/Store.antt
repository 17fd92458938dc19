-- ===== src/Bytes/Store.antt =====
-- `stosb`, `stosw` and `stosl` of lib/string.c: what one store leaves in memory.
use shaunos.Base.{
  ℕ, ◌+◌, ◌-◌, ◌/◌, ◌%◌, ◌^◌, ◌<◌, ◌≤◌, ◌≡◌, ◌⊎◌, refl, arith, inl, inr, lt→ltb, le→leb, lt→leb,
  le→ltb,
}
use shaunos.Bytes.{Memory, store}

-- an address that a block of `n` bytes from `p` on does not contain
abbrev pub Clear : ℕ → ℕ → ℕ → Type 0
Clear n p x = (x < p) ⊎ (p + n ≤ x)

pub store-Clear : (w d v : ℕ) (m : Memory) (x : ℕ) → Clear w d x → store w d v m x ≡ m x
unfolding store
store-Clear w d v m x (inl h) = rw (lt→leb d x h) refl
store-Clear w d v m x (inr h) = rw (le→leb d x (omega arith), le→ltb x (d + w) h) refl

pub store_here :
    (w d v : ℕ) (m : Memory) (k : ℕ) → k < w → store w d v m (d + k) ≡ v / 256 ^ k % 256
unfolding store
store_here w d v m k h =
    let back : d + k - d ≡ k = omega arith in
    rw (le→leb d (d + k) (omega arith), lt→ltb (d + k) (d + w) (omega arith), back) refl

pub one_byte : (d v : ℕ) (m : Memory) → store 1 d v m d ≡ v % 256
unfolding store
one_byte d v m =
    let back : d - d ≡ 0 = omega arith in
    let whole : v / 1 ≡ v = omega arith in
    rw (le→leb d d (omega arith), lt→ltb d (d + 1) (omega arith), back, whole) refl
