-- ===== src/Mbuf/Adjust/Trim.antt =====
-- `m_adj` of Kernel/mbuf.c drops exactly the bytes that it is asked to drop.
use shaunos.Base.{
  ℕ, suc, ◌-◌, ◌<◌, ◌≤◌, ◌≡◌, refl, arith, List, [], ◌∷◌, ◌++◌, leb, ◌==◌, length, take, drop,
  length-append, append-nil, Bool-cases, inl, inr, leb→le, leb→lt, ==→eq, sym, ◌∙◌, ap, drop_all,
  drop-append_right, drop-append_left, take-append_right, take-append_left,
}
use shaunos.Base.Int.{pos, negsuc}
use shaunos.Base.Fault.{Result, ok, null_deref, out_of_bounds, assert_failed, out_of_fuel, ◌>>=◌}
use shaunos.Mbuf.{Mbuf, Chain, m_len, contents}
use shaunos.Mbuf.Adjust.{
  m_adj, adj_tail, trim_head, shorten_header, set_header, total, last_len, shorten_last, emptied,
  truncate,
}

total-contents : (c : Chain) → total c ≡ length (contents c)
unfolding total
total-contents [] = refl
total-contents (m ∷ c) = omega (arith, total-contents c, length-append m.bytes (contents c))

contents-shorten_header : (n : ℕ) (c : Chain) → contents (shorten_header n c) ≡ contents c
unfolding shorten_header
contents-shorten_header n [] = refl
contents-shorten_header n (m ∷ c) = ground arith

contents-set_header : (n : ℕ) (c : Chain) → contents (set_header n c) ≡ contents c
unfolding set_header
contents-set_header n [] = refl
contents-set_header n (m ∷ c) = ground arith

contents-trim_head :
    (len : ℕ) (c : Chain)
    → (contents (trim_head len c).0 ≡ drop len (contents c))
      × ((trim_head len c).1 ≡ len - length (contents c))
unfolding trim_head
contents-trim_head len [] = (sym (drop_all len [] (omega arith)), omega arith)
contents-trim_head len (m ∷ c) = elim (Bool-cases (len == 0)) [
  | inl done ↦ rw (done, ==→eq _ _ done) (refl, omega arith)
  | inr more ↦ elim (Bool-cases (leb (m_len m) len)) [
    | inl whole ↦
        let (same, left) = contents-trim_head (len - m_len m) c in
        rw (more, whole, drop-append_right len m.bytes (contents c) (leb→le _ _ whole))
          (same, omega (arith, left, length-append m.bytes (contents c)))
    | inr part ↦
        rw (more, part, drop-append_left len m.bytes (contents c) (omega (arith, leb→lt _ _ part)))
          (refl, omega (arith, leb→lt _ _ part, length-append m.bytes (contents c)))
  ]
]

contents-emptied : (c : Chain) → contents (emptied c) ≡ []
unfolding emptied
contents-emptied [] = refl
contents-emptied (m ∷ c) = contents-emptied c

-- a result with the given bytes
abbrev pub Has : List ℕ → Result Chain → Type 0
Has xs (ok c) = contents c ≡ xs
Has xs _ = ⊥

truncate-Has :
    (count : ℕ) (c : Chain)
    → count ≤ length (contents c)
    → 0 < length c
    → Has (take count (contents c)) (truncate count c)
unfolding truncate
truncate-Has count [] h ne = absurd (omega arith)
truncate-Has count (m ∷ c) h ne = elim (Bool-cases (leb count (m_len m))) [
  | inl here ↦
      rw (here, contents-emptied c, append-nil (take count m.bytes))
        (sym (take-append_left count m.bytes (contents c) (leb→le _ _ here)))
  | inr later ↦
      rw (later, take-append_right count m.bytes (contents c) (omega (arith, leb→lt _ _ later)))
        (prefixed (truncate (count - m_len m) c) (
          truncate-Has (count - m_len m) c (omega (arith, length-append m.bytes (contents c)))
            (nonempty c (leb→lt _ _ later) h)))
]
  where
    nonempty : (c : Chain) → m_len m < count → count ≤ length (m.bytes ++ contents c) → 0 < length c
    nonempty [] lt h = absurd (omega (arith, length-append m.bytes []))
    nonempty (n ∷ c) lt h = omega arith

    prefixed :
        (r : Result Chain)
        → Has (take (count - m_len m) (contents c)) r
        → Has (m.bytes ++ take (count - m_len m) (contents c)) (do c' ← r; ok (m ∷ c'))
    prefixed (ok c') e = ap (λ xs. m.bytes ++ xs) e
    prefixed null_deref e = e
    prefixed out_of_bounds e = e
    prefixed assert_failed e = e
    prefixed out_of_fuel e = e

contents-shorten_last :
    (len : ℕ) (m : Mbuf) (c : Chain)
    → len ≤ last_len m c
    → (contents (shorten_last len (m ∷ c))
        ≡ take (length (contents (m ∷ c)) - len) (contents (m ∷ c)))
      × (last_len m c ≤ length (contents (m ∷ c)))
unfolding shorten_last last_len
contents-shorten_last len m [] h = (
  rw (append-nil m.bytes, append-nil (take (m_len m - len) m.bytes)) refl,
  omega (arith, length-append m.bytes []),
)
contents-shorten_last len m (n ∷ c) h =
    let (same, fits) = contents-shorten_last len n c h in
    let whole = length-append m.bytes (contents (n ∷ c)) in
    let rest : length (m.bytes ++ contents (n ∷ c)) - len - length m.bytes
        ≡ length (contents (n ∷ c)) - len =
      omega (arith, whole) in
    (
      rw
          (
            take-append_right (length (m.bytes ++ contents (n ∷ c)) - len) m.bytes
                (contents (n ∷ c)) (omega (arith, whole)),
            rest,
            same,
          )
          refl,
      omega (arith, whole),
    )

length-set_header : (n : ℕ) (c : Chain) → length (set_header n c) ≡ length c
unfolding set_header
length-set_header n [] = refl
length-set_header n (m ∷ c) = refl

kept :
    (m : Mbuf) (c : Chain) (len : ℕ)
    → Has
        (take (length (contents (m ∷ c)) - len) (contents (m ∷ c)))
        (truncate (total (m ∷ c) - len) (set_header (total (m ∷ c) - len) (m ∷ c)))
kept m c len =
    let k = total (m ∷ c) - len in
    let e : k ≡ length (contents (m ∷ c)) - len = ap (λ t. t - len) (total-contents (m ∷ c)) in
    rw (← e, ← contents-set_header k (m ∷ c))
      (truncate-Has k (set_header k (m ∷ c))
        (omega
          (arith, total-contents (m ∷ c), ap (λ xs. length xs) (contents-set_header k (m ∷ c))))
        (omega (arith, length-set_header k (m ∷ c))))

-- Where `m_adj` is asked to drop `n` bytes from the front of a packet, what is left are the bytes
-- behind the first `n`.
pub m_adj-pos : (c : Chain) (n : ℕ) → Has (drop n (contents c)) (m_adj c (pos n))
unfolding m_adj
m_adj-pos [] n = sym (drop_all n [] (omega arith))
m_adj-pos (m ∷ c) n =
    contents-shorten_header (n - (trim_head n (m ∷ c)).1) (trim_head n (m ∷ c)).0
    ∙ (contents-trim_head n (m ∷ c)).0

-- Where `m_adj` is asked to drop bytes from the end of a packet that is not NULL, what is left are the
-- bytes before them, or none if there are fewer. No pointer is followed past the end of the packet.
pub m_adj-neg :
    (m : Mbuf) (c : Chain) (n : ℕ)
    → Has (take (length (contents (m ∷ c)) - suc n) (contents (m ∷ c))) (m_adj (m ∷ c) (negsuc n))
unfolding m_adj adj_tail
m_adj-neg m c n = elim (Bool-cases (leb (suc n) (last_len m c))) [
  | inl last ↦
      rw (last, contents-shorten_header (suc n) (shorten_last (suc n) (m ∷ c)))
        (contents-shorten_last (suc n) m c (leb→le _ _ last)).0
  | inr more ↦ rw more (kept m c (suc n))
]
