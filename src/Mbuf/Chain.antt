-- ===== src/Mbuf/Chain.antt =====
-- Kernel/mbuf.c: what `m_getptr` and `m_copydata` find in a chain.
use shaunos.Base.{
  ℕ, ◌+◌, ◌-◌, ◌<◌, ◌≤◌, min, ◌≡◌, refl, arith, true, false, Option, none, some, List, [], ◌∷◌,
  ◌++◌, ltb, ◌==◌, length, take, drop, length-append, append-nil, Bool-cases, inl, inr, ltb→lt,
  ltb→le, ==→eq, ==→ne, sym, lt→ltb, eq→==, length-drop, take-min, drop-append_left, ◌⊎◌, ◌∙◌, ap,
  take-append, drop-append_right,
}
use shaunos.Base.Fault.{Result, ok, null_deref, out_of_bounds, assert_failed, out_of_fuel}
use shaunos.Mbuf.{
  Mbuf, Chain, m_len, contents, m_getptr, m_copydata, copydata_loop, copydata_at, cl_size,
}

abbrev pub Located : Chain → ℕ → Result (Option (Chain × ℕ)) → Type 0
Located c loc (ok (some (rest, off))) =
    (drop off (contents rest) ≡ drop loc (contents c)) × (loc ≤ length (contents c))
Located c loc (ok none) = length (contents c) < loc
Located c loc _ = ⊥

-- In a chain that is not NULL, `m_getptr` finds the rest of the packet from the location on, and
-- returns NULL exactly where the location lies past its end.
pub m_getptr-Located : (m : Mbuf) (c : Chain) (loc : ℕ) → Located (m ∷ c) loc (m_getptr (m ∷ c) loc)
unfolding m_getptr
m_getptr-Located m [] loc = elim (Bool-cases (ltb loc (m_len m))) [
  | inl before ↦ rw before (refl, omega (arith, ltb→lt _ _ before, length-append m.bytes []))
  | inr after ↦ elim (Bool-cases (loc - m_len m == 0)) [
    | inl end ↦
        let e : loc ≡ m_len m = omega (arith, ltb→le _ _ after, ==→eq _ _ end) in
        rw (after, end, e) (refl, omega (arith, length-append m.bytes []))
    | inr past ↦ rw (after, past) (omega (arith, ==→ne _ _ past, length-append m.bytes []))
  ]
]
m_getptr-Located m (n ∷ c) loc = elim (Bool-cases (ltb loc (m_len m))) [
  | inl before ↦
      rw before (refl, omega (arith, ltb→lt _ _ before, length-append m.bytes (contents (n ∷ c))))
  | inr after ↦ rw after (
      further (m_getptr (n ∷ c) (loc - m_len m)) (ltb→le _ _ after)
        (m_getptr-Located n c (loc - m_len m)))
]
  where
    further :
        (r : Result (Option (Chain × ℕ)))
        → m_len m ≤ loc
        → Located (n ∷ c) (loc - m_len m) r
        → Located (m ∷ n ∷ c) loc r
    further (ok (some (rest, off))) le (same, inside) = (
      rw (drop-append_right loc m.bytes (contents (n ∷ c)) le) same,
      omega (arith, length-append m.bytes (contents (n ∷ c))),
    )
    further (ok none) le h = omega (arith, length-append m.bytes (contents (n ∷ c)))
    further null_deref le h = h
    further out_of_bounds le h = h
    further assert_failed le h = h
    further out_of_fuel le h = h

-- Where no mbuf of the chain has a cluster, `m_copydata` copies the `len` bytes from `off` on, if
-- the packet has as many.
abbrev pub NoCluster : Chain → Type 0
NoCluster [] = Unit {0}
NoCluster (m ∷ c) = (m.ext ≡ false) × NoCluster c

-- The part that lies in the first mbuf and the part behind it make up the whole.
pub take-split :
    (xs ys : List ℕ) (off len : ℕ)
    → off ≤ length xs
    → take (min (length xs - off) len) (drop off xs) ++ take (len - min (length xs - off) len) ys
      ≡ take len (drop off (xs ++ ys))
take-split xs ys off len h =
    let rest : len - min (length xs - off) len ≡ len - length (drop off xs) =
      omega (arith, length-drop off xs) in
    let part : min (length xs - off) len ≡ min (length (drop off xs)) len =
      omega (arith, length-drop off xs) in
    rw
      (
        drop-append_left off xs ys h,
        take-append len (drop off xs) ys,
        rest,
        part,
        take-min len (drop off xs),
      )
      refl

copydata_loop-take :
    (m : Mbuf) (c : Chain) (off len : ℕ)
    → off ≤ m_len m
    → off + len ≤ length (contents (m ∷ c))
    → copydata_loop (m ∷ c) off len ≡ ok (take len (drop off (contents (m ∷ c))))
unfolding copydata_loop
copydata_loop-take m [] off len h k = elim (Bool-cases (len == 0)) [
  | inl done ↦ rw (done, ==→eq _ _ done) refl
  | inr more ↦
      let all : min (m_len m - off) len ≡ len = omega (arith, length-append m.bytes []) in
      let z : (len - min (m_len m - off) len == 0) ≡ true = eq→== _ _ (omega (arith, all)) in
      rw (more, z) (ap ok (joined all))
]
  where
    joined :
        min (m_len m - off) len ≡ len
        → take (min (m_len m - off) len) (drop off m.bytes) ++ []
          ≡ take len (drop off (m.bytes ++ []))
    joined e = rw (append-nil m.bytes, e, append-nil (take len (drop off m.bytes))) refl
copydata_loop-take m (n ∷ c) off len h k = elim (Bool-cases (len == 0)) [
  | inl done ↦ rw (done, ==→eq _ _ done) refl
  | inr more ↦
      let ih =
        copydata_loop-take n c 0 (len - min (m_len m - off) len) (omega arith)
          (omega (arith, length-append m.bytes (contents (n ∷ c)))) in
      rw (more, ih) (ap ok (take-split m.bytes (contents (n ∷ c)) off len h))
]

-- What `m_copydata` copies once its first loop stops at an mbuf without a cluster.
copydata_here :
    (beyond : List ℕ) (m : Mbuf) (c : Chain) (off len : ℕ)
    → m.ext ≡ false
    → off + len ≤ length (contents (m ∷ c))
    → (off == 0) ≡ true ⊎ (ltb off (m_len m) ≡ true)
    → m_copydata beyond (m ∷ c) off len ≡ ok (take len (drop off (contents (m ∷ c))))
unfolding m_copydata copydata_at
copydata_here beyond m c off len plain h (inl start) =
    rw (start, plain) (copydata_loop-take m c off len (omega (arith, ==→eq _ _ start)) h)
copydata_here beyond m c off len plain h (inr inside) = elim (Bool-cases (off == 0)) [
  | inl start ↦
      rw (start, plain) (copydata_loop-take m c off len (omega (arith, ==→eq _ _ start)) h)
  | inr later ↦
      rw (later, inside, plain)
        (copydata_loop-take m c off len (omega (arith, ltb→lt _ _ inside)) h)
]

copydata_next :
    (beyond : List ℕ) (m : Mbuf) (c : Chain) (off len : ℕ)
    → (off == 0) ≡ false
    → ltb off (m_len m) ≡ false
    → m_copydata beyond (m ∷ c) off len ≡ m_copydata beyond c (off - m_len m) len
unfolding m_copydata
copydata_next beyond m c off len later past = rw (later, past) refl

-- Where no mbuf of a packet has a cluster, `m_copydata` copies the `len` bytes from `off` on, if the
-- packet has as many and `off` lies inside it.
pub m_copydata-take :
    (beyond : List ℕ) (m : Mbuf) (c : Chain) (off len : ℕ)
    → NoCluster (m ∷ c)
    → off + len ≤ length (contents (m ∷ c))
    → off < length (contents (m ∷ c))
    → m_copydata beyond (m ∷ c) off len ≡ ok (take len (drop off (contents (m ∷ c))))
m_copydata-take beyond m [] off len (plain, rest) h k =
    copydata_here beyond m [] off len plain h
      (inr (lt→ltb _ _ (omega (arith, length-append m.bytes []))))
m_copydata-take beyond m (n ∷ c) off len (plain, rest) h k = elim (Bool-cases (off == 0)) [
  | inl start ↦ copydata_here beyond m (n ∷ c) off len plain h (inl start)
  | inr later ↦ elim (Bool-cases (ltb off (m_len m))) [
    | inl inside ↦ copydata_here beyond m (n ∷ c) off len plain h (inr inside)
    | inr past ↦
        let whole = length-append m.bytes (contents (n ∷ c)) in
        let le = ltb→le _ _ past in
        copydata_next beyond m (n ∷ c) off len later past
        ∙ m_copydata-take beyond n c (off - m_len m) len rest (omega (arith, whole))
            (omega (arith, whole))
        ∙ ap (λ xs. ok (take len xs)) (sym (drop-append_right off m.bytes (contents (n ∷ c)) le))
  ]
]

-- From an mbuf with a cluster `m_copydata` copies from the start of its data, whatever the offset.
pub m_copydata-cluster :
    (beyond : List ℕ) (m : Mbuf) (c : Chain) (off len : ℕ)
    → m.ext ≡ true
    → off < m_len m
    → m_copydata beyond (m ∷ c) off len ≡ ok (take (min len cl_size) (m.bytes ++ beyond))
unfolding m_copydata copydata_at
m_copydata-cluster beyond m c off len e inside = rw (lt→ltb _ _ inside, e) (ground arith)
