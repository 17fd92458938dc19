-- ===== src/Sockbuf/Drop.antt =====
-- `sbdrop` and `sbdroprecord` of Kernel/net/uipc_socket2.c.
use shaunos.Base.{
  ℕ, ltb, ◌==◌, ◌+◌, ◌-◌, ◌%◌, ◌<◌, ◌≤◌, ◌≡◌, ◌≢◌, refl, sym, ◌∙◌, ap, arith, false, List, [], ◌∷◌,
  ◌++◌, Bool-cases, inl, inr, length, length-append, append_assoc, drop, drop-append, drop_all,
  length-drop, ==→eq, ==→ne, ne→==, ltb→lt, ltb→le,
}
use shaunos.Base.Int.{u32_mod, sub32}
use shaunos.Base.Fault.{Result, ok}
use shaunos.Mbuf.{Mbuf, Chain, m_len, contents}
use shaunos.Sockbuf.{
  Sockbuf, Counts, space_of, sbfree, counted, skip_empty, finish, drop_chain, drop_records, sbdrop,
}
use shaunos.Sockbuf.Append.{stored, rooms, Accounted}

-- The records `rs'` hold what `rs` hold behind the first `n` bytes, and the counters have moved by the
-- difference.
record Shrinks (rs : List Chain) (n : ℕ) (old : Counts) (rs' : List Chain) (new : Counts)
    : Type 0 where
  pub holds : stored rs' ≡ drop n (stored rs)
  pub chars : (new.0 + length (stored rs)) % u32_mod ≡ (old.0 + length (stored rs')) % u32_mod
  pub memory : (new.1 + rooms rs) % u32_mod ≡ (old.1 + rooms rs') % u32_mod
  pub cc-fits : new.0 < u32_mod
  pub mbcnt-fits : new.1 < u32_mod

abbrev Fits : Counts → Type 0
Fits counts = (counts.0 < u32_mod) × (counts.1 < u32_mod)

sbfree-Fits : (m : Mbuf) (counts : Counts) → Fits (sbfree m counts)
unfolding sbfree
sbfree-Fits m counts = (omega arith, omega arith)

space-bound : (m : Mbuf) → space_of m ≤ 4096
space-bound m = elim (Bool-cases m.ext) [ inl e ↦ rw e (omega arith) | inr e ↦ rw e (omega arith) ]

no_bytes : (xs : List ℕ) → length xs ≡ 0 → xs ≡ []
no_bytes [] h = refl
no_bytes (x ∷ xs) h = absurd (omega (arith, h))

-- An mbuf that is freed takes its bytes along, which are among the first `n`.
free-Shrinks :
    (m : Mbuf) (c : Chain) (next rs' : List Chain) (n : ℕ) (old new : Counts)
    → m_len m ≤ n
    → m_len m < u32_mod
    → Shrinks (c ∷ next) (n - m_len m) (sbfree m old) rs' new
    → Shrinks ((m ∷ c) ∷ next) n old rs' new
unfolding sbfree
free-Shrinks m c next rs' n old new le small s =
    let assoc : stored ((m ∷ c) ∷ next) ≡ m.bytes ++ stored (c ∷ next) =
      append_assoc m.bytes (contents c) (stored next) in
    let len : length (stored ((m ∷ c) ∷ next)) ≡ m_len m + length (stored (c ∷ next)) =
      ap length assoc ∙ length-append m.bytes (stored (c ∷ next)) in
    record {
      holds =
          s.holds
          ∙ sym (
              ap (drop n) assoc
              ∙ drop-append n m.bytes (stored (c ∷ next))
              ∙ ap (λ xs. xs ++ drop (n - m_len m) (stored (c ∷ next))) (drop_all n m.bytes le));
      chars = omega (arith, s.chars, len, s.cc-fits, small);
      memory = omega (arith, s.memory, s.mbcnt-fits, space-bound m);
      cc-fits = s.cc-fits;
      mbcnt-fits = s.mbcnt-fits;
    }

-- The counters stay where they are when nothing is freed.
finish-Shrinks :
    (counts : Counts) (c : Chain) (next : List Chain)
    → Fits counts
    → Shrinks (c ∷ next) 0 counts (finish counts c next).0 (finish counts c next).1
unfolding skip_empty
finish-Shrinks counts [] next (f0, f1) = record {
  holds = refl;
  chars = refl;
  memory = omega arith;
  cc-fits = f0;
  mbcnt-fits = f1;
}
finish-Shrinks counts (m ∷ c) next h = elim (Bool-cases (m_len m == 0)) [
  | inl none_in ↦
      let z : m_len m ≡ 0 = ==→eq _ _ none_in in
      rw none_in (
        free-Shrinks m c next _ 0 counts _ (omega (arith, z)) (omega (arith, z)) (
          at_zero (m_len m) (sbfree m counts)
            (finish-Shrinks (sbfree m counts) c next (sbfree-Fits m counts))))
  | inr some_in ↦
      rw some_in
        (record { holds = refl; chars = refl; memory = refl; cc-fits = h.0; mbcnt-fits = h.1 })
]
  where
    at_zero :
        (k : ℕ) (old : Counts)
        → Shrinks (c ∷ next) 0 old (finish old c next).0 (finish old c next).1
        → Shrinks (c ∷ next) (0 - k) old (finish old c next).0 (finish old c next).1
    at_zero k old s = let e : 0 - k ≡ 0 = omega arith in rw e s

-- Bytes dropped from the front of an mbuf, whose place moves up.
part-Shrinks :
    (m m' : Mbuf) (c : Chain) (next rs' : List Chain) (n : ℕ) (old new : Counts)
    → n < m_len m
    → m_len m < u32_mod
    → m'.bytes ≡ drop n m.bytes
    → m'.ext ≡ m.ext
    → Shrinks ((m' ∷ c) ∷ next) 0 (sub32 old.0 n, old.1) rs' new
    → Shrinks ((m ∷ c) ∷ next) n old rs' new
part-Shrinks m m' c next rs' n old new lt small same_bytes same_ext s =
    let rest = contents c ++ stored next in
    let assoc : stored ((m ∷ c) ∷ next) ≡ m.bytes ++ rest =
      append_assoc m.bytes (contents c) (stored next) in
    let assoc' : stored ((m' ∷ c) ∷ next) ≡ m'.bytes ++ rest =
      append_assoc m'.bytes (contents c) (stored next) in
    let none_left : n - m_len m ≡ 0 = omega arith in
    let split : drop n (m.bytes ++ rest) ≡ m'.bytes ++ rest =
      drop-append n m.bytes rest
      ∙ ap (λ k. drop n m.bytes ++ drop k rest) none_left
      ∙ ap (λ xs. xs ++ rest) (sym same_bytes) in
    let same_space : space_of m' ≡ space_of m = rw same_ext refl in
    let len : length m'.bytes ≡ m_len m - n = ap length same_bytes ∙ length-drop n m.bytes in
    record {
      holds = s.holds ∙ assoc' ∙ sym (ap (drop n) assoc ∙ split);
      chars = omega (
        arith,
        s.chars,
        s.cc-fits,
        small,
        len,
        ap length assoc,
        ap length assoc',
        length-append m.bytes rest,
        length-append m'.bytes rest,
      );
      memory = omega (arith, s.memory, same_space);
      cc-fits = s.cc-fits;
      mbcnt-fits = s.mbcnt-fits;
    }

-- The result of dropping `n` bytes from the records `rs`.
abbrev Drops : List Chain → ℕ → Counts → Result (List Chain × Counts) → Type 0
Drops rs n old r =
    (rs' : List Chain) × (new : Counts) × (r ≡ ok (rs', new)) × Shrinks rs n old rs' new

drop_chain-Drops :
    (go : ℕ → Counts → Result (List Chain × Counts)) (n : ℕ) (counts : Counts) (c : Chain)
    (next : List Chain)
    → ((k : ℕ) (old : Counts)
        → Fits old
        → k ≢ 0
        → k ≤ length (stored next)
        → Drops next k old (go k old))
    → Fits counts
    → length (stored (c ∷ next)) < u32_mod
    → n ≤ length (stored (c ∷ next))
    → Drops (c ∷ next) n counts (drop_chain go n counts c next)
unfolding drop_chain
drop_chain-Drops go n counts [] next h f small le = elim (Bool-cases (n == 0)) [
  | inl z ↦ let s = finish-Shrinks counts [] next f in rw (==→eq _ _ z) (next, counts, refl, s)
  | inr nz ↦
      let (rs', new, run, s) = h n counts f (==→ne _ _ nz) le in
      (
        rs',
        new,
        (rw nz run),
        record {
          holds = s.holds;
          chars = s.chars;
          memory = omega (arith, s.memory);
          cc-fits = s.cc-fits;
          mbcnt-fits = s.mbcnt-fits;
        },
      )
]
drop_chain-Drops go n counts (m ∷ c) next h f small le =
    let len : length (stored ((m ∷ c) ∷ next)) ≡ m_len m + length (stored (c ∷ next)) =
      ap length (append_assoc m.bytes (contents c) (stored next))
      ∙ length-append m.bytes (stored (c ∷ next)) in
    elim (Bool-cases (n == 0)) [
      | inl z ↦ rw (==→eq _ _ z) (_, _, refl, finish-Shrinks counts (m ∷ c) next f)
      | inr nz ↦ elim (Bool-cases (ltb n (m_len m))) [
        | inl part ↦
            let m' : Mbuf = record m { bytes = drop n m.bytes; data_off = m.data_off + n } in
            let less : Counts = (sub32 counts.0 n, counts.1) in
            (
              _,
              _,
              (rw (nz, part) refl),
              part-Shrinks m m' c next _ n counts _ (ltb→lt _ _ part) (omega (arith, small, len))
                  refl refl (finish-Shrinks less (m' ∷ c) next (omega arith, f.1)),
            )
        | inr whole ↦
            let (rs', new, run, s) =
              drop_chain-Drops go (n - m_len m) (sbfree m counts) c next h (sbfree-Fits m counts)
                (omega (arith, small, len)) (omega (arith, le, len)) in
            (
              rs',
              new,
              (rw (nz, whole) run),
              free-Shrinks m c next rs' n counts new (ltb→le _ _ whole) (omega (arith, small, len))
                  s,
            )
      ]
    ]

drop_records-Drops :
    (rs : List Chain) (n : ℕ) (counts : Counts)
    → Fits counts
    → n ≢ 0
    → length (stored rs) < u32_mod
    → n ≤ length (stored rs)
    → Drops rs n counts (drop_records rs n counts)
unfolding drop_records
drop_records-Drops [] n counts f nz small le = absurd (omega (arith, nz, le))
drop_records-Drops (c ∷ next) n counts f nz small le =
    let len = length-append (contents c) (stored next) in
    drop_chain-Drops (drop_records next) n counts c next
      (λ k old g nz' le'. drop_records-Drops next k old g nz' (omega (arith, small, len)) le') f
      small le

-- What `sbdrop` does to a buffer.
pub record Dropped (sb : Sockbuf) (n : ℕ) (sb' : Sockbuf) : Type 0 where
  pub holds : stored sb'.mb ≡ drop n (stored sb.mb)
  pub right : Accounted sb'

-- `sbdrop` of a positive number of bytes, no more than the buffer holds, takes them from the front,
-- wherever the bounds of mbufs and records lie; the counters are again those of the records. It does not
-- panic.
pub sbdrop-Dropped :
    (sb : Sockbuf) (n : ℕ)
    → Accounted sb
    → length (stored sb.mb) < u32_mod
    → n ≢ 0
    → n ≤ length (stored sb.mb)
    → (sb' : Sockbuf) × (sbdrop sb n ≡ ok sb') × Dropped sb n sb'
unfolding sbdrop
sbdrop-Dropped sb n a small nz le =
    let some_n : (n == 0) ≡ false = ne→== _ _ nz in
    let (rs', new, run, s) =
      drop_records-Drops sb.mb n (sb.cc, sb.mbcnt)
        (omega (arith, a.cc-eq), omega (arith, a.mbcnt-eq)) nz small le in
    (
      counted sb new rs',
      (rw (some_n, run) refl),
      record {
        holds = s.holds;
        right = record {
          cc-eq = omega (arith, s.chars, a.cc-eq, s.cc-fits);
          mbcnt-eq = omega (arith, s.memory, a.mbcnt-eq, s.mbcnt-fits);
        };
      },
    )
