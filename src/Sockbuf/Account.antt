-- ===== src/Sockbuf/Account.antt =====
-- `sbappendrecord` and `sbappend` of Kernel/net/uipc_socket2.c: the bytes and the counters of a buffer.
use shaunos.Base.{
  ℕ, ◌==◌, ◌&&◌, not, ◌+◌, ◌%◌, ◌<◌, ◌≡◌, refl, sym, ◌∙◌, ap, arith, Bool, false, Option, none,
  some, List, [], ◌∷◌, ◌++◌, ◌||◌, Bool-cases, inl, inr, length, length-append, append-nil,
  append_assoc,
}
use shaunos.Base.Int.{u32_mod, add32}
use shaunos.Mbuf.{Mbuf, Chain, m_len, contents}
use shaunos.Sockbuf.{
  fits, splat, same_type, Sockbuf, Counts, space_of, sballoc, sbcompress, pass_eor, sbappendrecord,
  as_record, compress_behind, compress_last, ended, last_record, sbappend,
}
use shaunos.Sockbuf.Append.{room, stored, rooms, Accounted, Grows, sbcompress-Grows}

-- `Grows`, for the records of a buffer
pub record AllGrow (rs : List Chain) (bytes : List ℕ) (old : Counts) (rs' : List Chain)
    (new : Counts) : Type 0 where
  pub holds : stored rs' ≡ stored rs ++ bytes
  pub chars : (new.0 + length (stored rs)) % u32_mod ≡ (old.0 + length (stored rs')) % u32_mod
  pub memory : (new.1 + rooms rs) % u32_mod ≡ (old.1 + rooms rs') % u32_mod
  pub cc-fits : new.0 < u32_mod
  pub mbcnt-fits : new.1 < u32_mod

abbrev Fits : Counts → Type 0
Fits counts = (counts.0 < u32_mod) × (counts.1 < u32_mod)

sballoc-Fits : (m : Mbuf) (counts : Counts) → Fits (sballoc m counts)
unfolding sballoc
sballoc-Fits m counts = (omega arith, omega arith)

sbcompress-Fits :
    (eor : Bool) (counts : Counts) (c : Chain) (n : Option Mbuf)
    → Fits counts
    → Fits (sbcompress eor counts c n).1
unfolding sbcompress
sbcompress-Fits eor counts [] n h = h
sbcompress-Fits eor counts (m ∷ c) n h =
    elim (Bool-cases (m_len m == 0 && (not (eor || m.eor) || same_type m.typ n c))) [
      | inl skip ↦ rw skip (sbcompress-Fits (eor || m.eor) counts c n h)
      | inr keep ↦ elim (Bool-cases (fits m n)) [
        | inl room_left ↦
            rw (keep, room_left)
              (sbcompress-Fits (eor || m.eor) (add32 counts.0 (m_len m), counts.1) c (splat m n)
                (omega arith, h.1))
        | inr full ↦
            rw (keep, full)
              (sbcompress-Fits (eor || m.eor) (sballoc m counts) c (some (record m { eor = false }))
                (sballoc-Fits m counts))
      ]
    ]

cons-Grows :
    (m : Mbuf) (base r : Chain) (bytes : List ℕ) (old new : Counts)
    → Grows base bytes old r new
    → Grows (m ∷ base) bytes old (m ∷ r) new
cons-Grows m base r bytes old new g = record {
  holds = ap (λ xs. m.bytes ++ xs) g.holds ∙ sym (append_assoc m.bytes (contents base) bytes);
  chars =
      omega
        (arith, g.chars, length-append m.bytes (contents base), length-append m.bytes (contents r));
  memory = omega (arith, g.memory);
}

compress_behind-Grows :
    (counts : Counts) (c r : Chain)
    → Fits counts
    → let r' = compress_behind counts c r in Grows r (contents c) counts r'.0 r'.1 × Fits r'.1
unfolding compress_behind
compress_behind-Grows counts c [] h =
    (sbcompress-Grows false counts c none, sbcompress-Fits false counts c none h)
compress_behind-Grows counts c (m ∷ []) h =
    (sbcompress-Grows false counts c (some m), sbcompress-Fits false counts c (some m) h)
compress_behind-Grows counts c (m ∷ n ∷ r) h =
    let (g, f) = compress_behind-Grows counts c (n ∷ r) h in
    (cons-Grows m (n ∷ r) _ (contents c) counts _ g, f)

-- A chain that grew, as the last of the records `rs`.
one-AllGrow :
    (r r' : Chain) (bytes : List ℕ) (old new : Counts)
    → Grows r bytes old r' new
    → Fits new
    → AllGrow (r ∷ []) bytes old (r' ∷ []) new
one-AllGrow r r' bytes old new g (f0, f1) = record {
  holds =
      append-nil (contents r') ∙ g.holds ∙ ap (λ xs. xs ++ bytes) (sym (append-nil (contents r)));
  chars = omega (arith, g.chars, length-append (contents r) [], length-append (contents r') []);
  memory = omega (arith, g.memory);
  cc-fits = f0;
  mbcnt-fits = f1;
}

compress_last-AllGrow :
    (counts : Counts) (c : Chain) (rs : List Chain)
    → Fits counts
    → let rs' = compress_last counts c rs in AllGrow rs (contents c) counts rs'.0 rs'.1
unfolding compress_last
compress_last-AllGrow counts c [] h =
    first _ _ (sbcompress-Grows false counts c none) (sbcompress-Fits false counts c none h)
  where
    first :
        (r : Chain) (new : Counts)
        → Grows [] (contents c) counts r new
        → Fits new
        → AllGrow [] (contents c) counts (as_record r) new
    first [] new g (f0, f1) = record {
      holds = g.holds;
      chars = g.chars;
      memory = g.memory;
      cc-fits = f0;
      mbcnt-fits = f1;
    }
    first (m ∷ r) new g (f0, f1) = record {
      holds = append-nil (contents (m ∷ r)) ∙ g.holds;
      chars = omega (arith, g.chars, length-append (contents (m ∷ r)) []);
      memory = omega (arith, g.memory);
      cc-fits = f0;
      mbcnt-fits = f1;
    }
compress_last-AllGrow counts c (r ∷ []) h =
    let (g, f) = compress_behind-Grows counts c r h in one-AllGrow r _ (contents c) counts _ g f
compress_last-AllGrow counts c (r ∷ s ∷ rs) h =
    let g = compress_last-AllGrow counts c (s ∷ rs) h in
    let rest = compress_last counts c (s ∷ rs) in
    record {
      holds =
          ap (λ xs. contents r ++ xs) g.holds
          ∙ sym (append_assoc (contents r) (stored (s ∷ rs)) (contents c));
      chars = omega (
        arith,
        g.chars,
        length-append (contents r) (stored (s ∷ rs)),
        length-append (contents r) (stored rest.0),
      );
      memory = omega (arith, g.memory);
      cc-fits = g.cc-fits;
      mbcnt-fits = g.mbcnt-fits;
    }

stored-append : (rs : List Chain) (r : Chain) → stored (rs ++ r ∷ []) ≡ stored rs ++ contents r
stored-append [] r = append-nil (contents r)
stored-append (s ∷ rs) r =
    ap (λ xs. contents s ++ xs) (stored-append rs r)
    ∙ sym (append_assoc (contents s) (stored rs) (contents r))

rooms-append : (rs : List Chain) (r : Chain) → rooms (rs ++ r ∷ []) ≡ rooms rs + room r
rooms-append [] r = omega arith
rooms-append (s ∷ rs) r = omega (arith, rooms-append rs r)

-- What moves the mark of the end of a record keeps the bytes and the charge of both parts.
abbrev Passed : Mbuf → Chain → Mbuf × Chain → Type 0
Passed m c (m', c') = (m'.bytes ≡ m.bytes) × (space_of m' ≡ space_of m) × (contents c' ≡ contents c)

pass_eor-Passed : (m : Mbuf) (c : Chain) → Passed m c (pass_eor m c)
unfolding pass_eor
pass_eor-Passed m [] = (refl, refl, refl)
pass_eor-Passed m (n ∷ c) = elim (Bool-cases m.eor) [
  | inl e ↦ rw e (refl, refl, refl)
  | inr e ↦ rw e (refl, refl, refl)
]

-- The effect of an append: the bytes come behind what is stored, and the counters are right.
pub record Appended (sb : Sockbuf) (c : Chain) (sb' : Sockbuf) : Type 0 where
  pub holds : stored sb'.mb ≡ stored sb.mb ++ contents c
  pub right : Accounted sb'

pub record NewRecord (sb : Sockbuf) (c : Chain) (sb' : Sockbuf) : Type 0 where
  pub last : Chain
  pub behind : sb'.mb ≡ sb.mb ++ last ∷ []
  pub bytes : contents last ≡ contents c
  pub right : Accounted sb'

-- `sbappendrecord` puts one record with the bytes of the chain behind the others, which stay as they
-- were, and the counters are again those of the records.
pub sbappendrecord-NewRecord :
    (sb : Sockbuf) (m : Mbuf) (c : Chain)
    → Accounted sb
    → NewRecord sb (m ∷ c) (sbappendrecord sb (m ∷ c))
unfolding sbappendrecord sballoc
sbappendrecord-NewRecord sb m0 c a =
    let (m, c') = pass_eor m0 c in
    let (same_bytes, same_space, same_rest) = pass_eor-Passed m0 c in
    let counts = sballoc m0 (sb.cc, sb.mbcnt) in
    let r = sbcompress false counts c' (some m) in
    let g = sbcompress-Grows false counts c' (some m) in
    let (f0, f1) = sbcompress-Fits false counts c' (some m) (sballoc-Fits m0 (sb.cc, sb.mbcnt)) in
    let whole : contents r.0 ≡ contents (m0 ∷ c) =
      g.holds
      ∙ ap (λ xs. xs ++ contents c') (append-nil m.bytes ∙ same_bytes)
      ∙ ap (λ xs. m0.bytes ++ xs) same_rest in
    record {
      last = r.0;
      behind = refl;
      bytes = whole;
      right = record {
        cc-eq = omega (
          arith,
          g.chars,
          a.cc-eq,
          f0,
          length-append m.bytes [],
          ap length same_bytes,
          length-append (stored sb.mb) (contents r.0),
          ap length (stored-append sb.mb r.0),
        );
        mbcnt-eq = omega (arith, g.memory, a.mbcnt-eq, f1, same_space, rooms-append sb.mb r.0);
      };
    }

-- `sbappend` leaves the bytes of the chain behind those that are stored, whatever mbufs it joins or
-- frees, and the counters are again those of the records.
pub sbappend-Appended : (sb : Sockbuf) (c : Chain) → Accounted sb → Appended sb c (sbappend sb c)
unfolding sbappend
sbappend-Appended sb [] a = record { holds = sym (append-nil (stored sb.mb)); right = a }
sbappend-Appended sb (m ∷ c) a = elim (Bool-cases (ended (last_record sb.mb))) [
  | inl over ↦
      let n = sbappendrecord-NewRecord sb m c a in
      rw over (record {
        holds =
            ap stored n.behind ∙ stored-append sb.mb n.last ∙ ap (λ xs. stored sb.mb ++ xs) n.bytes;
        right = n.right;
      })
  | inr open_end ↦
      let g =
        compress_last-AllGrow (sb.cc, sb.mbcnt) (m ∷ c) sb.mb
          (omega (arith, a.cc-eq), omega (arith, a.mbcnt-eq)) in
      rw open_end (record {
        holds = g.holds;
        right = record {
          cc-eq = omega (arith, g.chars, a.cc-eq, g.cc-fits);
          mbcnt-eq = omega (arith, g.memory, a.mbcnt-eq, g.mbcnt-fits);
        };
      })
]
