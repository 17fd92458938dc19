-- ===== src/Sockbuf/Append.antt =====
-- `sbcompress`, `sbappendrecord` and `sbappend` of Kernel/net/uipc_socket2.c.
use shaunos.Base.{
  ℕ, ◌+◌, ◌%◌, ◌≡◌, refl, sym, ◌∙◌, ap, arith, Bool, true, false, Option, none, some, List, [], ◌∷◌,
  ◌++◌, ◌==◌, ◌&&◌, ◌||◌, not, Bool-cases, inl, inr, ==→eq, length, length-append, append-nil,
  append_assoc,
}
use shaunos.Base.Int.{u32_mod, add32}
use shaunos.Mbuf.{Mbuf, Chain, m_len, contents}
use shaunos.Sockbuf.{
  Sockbuf, Counts, space_of, sballoc, same_type, fits, splat, chain_of, mark_eor, sbcompress,
}

-- the bytes of memory that a chain and all records are charged for
abbrev pub room : Chain → ℕ
room [] = 0
room (m ∷ c) = space_of m + room c

abbrev pub stored : List Chain → List ℕ
stored [] = []
stored (r ∷ rs) = contents r ++ stored rs

abbrev pub rooms : List Chain → ℕ
rooms [] = 0
rooms (r ∷ rs) = room r + rooms rs

-- The counters of a buffer are those of its records.
pub record Accounted (sb : Sockbuf) : Type 0 where
  pub cc-eq : sb.cc ≡ length (stored sb.mb) % u32_mod
  pub mbcnt-eq : sb.mbcnt ≡ rooms sb.mb % u32_mod

-- The chain `r` holds what `base` holds and `bytes`, and the counters have moved by the difference.
pub record Grows (base : Chain) (bytes : List ℕ) (old : Counts) (r : Chain) (new : Counts)
    : Type 0 where
  pub holds : contents r ≡ contents base ++ bytes
  pub chars : (new.0 + length (contents base)) % u32_mod ≡ (old.0 + length (contents r)) % u32_mod
  pub memory : (new.1 + room base) % u32_mod ≡ (old.1 + room r) % u32_mod

empty : (xs : List ℕ) → length xs ≡ 0 → xs ≡ []
empty [] h = refl
empty (x ∷ xs) h = absurd (omega (arith, h))

room-append : (c d : Chain) → room (c ++ d) ≡ room c + room d
room-append [] d = omega arith
room-append (m ∷ c) d = omega (arith, room-append c d)

contents-append : (c d : Chain) → contents (c ++ d) ≡ contents c ++ contents d
contents-append [] d = refl
contents-append (m ∷ c) d =
    ap (λ xs. m.bytes ++ xs) (contents-append c d)
    ∙ sym (append_assoc m.bytes (contents c) (contents d))

mark_eor-Grows :
    (eor : Bool) (n : Option Mbuf) (counts : Counts)
    → Grows (chain_of n) [] counts (chain_of (mark_eor eor n)) counts
unfolding mark_eor
mark_eor-Grows eor none counts = record { holds = refl; chars = refl; memory = refl }
mark_eor-Grows true (some n) counts = record {
  holds = sym (append-nil (n.bytes ++ []));
  chars = refl;
  memory = refl;
}
mark_eor-Grows false (some n) counts = record {
  holds = sym (append-nil (n.bytes ++ []));
  chars = refl;
  memory = refl;
}

splat-Grows :
    (m : Mbuf) (c r : Chain) (n : Option Mbuf) (old new : Counts)
    → fits m n ≡ true
    → Grows (chain_of (splat m n)) (contents c) (add32 old.0 (m_len m), old.1) r new
    → Grows (chain_of n) (contents (m ∷ c)) old r new
unfolding fits splat
splat-Grows m c r none old new h g = absurd (no h)
  where
    no : false ≡ true → ⊥
    no e = cc
splat-Grows m c r (some n) old new h g = record {
  holds =
      g.holds
      ∙ ap (λ xs. xs ++ contents c) (append-nil (n.bytes ++ m.bytes))
      ∙ append_assoc n.bytes m.bytes (contents c)
      ∙ ap (λ xs. xs ++ (m.bytes ++ contents c)) (sym (append-nil n.bytes));
  chars = omega (
    arith,
    g.chars,
    length-append (n.bytes ++ m.bytes) [],
    length-append n.bytes m.bytes,
    length-append n.bytes [],
  );
  memory = g.memory;
}

linked-Grows :
    (m m' : Mbuf) (c r : Chain) (n : Option Mbuf) (old new : Counts)
    → m'.bytes ≡ m.bytes
    → m'.ext ≡ m.ext
    → Grows (m' ∷ []) (contents c) (sballoc m old) r new
    → Grows (chain_of n) (contents (m ∷ c)) old (chain_of n ++ r) new
unfolding sballoc
linked-Grows m m' c r n old new same_bytes same_ext g =
    let same_space : space_of m' ≡ space_of m = rw same_ext refl in
    let tail : contents r ≡ m.bytes ++ contents c =
      g.holds ∙ ap (λ xs. xs ++ contents c) (append-nil m'.bytes ∙ same_bytes) in
    let same_len : length (m'.bytes ++ []) ≡ length m.bytes =
      ap length (append-nil m'.bytes ∙ same_bytes) in
    record {
      holds = contents-append (chain_of n) r ∙ ap (λ xs. contents (chain_of n) ++ xs) tail;
      chars = omega (
        arith,
        g.chars,
        same_len,
        length-append (contents (chain_of n)) (contents r),
        ap length (contents-append (chain_of n) r),
      );
      memory = omega (arith, g.memory, same_space, room-append (chain_of n) r);
    }

skipped-Grows :
    (m : Mbuf) (c r base : Chain) (old new : Counts)
    → m_len m ≡ 0
    → Grows base (contents c) old r new
    → Grows base (contents (m ∷ c)) old r new
skipped-Grows m c r base old new none_in g = record {
  holds = g.holds ∙ ap (λ xs. contents base ++ (xs ++ contents c)) (sym (empty m.bytes none_in));
  chars = g.chars;
  memory = g.memory;
}

pub sbcompress-Grows :
    (eor : Bool) (counts : Counts) (c : Chain) (n : Option Mbuf)
    → let r = sbcompress eor counts c n in Grows (chain_of n) (contents c) counts r.0 r.1
unfolding sbcompress
sbcompress-Grows eor counts [] n = mark_eor-Grows eor n counts
sbcompress-Grows eor counts (m ∷ c) n =
    let eor' = eor || m.eor in
    elim (Bool-cases (m_len m == 0 && (not eor' || same_type m.typ n c))) [
      | inl skip ↦ rw skip (
          skipped-Grows m c _ (chain_of n) counts _ (==→eq _ _ (first _ _ skip))
            (sbcompress-Grows eor' counts c n))
      | inr keep ↦ elim (Bool-cases (fits m n)) [
        | inl room_left ↦
            rw (keep, room_left)
              (splat-Grows m c _ n counts _ room_left
                (sbcompress-Grows eor' (add32 counts.0 (m_len m), counts.1) c (splat m n)))
        | inr full ↦
            rw (keep, full)
              (linked-Grows m (record m { eor = false }) c _ n counts _ refl refl
                (sbcompress-Grows eor' (sballoc m counts) c (some (record m { eor = false }))))
      ]
    ]
  where
    first : (a b : Bool) → (a && b) ≡ true → a ≡ true
    first true b h = refl
    first false b h = h
