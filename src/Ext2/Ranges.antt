-- ===== src/Ext2/Ranges.antt =====
-- `ext2_inode_rw_real_block` of Kernel/ext2.c: the ranges of the numbers of blocks of a file.
use native.Mathlib.Nat.{one-le-mul, mul_assoc, div-add-mod', mod-lt, div-lt_iff_lt-mul, add-mul}
use shaunos.Base.{
  ℕ, ◌+◌, ◌-◌, ◌*◌, ◌/◌, ◌%◌, ◌<◌, ◌≡◌, refl, arith, Bool, true, some, List, [], ◌∷◌, ltb, ◌&&◌,
  if◌then◌else◌, Bool-cases, inl, inr, ltb→lt, ltb→le, lt→ltb, length,
}
use shaunos.Ext2.{singly_end, doubly_end, triply_end, path_of}

-- the number that a list of places in blocks of `e` words stands for
abbrev pub place_value : ℕ → ℕ → List ℕ → ℕ
place_value e n [] = n
place_value e n (i ∷ is) = place_value e (n * e + i) is

-- the first number of the range that the slot `s` of `i_block` leads to
abbrev pub first_of : ℕ → ℕ → ℕ
first_of e s =
    if ltb s 12 then s else if ltb s 13 then 12 else if ltb s 14 then singly_end e else doubly_end e

abbrev pub all_below : ℕ → List ℕ → Bool
all_below e [] = true
all_below e (i ∷ is) = ltb i e && all_below e is

-- how many blocks lead on from the slot `s`
abbrev pub level : ℕ → ℕ
level s = if ltb s 12 then 0 else s - 11

-- What `path_of` finds for the block `n` of a file.
pub record PathTo (e n : ℕ) (r : ℕ × List ℕ) : Type 0 where
  pub slot : r.0 < 15
  pub depth : length r.1 ≡ level r.0
  pub below : all_below e r.1 ≡ true
  pub number : first_of e r.0 + place_value e 0 r.1 ≡ n

digits_two :
    (e a : ℕ)
    → 0 < e
    → a < e * e
    → (a / e < e) × (a - a / e * e < e) × (a / e * e + (a - a / e * e) ≡ a)
digits_two e a some_e h =
    let whole = div-add-mod' a e in
    let rest = mod-lt a some_e in
    let left : a - a / e * e ≡ a % e = omega arith in
    ((div-lt_iff_lt-mul some_e).1 h, omega arith, omega arith)

digits_three :
    (e a : ℕ)
    → 0 < e
    → a < e * e * e
    → (a / (e * e) < e)
      × (a - a / (e * e) * e * e < e * e)
      × (a / (e * e) * e * e + (a - a / (e * e) * e * e) ≡ a)
digits_three e a some_e h =
    let some_square : 0 < e * e = one-le-mul (omega arith) (omega arith) in
    let cube : e * e * e ≡ e * (e * e) = mul_assoc e e e in
    let (high, low, whole) : (a / (e * e) < e)
        × (a - a / (e * e) * (e * e) < e * e)
        × (a / (e * e) * (e * e) + (a - a / (e * e) * (e * e)) ≡ a) =
      (
        let (there, back) = div-lt_iff_lt-mul {x = a} {y = e} some_square in
            back (omega (arith, cube)),
        omega (arith, div-add-mod' a (e * e), mod-lt a some_square),
        omega (arith, div-add-mod' a (e * e)),
      ) in
    rw (mul_assoc (a / (e * e)) e e) (high, low, whole)

-- Every block number below the end of the ranges has a path: a slot of `i_block`, as many places as the
-- slot has levels of indirection, each of them in its block, and the number that they stand for, counted
-- from the first of the slot's range, is the one it was made for. So two blocks of a file never share an
-- entry.
pub path_of-PathTo :
    (e n : ℕ) → 0 < e → n < triply_end e → (r : ℕ × List ℕ) × (path_of e n ≡ some r) × PathTo e n r
unfolding path_of
path_of-PathTo e n some_e h = elim (Bool-cases (ltb n 12)) [
  | inl direct ↦ (
    (n, []),
    rw direct refl,
    record {
      slot = omega (arith, ltb→lt _ _ direct);
      depth = rw direct refl;
      below = refl;
      number = rw direct (omega arith);
    },
  )
  | inr h0 ↦ elim (Bool-cases (ltb n (singly_end e))) [
    | inl one ↦ (
      (12, (n - 12) ∷ []),
      rw (h0, one) refl,
      record {
        slot = omega arith;
        depth = refl;
        below = ground (arith, ltb→lt _ _ one, ltb→le _ _ h0);
        number = omega (arith, ltb→le _ _ h0);
      },
    )
    | inr h1 ↦ elim (Bool-cases (ltb n (doubly_end e))) [
      | inl two ↦
          let a = n - singly_end e in
          let (q, r, whole) =
            digits_two e a some_e (omega (arith, ltb→lt _ _ two, ltb→le _ _ h1)) in
          (
            (13, a / e ∷ (a - a / e * e) ∷ []),
            rw (h0, h1, two) refl,
            record {
              slot = omega arith;
              depth = refl;
              below = (let low = lt→ltb _ _ q in let high = lt→ltb _ _ r in rw (low, high) refl);
              number = omega (arith, whole, ltb→le _ _ h1);
            },
          )
      | inr h2 ↦
          let a = n - doubly_end e in
          let c = a - a / (e * e) * e * e in
          let (q, r, whole) = digits_three e a some_e (omega (arith, h, ltb→le _ _ h2)) in
          let (q', r', whole') = digits_two e c some_e r in
          let three : ltb n (triply_end e) ≡ true = lt→ltb _ _ h in
          (
            (14, a / (e * e) ∷ c / e ∷ (c - c / e * e) ∷ []),
            rw (h0, h1, h2, three) refl,
            record {
              slot = omega arith;
              depth = refl;
              below =
                  (let b = lt→ltb _ _ q in
                    let d = lt→ltb _ _ q' in let f = lt→ltb _ _ r' in rw (b, d, f) refl);
              number =
                  omega (arith, whole, whole', ltb→le _ _ h2, add-mul (a / (e * e) * e) (c / e) e);
            },
          )
    ]
  ]
]
