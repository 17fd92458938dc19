-- ===== src/Ext2/Blocks.antt =====
-- `ext2_alloc_block` of Kernel/ext2.c: what the search takes, and the bits of a bitmap.
use native.Mathlib.Nat.{add-mul-div_right}
use shaunos.Base.{
  ℕ, zero, suc, ◌+◌, ◌-◌, ◌*◌, ◌/◌, ◌%◌, ◌^◌, ◌<◌, ◌≤◌, ◌≡◌, ◌≢◌, refl, sym, ◌∙◌, ap, fun_ext,
  arith, Bool, true, false, Option, some, none, List, [], ◌∷◌, ltb, ◌==◌, get_or, set, length,
  if◌then◌else◌, Bool-cases, inl, inr, ==→eq, ==→ne, ltb→lt,
}
use shaunos.Bytes.{Memory}
use shaunos.Ext2.{
  Group, no_group, Fs, read_block, write_block, cut_off, is_set, set_in_use, set_free, first_free,
  alloc_from,
}

-- What the loop over the bits finds.
record Found (m : Memory) (left offset k : ℕ) : Type 0 where
  pub clear : is_set m k ≡ false
  pub low : offset ≤ k
  pub high : k < offset + left

first_free-Found :
    (left : ℕ) (m : Memory) (offset k : ℕ)
    → first_free left m offset ≡ some k
    → Found m left offset k
unfolding first_free
first_free-Found zero m offset k e = cc
first_free-Found (suc left) m offset k e = elim (Bool-cases (is_set m offset)) [
  | inl used ↦
      let later : first_free left m (offset + 1) ≡ some k = rw used at e in
      let rest = first_free-Found left m (offset + 1) k later in
      record { clear = rest.clear; low = omega (arith, rest.low); high = omega (arith, rest.high) }
  | inr clear ↦
      let here : some offset ≡ some k = rw clear at e in
      let same : offset ≡ k = cc in
      rw (← same) (record { clear = clear; low = omega arith; high = omega arith })
]

pow_pos : (k : ℕ) → 0 < 2 ^ k
pow_pos zero = omega arith
pow_pos (suc k) = omega (arith, pow_pos k)

-- a power that is added where its bit is clear
raised : (b p : ℕ) → 0 < p → b / p % 2 == 1 ≡ false → (b + p) / p % 2 == 1 ≡ true
raised b p some_p clear =
    let up : (b + 1 * p) / p ≡ b / p + 1 = add-mul-div_right b 1 some_p in
    let one : 1 * p ≡ p = omega arith in
    let even : b / p % 2 ≢ 1 = ==→ne _ _ clear in
    let next : (b + p) / p ≡ b / p + 1 = rw one at up in
    let odd : (b / p + 1) % 2 == 1 ≡ true = ground (arith, even) in rw next odd

-- a bit that was clear is set, and cleared again
pub set-clear :
    (offset : ℕ) (m : Memory) → is_set m offset ≡ false → set_free offset (set_in_use offset m) ≡ m
unfolding set_free set_in_use
set-clear offset m clear = fun_ext pointwise
  where
    i : ℕ
    i = offset / 8

    p : ℕ
    p = 2 ^ (offset % 8)

    same : i == i ≡ true
    same = ground arith

    up : (m i + p) / p % 2 == 1 ≡ true
    up = raised (m i) p (pow_pos (offset % 8)) clear

    back : m i + p - p ≡ m i
    back = omega arith

    pointwise : (j : ℕ) → set_free offset (set_in_use offset m) j ≡ m j
    pointwise j = elim (Bool-cases (j == i)) [
      | inl here ↦
          let at : j ≡ i = ==→eq _ _ here in rw (here, same, clear, up, back) (sym (ap m at))
      | inr other ↦ rw other refl
    ]

abbrev pub group_at : Fs → ℕ → Group
group_at fs j = get_or fs.groups j no_group

-- what is left when the place `offset` of the group `j` is taken
abbrev pub taken : Fs → ℕ → ℕ → Fs
taken fs j offset =
    write_block (group_at fs j).block_bitmap
      (set_in_use offset (read_block fs (group_at fs j).block_bitmap))
      (record fs {
        groups =
            set fs.groups j
              (record (group_at fs j) { free_block_nums = (group_at fs j).free_block_nums - 1 });
        free_blocks = fs.free_blocks - 1;
      })

abbrev outcome : Fs → ℕ → Option ℕ → Option (ℕ × Fs)
outcome fs j r = elim r [
  | none ↦ none
  | some offset ↦ some (offset + fs.blk_per_group * j, taken fs j offset)
]

-- What an allocation has done: the block is the place `offset` of the group `j`.
pub record Took (fails : ℕ → Bool) (fs : Fs) (block : ℕ) (fs' : Fs) (j offset : ℕ) : Type 0 where
  pub number : offset + fs.blk_per_group * j ≡ block
  pub in_block : offset < fs.blksize * 8
  pub group_in : j < length fs.groups
  pub works : cut_off fails fs (group_at fs j) ≡ false
  pub clear : is_set (read_block fs (group_at fs j).block_bitmap) offset ≡ false
  pub some_free : 0 < (group_at fs j).free_block_nums
  pub after : taken fs j offset ≡ fs'

pub alloc_from-Took :
    (fails : ℕ → Bool) (n i : ℕ) (fs : Fs) (block : ℕ) (fs' : Fs)
    → i + n ≡ length fs.groups
    → alloc_from fails n i fs ≡ some (block, fs')
    → (j : ℕ) × (offset : ℕ) × Took fails fs block fs' j offset
unfolding alloc_from
alloc_from-Took fails zero i fs block fs' len e = cc
alloc_from-Took fails (suc n) i fs block fs' len e =
    elim (Bool-cases (ltb 0 (group_at fs i).free_block_nums)) [
      | inl some_free ↦ elim (Bool-cases (cut_off fails fs (group_at fs i))) [
        | inl broken ↦
            let nothing : outcome fs i none ≡ some (block, fs') = rw (some_free, broken) at e in cc
        | inr works ↦
            from_found some_free works
              (first_free (fs.blksize * 8) (read_block fs (group_at fs i).block_bitmap) 0) refl
              (rw (some_free, works) at e)
      ]
      | inr full ↦ alloc_from-Took fails n (i + 1) fs block fs' (omega arith) (rw full at e)
    ]
  where
    from_found :
        ltb 0 (group_at fs i).free_block_nums ≡ true
        → cut_off fails fs (group_at fs i) ≡ false
        → (r : Option ℕ)
        → first_free (fs.blksize * 8) (read_block fs (group_at fs i).block_bitmap) 0 ≡ r
        → outcome fs i r ≡ some (block, fs')
        → (j : ℕ) × (offset : ℕ) × Took fails fs block fs' j offset
    from_found some_free works none f h = cc
    from_found some_free works (some offset) f h =
        let found = first_free-Found (fs.blksize * 8) _ 0 offset f in
        (
          i,
          offset,
          record {
            number = cc;
            in_block = omega (arith, found.high);
            group_in = omega arith;
            works = works;
            clear = found.clear;
            some_free = ltb→lt _ _ some_free;
            after = cc;
          },
        )

pub set-set : {A : Type 0} (xs : List A) (i : ℕ) (v w : A) → set (set xs i v) i w ≡ set xs i w
set-set [] i v w = refl
set-set (x ∷ xs) zero v w = refl
set-set (x ∷ xs) (suc i) v w = ap (λ ys. x ∷ ys) (set-set xs i v w)

pub set-get_or :
    {A : Type 0} (xs : List A) (i : ℕ) (d : A) → i < length xs → set xs i (get_or xs i d) ≡ xs
set-get_or [] i d h = absurd (omega arith)
set-get_or (x ∷ xs) zero d h = refl
set-get_or (x ∷ xs) (suc i) d h = ap (λ ys. x ∷ ys) (set-get_or xs i d (omega arith))

-- the parts that change are as they were
pub fields-same :
    (fs : Fs) (disk : ℕ → Memory) (groups : List Group) (count : ℕ)
    → disk ≡ fs.disk
    → groups ≡ fs.groups
    → count ≡ fs.free_blocks
    → record fs { disk = disk; groups = groups; free_blocks = count } ≡ fs
fields-same fs disk groups count d g c = rw (d, g, c) refl

-- a block that is written twice, with what it held in the end
pub write-back :
    (disk : ℕ → Memory) (b : ℕ) (m m' : Memory)
    → m' ≡ disk b
    → (λ (c : ℕ). if c == b then m' else if c == b then m else disk c) ≡ disk
write-back disk b m m' e = fun_ext (λ c. elim (Bool-cases (c == b)) [
  | inl here ↦ let at : c ≡ b = ==→eq _ _ here in rw here (e ∙ ap disk (sym at))
  | inr other ↦ rw other refl
])
