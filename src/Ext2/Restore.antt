-- ===== src/Ext2/Restore.antt =====
-- `ext2_alloc_block` and `ext2_free_block` of Kernel/ext2.c together.
use native.Mathlib.Nat.{add-mul-div_left, div-eq_of_lt, mul_comm, zero-add}
use shaunos.Base.{
  ℕ, zero, suc, ◌+◌, ◌-◌, ◌*◌, ◌/◌, ◌<◌, ◌≤◌, ◌≡◌, ◌≢◌, refl, sym, ◌∙◌, ap, ap₂, arith, Bool, true,
  false, some, ltb, ◌==◌, get_or, set, length, get_or-set_self, Bool-cases, inl, inr, ltb→lt,
  ltb→le,
}
use shaunos.Bytes.{Memory}
use shaunos.Ext2.{
  no_group, Fs, sector, read_block, cut_off, is_set, set_in_use, first_free, alloc_from,
  alloc_block, free_block,
}
use shaunos.Ext2.Blocks.{
  set-clear, group_at, taken, Took, alloc_from-Took, set-set, set-get_or, fields-same, write-back,
}

-- where the block that was taken is found again
same_place :
    (offset per j first : ℕ)
    → offset < per
    → first ≡ 0
    → ((offset + per * j - first) / per ≡ j) × (offset + per * j - j * per ≡ offset)
same_place offset per j first low zero_based =
    let some_per : 0 < per = omega arith in
    let whole : offset + per * j - first ≡ offset + per * j = omega arith in
    let quotient : (offset + per * j) / per ≡ offset / per + j =
      add-mul-div_left offset j some_per in
    let none_over : offset / per ≡ 0 = div-eq_of_lt low in
    let turned : j * per ≡ per * j = mul_comm j per in
    (
      ap (λ n. n / per) whole ∙ quotient ∙ ap (λ n. n + j) none_over ∙ zero-add j,
      omega (arith, turned),
    )

free_block-taken :
    (fails : ℕ → Bool) (fs : Fs) (block : ℕ) (fs' : Fs) (j offset : ℕ)
    → fs.first_data_block ≡ 0
    → fs.blk_per_group ≡ fs.blksize * 8
    → 0 < fs.free_blocks
    → Took fails fs block fs' j offset
    → free_block fails (offset + fs.blk_per_group * j) (taken fs j offset) ≡ some fs
unfolding free_block
free_block-taken fails fs block fs' j offset zero_based whole some_free took =
    let (at_group, at_offset) =
      same_place offset fs.blk_per_group j fs.first_data_block (omega (arith, took.in_block, whole))
        zero_based in
    let g = group_at fs j in
    let b = sector fs g.block_bitmap in
    let there : get_or (taken fs j offset).groups j no_group
        ≡ record g { free_block_nums = g.free_block_nums - 1 } =
      get_or-set_self fs.groups j _ no_group took.group_in in
    let same : b == b ≡ true = ground arith in
    let cleared = set-clear offset (fs.disk b) took.clear in
    let count : g.free_block_nums - 1 + 1 ≡ g.free_block_nums = omega (arith, took.some_free) in
    let groups : set (set fs.groups j (record g { free_block_nums = g.free_block_nums - 1 })) j
          (record g { free_block_nums = g.free_block_nums - 1 + 1 })
        ≡ fs.groups =
      set-set fs.groups j _ _ ∙ rw count (set-get_or fs.groups j no_group took.group_in) in
    let disk = write-back fs.disk b (set_in_use offset (fs.disk b)) _ cleared in
    simp (at_group, at_offset, there, took.works, same)
      (ap (λ f. some f) (fields-same fs _ _ _ disk groups (omega (arith, some_free))))

first_free-finds :
    (left : ℕ) (m : Memory) (offset k : ℕ)
    → offset ≤ k
    → k < offset + left
    → is_set m k ≡ false
    → (r : ℕ) × (first_free left m offset ≡ some r)
unfolding first_free
first_free-finds zero m offset k low high clear = absurd (omega arith)
first_free-finds (suc left) m offset k low high clear = elim (Bool-cases (is_set m offset)) [
  | inl used ↦
      let other : k ≢ offset =
        λ e. (let off : true ≡ false = sym used ∙ ap (is_set m) (sym e) ∙ clear in cc) in
      let (r, e) =
        first_free-finds left m (offset + 1) k (omega (arith, other)) (omega arith) clear in
      (r, rw used e)
  | inr free ↦ (offset, rw free refl)
]

-- The counts of the groups are true to their bitmaps, these can be read and written, and the table of the
-- descriptors can be written.
pub record IsTrue (fails : ℕ → Bool) (fs : Fs) : Type 0 where
  pub works :
      (i : ℕ)
      → 0 < (group_at fs i).free_block_nums
      → fails (sector fs (group_at fs i).block_bitmap) ≡ false
  pub table : fails (sector fs fs.first_block_group_no) ≡ false
  pub place : ℕ → ℕ
  pub inside : (i : ℕ) → 0 < (group_at fs i).free_block_nums → place i < fs.blksize * 8
  pub clear :
      (i : ℕ)
      → 0 < (group_at fs i).free_block_nums
      → is_set (read_block fs (group_at fs i).block_bitmap) (place i) ≡ false

alloc_from-finds :
    (fails : ℕ → Bool) (n i j : ℕ) (fs : Fs)
    → IsTrue fails fs
    → i ≤ j
    → j < i + n
    → 0 < (group_at fs j).free_block_nums
    → (r : ℕ × Fs) × (alloc_from fails n i fs ≡ some r)
unfolding alloc_from
alloc_from-finds fails zero i j fs t low high some_free = absurd (omega arith)
alloc_from-finds fails (suc n) i j fs t low high some_free =
    elim (Bool-cases (ltb 0 (group_at fs i).free_block_nums)) [
      | inl here ↦
          let count = ltb→lt _ _ here in
          let works : cut_off fails fs (group_at fs i) ≡ false =
            rw (t.works i count, t.table) refl in
          let (offset, found) =
            first_free-finds (fs.blksize * 8) (read_block fs (group_at fs i).block_bitmap) 0
              (t.place i) (omega arith) (omega (arith, t.inside i count)) (t.clear i count) in
          ((offset + fs.blk_per_group * i, taken fs i offset), rw (here, works, found) refl)
      | inr full ↦
          let other : i ≢ j = λ e.
            omega
              (arith, ltb→le _ _ full, ap (λ x. (group_at fs x).free_block_nums) e, some_free) in
          let (r, e) =
            alloc_from-finds fails n (i + 1) j fs t (omega (arith, other)) (omega arith)
              some_free in
          (r, rw full e)
    ]

-- Where a group has free blocks by its count, the counts are true to the bitmaps, these can be read and
-- written and the table of the descriptors can be written, `ext2_alloc_block` has a result; and freeing the block that it gives leaves the disk, the
-- descriptors of the groups and the count of free blocks as they were before the two. The blocks are
-- counted from 0 and a block holds the bitmap of one group.
pub free_block-alloc_block :
    (fails : ℕ → Bool) (fs : Fs) (j : ℕ)
    → fs.first_data_block ≡ 0
    → fs.blk_per_group ≡ fs.blksize * 8
    → 0 < fs.free_blocks
    → IsTrue fails fs
    → j < length fs.groups
    → 0 < (group_at fs j).free_block_nums
    → (r : ℕ × Fs) × (alloc_block fails fs ≡ some r) × (free_block fails r.0 r.1 ≡ some fs)
free_block-alloc_block fails fs j zero_based whole some_free t inside count =
    let ((block, fs'), e) =
      alloc_from-finds fails (length fs.groups) 0 j fs t (omega arith) (omega arith) count in
    let (i, offset, took) =
      alloc_from-Took fails (length fs.groups) 0 fs block fs' (omega arith) e in
    let freed = free_block-taken fails fs block fs' i offset zero_based whole some_free took in
    ((block, fs'), e, ap₂ (free_block fails) (sym took.number) (sym took.after) ∙ freed)
