-- ===== src/Ext2/Place.antt =====
-- `ext2_inode_to_block` of Kernel/ext2.c: where an inode lies on the disk.
use native.Mathlib.Nat.{
  mul_assoc, mul_comm, mul-div-mul_left, div-add-mod', mod-lt, mul-div_right, add-mul,
}
use shaunos.Base.{
  ℕ, ◌+◌, ◌-◌, ◌*◌, ◌/◌, ◌%◌, ◌<◌, ◌≡◌, ◌≢◌, refl, sym, ◌∙◌, ap, ap₂, arith, some, false, ltb,
  get_or,
}
use shaunos.Ext2.{no_group, Fs, inode_to_block}

-- the start of the table that an inode is in, in blocks, and its index there
abbrev pub table_start : Fs → ℕ → ℕ
table_start fs inode = (get_or fs.groups ((inode - 1) / fs.inode_per_grp) no_group).inode_tbl_start

abbrev pub table_index : Fs → ℕ → ℕ
table_index fs inode = (inode - 1) % fs.inode_per_grp

-- `size` bytes each, `per` of them in a block of `b` bytes
in_blocks :
    (index size per b : ℕ)
    → 0 < size
    → 0 < per
    → b ≡ size * per
    → (index * size / b * b + index % (b / size) * size ≡ index * size) × (index % (b / size) < per)
in_blocks index size per b some_size some_per e =
    let blocks : index * size / b ≡ index / per =
      ap₂ (λ x y. x / y) (mul_comm index size) e ∙ mul-div-mul_left index per some_size in
    let fit : b / size ≡ per = ap (λ n. n / size) e ∙ mul-div_right per some_size in
    let whole : index / per * per * size + index % per * size ≡ index * size =
      sym (add-mul _ _ size) ∙ ap (λ n. n * size) (div-add-mod' index per) in
    let bytes : index / per * b ≡ index / per * per * size =
      ap (λ n. index / per * n) (e ∙ mul_comm size per) ∙ sym (mul_assoc _ _ _) in
    rw (blocks, fit, bytes) (whole, mod-lt index some_per)

-- `ext2_inode_to_block` of an inode that is not 0, where whole inodes fill a block: the byte that the
-- block and the place in it come to is the one at which the inode's entry of the table of its group
-- starts, and the place is one in the block. So two inodes of a group are never at one place.
pub inode_to_block-place :
    (fs : Fs) (inode per : ℕ)
    → inode ≢ 0
    → 0 < fs.inode_size
    → 0 < per
    → fs.blksize ≡ fs.inode_size * per
    → (r : ℕ × ℕ) × (inode_to_block fs inode ≡ some r)
      × (r.1 < per)
      × (r.0 * fs.blksize + r.1 * fs.inode_size
          ≡ table_start fs inode * fs.blksize + table_index fs inode * fs.inode_size)
unfolding inode_to_block
inode_to_block-place fs inode per some_inode some_size some_per e =
    let there : ltb inode 1 ≡ false = ground arith in
    let (bytes, inside) =
      in_blocks (table_index fs inode) fs.inode_size per fs.blksize some_size some_per e in
    let split =
      add-mul (table_start fs inode) (table_index fs inode * fs.inode_size / fs.blksize)
        fs.blksize in
    (
      (
        table_start fs inode + table_index fs inode * fs.inode_size / fs.blksize,
        table_index fs inode % (fs.blksize / fs.inode_size),
      ),
      rw there refl,
      inside,
      omega (arith, bytes, split),
    )
