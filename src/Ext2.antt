-- ===== src/Ext2.antt =====
-- Kernel/ext2.c: where an inode lies, which blocks of the disk hold a file, and the allocation of blocks.
-- The disk is a function from the sectors at which blocks start to the bytes of these; the sector of a
-- block is computed in 32 bits, so that two numbers may be one block of the disk. The table of the group
-- descriptors is the field `groups` and no part of `disk`; it is written at the sector of
-- `first_block_group_no`. A block is read and written as a whole, and `fails` says at which sectors the
-- driver cannot read or write: then, where the source returns -1 or asserts, the result is `none`. The size of a block is at most 4096 bytes, so that the ends of the ranges stay below 2^32.
-- `mode` 0 and 1 of `ext2_inode_rw_real_block` are two functions, and the number of a block of a file is
-- not negative.
pub mod Blocks
pub mod Entries
pub mod Place
pub mod Ranges
pub mod Restore
mod Tests
use shaunos.Base.{
  ℕ, zero, suc, ◌+◌, ◌-◌, ◌*◌, ◌/◌, ◌%◌, ◌^◌, Bool, true, false, Option, none, some, List, [], ◌∷◌,
  ltb, ◌==◌, ◌||◌, get_or, set, length, if◌then◌else◌,
}
use shaunos.Base.Int.{u32_mod}
use shaunos.Bytes.{Memory, store}

-- `ext2_bgd_t`, as far as it is read here
pub record Group : Type 0 where
  pub block_bitmap : ℕ
  pub inode_tbl_start : ℕ
  pub free_block_nums : ℕ

abbrev pub no_group : Group
no_group = record { block_bitmap = 0; inode_tbl_start = 0; free_block_nums = 0 }

-- `ext2_fs_t`, and the disk
pub record Fs : Type 0 where
  pub disk : ℕ → Memory
  pub groups : List Group
  pub free_blocks : ℕ
  pub blksize : ℕ
  pub inode_size : ℕ
  pub blk_per_group : ℕ
  pub inode_per_grp : ℕ
  pub first_data_block : ℕ
  pub first_block_group_no : ℕ

-- `ext2_i_t`, as far as it is read here
pub record Inode : Type 0 where
  pub i_block : List ℕ
  pub i_sector_cnt : ℕ

-- `ext2_inode_to_block`: the block and the place in it, counted in inodes
unfoldable pub inode_to_block : Fs → ℕ → Option (ℕ × ℕ)
inode_to_block fs inode =
    let block_group = (inode - 1) / fs.inode_per_grp in
    let index = (inode - 1) % fs.inode_per_grp in
    let start = (get_or fs.groups block_group no_group).inode_tbl_start in
    if ltb inode 1
    then none
    else some (start + index * fs.inode_size / fs.blksize, index % (fs.blksize / fs.inode_size))

-- `block_no * fs->blksize / 512`, in 32 bits
abbrev pub sector : Fs → ℕ → ℕ
sector fs b = b * fs.blksize % u32_mod / 512

-- `ext2_rw_block` with `mode` 0 and 1
abbrev pub read_block : Fs → ℕ → Memory
read_block fs b = fs.disk (sector fs b)

abbrev pub write_block : ℕ → Memory → Fs → Fs
write_block b m fs = record fs { disk = λ c. if c == sector fs b then m else fs.disk c }

-- a bit of a bitmap
abbrev pub is_set : Memory → ℕ → Bool
is_set m offset = m (offset / 8) / 2 ^ (offset % 8) % 2 == 1

abbrev pub set_byte : ℕ → ℕ → Memory → Memory
set_byte i b m j = if j == i then b else m j

-- `b |= (1 << (offset % 8))`
unfoldable pub set_in_use : ℕ → Memory → Memory
set_in_use offset m =
    let b = m (offset / 8) in
    set_byte (offset / 8) (if is_set m offset then b else b + 2 ^ (offset % 8)) m

-- `b &= (~(1 << (offset % 8)))`
unfoldable pub set_free : ℕ → Memory → Memory
set_free offset m =
    let b = m (offset / 8) in
    set_byte (offset / 8) (if is_set m offset then b - 2 ^ (offset % 8) else b) m

-- the loop over the bits of a block; past the block's end there is no result
unfoldable pub first_free : ℕ → Memory → ℕ → Option ℕ
first_free zero m offset = none
first_free (suc left) m offset =
    let rest = first_free left m (offset + 1) in if is_set m offset then rest else some offset

module _ (fails : ℕ → Bool) where
  -- the bitmap of a group cannot be read or written, or the table of the descriptors cannot be written
  abbrev pub cut_off : Fs → Group → Bool
  cut_off fs group =
      fails (sector fs group.block_bitmap) || fails (sector fs fs.first_block_group_no)

  -- what is left of the loop over the groups, from the group `i` on, with `n` to come
  unfoldable pub alloc_from : ℕ → ℕ → Fs → Option (ℕ × Fs)
  unfolding first_free set_in_use
  alloc_from zero i fs = none
  alloc_from (suc n) i fs =
      let group = get_or fs.groups i no_group in
      let bitmap = read_block fs group.block_bitmap in
      let rest = alloc_from n (i + 1) fs in
      if ltb 0 group.free_block_nums
      then if cut_off fs group then none else elim (first_free (fs.blksize * 8) bitmap 0) [
        | none ↦ none
        | some offset ↦
            let taken = record group { free_block_nums = group.free_block_nums - 1 } in
            some (
              offset + fs.blk_per_group * i,
              write_block group.block_bitmap (set_in_use offset bitmap)
                  (record fs { groups = set fs.groups i taken; free_blocks = fs.free_blocks - 1 }),
            )
      ]
      else rest

  abbrev pub alloc_block : Fs → Option (ℕ × Fs)
  alloc_block fs = alloc_from (length fs.groups) 0 fs

  unfoldable pub free_block : ℕ → Fs → Option Fs
  free_block block_no fs =
      let group_no = (block_no - fs.first_data_block) / fs.blk_per_group in
      let offset_in_group = block_no - group_no * fs.blk_per_group in
      let group = get_or fs.groups group_no no_group in
      let bitmap = set_free offset_in_group (read_block fs group.block_bitmap) in
      let released = record group { free_block_nums = group.free_block_nums + 1 } in
      if cut_off fs group
      then none
      else some (
          write_block group.block_bitmap bitmap (record fs {
            groups = set fs.groups group_no released;
            free_blocks = fs.free_blocks + 1;
          }))

-- `((unsigned int *)tmp_buf)[i]`
abbrev pub word_at : Memory → ℕ → ℕ
word_at m i = m (i * 4) + m (i * 4 + 1) * 256 + m (i * 4 + 2) * 65536 + m (i * 4 + 3) * 16777216

abbrev pub set_word : ℕ → ℕ → Memory → Memory
set_word i v m = store 4 (i * 4) v m

-- the ends of the ranges of block numbers, with `entries` words in a block
abbrev pub entries : Fs → ℕ
entries fs = fs.blksize / 4

abbrev pub singly_end : ℕ → ℕ
singly_end e = 12 + e

abbrev pub doubly_end : ℕ → ℕ
doubly_end e = singly_end e + e * e

abbrev pub triply_end : ℕ → ℕ
triply_end e = doubly_end e + e * e * e

-- The place in `i_block` of a block of a file, and the places in the blocks that lead on from there.
unfoldable pub path_of : ℕ → ℕ → Option (ℕ × List ℕ)
path_of e n =
    let two = n - singly_end e in
    let three = n - doubly_end e in
    let c = three - three / (e * e) * e * e in
    if ltb n 12
    then some (n, [])
    else if ltb n (singly_end e)
    then some (12, (n - 12) ∷ [])
    else if ltb n (doubly_end e)
    then some (13, two / e ∷ (two - two / e * e) ∷ [])
    else if ltb n (triply_end e)
    then some (14, three / (e * e) ∷ c / e ∷ (c - c / e * e) ∷ [])
    else none

module _ (fails : ℕ → Bool) where
  -- `mode` 0: along the words of the blocks that lead on, 0 where there is none
  unfoldable pub follow : Fs → ℕ → List ℕ → Option ℕ
  follow fs p [] = some p
  follow fs p (i ∷ is) =
      let rest = follow fs (word_at (read_block fs p) i) is in
      if p == 0 then some 0 else if fails (sector fs p) then none else rest

  unfoldable pub get_real_block : Fs → Inode → ℕ → Option ℕ
  get_real_block fs inode n = elim (path_of (entries fs) n) [
    | none ↦ none
    | some (slot, is) ↦ follow fs (get_or inode.i_block slot 0) is
  ]

  -- `mode` 1: the same way, with a block that is allocated where a word is 0; `sectors` is the count of
  -- the inode. The word is put into the block as it was read, before the allocation.
  unfoldable pub put_in : ℕ → List ℕ → ℕ → Fs → ℕ → Option (Fs × ℕ)
  put_in p [] v fs sectors = none
  put_in p (i ∷ []) v fs sectors =
      if fails (sector fs p)
      then none
      else some (write_block p (set_word i v (read_block fs p)) fs, sectors)
  put_in p (i ∷ j ∷ is) v fs sectors =
      let s = word_at (read_block fs p) i in
      let along = put_in s (j ∷ is) v fs sectors in
      if fails (sector fs p)
      then none
      else if s == 0
      then elim (alloc_block fails fs) [
        | none ↦ none
        | some (rb, fs1) ↦
            put_in rb (j ∷ is) v (write_block p (set_word i rb (read_block fs p)) fs1)
              (sectors + fs.blksize / 512)
      ]
      else along

  unfoldable pub put_below : ℕ → List ℕ → ℕ → Fs → Inode → Option (Fs × Inode)
  put_below p is v fs inode = elim (put_in p is v fs inode.i_sector_cnt) [
    | none ↦ none
    | some (fs1, sectors) ↦ some (fs1, record inode { i_sector_cnt = sectors })
  ]

  unfoldable pub put_real_block : Fs → Inode → ℕ → ℕ → Option (Fs × Inode)
  put_real_block fs inode n v = elim (path_of (entries fs) n) [
    | none ↦ none
    | some (slot, []) ↦ some (fs, record inode { i_block = set inode.i_block slot v })
    | some (slot, i ∷ is) ↦
        let root = get_or inode.i_block slot 0 in
        if root == 0
        then elim (alloc_block fails fs) [
          | none ↦ none
          | some (rb, fs1) ↦ put_below rb (i ∷ is) v fs1 (record inode {
            i_block = set inode.i_block slot rb;
            i_sector_cnt = inode.i_sector_cnt + fs.blksize / 512;
          })
        ]
        else put_below root (i ∷ is) v fs inode
  ]
