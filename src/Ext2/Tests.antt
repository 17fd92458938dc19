-- ===== src/Ext2/Tests.antt =====
-- Tests: a small file system of one group, with blocks of 512 bytes.
use shaunos.Base.{
  ℕ, zero, suc, ◌+◌, ◌*◌, ◌<◌, ◌≡◌, refl, arith, Bool, false, Option, some, none, List, [], ◌∷◌,
  ◌==◌, if◌then◌else◌, get_or,
}
use shaunos.Bytes.{Memory}
use shaunos.Ext2.{
  Group, no_group, is_set, Fs, read_block, Inode, inode_to_block, alloc_block, free_block, path_of,
  get_real_block, put_real_block,
}
use shaunos.Ext2.Place.{table_start, table_index, inode_to_block-place}
use shaunos.Ext2.Ranges.{PathTo, path_of-PathTo}
use shaunos.Ext2.Restore.{IsTrue, free_block-alloc_block}
use shaunos.Ext2.Entries.{Leads, last, on, with_entry, get_real_block-put_real_block}

abbrev works : ℕ → Bool
works b = false

abbrev one_group : Group
one_group = record { block_bitmap = 3; inode_tbl_start = 5; free_block_nums = 9 }

-- the first three blocks are in use, and the word 0 of the blocks 20 and 21 leads on to the next
abbrev contents : ℕ → Memory
contents b j =
    if b == 3
    then (if j == 0 then 7 else 0)
    else if b == 20
    then (if j == 0 then 21 else 0)
    else if b == 21
    then (if j == 0 then 22 else 0)
    else 0

abbrev disk_of_one : Fs
disk_of_one = record {
  disk = contents;
  groups = one_group ∷ [];
  free_blocks = 9;
  blksize = 512;
  inode_size = 128;
  blk_per_group = 4096;
  inode_per_grp = 8;
  first_data_block = 0;
  first_block_group_no = 2;
}

abbrev file : Inode
file = record {
  i_block = 0 ∷ 0 ∷ 0 ∷ 0 ∷ 0 ∷ 0 ∷ 0 ∷ 0 ∷ 0 ∷ 0 ∷ 0 ∷ 0 ∷ 21 ∷ 20 ∷ 0 ∷ [];
  i_sector_cnt = 4;
}

inode_to_block-place_example :
    (r : ℕ × ℕ) × (inode_to_block disk_of_one 7 ≡ some r)
    × (r.1 < 4)
    × (r.0 * 512 + r.1 * 128 ≡ table_start disk_of_one 7 * 512 + table_index disk_of_one 7 * 128)
inode_to_block-place_example =
    inode_to_block-place disk_of_one 7 4 (omega arith) (omega arith) (omega arith) refl

path_of-PathTo_example : (r : ℕ × List ℕ) × (path_of 16 300 ≡ some r) × PathTo 16 300 r
path_of-PathTo_example = path_of-PathTo 16 300 (omega arith) (omega arith)

third_clear :
    (i : ℕ)
    → 0 < (get_or (one_group ∷ []) i no_group).free_block_nums
    → is_set (read_block disk_of_one (get_or (one_group ∷ []) i no_group).block_bitmap) 3 ≡ false
third_clear zero h = refl
third_clear (suc i) h = absurd (omega arith)

disk_of_one-IsTrue : IsTrue works disk_of_one
disk_of_one-IsTrue = record {
  works = λ i h. refl;
  table = refl;
  place = λ i. 3;
  inside = λ i h. omega arith;
  clear = third_clear;
}

free_block-alloc_block_example :
    (r : ℕ × Fs) × (alloc_block works disk_of_one ≡ some r)
    × (free_block works r.0 r.1 ≡ some disk_of_one)
free_block-alloc_block_example =
    free_block-alloc_block works disk_of_one 0 refl refl (omega arith) disk_of_one-IsTrue
      (omega arith) (omega arith)

leads : Leads works disk_of_one 20 (0 ∷ 5 ∷ [])
leads = on 20 0 5 [] (omega arith) refl (omega arith) (last 21 5 (omega arith) refl)

-- the block 145 is the entry 5 of the first block below the second one
path_of_145 : path_of 128 145 ≡ some (13, 0 ∷ 5 ∷ [])
unfolding path_of
path_of_145 = refl

get_real_block-put_real_block_example :
    (put_real_block works disk_of_one file 145 77
      ≡ some (with_entry disk_of_one 20 (0 ∷ 5 ∷ []) 77, file))
    × (get_real_block works (with_entry disk_of_one 20 (0 ∷ 5 ∷ []) 77) file 145 ≡ some 77)
get_real_block-put_real_block_example =
    get_real_block-put_real_block works disk_of_one file 145 13 0 (5 ∷ []) 77 path_of_145 leads
      (omega arith)

-- with the first data block at 1, the first block of the second group is looked for in the bitmap of the first
abbrev two_groups : Fs
two_groups = record disk_of_one {
  first_data_block = 1;
  groups = one_group ∷ record one_group { block_bitmap = 4 } ∷ [];
}

abbrev count_of_first : Option Fs → ℕ
count_of_first none = 0
count_of_first (some fs) = (get_or fs.groups 0 no_group).free_block_nums

freed_in_first : count_of_first (free_block works 4096 two_groups) ≡ 10
unfolding free_block
freed_in_first = refl
