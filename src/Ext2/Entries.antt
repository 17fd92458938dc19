-- ===== src/Ext2/Entries.antt =====
-- `ext2_inode_rw_real_block` of Kernel/ext2.c where the blocks that lead to the entry are there.
use shaunos.Base.{
  ℕ, ◌*◌, ◌/◌, ◌%◌, ◌^◌, ◌<◌, ◌≡◌, ◌≢◌, refl, ◌∙◌, ap, arith, Bool, true, false, some, List, [],
  ◌∷◌, ◌==◌, get_or, ne→==,
}
use shaunos.Base.Int.{u32_mod}
use shaunos.Bytes.{Memory}
use shaunos.Bytes.Store.{store_here}
use shaunos.Ext2.{
  Fs, Inode, sector, read_block, write_block, word_at, set_word, path_of, entries, follow, put_in,
  put_below, get_real_block, put_real_block,
}

-- a word that is written is read again
word_at-set_word : (m : Memory) (i v : ℕ) → v < u32_mod → word_at (set_word i v m) i ≡ v
word_at-set_word m i v low =
    let b0 : set_word i v m (i * 4) ≡ v / 256 ^ 0 % 256 =
      ap (set_word i v m) (omega arith) ∙ store_here 4 (i * 4) v m 0 (omega arith) in
    let b1 = store_here 4 (i * 4) v m 1 (omega arith) in
    let b2 = store_here 4 (i * 4) v m 2 (omega arith) in
    let b3 = store_here 4 (i * 4) v m 3 (omega arith) in rw (b0, b1, b2, b3) (omega (arith, low))

-- the block that holds the entry
abbrev pub last_block : Fs → ℕ → List ℕ → ℕ
last_block fs p [] = p
last_block fs p (i ∷ []) = p
last_block fs p (i ∷ j ∷ is) = last_block fs (word_at (read_block fs p) i) (j ∷ is)

-- The blocks from `p` on are there and can be read and written, and the last lies at the sector of none
-- of the others.
pub data Leads (fails : ℕ → Bool) (fs : Fs) : ℕ → List ℕ → Type 0 where
  last : (p i : ℕ) → p ≢ 0 → fails (sector fs p) ≡ false → Leads fails fs p (i ∷ [])
  on :
      (p i j : ℕ) (is : List ℕ)
      → p ≢ 0
      → fails (sector fs p) ≡ false
      → sector fs p ≢ sector fs (last_block fs (word_at (read_block fs p) i) (j ∷ is))
      → Leads fails fs (word_at (read_block fs p) i) (j ∷ is)
      → Leads fails fs p (i ∷ j ∷ is)

-- the place in the last block
abbrev pub last_place : List ℕ → ℕ
last_place [] = 0
last_place (i ∷ []) = i
last_place (i ∷ j ∷ is) = last_place (j ∷ is)

abbrev pub with_entry : Fs → ℕ → List ℕ → ℕ → Fs
with_entry fs p is v =
    let b = last_block fs p is in write_block b (set_word (last_place is) v (read_block fs b)) fs

starts : {fails : ℕ → Bool} {fs : Fs} {p : ℕ} {is : List ℕ} → Leads fails fs p is → p ≢ 0
starts (last p i ne w) = ne
starts (on p i j is ne w a r) = ne

put_in-there :
    (fails : ℕ → Bool) (fs : Fs) (p : ℕ) (is : List ℕ) (v sectors : ℕ)
    → Leads fails fs p is
    → put_in fails p is v fs sectors ≡ some (with_entry fs p is v, sectors)
unfolding put_in
put_in-there fails fs p is v sectors (last q i some_block works) = rw works refl
put_in-there fails fs p is v sectors (on q i j js some_block works apart rest) =
    let deeper = put_in-there fails fs (word_at (read_block fs q) i) (j ∷ js) v sectors rest in
    let there : word_at (read_block fs q) i == 0 ≡ false = ne→== _ _ (starts rest) in
    rw (works, there) deeper

follow-there :
    (fails : ℕ → Bool) (fs fs' : Fs) (p : ℕ) (is : List ℕ) (v : ℕ)
    → v < u32_mod
    → Leads fails fs p is
    → fs'.blksize ≡ fs.blksize
    → fs'.disk ≡ (with_entry fs p is v).disk
    → follow fails fs' p is ≡ some v
unfolding follow
follow-there fails fs fs' p is v low (last q i some_block works) size e =
    let there : q == 0 ≡ false = ne→== _ _ some_block in
    let b = sector fs q in
    let same : b == b ≡ true = ground arith in
    let here : word_at (fs'.disk b) i ≡ v =
      ap (λ d. word_at (d b) i) e ∙ rw same (word_at-set_word (read_block fs q) i v low) in
    rw (size, there, works) (ap (λ n. some n) here)
follow-there fails fs fs' p is v low (on q i j js some_block works apart rest) size e =
    let there : q == 0 ≡ false = ne→== _ _ some_block in
    let b = sector fs q in
    let other : b == sector fs (last_block fs (word_at (read_block fs q) i) (j ∷ js)) ≡ false =
      ne→== _ _ apart in
    let same_sector : sector fs' q ≡ b = ap (λ k. q * k % u32_mod / 512) size in
    let kept : read_block fs' q ≡ read_block fs q =
      ap fs'.disk same_sector ∙ ap (λ d. d b) e ∙ rw other refl in
    rw (there, same_sector, works, kept)
      (follow-there fails fs fs' (word_at (read_block fs q) i) (j ∷ js) v low rest size e)

-- A block of a file beyond the first twelve, where the blocks that lead to its entry are there, can be
-- read and written, and the last lies at the sector of none of the others: setting its entry works, allocates nothing and
-- changes one word of one block; and the entry is then read as the number that was set, which is below
-- 2^32.
pub get_real_block-put_real_block :
    (fails : ℕ → Bool) (fs : Fs) (inode : Inode) (n slot i : ℕ) (is : List ℕ) (v : ℕ)
    → path_of (entries fs) n ≡ some (slot, i ∷ is)
    → Leads fails fs (get_or inode.i_block slot 0) (i ∷ is)
    → v < u32_mod
    → (put_real_block fails fs inode n v
        ≡ some (with_entry fs (get_or inode.i_block slot 0) (i ∷ is) v, inode))
      × (get_real_block fails (with_entry fs (get_or inode.i_block slot 0) (i ∷ is) v) inode n
          ≡ some v)
unfolding put_real_block put_below get_real_block
get_real_block-put_real_block fails fs inode n slot i is v path leads low =
    let root = get_or inode.i_block slot 0 in
    let there : root == 0 ≡ false = ne→== _ _ (starts leads) in
    let put = put_in-there fails fs root (i ∷ is) v inode.i_sector_cnt leads in
    (
      simp (put_real_block, path, there, put_below, put),
      simp (get_real_block, path)
          (follow-there fails fs (with_entry fs root (i ∷ is) v) root (i ∷ is) v low leads refl
            refl),
    )
