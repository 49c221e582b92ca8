-- ===== src/Ext2/Balloc/Release.antt =====
-- What `ext2_free_blocks` of balloc.c leaves behind.
use operating_systems_ntua.Prelude.{
  ℕ, ◌+◌, ◌-◌, ◌*◌, ◌/◌, ◌%◌, ◌^◌, ◌≤◌, ◌≡◌, refl, ap, ◌∙◌, Bool, true, false, Option, none, some,
  arith, ◌==◌, if◌then◌else◌, length, Bool-cases, if-elim, inl, inr,
}
use operating_systems_ntua.Prelude.Int.{pos}
use operating_systems_ntua.Ext2.Bitmap.{test_bit, within, count_zero}
use operating_systems_ntua.Ext2.Groups.{GroupDesc, SbInfo, get_group_desc}
use operating_systems_ntua.Ext2.Mount.{Device, Fs, Inode, update}
use operating_systems_ntua.Ext2.Checks.{data_blocks_valid, data_blocks_valid_bg}
use operating_systems_ntua.Ext2.Balloc.{
  group_update_free_blocks, read_block_bitmap, clear_loop, free_in_group, free_checked, free_blocks,
}
use operating_systems_ntua.Ext2.Balloc.Outcome.{
  BitmapRead, no_bitmap, bitmap_in, read_block_bitmap-BitmapRead, SameData, unchanged,
}
use operating_systems_ntua.Ext2.Balloc.Free.{test_bit-clear_loop, count_zero-clear_loop}

-- The group of a block, and its place there.
abbrev pub group_of : SbInfo → ℕ → ℕ
group_of sbi block = (block - sbi.s_first_data_block) / sbi.s_blocks_per_group

abbrev pub bit_of : SbInfo → ℕ → ℕ
bit_of sbi block = (block - sbi.s_first_data_block) % sbi.s_blocks_per_group

-- The blocks of a range are free, and nothing else has changed: `freed` of them were in use before.
pub record IsReleased (fs : Fs) (inode : Inode) (block count : ℕ) (desc : GroupDesc) (fs' : Fs)
    (inode' : Inode) : Type 0 where
  pub freed : ℕ
  pub valid : data_blocks_valid fs.info block count ≡ true
  pub outside_tables : data_blocks_valid_bg desc fs.info block count ≡ true
  pub bit_there :
      (j : ℕ)
      → test_bit j (fs'.bits desc.bg_block_bitmap) ≡ (
          if within (bit_of fs.info block) count j
          then false
          else test_bit j (fs.bits desc.bg_block_bitmap))
  pub other_bitmaps :
      (b : ℕ) → (if desc.bg_block_bitmap == b then fs.bits b else fs'.bits b) ≡ fs.bits b
  pub counted :
      count_zero (fs'.bits desc.bg_block_bitmap) fs.info.s_blocks_per_group
      ≡ count_zero (fs.bits desc.bg_block_bitmap) fs.info.s_blocks_per_group + freed
  pub descriptors :
      fs'.table
      ≡ group_update_free_blocks fs.info fs.table (group_of fs.info block) desc (pos freed)
  pub counter : fs'.freeblocks_counter ≡ fs.freeblocks_counter + freed
  pub sectors :
      inode'.i_blocks ≡ (inode.i_blocks + 2 ^ 64 - freed * fs.info.s_blocksize / 512) % 2 ^ 64

pub data Outcome (fs : Fs) (inode : Inode) (block count : ℕ) : Fs × Inode → Type 0 where
  kept : (fs' : Fs) → SameData fs fs' → Outcome fs inode block count (fs', inode)
  released :
      (fs' : Fs) (inode' : Inode) (desc : GroupDesc)
      → get_group_desc fs.info fs.table (group_of fs.info block) ≡ some desc
      → IsReleased fs inode block count desc fs' inode'
      → Outcome fs inode block count (fs', inode')

module _ (dev : Device) (fs : Fs) (inode : Inode) (block count : ℕ)
    (long : (blk : ℕ) → fs.info.s_blocks_per_group ≤ length (fs.bits blk))
    (one_group : bit_of fs.info block + count ≤ fs.info.s_blocks_per_group) where
  free_in_group-Outcome :
      (u : ℕ → Bool) (desc : GroupDesc)
      → get_group_desc fs.info fs.table (group_of fs.info block) ≡ some desc
      → data_blocks_valid fs.info block count ≡ true
      → data_blocks_valid_bg desc fs.info block count ≡ true
      → Outcome fs inode block count (
          free_in_group
            (record fs { uptodate = u })
            inode
            (group_of fs.info block)
            desc
            desc.bg_block_bitmap
            (bit_of fs.info block)
            count)
  free_in_group-Outcome u desc h v w =
      let old = fs.bits desc.bg_block_bitmap in
      let bit = bit_of fs.info block in
      let r = clear_loop old bit count 0 in
      let fits = long desc.bg_block_bitmap in
      let here : (desc.bg_block_bitmap == desc.bg_block_bitmap) ≡ true = ground arith in
      let now : update fs.bits desc.bg_block_bitmap r.0 desc.bg_block_bitmap ≡ r.0 = rw here refl in
      released _ _ desc h record {
        freed = r.1;
        valid = v;
        outside_tables = w;
        bit_there = λ j.
            ap (test_bit j) now
            ∙ test_bit-clear_loop count bit 0 old j (omega (arith, fits, one_group));
        other_bitmaps = λ b. elim (Bool-cases (desc.bg_block_bitmap == b)) [
          | inl e ↦ rw e refl
          | inr ne ↦ rw ne refl
        ];
        counted =
            ap (λ x. count_zero x fs.info.s_blocks_per_group) now
            ∙ omega (
              arith,
              count_zero-clear_loop count bit 0 old fs.info.s_blocks_per_group one_group fits,
            );
        descriptors = refl;
        counter = refl;
        sectors = refl;
      }

  free_checked-Outcome :
      (desc : GroupDesc) (r : Option ℕ × Fs)
      → get_group_desc fs.info fs.table (group_of fs.info block) ≡ some desc
      → data_blocks_valid fs.info block count ≡ true
      → BitmapRead fs desc r
      → Outcome fs inode block count (
          free_checked r.1 inode
            (group_of fs.info block)
            r.0
            (get_group_desc r.1.info r.1.table (group_of fs.info block))
            (bit_of fs.info block)
            block
            count)
  free_checked-Outcome desc r h v (no_bitmap u) = kept (record fs { uptodate = u }) (unchanged fs u)
  free_checked-Outcome desc r h v (bitmap_in u) = rw h (
      if-elim (Outcome fs inode block count) (data_blocks_valid_bg desc fs.info block count)
        (λ w. free_in_group-Outcome u desc h v w)
        (λ _. kept (record fs { uptodate = u }) (unchanged fs u)))

  free_valid-Outcome :
      (d : Option GroupDesc)
      → get_group_desc fs.info fs.table (group_of fs.info block) ≡ d
      → data_blocks_valid fs.info block count ≡ true
      → let r = read_block_bitmap dev fs (group_of fs.info block) in
        Outcome fs inode block count (
          free_checked r.1 inode
            (group_of fs.info block)
            r.0
            (get_group_desc r.1.info r.1.table (group_of fs.info block))
            (bit_of fs.info block)
            block
            count)
  unfolding read_block_bitmap
  free_valid-Outcome none h v = rw h (kept fs (unchanged fs fs.uptodate))
  free_valid-Outcome (some desc) h v =
      free_checked-Outcome desc (read_block_bitmap dev fs (group_of fs.info block)) h v
        (read_block_bitmap-BitmapRead dev fs (group_of fs.info block) desc h)

-- A call of `ext2_free_blocks` for a range inside one group either leaves bitmaps, descriptors, counters
-- and the inode as they were, or the range has passed both tests for data blocks, exactly its bits are
-- clear in the bitmap of its group, and the bits that were set before are counted: in the descriptor,
-- in the counter, and out of the inode's sectors. Every bitmap has the bits of a group.
pub free_blocks-Outcome :
    (dev : Device) (fs : Fs) (inode : Inode) (block count : ℕ)
    → ((blk : ℕ) → fs.info.s_blocks_per_group ≤ length (fs.bits blk))
    → bit_of fs.info block + count ≤ fs.info.s_blocks_per_group
    → Outcome fs inode block count (free_blocks dev fs inode block count)
unfolding free_blocks
free_blocks-Outcome dev fs inode block count long one_group =
    if-elim (Outcome fs inode block count) (data_blocks_valid fs.info block count)
      (λ v.
        free_valid-Outcome dev fs inode block count long one_group
          (get_group_desc fs.info fs.table (group_of fs.info block)) refl v)
      (λ _. kept fs (unchanged fs fs.uptodate))
