-- ===== src/Ext2/Balloc/Outcome.antt =====
-- What `ext2_new_blocks` of balloc.c leaves behind, whichever way it returns.
use operating_systems_ntua.Prelude.{
  ℕ, ◌+◌, ◌-◌, ◌≡◌, refl, sym, Bool, true, Option, none, some, subst, if-elim, Errno, Result, ok,
  err,
}
use operating_systems_ntua.Prelude.Int.{negsuc}
use operating_systems_ntua.Ext2.Bitmap.{Bits}
use operating_systems_ntua.Ext2.Groups.{GroupDesc, group_first_block_no, get_group_desc}
use operating_systems_ntua.Ext2.Mount.{Device, Fs, update}
use operating_systems_ntua.Ext2.Checks.{block_bitmap_valid}
use operating_systems_ntua.Ext2.Balloc.{
  validated, read_bitmap_of, read_block_bitmap, group_update_free_blocks,
}
use operating_systems_ntua.Ext2.Balloc.Allocate.{Allocated}

-- What a read of a group's bitmap returns: no more changes than which buffers are up to date.
pub data BitmapRead (fs : Fs) (desc : GroupDesc) : Option ℕ × Fs → Type 0 where
  no_bitmap : (u : ℕ → Bool) → BitmapRead fs desc (none, record fs { uptodate = u })
  bitmap_in :
      (u : ℕ → Bool) → BitmapRead fs desc (some desc.bg_block_bitmap, record fs { uptodate = u })

validated-BitmapRead :
    (fs : Fs) (desc : GroupDesc) (group : ℕ) → BitmapRead fs desc (validated fs desc group)
validated-BitmapRead fs desc group =
    if-elim (BitmapRead fs desc)
      (block_bitmap_valid fs.info desc group (fs.bits desc.bg_block_bitmap))
      (λ _. bitmap_in (update fs.uptodate desc.bg_block_bitmap true))
      (λ _. no_bitmap (update fs.uptodate desc.bg_block_bitmap true))

read_bitmap_of-BitmapRead :
    (dev : Device) (fs : Fs) (group : ℕ) (desc : GroupDesc)
    → BitmapRead fs desc (read_bitmap_of dev fs group (some desc))
read_bitmap_of-BitmapRead dev fs group desc =
    if-elim (BitmapRead fs desc) (dev.getblk_ok desc.bg_block_bitmap)
      (λ _.
        if-elim (BitmapRead fs desc) (fs.uptodate desc.bg_block_bitmap) (λ _. bitmap_in fs.uptodate)
          (λ _.
            if-elim (BitmapRead fs desc) (dev.read_ok desc.bg_block_bitmap)
              (λ _. validated-BitmapRead fs desc group) (λ _. no_bitmap fs.uptodate)))
      (λ _. no_bitmap fs.uptodate)

-- The bitmap of a group, read for its descriptor.
pub read_block_bitmap-BitmapRead :
    (dev : Device) (fs : Fs) (group : ℕ) (desc : GroupDesc)
    → get_group_desc fs.info fs.table group ≡ some desc
    → BitmapRead fs desc (read_block_bitmap dev fs group)
unfolding read_block_bitmap
read_block_bitmap-BitmapRead dev fs group desc h =
    subst (λ d. BitmapRead fs desc (read_bitmap_of dev fs group d)) (sym h)
      (read_bitmap_of-BitmapRead dev fs group desc)

-- A state with the same descriptors, bitmaps and counters.
pub record SameData (fs fs' : Fs) : Type 0 where
  pub same_info : fs'.info ≡ fs.info
  pub same_table : fs'.table ≡ fs.table
  pub same_bits : fs'.bits ≡ fs.bits
  pub same_blocks : fs'.freeblocks_counter ≡ fs.freeblocks_counter
  pub same_inodes : fs'.freeinodes_counter ≡ fs.freeinodes_counter
  pub same_dirs : fs'.dirs_counter ≡ fs.dirs_counter

-- `num` blocks from `block` on were free in some group, and have been taken: the bits, the group's
-- count and the counter.
pub record Served (fs : Fs) (count : ℕ) (fs' : Fs) (block num : ℕ) : Type 0 where
  pub group : ℕ
  pub start : ℕ
  pub desc : GroupDesc
  pub bits' : Bits
  pub group_desc : get_group_desc fs.info fs.table group ≡ some desc
  pub first_block : block ≡ start + group_first_block_no fs.info group
  pub allocated : Allocated fs.info group (fs.bits desc.bg_block_bitmap) count start num bits'
  pub bitmaps : fs'.bits ≡ update fs.bits desc.bg_block_bitmap bits'
  pub descriptors :
      fs'.table ≡ group_update_free_blocks fs.info fs.table group desc (negsuc (num - 1))
  pub counter : fs'.freeblocks_counter ≡ fs.freeblocks_counter - num

pub data Outcome (fs : Fs) (count : ℕ) : Fs × Result (ℕ × ℕ) → Type 0 where
  failed : (fs' : Fs) (e : Errno) → SameData fs fs' → Outcome fs count (fs', err e)
  served :
      (fs' : Fs) (block num : ℕ)
      → Served fs count fs' block num
      → Outcome fs count (fs', ok (block, num))

pub unchanged : (fs : Fs) (u : ℕ → Bool) → SameData fs (record fs { uptodate = u })
unchanged fs u = record {
  same_info = refl;
  same_table = refl;
  same_bits = refl;
  same_blocks = refl;
  same_inodes = refl;
  same_dirs = refl;
}
