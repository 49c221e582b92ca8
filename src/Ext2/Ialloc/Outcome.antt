-- ===== src/Ext2/Ialloc/Outcome.antt =====
-- What `ext2_new_inode` of ialloc.c leaves behind, whichever way it returns.
use operating_systems_ntua.Prelude.{
  ℕ, zero, suc, ◌+◌, ◌-◌, ◌*◌, ◌<◌, ◌≡◌, refl, sym, arith, not, ltb, Bool, true, false, ◌&&◌, ◌||◌,
  Option, none, some, ◌%◌, if◌then◌else◌, subst, if-elim, replicate, Errno, eio, enospc, enomem,
  Result, ok, err, inl, inr,
}
use operating_systems_ntua.Ext2.Bitmap.{test_bit, set_bit}
use operating_systems_ntua.Ext2.Groups.{GroupDesc, get_group_desc, set_group_desc}
use operating_systems_ntua.Ext2.Mount.{Device, Fs, Inode, update}
use operating_systems_ntua.Ext2.Balloc.Outcome.{SameData, unchanged}
use operating_systems_ntua.Ext2.Ialloc.{
  InodeCache, bread_desc, read_inode_bitmap, inode_used, bad_ino, find_group, take_inode, got,
  try_bit, try_inodes, try_desc, new_inode_loop, in_found_group, new_inode,
}
use operating_systems_ntua.Ext2.Ialloc.Search.{take_inode_lem}

-- What a read of an inode bitmap returns.
pub data BitmapRead (fs : Fs) (desc : GroupDesc) : Option ℕ × Fs → Type 0 where
  no_bitmap : (u : ℕ → Bool) → BitmapRead fs desc (none, record fs { uptodate = u })
  bitmap_in :
      (u : ℕ → Bool) → BitmapRead fs desc (some desc.bg_inode_bitmap, record fs { uptodate = u })

bread_desc-BitmapRead :
    (dev : Device) (fs : Fs) (desc : GroupDesc) → BitmapRead fs desc (bread_desc dev fs (some desc))
bread_desc-BitmapRead dev fs desc =
    if-elim (BitmapRead fs desc)
      (dev.getblk_ok desc.bg_inode_bitmap
        && (fs.uptodate desc.bg_inode_bitmap || dev.read_ok desc.bg_inode_bitmap))
      (λ _. bitmap_in (update fs.uptodate desc.bg_inode_bitmap true)) (λ _. no_bitmap fs.uptodate)

-- The bitmap of a group, read for its descriptor.
pub read_inode_bitmap-BitmapRead :
    (dev : Device) (fs : Fs) (group : ℕ) (desc : GroupDesc)
    → get_group_desc fs.info fs.table group ≡ some desc
    → BitmapRead fs desc (read_inode_bitmap dev fs group)
unfolding read_inode_bitmap
read_inode_bitmap-BitmapRead dev fs group desc h =
    subst (λ d. BitmapRead fs desc (bread_desc dev fs d)) (sym h)
      (bread_desc-BitmapRead dev fs desc)

-- An inode of a group that was free: the lowest one of the group's bitmap.
pub record IsFree (fs : Fs) (group : ℕ) (desc : GroupDesc) (bit : ℕ) : Type 0 where
  pub group_desc : get_group_desc fs.info fs.table group ≡ some desc
  pub inside : bit < fs.info.s_inodes_per_group
  pub was_clear : test_bit bit (fs.bits desc.bg_inode_bitmap) ≡ false
  pub lowest : (j : ℕ) → (ltb j bit && not (test_bit j (fs.bits desc.bg_inode_bitmap))) ≡ false

-- Its bit is set, and the blocks' counter is as it was.
pub record IsMarked (fs : Fs) (desc : GroupDesc) (bit : ℕ) (fs' : Fs) : Type 0 where
  pub info_kept : fs'.info ≡ fs.info
  pub bitmaps :
      fs'.bits ≡ update fs.bits desc.bg_inode_bitmap (set_bit bit (fs.bits desc.bg_inode_bitmap))
  pub blocks_kept : fs'.freeblocks_counter ≡ fs.freeblocks_counter

-- The descriptor and the two counters have been brought up to date.
pub record IsCounted (fs : Fs) (group : ℕ) (desc : GroupDesc) (is_dir : Bool) (fs' : Fs)
    : Type 0 where
  pub descriptors : fs'.table ≡ set_group_desc fs.info fs.table group (inode_used is_dir desc)
  pub inodes : fs'.freeinodes_counter ≡ fs.freeinodes_counter - 1
  pub dirs : fs'.dirs_counter ≡ (if is_dir then fs.dirs_counter + 1 else fs.dirs_counter)

-- The inode with a number, as it is filled in.
abbrev pub filled : Inode → Bool → ℕ → ℕ → Inode
filled dir is_dir group ino = record {
  i_ino = ino;
  is_dir = is_dir;
  i_blocks = 0;
  i_data = replicate 15 0;
  i_flags = dir.i_flags;
  i_dtime = 0;
  i_block_group = group;
  is_new = true;
}

abbrev pub number_of : Fs → ℕ → ℕ → ℕ
number_of fs group bit = bit + group * fs.info.s_inodes_per_group + 1

pub data Outcome (cache : InodeCache) (fs : Fs) (dir : Inode) (is_dir : Bool)
    : Fs × Result Inode → Type 0 where
  failed : (fs' : Fs) (e : Errno) → SameData fs fs' → Outcome cache fs dir is_dir (fs', err e)
  reserved :
      (fs' : Fs) (group bit : ℕ) (desc : GroupDesc)
      → IsFree fs group desc bit
      → bad_ino fs.info (number_of fs group bit) ≡ true
      → IsMarked fs desc bit fs'
      → Outcome cache fs dir is_dir (fs', err eio)
  clashed :
      (fs' : Fs) (group bit : ℕ) (desc : GroupDesc)
      → IsFree fs group desc bit
      → cache.insert_ok (number_of fs group bit) ≡ false
      → IsMarked fs desc bit fs'
      → IsCounted fs group desc is_dir fs'
      → Outcome cache fs dir is_dir (fs', err eio)
  made :
      (fs' : Fs) (group bit : ℕ) (desc : GroupDesc)
      → IsFree fs group desc bit
      → bad_ino fs.info (number_of fs group bit) ≡ false
      → IsMarked fs desc bit fs'
      → IsCounted fs group desc is_dir fs'
      → Outcome cache fs dir is_dir (fs', ok (filled dir is_dir group (number_of fs group bit)))

module _ (dev : Device) (cache : InodeCache) (fs : Fs) (dir : Inode) (is_dir : Bool) where
  got-Outcome :
      (u : ℕ → Bool) (group bit : ℕ) (desc : GroupDesc)
      → IsFree fs group desc bit
      → Outcome cache fs dir is_dir
          (got cache (record fs { uptodate = u }) dir is_dir group desc desc.bg_inode_bitmap bit)
  got-Outcome u group bit desc free =
      if-elim (Outcome cache fs dir is_dir) (bad_ino fs.info (number_of fs group bit))
        (λ bad.
          reserved _ group bit desc free bad
            record { info_kept = refl; bitmaps = refl; blocks_kept = refl })
        (λ good.
          if-elim (Outcome cache fs dir is_dir) (cache.insert_ok (number_of fs group bit))
            (λ _.
              made _ group bit desc free good
                record { info_kept = refl; bitmaps = refl; blocks_kept = refl }
                record { descriptors = refl; inodes = refl; dirs = refl })
            (λ no_room.
              clashed _ group bit desc free no_room
                record { info_kept = refl; bitmaps = refl; blocks_kept = refl }
                record { descriptors = refl; inodes = refl; dirs = refl }))

  try_bit-Outcome :
      (next : Fs → Fs × Result Inode) (u : ℕ → Bool) (group : ℕ) (desc : GroupDesc)
      → Outcome cache fs dir is_dir (next (record fs { uptodate = u }))
      → get_group_desc fs.info fs.table group ≡ some desc
      → Outcome cache fs dir is_dir (
          try_bit next cache
            (record fs { uptodate = u })
            dir
            is_dir
            group
            desc
            desc.bg_inode_bitmap
            (take_inode fs.info.s_inodes_per_group
              (fs.bits desc.bg_inode_bitmap)
              fs.info.s_inodes_per_group
              0))
  try_bit-Outcome next u group desc go h =
      let P : Option ℕ → Type 0 = λ t. Outcome cache fs dir is_dir (
        try_bit next cache (record fs { uptodate = u }) dir is_dir group desc desc.bg_inode_bitmap
          t) in
      elim (take_inode_lem (fs.bits desc.bg_inode_bitmap) fs.info.s_inodes_per_group) [
        | inl (nothing, _) ↦ subst P (sym nothing) go
        | inr (bit, taken, lt, clear, low) ↦ subst P (sym taken) (
            got-Outcome u group bit desc record {
              group_desc = h;
              inside = lt;
              was_clear = clear;
              lowest = λ j. ground (arith, low j);
            })
      ]

  try_inodes-Outcome :
      (next : Fs → Fs × Result Inode) (group : ℕ) (desc : GroupDesc)
      → ((u : ℕ → Bool) → Outcome cache fs dir is_dir (next (record fs { uptodate = u })))
      → get_group_desc fs.info fs.table group ≡ some desc
      → (u : ℕ → Bool) {r : Option ℕ × Fs} → BitmapRead (record fs { uptodate = u }) desc r
      → Outcome cache fs dir is_dir (try_inodes next cache dir is_dir group desc r)
  try_inodes-Outcome next group desc go h u (no_bitmap v) =
      failed (record fs { uptodate = v }) eio (unchanged fs v)
  try_inodes-Outcome next group desc go h u (bitmap_in v) =
      try_bit-Outcome next v group desc (go v) h

  try_desc-Outcome :
      (next : Fs → Fs × Result Inode) (group : ℕ) (u : ℕ → Bool)
      → ((u : ℕ → Bool) → Outcome cache fs dir is_dir (next (record fs { uptodate = u })))
      → (d : Option GroupDesc) → get_group_desc fs.info fs.table group ≡ d
      → Outcome cache fs dir is_dir
          (try_desc next dev cache (record fs { uptodate = u }) dir is_dir group d)
  try_desc-Outcome next group u go none h = go u
  try_desc-Outcome next group u go (some desc) h =
      try_inodes-Outcome next group desc go h u
        (read_inode_bitmap-BitmapRead dev (record fs { uptodate = u }) group desc h)

  new_inode_loop-Outcome :
      (n group : ℕ) (u : ℕ → Bool)
      → Outcome cache fs dir is_dir
          (new_inode_loop dev cache dir is_dir n group (record fs { uptodate = u }))
  unfolding new_inode_loop
  new_inode_loop-Outcome zero group u = failed (record fs { uptodate = u }) enospc (unchanged fs u)
  new_inode_loop-Outcome (suc n) group u =
      try_desc-Outcome
        (new_inode_loop dev cache dir is_dir n ((group + 1) % fs.info.s_groups_count)) group u
        (new_inode_loop-Outcome n ((group + 1) % fs.info.s_groups_count))
        (get_group_desc fs.info fs.table group) refl

  in_found_group-Outcome :
      (g : Option ℕ) → Outcome cache fs dir is_dir (in_found_group dev cache fs dir is_dir g)
  in_found_group-Outcome none = failed fs enospc (unchanged fs fs.uptodate)
  in_found_group-Outcome (some group) =
      new_inode_loop-Outcome fs.info.s_groups_count group fs.uptodate

-- A call of `ext2_new_inode` ends in one of four ways. It fails and leaves bitmaps, descriptors and
-- counters as they were; or it returns a new inode, whose bit was the lowest clear one of its group's
-- bitmap and is now set, with the number of that bit in range and with the descriptor and the counters
-- adjusted; or it returns -EIO with that bit set all the same, since the number is reserved or past
-- the last one; or it returns -EIO with the bit set and the counts adjusted, since the number is in use.
pub new_inode-Outcome :
    (dev : Device) (cache : InodeCache) (fs : Fs) (dir : Inode) (is_dir : Bool)
    → Outcome cache fs dir is_dir (new_inode dev cache fs dir is_dir)
unfolding new_inode
new_inode-Outcome dev cache fs dir is_dir =
    if-elim (Outcome cache fs dir is_dir) cache.new_inode_ok
      (λ _. in_found_group-Outcome dev cache fs dir is_dir (find_group fs.info fs.table dir))
      (λ _. failed fs enomem (unchanged fs fs.uptodate))
