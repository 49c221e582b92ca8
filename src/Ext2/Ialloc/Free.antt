-- ===== src/Ext2/Ialloc/Free.antt =====
-- `ext2_free_inode` of ialloc.c behind `ext2_new_inode`.
use operating_systems_ntua.Prelude.{
  ℕ, ◌+◌, ◌-◌, ◌*◌, ◌/◌, ◌%◌, ◌^◌, ◌≤◌, ◌<◌, ◌≡◌, refl, sym, ap, ◌∙◌, Bool, true, false, some,
  arith, ◌==◌, ==_iff, if◌then◌else◌, length, set, set-set, set_same, subst, Bool-cases, Result, ok,
  inl, inr,
}
use native.Mathlib.Nat.{add-mul-div_right, div-eq_of_lt, add-mul-mod_self_right, mod-eq_of_lt}
use operating_systems_ntua.Prelude.Int.{pos, negsuc}
use operating_systems_ntua.Ext2.Bitmap.{Bits, test_bit, set_bit, clear_bit}
use operating_systems_ntua.Ext2.Bitmap.Scan.{test_bit-set}
use operating_systems_ntua.Ext2.Groups.{GroupDesc, get_group_desc, set_group_desc}
use operating_systems_ntua.Ext2.Groups.Table.{get_group_desc-set_group_desc, set_group_desc_back}
use operating_systems_ntua.Ext2.Mount.{Device, Fs, Inode, update}
use operating_systems_ntua.Ext2.Balloc.{add16}
use operating_systems_ntua.Ext2.Balloc.Outcome.{SameData}
use operating_systems_ntua.Ext2.Ialloc.{
  InodeCache, read_inode_bitmap, inode_used, inode_released, release_inode, bad_ino, free_inode,
  new_inode,
}
use operating_systems_ntua.Ext2.Ialloc.Outcome.{
  IsFree, Outcome, failed, reserved, clashed, made, filled, number_of, new_inode-Outcome,
}

-- The counts of a descriptor fit their 16 bits.
pub record FitsDesc (desc : GroupDesc) : Type 0 where
  pub fits_inodes : desc.bg_free_inodes_count < 2 ^ 16
  pub fits_dirs : desc.bg_used_dirs_count < 2 ^ 16

add16_back : (n : ℕ) → n < 2 ^ 16 → add16 (add16 n (negsuc 0)) (pos 1) ≡ n
add16_back n h = omega arith

add16_back_down : (n : ℕ) → n < 2 ^ 16 → add16 (add16 n (pos 1)) (negsuc 0) ≡ n
add16_back_down n h = omega arith

inode_released-used :
    (dir : Bool) (desc : GroupDesc)
    → FitsDesc desc
    → inode_released dir (inode_used dir desc) ≡ desc
inode_released-used true desc f = λ i. record desc {
  bg_free_inodes_count = add16_back desc.bg_free_inodes_count f.fits_inodes i;
  bg_used_dirs_count = add16_back_down desc.bg_used_dirs_count f.fits_dirs i;
}
inode_released-used false desc f =
    λ i. record desc { bg_free_inodes_count = add16_back desc.bg_free_inodes_count f.fits_inodes i }

-- The group and the bit of an inode's number.
number_place :
    (bit group n : ℕ)
    → bit < n
    → ((bit + group * n + 1 - 1) / n ≡ group) × ((bit + group * n + 1 - 1) % n ≡ bit)
number_place bit group n h =
    let p : bit + group * n + 1 - 1 ≡ bit + group * n = omega arith in
    (
      ap (λ m. m / n) p ∙ add-mul-div_right bit group (omega arith) ∙ omega (arith, div-eq_of_lt h),
      ap (λ m. m % n) p ∙ add-mul-mod_self_right bit group n ∙ mod-eq_of_lt h,
    )

clear_bit-set_bit :
    (bits : Bits) (bit : ℕ)
    → bit < length bits
    → test_bit bit bits ≡ false
    → clear_bit bit (set_bit bit bits) ≡ bits
clear_bit-set_bit bits bit h c =
    set-set bits bit true false ∙ subst (λ v. set bits bit v ≡ bits) c (set_same bits bit false h)

-- The file system with the inode taken, whichever buffers are up to date.
abbrev with_inode : Fs → Bool → ℕ → ℕ → GroupDesc → (ℕ → Bool) → Fs
with_inode fs is_dir group bit desc u = record {
  info = fs.info;
  table = set_group_desc fs.info fs.table group (inode_used is_dir desc);
  bits = update fs.bits desc.bg_inode_bitmap (set_bit bit (fs.bits desc.bg_inode_bitmap));
  uptodate = u;
  freeblocks_counter = fs.freeblocks_counter;
  freeinodes_counter = fs.freeinodes_counter - 1;
  dirs_counter = if is_dir then fs.dirs_counter + 1 else fs.dirs_counter;
}

module _ (dev : Device) (fs : Fs) (dir : Inode) (is_dir : Bool)
    (getblk : (blk : ℕ) → dev.getblk_ok blk ≡ true) (reads : (blk : ℕ) → dev.read_ok blk ≡ true)
    (group bit : ℕ) (desc : GroupDesc) (free : IsFree fs group desc bit)
    (long : fs.info.s_inodes_per_group ≤ length (fs.bits desc.bg_inode_bitmap))
    (fits : FitsDesc desc) (counted : 0 < fs.freeinodes_counter) where
  bitmap_read :
      (u : ℕ → Bool)
      → read_inode_bitmap dev (with_inode fs is_dir group bit desc u) group ≡ (
        some desc.bg_inode_bitmap,
        with_inode fs is_dir group bit desc (update u desc.bg_inode_bitmap true),
      )
  unfolding read_inode_bitmap
  bitmap_read u =
      rw
        (
          get_group_desc-set_group_desc fs.info fs.table group (inode_used is_dir desc)
              free.group_desc,
          getblk desc.bg_inode_bitmap,
          reads desc.bg_inode_bitmap,
        )
        (elim (Bool-cases (u desc.bg_inode_bitmap)) [ inl e ↦ rw e refl | inr e ↦ rw e refl ])

  bits_back :
      (j : ℕ)
      → update
          (update fs.bits desc.bg_inode_bitmap (set_bit bit (fs.bits desc.bg_inode_bitmap)))
          desc.bg_inode_bitmap
          (clear_bit bit (set_bit bit (fs.bits desc.bg_inode_bitmap)))
          j
        ≡ fs.bits j
  bits_back j = elim (Bool-cases (desc.bg_inode_bitmap == j)) [
    | inl e ↦ rw e (
        clear_bit-set_bit (fs.bits desc.bg_inode_bitmap) bit (omega (arith, free.inside, long))
          free.was_clear
        ∙ ap fs.bits ((==_iff desc.bg_inode_bitmap j).0 e))
    | inr ne ↦ rw ne refl
  ]

  bit_set :
      update fs.bits desc.bg_inode_bitmap
        (set_bit bit (fs.bits desc.bg_inode_bitmap))
        desc.bg_inode_bitmap
      ≡ set_bit bit (fs.bits desc.bg_inode_bitmap)
  bit_set =
      let e : (desc.bg_inode_bitmap == desc.bg_inode_bitmap) ≡ true = ground arith in rw e refl

  reads_set : test_bit bit (set_bit bit (fs.bits desc.bg_inode_bitmap)) ≡ true
  reads_set = ground (
    arith,
    test_bit-set (fs.bits desc.bg_inode_bitmap) bit bit true (omega (arith, free.inside, long)),
  )

  dirs_back :
      (d : Bool) (n : ℕ)
      → (if d then (if d then n + 1 else n) - 1 else (if d then n + 1 else n)) ≡ n
  dirs_back true n = omega arith
  dirs_back false n = refl

  free_inode-with_inode :
      (u : ℕ → Bool)
      → bad_ino fs.info (number_of fs group bit) ≡ false
      → SameData fs (
          free_inode dev
            (with_inode fs is_dir group bit desc u)
            (filled dir is_dir group (number_of fs group bit)))
  unfolding free_inode release_inode
  free_inode-with_inode u good =
      let (g, b) = number_place bit group fs.info.s_inodes_per_group free.inside in
      rw
        (
          good,
          g,
          b,
          bitmap_read u,
          bit_set,
          reads_set,
          get_group_desc-set_group_desc fs.info fs.table group (inode_used is_dir desc)
              free.group_desc,
        )
        record {
          same_info = refl;
          same_table =
              ap
                (λ d.
                  set_group_desc fs.info
                    (set_group_desc fs.info fs.table group (inode_used is_dir desc)) group d)
                (inode_released-used is_dir desc fits)
              ∙ set_group_desc_back fs.info fs.table group (inode_used is_dir desc) free.group_desc;
          same_bits = λ i. λ j. bits_back j i;
          same_blocks = refl;
          same_inodes = omega (arith, counted);
          same_dirs = dirs_back is_dir fs.dirs_counter;
        }

-- Freeing the inode that `ext2_new_inode` has just returned gives back every bitmap, descriptor and
-- counter as it was. The device answers, a group's bitmap has its bits, a descriptor's counts fit 16
-- bits, and the counter of free inodes is not 0.
pub free_inode-new_inode :
    (dev : Device) (cache : InodeCache) (fs : Fs) (dir : Inode) (is_dir : Bool) {fs' : Fs}
    {inode : Inode}
    → ((blk : ℕ) → dev.getblk_ok blk ≡ true)
    → ((blk : ℕ) → dev.read_ok blk ≡ true)
    → ((blk : ℕ) → fs.info.s_inodes_per_group ≤ length (fs.bits blk))
    → ((g : ℕ) (d : GroupDesc) → get_group_desc fs.info fs.table g ≡ some d → FitsDesc d)
    → 0 < fs.freeinodes_counter
    → new_inode dev cache fs dir is_dir ≡ (fs', ok inode)
    → SameData fs (free_inode dev fs' inode)
free_inode-new_inode dev cache fs dir is_dir {fs' = fs'} {inode = inode} getblk reads long fits
      counted h =
    go (new_inode-Outcome dev cache fs dir is_dir) h
  where
    go :
        {r : Fs × Result Inode}
        → Outcome cache fs dir is_dir r
        → r ≡ (fs', ok inode)
        → SameData fs (free_inode dev fs' inode)
    go (failed f e s) h = absurd (ground (arith, h))
    go (reserved f group bit desc free bad m) h = absurd (ground (arith, h))
    go (clashed f group bit desc free no_room m c) h = absurd (ground (arith, h))
    go (made f group bit desc free good m c) h =
        let state : f ≡ with_inode fs is_dir group bit desc f.uptodate = λ i. record {
          info = m.info_kept i;
          table = c.descriptors i;
          bits = m.bitmaps i;
          uptodate = f.uptodate;
          freeblocks_counter = m.blocks_kept i;
          freeinodes_counter = c.inodes i;
          dirs_counter = c.dirs i;
        } in
        let same_fs : f ≡ fs' = ap (λ p. p.0) h in
        let same_inode : filled dir is_dir group (number_of fs group bit) ≡ inode =
          ground (arith, h) in
        subst (λ v. SameData fs (free_inode dev v inode)) same_fs
          (subst (λ v. SameData fs (free_inode dev f v)) same_inode
            (subst
              (λ v.
                SameData fs (free_inode dev v (filled dir is_dir group (number_of fs group bit))))
              (sym state)
              (free_inode-with_inode dev fs dir is_dir getblk reads group bit desc free
                (long desc.bg_inode_bitmap) (fits group desc free.group_desc) counted f.uptodate
                good)))
