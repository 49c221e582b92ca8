-- ===== src/Ext2/Inode/Tests.antt =====
-- Inodes of inode.c on a file system of two groups of eight blocks.
use operating_systems_ntua.Prelude.{◌^◌, ◌-◌, ℕ, ◌≡◌, refl, true, false, List, [], ◌∷◌, arith, ok}
use operating_systems_ntua.Ext2.Bitmap.{scan, find_next_zero_bit}
use operating_systems_ntua.Ext2.Groups.{get_group_desc}
use operating_systems_ntua.Ext2.Mount.{Inode}
use operating_systems_ntua.Ext2.Balloc.{
  read_block_bitmap, allocate_in_bg, take_loop, new_blocks, new_blocks_loop,
}
use operating_systems_ntua.Ext2.Sample.{info, mounted, device}
use operating_systems_ntua.Ext2.Inode.{Node, get_blocks, free_loop}
use operating_systems_ntua.Ext2.Inode.Disk.{
  found, DevCodec, InodeTable, blank_raw, inode_place, get_inode, iget, write_inode,
}
use operating_systems_ntua.Ext2.Inode.Runs.{free_all, blocks_of, free_loop-free_all}
use operating_systems_ntua.Ext2.Inode.Place.{IsPlace, inode_place-IsPlace}
use operating_systems_ntua.Ext2.Inode.RoundTrip.{settled, iget-write_inode}

abbrev core : Inode
core = record {
  i_ino = 3;
  is_dir = false;
  i_blocks = 24;
  i_data = 2 ∷ 3 ∷ 5 ∷ 0 ∷ 0 ∷ 0 ∷ 0 ∷ 0 ∷ 0 ∷ 0 ∷ 0 ∷ 0 ∷ 0 ∷ 0 ∷ 0 ∷ [];
  i_flags = 0;
  i_dtime = 0;
  i_block_group = 0;
  is_new = true;
}

abbrev file : Node
file = record {
  core = core;
  i_mode = 33188;
  i_uid = 0;
  i_gid = 0;
  i_nlink = 1;
  i_size = 10000;
  i_atime = 2 ^ 64 - 7;
  i_ctime = 7;
  i_mtime = 7;
  i_rdev = 0;
}

gets : get_blocks device mounted core 3 true ≡ (
  (get_blocks device mounted core 3 true).0,
  (get_blocks device mounted core 3 true).1,
  ok (record { ret = 1; bno = 5; new = true }),
)
unfolding get_blocks new_blocks new_blocks_loop read_block_bitmap allocate_in_bg take_loop
    find_next_zero_bit scan get_group_desc
gets = refl

free_loop-free_all_example :
    (runs : List (ℕ × ℕ)) × (free_loop device mounted core (2 ∷ 3 ∷ 0 ∷ 5 ∷ []) 0 0
      ≡ free_all device mounted core runs)
    × (blocks_of runs ≡ 2 ∷ 3 ∷ 5 ∷ [])
free_loop-free_all_example =
    free_loop-free_all device (2 ∷ 3 ∷ 0 ∷ 5 ∷ []) mounted core refl (omega arith)

places : inode_place info mounted.table 7 ≡ ok (4, 256)
unfolding inode_place get_group_desc
places = refl

inode_place-IsPlace_example : IsPlace info mounted.table 7 4 256
inode_place-IsPlace_example =
    inode_place-IsPlace info mounted.table 7 32 4 256 (omega arith) (omega arith) (omega arith) refl
      (omega arith) places

abbrev codec : DevCodec
codec = record {
  old_valid = λ d. true;
  old_encode = λ d. d;
  old_decode = λ d. d;
  new_encode = λ d. d;
  new_decode = λ d. d;
}

abbrev empty_table : InodeTable
empty_table b o = blank_raw

stands : get_inode device mounted 3 ≡ ok (4, 256)
unfolding get_inode inode_place get_group_desc
stands = refl

iget-write_inode_example :
    iget codec device mounted (write_inode codec device mounted empty_table file true).0 3 true
    ≡ found (settled file)
iget-write_inode_example =
    iget-write_inode codec device mounted empty_table file true
      record {
        mode16 = omega arith;
        uid16 = omega arith;
        gid16 = omega arith;
        links16 = omega arith;
        size32 = omega arith;
        atime32 = refl;
        ctime32 = refl;
        mtime32 = refl;
        blocks32 = omega arith;
        flags32 = omega arith;
        alive = refl;
        grouped = refl;
        same_kind = refl;
        entries = refl;
      }
      refl refl refl stands
