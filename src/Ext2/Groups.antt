-- ===== src/Ext2/Groups.antt =====
-- ext2.h and the group descriptors of balloc.c: the fields of the super block and of the in-memory
-- super block that the allocators read, the descriptors as they are loaded, and where a group lies.
-- Numbers on disk are taken as converted to the CPU's byte order.
pub mod Table
use operating_systems_ntua.Prelude.{
  ℕ, zero, suc, ◌+◌, ◌-◌, ◌*◌, ◌/◌, ◌%◌, ◌^◌, Bool, Option, none, some, List, [], ◌∷◌, leb, ◌==◌,
  if◌then◌else◌, get_elem?, set,
}

-- `struct ext2_group_desc`, less its padding
pub record GroupDesc : Type 0 where
  pub bg_block_bitmap : ℕ
  pub bg_inode_bitmap : ℕ
  pub bg_inode_table : ℕ
  pub bg_free_blocks_count : ℕ
  pub bg_free_inodes_count : ℕ
  pub bg_used_dirs_count : ℕ

-- The constants of a mounted file system, out of `struct ext2_sb_info` and `struct ext2_super_block`.
-- `s_desc_per_block` is 2 ^ `s_desc_per_block_bits`.
pub record SbInfo : Type 0 where
  pub s_first_data_block : ℕ
  pub s_blocks_count : ℕ
  pub s_inodes_count : ℕ
  pub s_blocks_per_group : ℕ
  pub s_inodes_per_group : ℕ
  pub s_itb_per_group : ℕ
  pub s_desc_per_block_bits : ℕ
  pub s_groups_count : ℕ
  pub s_gdb_count : ℕ
  pub s_sb_block : ℕ
  pub s_first_ino : ℕ
  pub s_inode_size : ℕ
  pub s_blocksize : ℕ

-- `s_group_desc`: the buffers that hold the descriptors, `none` for one that is not loaded.
abbrev pub DescTable : Type 0
DescTable = List (Option (List GroupDesc))

-- `ext2_group_first_block_no` and `ext2_group_last_block_no`
abbrev pub group_first_block_no : SbInfo → ℕ → ℕ
group_first_block_no sbi group_no = group_no * sbi.s_blocks_per_group + sbi.s_first_data_block

abbrev pub group_last_block_no : SbInfo → ℕ → ℕ
group_last_block_no sbi group_no =
    if group_no == sbi.s_groups_count - 1
    then sbi.s_blocks_count - 1
    else group_first_block_no sbi group_no + sbi.s_blocks_per_group - 1

-- The buffer and the place in it of a group's descriptor: `>>` and `&` by the size of a buffer.
abbrev pub desc_buffer : SbInfo → ℕ → ℕ
desc_buffer sbi g = g / 2 ^ sbi.s_desc_per_block_bits

abbrev pub desc_offset : SbInfo → ℕ → ℕ
desc_offset sbi g = g % 2 ^ sbi.s_desc_per_block_bits

abbrev pub desc_in : Option (Option (List GroupDesc)) → ℕ → Option GroupDesc
desc_in (some (some descs)) i = get_elem? descs i
desc_in _ i = none

-- `ext2_get_group_desc`
unfoldable pub get_group_desc : SbInfo → DescTable → ℕ → Option GroupDesc
get_group_desc sbi table g =
    if leb sbi.s_groups_count g
    then none
    else desc_in (get_elem? table (desc_buffer sbi g)) (desc_offset sbi g)

abbrev pub desc_set : Option (Option (List GroupDesc)) → ℕ → GroupDesc → Option (List GroupDesc)
desc_set (some (some descs)) i d = some (set descs i d)
desc_set _ i d = none

-- A write through the pointer that `ext2_get_group_desc` returned for a group.
pub set_group_desc : SbInfo → DescTable → ℕ → GroupDesc → DescTable
set_group_desc sbi table g d =
    set table (desc_buffer sbi g)
      (desc_set (get_elem? table (desc_buffer sbi g)) (desc_offset sbi g) d)

-- `ext2_bg_has_super`: every group has a copy of the super block.
abbrev pub bg_has_super : ℕ → ℕ
bg_has_super group = 1

-- `ext2_bg_num_gdb`
pub bg_num_gdb : SbInfo → ℕ → ℕ
bg_num_gdb sbi group = if bg_has_super group == 0 then 0 else sbi.s_gdb_count
