-- ===== src/Ext2/Checks.antt =====
-- The tests of balloc.c that say which blocks are data blocks, and which bitmap a group may have.
use operating_systems_ntua.Prelude.{
  ℕ, ◌+◌, ◌-◌, ◌%◌, ◌^◌, Bool, false, not, ◌&&◌, ltb, leb, if◌then◌else◌,
}
use operating_systems_ntua.Ext2.Bitmap.{Bits, test_bit, find_next_zero_bit}
use operating_systems_ntua.Ext2.Groups.{GroupDesc, SbInfo, group_first_block_no}

-- `in_range`, whose subtraction is made on unsigned numbers: an empty range at 0 holds everything.
abbrev pub in_range : ℕ → ℕ → ℕ → Bool
in_range b first len = leb first b && leb b ((first + len + 2 ^ 64 - 1) % 2 ^ 64)

-- `bitmap_blk - group_first_block`; a block before the group gives an offset past every bitmap.
abbrev pub offset_in_group : SbInfo → ℕ → ℕ → ℕ
offset_in_group sbi blk group = (blk + 2 ^ 64 - group_first_block_no sbi group) % 2 ^ 64

-- `ext2_block_bitmap_valid`
pub block_bitmap_valid : SbInfo → GroupDesc → ℕ → Bits → Bool
block_bitmap_valid sbi desc group bits =
    let table = offset_in_group sbi desc.bg_inode_table group in
    if test_bit (offset_in_group sbi desc.bg_block_bitmap group) bits
    then (if test_bit (offset_in_group sbi desc.bg_inode_bitmap group) bits
        then not (
            ltb (find_next_zero_bit bits (table + sbi.s_itb_per_group) table)
              (table + sbi.s_itb_per_group))
        else false)
    else false

-- The last block of a range, as `start_blk + count - 1` on unsigned long.
abbrev pub end_blk : ℕ → ℕ → ℕ
end_blk start count = (start + count + 2 ^ 64 - 1) % 2 ^ 64

-- `ext2_data_blocks_valid`
pub data_blocks_valid : SbInfo → ℕ → ℕ → Bool
data_blocks_valid sbi start count =
    let last = end_blk start count in
    if ltb last start
    then false
    else if leb start sbi.s_first_data_block
    then false
    else if leb sbi.s_blocks_count last
    then false
    else not (leb start sbi.s_sb_block && leb sbi.s_sb_block last)

-- `ext2_data_blocks_valid_bg`
pub data_blocks_valid_bg : GroupDesc → SbInfo → ℕ → ℕ → Bool
data_blocks_valid_bg desc sbi start count =
    let last = end_blk start count in
    if ltb last start
    then false
    else if in_range desc.bg_block_bitmap start count
    then false
    else if in_range desc.bg_inode_bitmap start count
    then false
    else if in_range start desc.bg_inode_table sbi.s_itb_per_group
    then false
    else not (in_range last desc.bg_inode_table sbi.s_itb_per_group)
