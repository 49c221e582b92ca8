-- ===== src/Ext2/Balloc.antt =====
-- balloc.c: the allocation and the freeing of data blocks. One thread at a time works on a bitmap, so
-- that no bit changes between a search and ext2_set_bit_atomic. Dirty marks, synchronous writes and
-- messages are left out.
pub mod Allocate
pub mod Search
pub mod Free
pub mod Outcome
pub mod Release
mod Tests
use operating_systems_ntua.Prelude.{
  ℕ, zero, suc, ◌+◌, ◌-◌, ◌*◌, ◌/◌, ◌%◌, ◌^◌, Bool, true, false, not, ◌&&◌, ◌||◌, Option, none,
  some, List, [], ◌∷◌, ltb, leb, ◌==◌, if◌then◌else◌, Errno, eio, enospc, Result, ok, err,
}
use operating_systems_ntua.Prelude.Int.{ℤ, pos, negsuc}
use operating_systems_ntua.Ext2.Bitmap.{Bits, test_bit, find_next_zero_bit, set_bit, clear_bit}
use operating_systems_ntua.Ext2.Mount.{Device, Fs, Inode, update}
use operating_systems_ntua.Ext2.Checks.{block_bitmap_valid, data_blocks_valid, data_blocks_valid_bg}
use operating_systems_ntua.Ext2.Groups.{
  GroupDesc, SbInfo, DescTable, group_first_block_no, group_last_block_no, get_group_desc,
  set_group_desc,
}

-- The buffer with the bitmap has been read from the device: validate it.
abbrev pub validated : Fs → GroupDesc → ℕ → Option ℕ × Fs
validated fs desc group =
    let fs' = record fs { uptodate = update fs.uptodate desc.bg_block_bitmap true } in
    if block_bitmap_valid fs.info desc group (fs.bits desc.bg_block_bitmap)
    then (some desc.bg_block_bitmap, fs')
    else (none, fs')

abbrev pub read_bitmap_of : Device → Fs → ℕ → Option GroupDesc → Option ℕ × Fs
read_bitmap_of dev fs group none = (none, fs)
read_bitmap_of dev fs group (some desc) =
    if dev.getblk_ok desc.bg_block_bitmap
    then (if fs.uptodate desc.bg_block_bitmap
        then (some desc.bg_block_bitmap, fs)
        else if dev.read_ok desc.bg_block_bitmap
        then validated fs desc group
        else (none, fs))
    else (none, fs)

-- `ext2_read_block_bitmap`: the number of the bitmap's block, or `none` for NULL.
unfoldable pub read_block_bitmap : Device → Fs → ℕ → Option ℕ × Fs
read_block_bitmap dev fs group = read_bitmap_of dev fs group (get_group_desc fs.info fs.table group)

-- A 16-bit count with an `int` added.
abbrev pub add16 : ℕ → ℤ → ℕ
add16 n (pos k) = (n + k) % 2 ^ 16
add16 n (negsuc k) = (n + 2 ^ 16 - (k + 1) % 2 ^ 16) % 2 ^ 16

-- `group_update_free_blocks`; a count of 0 writes what was there.
pub group_update_free_blocks : SbInfo → DescTable → ℕ → GroupDesc → ℤ → DescTable
group_update_free_blocks sbi table group desc count =
    set_group_desc sbi table group
      (record desc { bg_free_blocks_count = add16 desc.bg_free_blocks_count count })

-- The loop of `ext2_free_blocks` over `n` bits: the bits, and how many of them were set.
pub clear_loop : Bits → ℕ → ℕ → ℕ → Bits × ℕ
clear_loop bits bit zero freed = (bits, freed)
clear_loop bits bit (suc n) freed =
    clear_loop (clear_bit bit bits) (bit + 1) n (if test_bit bit bits then freed + 1 else freed)

-- The end of `ext2_free_blocks`, with the bitmap in block `blk`; `freed` blocks are 512-byte sectors
-- less in the inode.
abbrev pub free_in_group : Fs → Inode → ℕ → GroupDesc → ℕ → ℕ → ℕ → Fs × Inode
free_in_group fs inode group desc blk bit count =
    let (bits', freed) = clear_loop (fs.bits blk) bit count 0 in
    (
      record fs {
        bits = update fs.bits blk bits';
        table = group_update_free_blocks fs.info fs.table group desc (pos freed);
        freeblocks_counter = fs.freeblocks_counter + freed;
      },
      record inode {
        i_blocks = (inode.i_blocks + 2 ^ 64 - freed * fs.info.s_blocksize / 512) % 2 ^ 64;
      },
    )

abbrev pub free_checked : Fs → Inode → ℕ → Option ℕ → Option GroupDesc → ℕ → ℕ → ℕ → Fs × Inode
free_checked fs inode group (some blk) (some desc) bit block count =
    if data_blocks_valid_bg desc fs.info block count
    then free_in_group fs inode group desc blk bit count
    else (fs, inode)
free_checked fs inode group _ _ bit block count = (fs, inode)

-- `ext2_free_blocks`
pub free_blocks : Device → Fs → Inode → ℕ → ℕ → Fs × Inode
free_blocks dev fs inode block count =
    let fdb = fs.info.s_first_data_block in
    let group = (block - fdb) / fs.info.s_blocks_per_group in
    let bit = (block - fdb) % fs.info.s_blocks_per_group in
    let (bitmap, fs') = read_block_bitmap dev fs group in
    if data_blocks_valid fs.info block count
    then free_checked fs' inode group bitmap (get_group_desc fs'.info fs'.table group) bit block
        count
    else (fs, inode)

-- The number of blocks of a group
abbrev pub nblocks : SbInfo → ℕ → ℕ
nblocks sbi group = group_last_block_no sbi group - group_first_block_no sbi group + 1

-- The loop of `ext2_allocate_in_bg` with `n` bits to go: where it stops, `num`, and the bits.
unfoldable pub take_loop : Bits → ℕ → ℕ → ℕ → ℕ → ℕ × ℕ × Bits
take_loop bits bit zero num count = (bit, num, bits)
take_loop bits bit (suc n) num count =
    let skip = take_loop bits (bit + 1) n num count in
    let take = take_loop (set_bit bit bits) (bit + 1) n (num + 1) count in
    if ltb num count
    then (if test_bit bit bits then (if num == 0 then skip else (bit, num, bits)) else take)
    else (bit, num, bits)

-- `if (num == 0) return -1; *count = num; return first_free_bit - num;`
abbrev pub taken : ℕ × ℕ × Bits → Option (ℕ × ℕ × Bits)
taken (bit, num, bits) = if num == 0 then none else some (bit - num, num, bits)

-- `ext2_allocate_in_bg`: the first bit taken, how many, and the bits; `none` for -1. The variable `num`
-- is not initialised, which leaves its first value undefined: it is 0 here. The search starts at the
-- group's first block number.
unfoldable pub allocate_in_bg : SbInfo → ℕ → Bits → ℕ → Option (ℕ × ℕ × Bits)
allocate_in_bg sbi group bits count =
    let size = nblocks sbi group in
    let first = find_next_zero_bit bits size (group_first_block_no sbi group) in
    if leb size first then none else taken (take_loop bits first (size - first) 0 count)

-- What `ext2_new_blocks` does with blocks that it got, and returns: the first block, and how many.
abbrev pub commit : Fs → ℕ → GroupDesc → ℕ → ℕ × ℕ × Bits → Fs × Result (ℕ × ℕ)
commit fs group desc blk (start, num, bits') = (
  record fs {
    bits = update fs.bits blk bits';
    table =
        group_update_free_blocks fs.info fs.table group desc
          (if num == 0 then pos 0 else negsuc (num - 1));
    freeblocks_counter = fs.freeblocks_counter - num;
  },
  ok (start + group_first_block_no fs.info group, num),
)

-- The body of the loop over the groups, from the descriptor, from the bitmap and from the allocation
-- on; `next` goes on with the next group.
abbrev pub try_taken :
    (Fs → Fs × Result (ℕ × ℕ))
    → Fs
    → ℕ
    → GroupDesc
    → ℕ
    → Option (ℕ × ℕ × Bits)
    → Fs × Result (ℕ × ℕ)
try_taken next fs group desc blk none = next fs
try_taken next fs group desc blk (some t) = commit fs group desc blk t

abbrev pub try_bitmap :
    (Fs → Fs × Result (ℕ × ℕ)) → ℕ → ℕ → GroupDesc → Option ℕ × Fs → Fs × Result (ℕ × ℕ)
try_bitmap next group count desc (none, fs) = (fs, err eio)
try_bitmap next group count desc (some blk, fs) =
    try_taken next fs group desc blk (allocate_in_bg fs.info group (fs.bits blk) count)

abbrev pub try_group :
    (Fs → Fs × Result (ℕ × ℕ)) → Device → Fs → ℕ → ℕ → Option GroupDesc → Fs × Result (ℕ × ℕ)
try_group next dev fs group count none = (fs, err eio)
try_group next dev fs group count (some desc) =
    if desc.bg_free_blocks_count == 0
    then next fs
    else try_bitmap next group count desc (read_block_bitmap dev fs group)

-- The loop with `n` groups to try.
unfoldable pub new_blocks_loop : Device → ℕ → ℕ → ℕ → Fs → Fs × Result (ℕ × ℕ)
new_blocks_loop dev count zero group fs = (fs, err enospc)
new_blocks_loop dev count (suc n) group fs =
    try_group (new_blocks_loop dev count n ((group + 1) % fs.info.s_groups_count)) dev fs group
      count (get_group_desc fs.info fs.table group)

-- `ext2_new_blocks` for at most `count` blocks. The counter is read into a 16-bit variable.
unfoldable pub new_blocks : Device → Fs → Inode → ℕ → Fs × Result (ℕ × ℕ)
new_blocks dev fs inode count =
    if fs.freeblocks_counter % 2 ^ 16 == 0
    then (fs, err enospc)
    else new_blocks_loop dev count fs.info.s_groups_count inode.i_block_group fs

abbrev pub count_of : (GroupDesc → ℕ) → Option GroupDesc → ℕ
count_of f none = 0
count_of f (some desc) = f desc

-- A sum over the first `n` groups, with those left out that have no descriptor.
pub sum_groups : (GroupDesc → ℕ) → SbInfo → DescTable → ℕ → ℕ
sum_groups f sbi table zero = 0
sum_groups f sbi table (suc n) = sum_groups f sbi table n + count_of f (get_group_desc sbi table n)

-- `ext2_count_free_blocks`
pub count_free_blocks : Fs → ℕ
count_free_blocks fs =
    sum_groups (λ d. d.bg_free_blocks_count) fs.info fs.table fs.info.s_groups_count
