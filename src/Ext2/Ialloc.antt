-- ===== src/Ext2/Ialloc.antt =====
-- ialloc.c: the allocation and the freeing of inodes. One thread at a time works on a bitmap; dirty
-- marks, synchronous writes, messages and times are left out.
pub mod Search
pub mod Hash
pub mod Outcome
pub mod Free
mod Tests
use operating_systems_ntua.Prelude.{
  ℕ, zero, suc, ◌+◌, ◌-◌, ◌*◌, ◌/◌, ◌%◌, Bool, true, false, not, ◌&&◌, ◌||◌, Option, none, some,
  List, ltb, leb, ◌==◌, if◌then◌else◌, replicate, Errno, eio, enomem, enospc, Result, ok, err,
}
use operating_systems_ntua.Prelude.Int.{pos, negsuc}
use operating_systems_ntua.Ext2.Bitmap.{Bits, test_bit, find_next_zero_bit, set_bit, clear_bit}
use operating_systems_ntua.Ext2.Groups.{
  GroupDesc, SbInfo, DescTable, get_group_desc, set_group_desc,
}
use operating_systems_ntua.Ext2.Mount.{Device, Fs, Inode, update}
use operating_systems_ntua.Ext2.Balloc.{add16, sum_groups}

-- The inode cache of the kernel: if `new_inode` has an inode, and if `insert_inode_locked` takes a
-- number.
pub record InodeCache : Type 0 where
  pub new_inode_ok : Bool
  pub insert_ok : ℕ → Bool

abbrev pub bread_desc : Device → Fs → Option GroupDesc → Option ℕ × Fs
bread_desc dev fs none = (none, fs)
bread_desc dev fs (some desc) =
    if dev.getblk_ok desc.bg_inode_bitmap
      && (fs.uptodate desc.bg_inode_bitmap || dev.read_ok desc.bg_inode_bitmap)
    then (
      some desc.bg_inode_bitmap,
      record fs { uptodate = update fs.uptodate desc.bg_inode_bitmap true },
    )
    else (none, fs)

-- `read_inode_bitmap`: the number of the bitmap's block, or `none` for NULL.
pub read_inode_bitmap : Device → Fs → ℕ → Option ℕ × Fs
read_inode_bitmap dev fs group = bread_desc dev fs (get_group_desc fs.info fs.table group)

-- A descriptor with one inode fewer in use, and with one more.
abbrev pub inode_released : Bool → GroupDesc → GroupDesc
inode_released dir desc = record desc {
  bg_free_inodes_count = add16 desc.bg_free_inodes_count (pos 1);
  bg_used_dirs_count =
      if dir then add16 desc.bg_used_dirs_count (negsuc 0) else desc.bg_used_dirs_count;
}

abbrev pub inode_used : Bool → GroupDesc → GroupDesc
inode_used dir desc = record desc {
  bg_free_inodes_count = add16 desc.bg_free_inodes_count (negsuc 0);
  bg_used_dirs_count =
      if dir then add16 desc.bg_used_dirs_count (pos 1) else desc.bg_used_dirs_count;
}

abbrev pub release_in : Fs → ℕ → Bool → Option GroupDesc → Fs
release_in fs group dir none = fs
release_in fs group dir (some desc) = record fs {
  table = set_group_desc fs.info fs.table group (inode_released dir desc);
  freeinodes_counter = fs.freeinodes_counter + 1;
  dirs_counter = if dir then fs.dirs_counter - 1 else fs.dirs_counter;
}

-- `ext2_release_inode`
pub release_inode : Fs → ℕ → Bool → Fs
release_inode fs group dir = release_in fs group dir (get_group_desc fs.info fs.table group)

abbrev pub free_bit : Option ℕ × Fs → ℕ → ℕ → Bool → Fs
free_bit (none, fs) group bit dir = fs
free_bit (some blk, fs) group bit dir =
    let fs' = record fs { bits = update fs.bits blk (clear_bit bit (fs.bits blk)) } in
    if test_bit bit (fs.bits blk) then release_inode fs' group dir else fs'

-- `ino < EXT2_FIRST_INO(sb) || ino > s_inodes_count`
abbrev pub bad_ino : SbInfo → ℕ → Bool
bad_ino sbi ino = ltb ino sbi.s_first_ino || ltb sbi.s_inodes_count ino

-- `ext2_free_inode`
pub free_inode : Device → Fs → Inode → Fs
free_inode dev fs inode =
    let group = (inode.i_ino - 1) / fs.info.s_inodes_per_group in
    let bit = (inode.i_ino - 1) % fs.info.s_inodes_per_group in
    if bad_ino fs.info inode.i_ino
    then fs
    else free_bit (read_inode_bitmap dev fs group) group bit inode.is_dir

-- The two tests of `find_group` on a descriptor.
abbrev pub has_inodes : Option GroupDesc → Bool
has_inodes none = false
has_inodes (some desc) = not (desc.bg_free_inodes_count == 0)

abbrev pub has_both : Option GroupDesc → Bool
has_both none = false
has_both (some desc) = not (desc.bg_free_inodes_count == 0) && not (desc.bg_free_blocks_count == 0)

-- The quadratic search with step `i`, on fuel.
pub hash_loop : SbInfo → DescTable → ℕ → ℕ → ℕ → Option ℕ
hash_loop sbi table zero group i = none
hash_loop sbi table (suc fuel) group i =
    let next =
      if leb sbi.s_groups_count (group + i) then group + i - sbi.s_groups_count else group + i in
    let rest = hash_loop sbi table fuel next (i * 2) in
    if ltb i sbi.s_groups_count
    then (if has_both (get_group_desc sbi table next) then some next else rest)
    else none

-- The linear search, `n` rounds of it.
pub linear_loop : SbInfo → DescTable → ℕ → ℕ → Option ℕ
linear_loop sbi table zero group = none
linear_loop sbi table (suc n) group =
    let next = (group + 1) % sbi.s_groups_count in
    let rest = linear_loop sbi table n next in
    if has_inodes (get_group_desc sbi table next) then some next else rest

abbrev pub or_else : Option ℕ → Option ℕ → Option ℕ
or_else (some g) _ = some g
or_else none r = r

-- `find_group`, with `none` for -1. The step doubles, so that as many rounds as there are groups are
-- enough for the quadratic search.
pub find_group : SbInfo → DescTable → Inode → Option ℕ
find_group sbi table parent =
    let group = parent.i_block_group in
    if has_both (get_group_desc sbi table group)
    then some group
    else or_else
        (hash_loop sbi table sbi.s_groups_count ((group + parent.i_ino) % sbi.s_groups_count) 1)
        (linear_loop sbi table sbi.s_groups_count group)

-- The code from `repeat_in_this_group` on, for a group's bitmap: the bit that was clear and has been
-- set, on fuel.
pub take_inode : ℕ → Bits → ℕ → ℕ → Option ℕ
take_inode zero bits size ino = none
take_inode (suc fuel) bits size ino =
    let found = find_next_zero_bit bits size ino in
    let again = take_inode fuel bits size (found + 1) in
    if leb size found
    then none
    else if test_bit found bits
    then (if leb size (found + 1) then none else again)
    else some found

-- The code from `got` on; an inode is made bad on a failure, but its bit stays set.
abbrev pub got : InodeCache → Fs → Inode → Bool → ℕ → GroupDesc → ℕ → ℕ → Fs × Result Inode
got cache fs dir is_dir group desc blk bit =
    let ino = bit + group * fs.info.s_inodes_per_group + 1 in
    let fs' = record fs { bits = update fs.bits blk (set_bit bit (fs.bits blk)) } in
    let fs'' = record fs' {
      table = set_group_desc fs.info fs.table group (inode_used is_dir desc);
      freeinodes_counter = fs.freeinodes_counter - 1;
      dirs_counter = if is_dir then fs.dirs_counter + 1 else fs.dirs_counter;
    } in
    let inode : Inode = record {
      i_ino = ino;
      is_dir = is_dir;
      i_blocks = 0;
      i_data = replicate 15 0;
      i_flags = dir.i_flags;
      i_dtime = 0;
      i_block_group = group;
      is_new = true;
    } in
    if bad_ino fs.info ino
    then (fs', err eio)
    else if cache.insert_ok ino
    then (fs'', ok inode)
    else (fs'', err eio)

-- The body of the loop, from the bitmap and from the descriptor on; `next` goes on with the next group.
abbrev pub try_bit :
    (Fs → Fs × Result Inode)
    → InodeCache
    → Fs
    → Inode
    → Bool
    → ℕ
    → GroupDesc
    → ℕ
    → Option ℕ
    → Fs × Result Inode
try_bit next cache fs dir is_dir group desc blk none = next fs
try_bit next cache fs dir is_dir group desc blk (some bit) =
    got cache fs dir is_dir group desc blk bit

abbrev pub try_inodes :
    (Fs → Fs × Result Inode)
    → InodeCache
    → Inode
    → Bool
    → ℕ
    → GroupDesc
    → Option ℕ × Fs
    → Fs × Result Inode
try_inodes next cache dir is_dir group desc (none, fs) = (fs, err eio)
try_inodes next cache dir is_dir group desc (some blk, fs) =
    try_bit next cache fs dir is_dir group desc blk
      (take_inode fs.info.s_inodes_per_group (fs.bits blk) fs.info.s_inodes_per_group 0)

abbrev pub try_desc :
    (Fs → Fs × Result Inode)
    → Device
    → InodeCache
    → Fs
    → Inode
    → Bool
    → ℕ
    → Option GroupDesc
    → Fs × Result Inode
try_desc next dev cache fs dir is_dir group none = next fs
try_desc next dev cache fs dir is_dir group (some desc) =
    try_inodes next cache dir is_dir group desc (read_inode_bitmap dev fs group)

-- The loop with `n` groups to try.
pub new_inode_loop : Device → InodeCache → Inode → Bool → ℕ → ℕ → Fs → Fs × Result Inode
new_inode_loop dev cache dir is_dir zero group fs = (fs, err enospc)
new_inode_loop dev cache dir is_dir (suc n) group fs =
    try_desc (new_inode_loop dev cache dir is_dir n ((group + 1) % fs.info.s_groups_count)) dev
      cache fs dir is_dir group (get_group_desc fs.info fs.table group)

abbrev pub in_found_group : Device → InodeCache → Fs → Inode → Bool → Option ℕ → Fs × Result Inode
in_found_group dev cache fs dir is_dir none = (fs, err enospc)
in_found_group dev cache fs dir is_dir (some group) =
    new_inode_loop dev cache dir is_dir fs.info.s_groups_count group fs

-- `ext2_new_inode` in the directory `dir`, for a mode with S_ISDIR or without.
pub new_inode : Device → InodeCache → Fs → Inode → Bool → Fs × Result Inode
new_inode dev cache fs dir is_dir =
    if cache.new_inode_ok
    then in_found_group dev cache fs dir is_dir (find_group fs.info fs.table dir)
    else (fs, err enomem)

-- `ext2_count_free_inodes` and `ext2_count_dirs`
pub count_free_inodes : Fs → ℕ
count_free_inodes fs =
    sum_groups (λ d. d.bg_free_inodes_count) fs.info fs.table fs.info.s_groups_count

pub count_dirs : Fs → ℕ
count_dirs fs = sum_groups (λ d. d.bg_used_dirs_count) fs.info fs.table fs.info.s_groups_count
