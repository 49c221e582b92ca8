-- ===== src/Ext2/Inode.antt =====
-- inode.c: the blocks of a file, and its truncation. The calls of the page cache
-- are left out, and so are dirty marks, synchronous writes and messages.
pub mod Disk
pub mod Attr
pub mod Blocks
pub mod Runs
pub mod Place
pub mod RoundTrip
mod Tests
use operating_systems_ntua.Prelude.{
  ℕ, zero, suc, ◌+◌, ◌-◌, ◌*◌, ◌/◌, ◌%◌, ◌^◌, Bool, true, false, not, ◌&&◌, ◌||◌, Option, none,
  some, List, [], ◌∷◌, ◌++◌, ltb, leb, ◌==◌, if◌then◌else◌, length, get_or, set, take, drop, Errno,
  eio, einval, enomem, Result, ok, err,
}
use operating_systems_ntua.Ext2.Groups.{GroupDesc, SbInfo, DescTable, get_group_desc}
use operating_systems_ntua.Ext2.Mount.{Device, Fs, Inode, update}
use operating_systems_ntua.Ext2.Balloc.{new_blocks, free_blocks}
use operating_systems_ntua.Ext2.Ialloc.{free_inode}

-- EXT2_NDIR_BLOCKS and EXT2_N_BLOCKS
abbrev pub ndir_blocks : ℕ
ndir_blocks = 12

abbrev pub n_blocks : ℕ
n_blocks = 15

-- The kinds of file that S_ISREG and its like tell apart.
pub data Kind : Type 0 where
  reg dir lnk chr blk other_kind : Kind

abbrev pub kind_of_number : ℕ → Kind
kind_of_number n =
    if n == 8
    then reg
    else if n == 4
    then dir
    else if n == 10
    then lnk
    else if n == 2
    then chr
    else if n == 6
    then blk
    else other_kind

-- The kind in the bits S_IFMT of a mode.
abbrev pub kind_of : ℕ → Kind
kind_of mode = kind_of_number (mode / 2 ^ 12 % 16)

abbrev pub is_dir_kind : Kind → Bool
is_dir_kind dir = true
is_dir_kind _ = false

-- `struct inode` around what the allocators see of it. A device's number stands in `i_rdev`, and
-- the times are words of 64 bits in two's complement.
pub record Node : Type 0 where
  pub core : Inode
  pub i_mode : ℕ
  pub i_uid : ℕ
  pub i_gid : ℕ
  pub i_nlink : ℕ
  pub i_size : ℕ
  pub i_atime : ℕ
  pub i_ctime : ℕ
  pub i_mtime : ℕ
  pub i_rdev : ℕ

-- `ext2_inode_is_fast_symlink`
abbrev pub is_fast_symlink : Node → Bool
is_fast_symlink n = elim (kind_of n.i_mode) [ lnk ↦ n.core.i_blocks == 0 | _ ↦ false ]

-- What `ext2_get_blocks` returns when it does not fail: its result, `*bno` and `*new`.
pub record Found : Type 0 where
  pub ret : ℕ
  pub bno : ℕ
  pub new : Bool

-- The code behind ext2_new_blocks; a block's number is cut to 32 bits.
abbrev pub keep_block : Inode → ℕ → Fs × Result (ℕ × ℕ) → Fs × Inode × Result Found
keep_block inode iblock (fs, err e) = (fs, inode, err e)
keep_block inode iblock (fs, ok (resb, count)) = (
  fs,
  record inode {
    i_data = set inode.i_data iblock (resb % 2 ^ 32);
    i_blocks = (inode.i_blocks + count * fs.info.s_blocksize / 512) % 2 ^ 64;
  },
  ok (record { ret = count; bno = resb % 2 ^ 32; new = true }),
)

-- `ext2_get_blocks`
pub get_blocks : Device → Fs → Inode → ℕ → Bool → Fs × Inode × Result Found
get_blocks dev fs inode iblock create =
    let block_no = get_or inode.i_data iblock 0 in
    if leb ndir_blocks iblock
    then (fs, inode, err eio)
    else if ltb 0 block_no
    then (fs, inode, ok (record { ret = 1; bno = block_no; new = false }))
    else if not create
    then (fs, inode, ok (record { ret = 0; bno = 0; new = false }))
    else keep_block inode iblock (new_blocks dev fs inode 1)

-- A buffer that has been mapped: the block, the bytes, and if it is new.
pub record Mapping : Type 0 where
  pub b_blocknr : ℕ
  pub b_size : ℕ
  pub is_new : Bool

abbrev pub map_found : ℕ → Found → Option Mapping
map_found blocksize f =
    if f.ret == 0
    then none
    else some (record { b_blocknr = f.bno; b_size = f.ret * blocksize; is_new = f.new })

abbrev pub map_result : ℕ → Result Found → Result (Option Mapping)
map_result blocksize (ok f) = ok (map_found blocksize f)
map_result blocksize (err e) = err e

-- `ext2_get_block`: the mapping, if there is one.
pub get_block : Device → Fs → Inode → ℕ → Bool → Fs × Inode × Result (Option Mapping)
get_block dev fs inode iblock create =
    let (fs', inode', r) = get_blocks dev fs inode iblock create in
    (fs', inode', map_result fs.info.s_blocksize r)

-- The loop of `ext2_free_data` over the numbers in `p .. q`; `nr - count` is unsigned.
pub free_loop : Device → Fs → Inode → List ℕ → ℕ → ℕ → Fs × Inode
free_loop dev fs inode [] block_to_free count =
    if ltb 0 count then free_blocks dev fs inode block_to_free count else (fs, inode)
free_loop dev fs inode (nr ∷ rest) block_to_free count =
    let (fs', inode') = free_blocks dev fs inode block_to_free count in
    let skip = free_loop dev fs inode rest block_to_free count in
    let start = free_loop dev fs inode rest nr 1 in
    let join = free_loop dev fs inode rest block_to_free (count + 1) in
    let flush = free_loop dev fs' inode' rest nr 1 in
    if nr == 0
    then skip
    else if count == 0
    then start
    else if block_to_free == (nr + 2 ^ 64 - count) % 2 ^ 64
    then join
    else flush

-- `*p = 0` for the numbers that are not 0
abbrev pub cleared : List ℕ → List ℕ
cleared [] = []
cleared (nr ∷ rest) = (if nr == 0 then nr else 0) ∷ cleared rest

-- `ext2_free_data` for the entries `from .. EXT2_NDIR_BLOCKS` of `i_data`
pub free_data : Device → Fs → Inode → ℕ → Fs × Inode
free_data dev fs inode from =
    let slots = take (ndir_blocks - from) (drop from inode.i_data) in
    let (fs', inode') = free_loop dev fs inode slots 0 0 in
    (
      fs',
      record inode' {
        i_data = take from inode.i_data ++ (cleared slots ++ drop ndir_blocks inode.i_data);
      },
    )

-- The files that have blocks of their own.
abbrev pub has_blocks : Node → Bool
has_blocks n = elim (kind_of n.i_mode) [
  | reg ↦ true
  | dir ↦ true
  | lnk ↦ not (n.core.i_blocks == 0)
  | _ ↦ false
]

-- `ext2_truncate_blocks`; a size past the direct blocks leaves an empty range.
pub truncate_blocks : Device → Fs → Node → ℕ → Fs × Node
truncate_blocks dev fs n offset =
    let iblock = (offset + fs.info.s_blocksize - 1) / fs.info.s_blocksize in
    let (fs', core') = free_data dev fs n.core iblock in
    if has_blocks n && leb iblock ndir_blocks then (fs', record n { core = core' }) else (fs, n)
