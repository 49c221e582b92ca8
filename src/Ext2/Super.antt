-- ===== src/Ext2/Super.antt =====
-- super.c: the super block of a mounted file system. Locks make what they guard one step; messages and
-- the time that a write to the device takes are left out. `now` is the time, in seconds.
pub mod Options
pub mod Checked
pub mod Fill
pub mod Labels
pub mod Mounted
pub mod Lifecycle
mod Tests
use operating_systems_ntua.Prelude.{
  ℕ, zero, suc, ◌+◌, ◌-◌, ◌*◌, ◌/◌, ◌%◌, ◌^◌, Bool, true, false, not, ◌&&◌, ◌||◌, Option, none,
  some, List, [], ◌∷◌, ltb, leb, ◌==◌, if◌then◌else◌, Errno, einval, Result, ok, err,
}
use operating_systems_ntua.Ext2.Groups.{
  GroupDesc, SbInfo, group_first_block_no, group_last_block_no, get_group_desc, bg_has_super,
  bg_num_gdb,
}
use operating_systems_ntua.Ext2.Mount.{Fs}
use operating_systems_ntua.Ext2.Balloc.{count_free_blocks}
use operating_systems_ntua.Ext2.Ialloc.{count_free_inodes}
use operating_systems_ntua.Ext2.Super.Options.{MountOpt, parse_options}

-- The fields of `struct ext2_super_block` that change
pub record EsBlock : Type 0 where
  pub s_state : ℕ
  pub s_free_blocks_count : ℕ
  pub s_free_inodes_count : ℕ
  pub s_wtime : ℕ
  pub s_mtime : ℕ
  pub s_mnt_count : ℕ
  pub s_rev_level : ℕ

-- A mounted super block: `struct super_block` and `struct ext2_sb_info`. `io_error` says that the last
-- write of the buffer failed, and `uptodate` that it holds what is on the disk.
pub record Super : Type 0 where
  pub fs : Fs
  pub es : EsBlock
  pub mount_state : ℕ
  pub mount_opt : MountOpt
  pub rdonly : Bool
  pub io_error : Bool
  pub uptodate : Bool
  pub blocks_last : ℕ
  pub overhead_last : ℕ

-- EXT2_VALID_FS is 1, EXT2_ERROR_FS is 2: the tests, the setting and the clearing of these bits.
abbrev pub is_valid : ℕ → Bool
is_valid state = state % 2 == 1

abbrev pub clear_valid : ℕ → ℕ
clear_valid state = state - state % 2

abbrev pub has_error : ℕ → Bool
has_error state = state / 2 % 2 == 1

abbrev pub set_error : ℕ → ℕ
set_error state = if has_error state then state else state + 2

-- `ext2_sync_super`
pub sync_super : ℕ → Super → Super
sync_super now s = record s {
  io_error = false;
  uptodate = s.uptodate || s.io_error;
  es = record s.es {
    s_free_blocks_count = count_free_blocks s.fs % 2 ^ 32;
    s_free_inodes_count = count_free_inodes s.fs % 2 ^ 32;
    s_wtime = now % 2 ^ 32;
  };
}

-- The kernel goes on, or stops in a panic.
pub data Fate : Type 0 where
  goes_on panics : Super → Fate

abbrev pub with_state : ℕ → Super → Super
with_state x s = record s { es = record s.es { s_state = x } }

-- `ext2_error`
pub error : ℕ → Super → Fate
error now s =
    let marked =
      with_state (set_error s.es.s_state) (record s { mount_state = set_error s.mount_state }) in
    let s' = (if s.rdonly then s else sync_super now marked) in
    if s'.mount_opt.errors_panic
    then panics s'
    else goes_on (record s' { rdonly = s'.rdonly || s'.mount_opt.errors_ro })

-- EXT2_MAX_SUPP_REV
abbrev pub max_supp_rev : ℕ
max_supp_rev = 1

-- `ext2_check_super`: if the mount has to be read-only, and the super block.
pub check_super : Bool → EsBlock → Bool × EsBlock
check_super read_only es =
    let res = ltb max_supp_rev es.s_rev_level in
    if read_only
    then (res, es)
    else (res, record es { s_mnt_count = (es.s_mnt_count + 1) % 2 ^ 16 })

-- The tests on one descriptor; the end of the inode table is computed in 32 bits.
abbrev pub in_group : SbInfo → ℕ → Option GroupDesc → Bool
in_group sbi i none = false
in_group sbi i (some gdp) =
    let first = group_first_block_no sbi i in
    let last = group_last_block_no sbi i in
    let table_last = (gdp.bg_inode_table + sbi.s_itb_per_group + 2 ^ 32 - 1) % 2 ^ 32 in
    if ltb gdp.bg_block_bitmap first || ltb last gdp.bg_block_bitmap
    then false
    else if ltb gdp.bg_inode_bitmap first || ltb last gdp.bg_inode_bitmap
    then false
    else not (ltb gdp.bg_inode_table first || ltb last table_last)

-- The loop of `ext2_check_descriptors` with `n` groups to go. A descriptor that is not there would be
-- read through a null pointer; it is refused here.
pub check_loop : Fs → ℕ → ℕ → Bool
check_loop fs i zero = true
check_loop fs i (suc n) =
    if in_group fs.info i (get_group_desc fs.info fs.table i)
    then check_loop fs (i + 1) n
    else false

-- `ext2_check_descriptors`
pub check_descriptors : Fs → Bool
check_descriptors fs = check_loop fs 0 fs.info.s_groups_count

-- `descriptor_loc`
pub descriptor_loc : SbInfo → ℕ → ℕ → ℕ → ℕ
descriptor_loc sbi first_meta_bg logic_sb_block nr =
    let bg = 2 ^ sbi.s_desc_per_block_bits * nr in
    if ltb nr first_meta_bg
    then logic_sb_block + nr + 1
    else group_first_block_no sbi bg + bg_has_super bg

-- `ext2_sync_fs`
pub sync_fs : ℕ → Super → Super
sync_fs now s =
    sync_super now
      (with_state (if is_valid s.es.s_state then clear_valid s.es.s_state else s.es.s_state) s)

-- `ext2_write_super`
pub write_super : ℕ → Super → Super
write_super now s = if s.rdonly then s else sync_fs now s

-- `ext2_put_super`, as what it leaves in the super block
pub put_super : ℕ → Super → Super
put_super now s = if s.rdonly then s else sync_super now (with_state s.mount_state s)

-- What `ext2_remount` does about the flag SB_RDONLY
abbrev pub remount_flags : ℕ → Bool → Super → Super
remount_flags now to_rdonly s =
    let (forced, es') = check_super false s.es in
    let reread = record s { mount_state = s.es.s_state; es = es'; rdonly = s.rdonly && forced } in
    let marked = record s {
      es = record s.es { s_state = s.mount_state; s_mtime = now % 2 ^ 32 };
    } in
    if to_rdonly
    then (if is_valid s.es.s_state || not (is_valid s.mount_state)
        then s
        else sync_super now marked)
    else write_super now reread

abbrev pub remount_with : ℕ → Bool → Super → Option MountOpt → Super × Result (Unit {0})
remount_with now to_rdonly s none = (s, err einval)
remount_with now to_rdonly s (some opt) =
    let same = (if to_rdonly then s.rdonly else not s.rdonly) in
    (record (if same then s else remount_flags now to_rdonly s) { mount_opt = opt }, ok tt)

-- `ext2_remount` to the flag and the options that are asked for
pub remount : ℕ → Bool → Option (List ℕ) → Super → Super × Result (Unit {0})
remount now to_rdonly options s = remount_with now to_rdonly s (parse_options options s.mount_opt)

-- `struct kstatfs`, less what is constant
pub record StatFs : Type 0 where
  pub f_bsize : ℕ
  pub f_blocks : ℕ
  pub f_bfree : ℕ
  pub f_bavail : ℕ
  pub f_files : ℕ
  pub f_ffree : ℕ

-- The blocks of the copies of the super block and the descriptors in the first `n` groups
pub group_overhead : SbInfo → ℕ → ℕ
group_overhead sbi zero = 0
group_overhead sbi (suc n) = group_overhead sbi n + (bg_has_super n + bg_num_gdb sbi n)

abbrev pub overhead : SbInfo → ℕ
overhead sbi =
    sbi.s_first_data_block
    + group_overhead sbi sbi.s_groups_count
    + sbi.s_groups_count * (2 + sbi.s_itb_per_group)

-- `ext2_statfs`
pub statfs : Super → Super × StatFs
statfs s =
    let sbi = s.fs.info in
    let counted = record s { overhead_last = overhead sbi; blocks_last = sbi.s_blocks_count } in
    let s' = (if s.blocks_last == sbi.s_blocks_count then s else counted) in
    let free = count_free_blocks s.fs in
    let inodes = count_free_inodes s.fs in
    (
      record s' {
        es = record s'.es {
          s_free_blocks_count = free % 2 ^ 32;
          s_free_inodes_count = inodes % 2 ^ 32;
        };
      },
      record {
        f_bsize = sbi.s_blocksize;
        f_blocks = (sbi.s_blocks_count + 2 ^ 64 - s'.overhead_last) % 2 ^ 64;
        f_bfree = free;
        f_bavail = free;
        f_files = sbi.s_inodes_count;
        f_ffree = inodes;
      },
    )

-- The end of `ext2_fill_super`, from the call of `ext2_check_super` on
pub start_super : ℕ → Super → Super
start_super now s =
    let (forced, es') = check_super s.rdonly s.es in
    write_super now (record s { es = es'; rdonly = s.rdonly || forced })
