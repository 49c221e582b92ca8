-- ===== src/Ext2/Inode/Disk.antt =====
-- inode.c: the inodes on the disk. Numbers there are taken as converted to the CPU's byte order.
use operating_systems_ntua.Prelude.{
  ℕ, ◌+◌, ◌-◌, ◌*◌, ◌/◌, ◌%◌, ◌^◌, Bool, false, not, ◌&&◌, ◌||◌, Option, none, some, List, [], ◌∷◌,
  ltb, ◌==◌, if◌then◌else◌, get_or, set, take, Errno, eio, einval, enomem, Result, ok, err,
}
use operating_systems_ntua.Ext2.Groups.{GroupDesc, SbInfo, DescTable, get_group_desc}
use operating_systems_ntua.Ext2.Mount.{Device, Fs}
use operating_systems_ntua.Ext2.Inode.{
  n_blocks, kind_of, reg, dir, lnk, chr, blk, is_dir_kind, Node, is_fast_symlink,
}

-- EXT2_ROOT_INO
abbrev pub root_ino : ℕ
root_ino = 2

abbrev pub place_in : SbInfo → ℕ → Option GroupDesc → Result (ℕ × ℕ)
place_in sbi ino none = err eio
place_in sbi ino (some desc) =
    let offset = (ino - 1) % sbi.s_inodes_per_group * sbi.s_inode_size in
    ok (desc.bg_inode_table + offset / sbi.s_blocksize, offset % sbi.s_blocksize)

-- `ext2_get_inode` up to the read: the block of an inode, and the offset in it.
unfoldable pub inode_place : SbInfo → DescTable → ℕ → Result (ℕ × ℕ)
inode_place sbi table ino =
    if not (ino == root_ino) && ltb ino sbi.s_first_ino || ltb sbi.s_inodes_count ino
    then err einval
    else place_in sbi ino (get_group_desc sbi table ((ino - 1) / sbi.s_inodes_per_group))

abbrev pub bread_place : Device → Result (ℕ × ℕ) → Result (ℕ × ℕ)
bread_place dev (err e) = err e
bread_place dev (ok (block, offset)) =
    if dev.getblk_ok block && dev.read_ok block then ok (block, offset) else err eio

-- `ext2_get_inode`
unfoldable pub get_inode : Device → Fs → ℕ → Result (ℕ × ℕ)
get_inode dev fs ino = bread_place dev (inode_place fs.info fs.table ino)

-- `struct ext2_inode`, less what is not used
pub record RawInode : Type 0 where
  pub i_mode : ℕ
  pub i_uid : ℕ
  pub i_size : ℕ
  pub i_atime : ℕ
  pub i_ctime : ℕ
  pub i_mtime : ℕ
  pub i_dtime : ℕ
  pub i_gid : ℕ
  pub i_links_count : ℕ
  pub i_blocks : ℕ
  pub i_flags : ℕ
  pub i_block : List ℕ

-- The kernel's codes of a device's number.
pub record DevCodec : Type 0 where
  pub old_valid : ℕ → Bool
  pub old_encode : ℕ → ℕ
  pub old_decode : ℕ → ℕ
  pub new_encode : ℕ → ℕ
  pub new_decode : ℕ → ℕ

-- `memset(raw_inode, 0, ..)`
abbrev pub blank_raw : RawInode
blank_raw = record {
  i_mode = 0;
  i_uid = 0;
  i_size = 0;
  i_atime = 0;
  i_ctime = 0;
  i_mtime = 0;
  i_dtime = 0;
  i_gid = 0;
  i_links_count = 0;
  i_blocks = 0;
  i_flags = 0;
  i_block = 0 ∷ 0 ∷ 0 ∷ 0 ∷ 0 ∷ 0 ∷ 0 ∷ 0 ∷ 0 ∷ 0 ∷ 0 ∷ 0 ∷ 0 ∷ 0 ∷ 0 ∷ [];
}

-- `raw_inode->i_block` of a device: the entries that are not written stay.
abbrev pub device_block : DevCodec → ℕ → List ℕ → List ℕ
device_block c rdev old =
    if c.old_valid rdev
    then set (set old 0 (c.old_encode rdev % 2 ^ 32)) 1 0
    else set (set (set old 0 0) 1 (c.new_encode rdev % 2 ^ 32)) 2 0

-- What stands under the fields: zeros, when the inode is new.
abbrev pub ground_raw : Node → RawInode → RawInode
ground_raw n old = if n.core.is_new then blank_raw else old

abbrev pub block_field : DevCodec → Node → List ℕ → List ℕ
block_field c n old = elim (kind_of n.i_mode) [
  | chr ↦ device_block c n.i_rdev old
  | blk ↦ device_block c n.i_rdev old
  | _ ↦ n.core.i_data
]

-- The fields that `ext2_do_write_inode` writes over an old inode.
abbrev pub encode : DevCodec → Node → RawInode → RawInode
encode c n old = record {
  i_mode = n.i_mode % 2 ^ 16;
  i_uid = n.i_uid % 2 ^ 16;
  i_size = n.i_size % 2 ^ 32;
  i_atime = n.i_atime % 2 ^ 32;
  i_ctime = n.i_ctime % 2 ^ 32;
  i_mtime = n.i_mtime % 2 ^ 32;
  i_dtime = n.core.i_dtime % 2 ^ 32;
  i_gid = n.i_gid % 2 ^ 16;
  i_links_count = n.i_nlink % 2 ^ 16;
  i_blocks = n.core.i_blocks % 2 ^ 32;
  i_flags = n.core.i_flags % 2 ^ 32;
  i_block = block_field c n old.i_block;
}

abbrev pub rdev_field : DevCodec → RawInode → ℕ
rdev_field c raw =
    if get_or raw.i_block 0 0 == 0
    then c.new_decode (get_or raw.i_block 1 0)
    else c.old_decode (get_or raw.i_block 0 0)

-- `init_special_inode` sets the number for the kinds that the code has not named.
abbrev pub rdev_of : DevCodec → RawInode → ℕ
rdev_of c raw = elim (kind_of raw.i_mode) [ reg ↦ 0 | dir ↦ 0 | lnk ↦ 0 | _ ↦ rdev_field c raw ]

-- `(signed)le32_to_cpu(..)` as a word of 64 bits in two's complement
abbrev pub signed32 : ℕ → ℕ
signed32 n = if ltb n (2 ^ 31) then n else 2 ^ 64 - 2 ^ 32 + n

-- The inode that `ext2_iget` fills from a raw one.
abbrev pub decode : DevCodec → SbInfo → ℕ → RawInode → Node
decode c sbi ino raw = record {
  core = record {
    i_ino = ino;
    is_dir = is_dir_kind (kind_of raw.i_mode);
    i_blocks = raw.i_blocks;
    i_data = take n_blocks raw.i_block;
    i_flags = raw.i_flags;
    i_dtime = 0;
    i_block_group = (ino - 1) / sbi.s_inodes_per_group;
    is_new = false;
  };
  i_mode = raw.i_mode;
  i_uid = raw.i_uid;
  i_gid = raw.i_gid;
  i_nlink = raw.i_links_count;
  i_size = raw.i_size;
  i_atime = signed32 raw.i_atime;
  i_ctime = signed32 raw.i_ctime;
  i_mtime = signed32 raw.i_mtime;
  i_rdev = rdev_of c raw;
}

-- The inodes on the disk, by block and offset.
abbrev pub InodeTable : Type 0
InodeTable = ℕ → ℕ → RawInode

abbrev pub store : InodeTable → ℕ → ℕ → RawInode → InodeTable
store raws b o raw b' o' = if b == b' && (o == o') then raw else raws b' o'

-- What `ext2_iget` comes to: an inode, an error, or, for a fast symbolic link, the use of a pointer that has
-- no value yet.
pub data Fetched : Type 0 where
  found : Node → Fetched
  failed : Errno → Fetched
  undefined : Fetched

abbrev pub set_up : Node → Fetched
set_up n = if is_fast_symlink n then undefined else found n

abbrev pub fetched : DevCodec → SbInfo → ℕ → InodeTable → Result (ℕ × ℕ) → Fetched
fetched c sbi ino raws (err e) = failed e
fetched c sbi ino raws (ok (b, o)) = set_up (decode c sbi ino (raws b o))

-- `ext2_iget` of an inode that is not in the cache; a size of 32 bits is never negative.
unfoldable pub iget : DevCodec → Device → Fs → InodeTable → ℕ → Bool → Fetched
iget c dev fs raws ino iget_ok =
    if iget_ok then fetched c fs.info ino raws (get_inode dev fs ino) else failed enomem

abbrev pub written :
    DevCodec → InodeTable → Node → Bool → Result (ℕ × ℕ) → InodeTable × Node × Result (Unit {0})
written c raws n sync_ok (err e) = (raws, n, err eio)
written c raws n sync_ok (ok (b, o)) = (
  store raws b o (encode c n (ground_raw n (raws b o))),
  record n { core = record n.core { is_new = false } },
  (if sync_ok then ok tt else err eio),
)

-- `ext2_do_write_inode`; `sync_ok` says that no synchronous write failed.
unfoldable pub write_inode :
    DevCodec → Device → Fs → InodeTable → Node → Bool → InodeTable × Node × Result (Unit {0})
write_inode c dev fs raws n sync_ok = written c raws n sync_ok (get_inode dev fs n.core.i_ino)
