-- ===== src/Ext2/Inode/RoundTrip.antt =====
-- Inodes of inode.c that are written to the disk and read again.
use operating_systems_ntua.Prelude.{
  ℕ, ◌-◌, ◌/◌, ◌%◌, ◌^◌, ◌<◌, ◌≡◌, refl, sym, ap, ◌∙◌, Bool, true, false, ◌&&◌, ◌||◌, ltb, leb,
  if◌then◌else◌, List, arith, Result, ok, length, take, take_whole,
}
use native.Mathlib.Nat.{mod-eq_of_lt}
use operating_systems_ntua.Ext2.Groups.{SbInfo}
use operating_systems_ntua.Ext2.Mount.{Device, Fs}
use operating_systems_ntua.Ext2.Inode.{
  n_blocks, Kind, kind_of, reg, dir, lnk, chr, blk, other_kind, is_dir_kind, Node, is_fast_symlink,
}
use operating_systems_ntua.Ext2.Inode.Disk.{
  RawInode, DevCodec, ground_raw, block_field, encode, rdev_of, signed32, decode, InodeTable, store,
  found, undefined, set_up, fetched, iget, written, write_inode, get_inode,
}

-- A time, as a word of 64 bits in two's complement, that is between -2 ^ 31 and 2 ^ 31 - 1
abbrev pub is_time32 : ℕ → Bool
is_time32 t = ltb t (2 ^ 31) || (leb (2 ^ 64 - 2 ^ 31) t && ltb t (2 ^ 64))

-- A node whose fields fit those of the disk, with its group from its number, and no time of deletion.
pub record IsStorable (sbi : SbInfo) (n : Node) : Type 0 where
  pub mode16 : n.i_mode < 2 ^ 16
  pub uid16 : n.i_uid < 2 ^ 16
  pub gid16 : n.i_gid < 2 ^ 16
  pub links16 : n.i_nlink < 2 ^ 16
  pub size32 : n.i_size < 2 ^ 32
  pub atime32 : is_time32 n.i_atime ≡ true
  pub ctime32 : is_time32 n.i_ctime ≡ true
  pub mtime32 : is_time32 n.i_mtime ≡ true
  pub blocks32 : n.core.i_blocks < 2 ^ 32
  pub flags32 : n.core.i_flags < 2 ^ 32
  pub alive : n.core.i_dtime ≡ 0
  pub grouped : n.core.i_block_group ≡ (n.core.i_ino - 1) / sbi.s_inodes_per_group
  pub same_kind : n.core.is_dir ≡ is_dir_kind (kind_of n.i_mode)
  pub entries : length n.core.i_data ≡ n_blocks

-- The kinds that keep their block numbers on the disk.
abbrev pub keeps_blocks : Kind → Bool
keeps_blocks reg = true
keeps_blocks dir = true
keeps_blocks lnk = true
keeps_blocks _ = false

block_field_plain :
    (c : DevCodec) (n : Node) (old : List ℕ) (k : Kind)
    → kind_of n.i_mode ≡ k
    → keeps_blocks k ≡ true
    → block_field c n old ≡ n.core.i_data
block_field_plain c n old reg e h = rw (block_field, e) refl
block_field_plain c n old dir e h = rw (block_field, e) refl
block_field_plain c n old lnk e h = rw (block_field, e) refl
block_field_plain c n old chr e h = ground (arith, h)
block_field_plain c n old blk e h = ground (arith, h)
block_field_plain c n old other_kind e h = ground (arith, h)

rdev_of_plain :
    (c : DevCodec) (raw : RawInode) (k : Kind)
    → kind_of raw.i_mode ≡ k
    → keeps_blocks k ≡ true
    → rdev_of c raw ≡ 0
rdev_of_plain c raw reg e h = rw (rdev_of, e) refl
rdev_of_plain c raw dir e h = rw (rdev_of, e) refl
rdev_of_plain c raw lnk e h = rw (rdev_of, e) refl
rdev_of_plain c raw chr e h = ground (arith, h)
rdev_of_plain c raw blk e h = ground (arith, h)
rdev_of_plain c raw other_kind e h = ground (arith, h)

signed32_back : (t : ℕ) → is_time32 t ≡ true → signed32 (t % 2 ^ 32) ≡ t
signed32_back t h = ground (arith, h)

-- The node without the mark of a new one
abbrev pub settled : Node → Node
settled n = record n { core = record n.core { is_new = false } }

module _ (c : DevCodec) (sbi : SbInfo) (n : Node) (s : IsStorable sbi n) (plain : n.i_rdev ≡ 0)
    (keeps : keeps_blocks (kind_of n.i_mode) ≡ true) (slow : is_fast_symlink n ≡ false) where
  decode-encode : (raw : RawInode) → decode c sbi n.core.i_ino (encode c n raw) ≡ settled n
  decode-encode raw =
      let mode : n.i_mode % 2 ^ 16 ≡ n.i_mode = mod-eq_of_lt s.mode16 in
      let uid : n.i_uid % 2 ^ 16 ≡ n.i_uid = mod-eq_of_lt s.uid16 in
      let gid : n.i_gid % 2 ^ 16 ≡ n.i_gid = mod-eq_of_lt s.gid16 in
      let links : n.i_nlink % 2 ^ 16 ≡ n.i_nlink = mod-eq_of_lt s.links16 in
      let size : n.i_size % 2 ^ 32 ≡ n.i_size = mod-eq_of_lt s.size32 in
      let atime = signed32_back n.i_atime s.atime32 in
      let ctime = signed32_back n.i_ctime s.ctime32 in
      let mtime = signed32_back n.i_mtime s.mtime32 in
      let blocks : n.core.i_blocks % 2 ^ 32 ≡ n.core.i_blocks = mod-eq_of_lt s.blocks32 in
      let flags : n.core.i_flags % 2 ^ 32 ≡ n.core.i_flags = mod-eq_of_lt s.flags32 in
      let numbers : block_field c n raw.i_block ≡ n.core.i_data =
        block_field_plain c n raw.i_block (kind_of n.i_mode) refl keeps in
      let whole : take n_blocks n.core.i_data ≡ n.core.i_data =
        take_whole n_blocks n.core.i_data (omega (arith, s.entries)) in
      let rdev : rdev_of c (encode c n raw) ≡ n.i_rdev =
        rdev_of_plain c (encode c n raw) (kind_of (n.i_mode % 2 ^ 16)) refl (rw mode keeps)
        ∙ sym plain in
      rw
        (
          rdev,
          numbers,
          whole,
          mode,
          uid,
          gid,
          links,
          size,
          atime,
          ctime,
          mtime,
          blocks,
          flags,
          sym s.grouped,
          sym s.same_kind,
          sym s.alive,
        )
        refl

  store_here : (raws : InodeTable) (b o : ℕ) (raw : RawInode) → store raws b o raw b o ≡ raw
  store_here raws b o raw = ground arith

  iget-written :
      (dev : Device) (fs : Fs) (raws : InodeTable) (sync_ok : Bool) (place : Result (ℕ × ℕ))
      {b o : ℕ}
      → place ≡ ok (b, o)
      → fetched c sbi n.core.i_ino (written c raws n sync_ok place).0 place ≡ found (settled n)
  iget-written dev fs raws sync_ok place {b = b} {o = o} e = rw e (
      ap (λ r. set_up (decode c sbi n.core.i_ino r))
        (store_here raws b o (encode c n (ground_raw n (raws b o))))
      ∙ ap set_up (decode-encode (ground_raw n (raws b o)))
      ∙ ap (λ f. if f then undefined else found (settled n)) slow)

-- An inode that `ext2_write_inode` has written is read back by `ext2_iget` as it was, but for the mark of
-- a new one, and whether or not the write was flushed. It has a place on the disk, its fields fit the
-- disk's, the times between -2 ^ 31 and 2 ^ 31 - 1, its array has 15 entries, it is a regular file, a
-- directory or a symbolic link that is not a fast one, and is not deleted.
pub iget-write_inode :
    (c : DevCodec) (dev : Device) (fs : Fs) (raws : InodeTable) (n : Node) (sync_ok : Bool)
    {b o : ℕ}
    → IsStorable fs.info n
    → n.i_rdev ≡ 0
    → keeps_blocks (kind_of n.i_mode) ≡ true
    → is_fast_symlink n ≡ false
    → get_inode dev fs n.core.i_ino ≡ ok (b, o)
    → iget c dev fs (write_inode c dev fs raws n sync_ok).0 n.core.i_ino true ≡ found (settled n)
unfolding iget write_inode
iget-write_inode c dev fs raws n sync_ok s plain keeps slow e =
    iget-written c fs.info n s plain keeps slow dev fs raws sync_ok (get_inode dev fs n.core.i_ino)
      e
