-- ===== src/Ext2/Sample.antt =====
-- A small file system for the tests: two groups of eight blocks and four inodes.
use operating_systems_ntua.Prelude.{true, false, some, [], ◌∷◌, ◌==◌, if◌then◌else◌}
use operating_systems_ntua.Ext2.Bitmap.{Bits}
use operating_systems_ntua.Ext2.Groups.{GroupDesc, SbInfo}
use operating_systems_ntua.Ext2.Mount.{Device, Fs, Inode}

abbrev pub info : SbInfo
info = record {
  s_first_data_block = 0;
  s_blocks_count = 16;
  s_inodes_count = 8;
  s_blocks_per_group = 8;
  s_inodes_per_group = 4;
  s_itb_per_group = 1;
  s_desc_per_block_bits = 1;
  s_groups_count = 2;
  s_gdb_count = 1;
  s_sb_block = 1;
  s_first_ino = 2;
  s_inode_size = 128;
  s_blocksize = 4096;
}

abbrev pub desc : GroupDesc
desc = record {
  bg_block_bitmap = 2;
  bg_inode_bitmap = 3;
  bg_inode_table = 4;
  bg_free_blocks_count = 2;
  bg_free_inodes_count = 2;
  bg_used_dirs_count = 1;
}

abbrev pub bits : Bits
bits = true ∷ true ∷ true ∷ true ∷ true ∷ false ∷ false ∷ true ∷ []

abbrev pub inode_bits : Bits
inode_bits = true ∷ true ∷ false ∷ false ∷ true ∷ true ∷ true ∷ true ∷ []

abbrev pub mounted : Fs
mounted = record {
  info = info;
  table = some (desc ∷ desc ∷ []) ∷ [];
  bits = λ b. if b == 3 then inode_bits else bits;
  uptodate = λ b. true;
  freeblocks_counter = 4;
  freeinodes_counter = 4;
  dirs_counter = 2;
}

abbrev pub device : Device
device = record { getblk_ok = λ b. true; read_ok = λ b. true }

abbrev pub root : Inode
root = record {
  i_ino = 2;
  is_dir = true;
  i_blocks = 8;
  i_data = [];
  i_flags = 0;
  i_dtime = 0;
  i_block_group = 0;
  is_new = false;
}
