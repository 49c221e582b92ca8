-- ===== src/Ext2/Mount.antt =====
-- The state of a mounted file system that the allocators of ext2-lite share, and the devices below it.
use operating_systems_ntua.Prelude.{ℕ, Bool, List, ◌==◌, if◌then◌else◌}
use operating_systems_ntua.Ext2.Bitmap.{Bits}
use operating_systems_ntua.Ext2.Groups.{SbInfo, DescTable}

-- How the block device answers: if sb_getblk has a buffer for a block, and if a read succeeds.
pub record Device : Type 0 where
  pub getblk_ok : ℕ → Bool
  pub read_ok : ℕ → Bool

-- A mounted file system: its descriptors, the bitmaps by block number with the buffers that are up to
-- date, and the three per-CPU counters,
-- which are taken not to fall below 0.
pub record Fs : Type 0 where
  pub info : SbInfo
  pub table : DescTable
  pub bits : ℕ → Bits
  pub uptodate : ℕ → Bool
  pub freeblocks_counter : ℕ
  pub freeinodes_counter : ℕ
  pub dirs_counter : ℕ

-- What the allocators read and write of an inode and its `struct ext2_inode_info`; `is_dir` is
-- S_ISDIR(i_mode), `is_new` is EXT2_STATE_NEW in `i_state`.
pub record Inode : Type 0 where
  pub i_ino : ℕ
  pub is_dir : Bool
  pub i_blocks : ℕ
  pub i_data : List ℕ
  pub i_flags : ℕ
  pub i_dtime : ℕ
  pub i_block_group : ℕ
  pub is_new : Bool

abbrev pub update {ℓ} : {A : Type ℓ} → (ℕ → A) → ℕ → A → ℕ → A
update f k v j = if k == j then v else f j
