-- ===== src/Ext2/Super/Fill.antt =====
-- super.c: the mount of a file system, with its error paths, and what it holds of the kernel's resources.
use operating_systems_ntua.Prelude.{
  ℕ, zero, suc, ◌+◌, ◌-◌, ◌*◌, ◌/◌, ◌%◌, ◌^◌, bit_and, Bool, true, false, not, ◌&&◌, ◌||◌, Option,
  none, some, List, [], ◌∷◌, ◌++◌, ltb, ◌==◌, if◌then◌else◌, Errno, einval, enomem, Result, ok, err,
}
use operating_systems_ntua.Ext2.Bitmap.{Bits}
use operating_systems_ntua.Ext2.Groups.{GroupDesc, SbInfo, DescTable}
use operating_systems_ntua.Ext2.Mount.{Fs}
use operating_systems_ntua.Ext2.Balloc.{count_free_blocks}
use operating_systems_ntua.Ext2.Ialloc.{count_free_inodes, count_dirs}
use operating_systems_ntua.Ext2.Super.{
  EsBlock, Super, check_descriptors, descriptor_loc, start_super,
}
use operating_systems_ntua.Ext2.Super.Options.{MountOpt, parse_options, default_options}

-- `struct ext2_super_block` as it is read
pub record RawSuper : Type 0 where
  pub changing : EsBlock
  pub s_magic : ℕ
  pub s_errors : ℕ
  pub s_feature_compat : ℕ
  pub s_feature_ro_compat : ℕ
  pub s_feature_incompat : ℕ
  pub s_log_block_size : ℕ
  pub s_first_ino : ℕ
  pub s_inode_size : ℕ
  pub s_blocks_per_group : ℕ
  pub s_inodes_per_group : ℕ
  pub s_blocks_count : ℕ
  pub s_inodes_count : ℕ
  pub s_first_data_block : ℕ
  pub s_first_meta_bg : ℕ

-- What the mount sees of the root's inode
pub record Root : Type 0 where
  pub is_dir : Bool
  pub i_blocks : ℕ
  pub i_size : ℕ

-- How the kernel and the device answer: allocations, the block size of the device (0 is a failure), the
-- reads of the super block and of descriptors by block number, the error of each counter's set-up, and the
-- root. `b_size` is
-- the size of the buffer with the super block, and `ilog2` the kernel's logarithm.
pub record Answers : Type 0 where
  pub sbi_ok : Bool
  pub lock_ok : Bool
  pub min_blocksize : ℕ
  pub first_read : ℕ → Option RawSuper
  pub set_blocksize_ok : ℕ → Bool
  pub second_read : ℕ → Option RawSuper
  pub b_size : ℕ
  pub array_ok : Bool
  pub read_desc : ℕ → Option (List GroupDesc)
  pub freeblocks_init : Option Errno
  pub freeinodes_init : Option Errno
  pub dirs_init : Option Errno
  pub root : Result Root
  pub root_ok : Bool
  pub ilog2 : ℕ → ℕ
  pub bits : ℕ → Bits

-- What is held: allocated memory, buffers, inodes in use, and which of the three per-CPU counters of the
-- mount are set up.
pub record Held : Type 0 where
  pub memory : ℕ
  pub buffers : ℕ
  pub inodes : ℕ
  pub freeblocks : Bool
  pub freeinodes : Bool
  pub dirs : Bool

abbrev pub kmalloc : Held → Held
kmalloc h = record h { memory = h.memory + 1 }

abbrev pub kfree : Held → Held
kfree h = record h { memory = h.memory - 1 }

abbrev pub bread : ℕ → Held → Held
bread n h = record h { buffers = h.buffers + n }

abbrev pub brelse : ℕ → Held → Held
brelse n h = record h { buffers = h.buffers - n }

abbrev pub grab : Held → Held
grab h = record h { inodes = h.inodes + 1 }

abbrev pub iput : Held → Held
iput h = record h { inodes = h.inodes - 1 }

-- The three calls of percpu_counter_destroy, which does nothing to a counter that is not set up
abbrev pub destroy_counters : Held → Held
destroy_counters h = record h { freeblocks = false; freeinodes = false; dirs = false }

-- The labels of `ext2_fill_super`, from the last one up
abbrev pub failed_sbi : Held → Held
failed_sbi h = kfree (kfree h)

abbrev pub failed_mount : Held → Held
failed_mount h = failed_sbi (brelse 1 h)

abbrev pub failed_mount_group_desc : Held → Held
failed_mount_group_desc h = failed_mount (kfree h)

abbrev pub failed_mount2 : ℕ → Held → Held
failed_mount2 n h = failed_mount_group_desc (brelse n h)

abbrev pub failed_mount3 : ℕ → Held → Held
failed_mount3 n h = failed_mount2 n (destroy_counters h)

-- What a mount comes to: what it holds, and the super block with the number of its descriptor buffers.
abbrev pub Mounting : Type 0
Mounting = Held × Result (Super × ℕ)

-- BLOCK_SIZE and EXT2_SUPER_MAGIC
abbrev pub block_size : ℕ
block_size = 1024

abbrev pub super_magic : ℕ
super_magic = 61267

-- What a mount is asked: the options, the flag, and the time.
pub record Asked : Type 0 where
  pub options : Option (List ℕ)
  pub rdonly : Bool
  pub now : ℕ

abbrev pub is_power_of_2 : ℕ → Bool
is_power_of_2 n = not (n == 0) && (bit_and n (n - 1) == 0)

abbrev pub good_old : RawSuper → Bool
good_old es = es.changing.s_rev_level == 0

-- EXT2_GOOD_OLD_INODE_SIZE and EXT2_GOOD_OLD_FIRST_INO, or the fields
abbrev pub inode_size : RawSuper → ℕ
inode_size es = if good_old es then 128 else es.s_inode_size

abbrev pub first_ino : RawSuper → ℕ
first_ino es = if good_old es then 11 else es.s_first_ino

abbrev pub bad_inode_size : RawSuper → ℕ → Bool
bad_inode_size es blocksize =
    not (good_old es)
    && (ltb es.s_inode_size 128
        || (not (is_power_of_2 es.s_inode_size) || ltb blocksize es.s_inode_size))

-- The numbers of `struct ext2_sb_info`; the difference of the two counts has 32 bits.
abbrev pub groups_of : RawSuper → ℕ
groups_of es =
    (es.s_blocks_count + 2 ^ 32 + 2 ^ 32 - es.s_first_data_block - 1)
      % 2 ^ 32
      / es.s_blocks_per_group
    + 1

-- sizeof(struct ext2_group_desc)
abbrev pub desc_per_block : ℕ → ℕ
desc_per_block blocksize = blocksize / 32

abbrev pub db_count : RawSuper → ℕ → ℕ
db_count es blocksize = (groups_of es + desc_per_block blocksize - 1) / desc_per_block blocksize

abbrev pub info_of : Answers → RawSuper → ℕ → SbInfo
info_of a es blocksize = record {
  s_first_data_block = es.s_first_data_block;
  s_blocks_count = es.s_blocks_count;
  s_inodes_count = es.s_inodes_count;
  s_blocks_per_group = es.s_blocks_per_group;
  s_inodes_per_group = es.s_inodes_per_group;
  s_itb_per_group = es.s_inodes_per_group / (blocksize / inode_size es);
  s_desc_per_block_bits = a.ilog2 (desc_per_block blocksize);
  s_groups_count = groups_of es;
  s_gdb_count = db_count es blocksize;
  s_sb_block = 1;
  s_first_ino = first_ino es;
  s_inode_size = inode_size es;
  s_blocksize = blocksize;
}

abbrev pub fs_of : Answers → SbInfo → DescTable → Fs
fs_of a info table =
    let fs : Fs = record {
      info = info;
      table = table;
      bits = a.bits;
      uptodate = λ b. false;
      freeblocks_counter = 0;
      freeinodes_counter = 0;
      dirs_counter = 0;
    } in
    record fs {
      freeblocks_counter = count_free_blocks fs;
      freeinodes_counter = count_free_inodes fs;
      dirs_counter = count_dirs fs;
    }

abbrev pub super_of : Asked → RawSuper → MountOpt → Fs → Super
super_of q es opt fs = record {
  fs = fs;
  es = es.changing;
  mount_state = es.changing.s_state;
  mount_opt = opt;
  rdonly = q.rdonly;
  io_error = false;
  uptodate = true;
  blocks_last = 0;
  overhead_last = 0;
}

module _ (a : Answers) (q : Asked) where
  -- d_make_root gives the inode back where it fails.
  abbrev pub with_root : RawSuper → MountOpt → Fs → ℕ → Held → Result Root → Mounting
  with_root es opt fs n h (err e) = (failed_mount3 n h, err e)
  with_root es opt fs n h (ok root) =
      let kept = grab h in
      if not root.is_dir || (root.i_blocks == 0 || (root.i_size == 0))
      then (failed_mount3 n (iput kept), err einval)
      else if a.root_ok
      then (kept, ok (start_super q.now (super_of q es opt fs), n))
      else (failed_mount3 n (iput kept), err enomem)

  -- percpu_counter_init, one counter after the other, as long as there is no error
  abbrev pub with_dirs : RawSuper → MountOpt → Fs → ℕ → Held → Option Errno → Mounting
  with_dirs es opt fs n h (some e) = (failed_mount3 n h, err e)
  with_dirs es opt fs n h none = with_root es opt fs n (record h { dirs = true }) a.root

  abbrev pub with_freeinodes : RawSuper → MountOpt → Fs → ℕ → Held → Option Errno → Mounting
  with_freeinodes es opt fs n h (some e) = (failed_mount3 n h, err e)
  with_freeinodes es opt fs n h none =
      with_dirs es opt fs n (record h { freeinodes = true }) a.dirs_init

  abbrev pub with_counters : RawSuper → MountOpt → Fs → ℕ → Held → Option Errno → Mounting
  with_counters es opt fs n h (some e) = (failed_mount3 n h, err e)
  with_counters es opt fs n h none =
      with_freeinodes es opt fs n (record h { freeblocks = true }) a.freeinodes_init

  abbrev pub with_table : RawSuper → MountOpt → Fs → ℕ → Held → Mounting
  with_table es opt fs n h =
      if check_descriptors fs
      then with_counters es opt fs n h a.freeblocks_init
      else (failed_mount2 n h, err einval)

  abbrev pub with_desc :
      Mounting → (Held → List GroupDesc → Mounting) → Held → ℕ → Option (List GroupDesc) → Mounting
  with_desc failed next h i (some descs) = next (bread 1 h) descs
  with_desc failed next h i none = failed

  -- The loop that reads the descriptors, with `n` buffers to go, and its own clean-up
  unfoldable pub read_descs : RawSuper → MountOpt → ℕ → ℕ → ℕ → ℕ → DescTable → Held → Mounting
  read_descs es opt blocksize logic i zero table h =
      with_table es opt (fs_of a (info_of a es blocksize) table) i h
  read_descs es opt blocksize logic i (suc n) table h =
      let block = descriptor_loc (info_of a es blocksize) es.s_first_meta_bg logic i in
      with_desc (failed_mount_group_desc (brelse i h), err einval)
        (λ h' descs. read_descs es opt blocksize logic (i + 1) n (table ++ some descs ∷ []) h') h i
        (a.read_desc block)

  -- The array of the descriptor buffers
  abbrev pub with_groups : RawSuper → MountOpt → ℕ → ℕ → Held → Mounting
  with_groups es opt blocksize logic h =
      if a.array_ok
      then read_descs es opt blocksize logic 0 (db_count es blocksize) [] (kmalloc h)
      else (failed_mount h, err enomem)

  -- The tests on the numbers of the super block
  abbrev pub with_geometry : RawSuper → MountOpt → ℕ → ℕ → Held → Mounting
  with_geometry es opt blocksize logic h =
      if bad_inode_size es blocksize
      then (failed_mount h, err einval)
      else if blocksize / inode_size es == 0 || (es.s_inodes_per_group == 0)
      then (failed_mount h, err einval)
      else if not (blocksize == a.b_size)
      then (failed_mount h, err einval)
      else if ltb (blocksize * 8) es.s_blocks_per_group
      then (failed_mount h, err einval)
      else if ltb (blocksize * 8) es.s_inodes_per_group
      then (failed_mount h, err einval)
      else if es.s_blocks_per_group == 0
      then (failed_mount h, err einval)
      else with_groups es opt blocksize logic h

  abbrev pub reread : MountOpt → ℕ → Held → Option RawSuper → Mounting
  reread opt blocksize h none = (failed_sbi h, err einval)
  reread opt blocksize h (some es) =
      if not (es.s_magic == super_magic)
      then (failed_mount (bread 1 h), err einval)
      else with_geometry es opt blocksize (block_size / blocksize) (bread 1 h)

  -- Where the block size of the file system is not the one that the super block was read with
  abbrev pub with_blocksize : RawSuper → MountOpt → Held → Mounting
  with_blocksize es opt h =
      let blocksize = block_size * 2 ^ es.s_log_block_size % 2 ^ 32 in
      if a.min_blocksize == blocksize
      then with_geometry es opt blocksize (block_size / a.min_blocksize) h
      else if a.set_blocksize_ok blocksize
      then reread opt blocksize (brelse 1 h) (a.second_read (block_size / blocksize))
      else (failed_sbi (brelse 1 h), err einval)

  abbrev pub with_options : RawSuper → Held → Option MountOpt → Mounting
  with_options es h none = (failed_mount h, err einval)
  with_options es h (some opt) =
      if not
        (es.s_feature_ro_compat == 0 && (es.s_feature_compat == 0 && (es.s_feature_incompat == 0)))
      then (failed_mount h, err einval)
      else with_blocksize es opt h

  abbrev pub with_super : Held → Option RawSuper → Mounting
  with_super h none = (failed_sbi h, err einval)
  with_super h (some es) =
      if not (es.s_magic == super_magic)
      then (failed_mount (bread 1 h), err einval)
      else with_options es (bread 1 h) (parse_options q.options (default_options es.s_errors))

  -- `ext2_fill_super`, from what is held before it
  unfoldable pub fill_super : Held → Mounting
  fill_super before =
      let h = kmalloc (kmalloc before) in
      if not a.sbi_ok
      then (before, err enomem)
      else if not a.lock_ok
      then (kfree (kmalloc before), err enomem)
      else if a.min_blocksize == 0
      then (failed_sbi h, err einval)
      else with_super h (a.first_read (block_size / a.min_blocksize))

-- `ext2_put_super`, as what it gives back; the root goes with the tree of names.
abbrev pub put_held : ℕ → Held → Held
put_held n h = failed_sbi (brelse 1 (destroy_counters (kfree (brelse n h))))
