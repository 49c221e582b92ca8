-- ===== src/Ext2/Super/Tests.antt =====
-- The super block of super.c: options, a mount of a small file system, and its states.
use operating_systems_ntua.Prelude.{◌≡◌, refl, true, false, [], ◌∷◌, ◌++◌, none, some, arith, ok}
use operating_systems_ntua.Ext2.Groups.{GroupDesc, get_group_desc}
use operating_systems_ntua.Ext2.Mount.{Fs}
use operating_systems_ntua.Ext2.Sample.{mounted, bits}
use operating_systems_ntua.Ext2.Super.{
  EsBlock, Super, check_loop, check_descriptors, error, sync_super, sync_fs, start_super, goes_on,
}
use operating_systems_ntua.Ext2.Super.Options.{
  MountOpt, parse_options, parse_words, show_options, default_options, one_behaviour,
  parse_options-show_options, parse_options-one_behaviour, errors_is, word_panic,
}
use operating_systems_ntua.Ext2.Super.Checked.{IsInGroup, check_descriptors-IsInGroup}
use operating_systems_ntua.Ext2.Super.Fill.{RawSuper, Held, Answers, Asked, fill_super}
use operating_systems_ntua.Ext2.Super.Mounted.{Ended, fill_super-Ended}
use operating_systems_ntua.Ext2.Super.Lifecycle.{
  done, after, is_synced, is_marked, start_super-is_marked,
}

abbrev panic_debug : MountOpt
panic_debug = record { errors_cont = false; errors_ro = false; errors_panic = true; debug = true }

parse_options-show_options_example :
    parse_options (some (show_options 1 panic_debug)) (default_options 1) ≡ some panic_debug
parse_options-show_options_example = parse_options-show_options 1 panic_debug refl

parses :
    parse_options (some (errors_is ++ word_panic)) (default_options 1)
    ≡ some (record panic_debug { debug = false })
unfolding parse_options parse_words
parses = refl

parse_options-one_behaviour_example : one_behaviour (record panic_debug { debug = false }) ≡ true
parse_options-one_behaviour_example =
    parse_options-one_behaviour (some (errors_is ++ word_panic)) (default_options 1) refl parses

abbrev second : GroupDesc
second = record {
  bg_block_bitmap = 10;
  bg_inode_bitmap = 11;
  bg_inode_table = 12;
  bg_free_blocks_count = 2;
  bg_free_inodes_count = 2;
  bg_used_dirs_count = 1;
}

abbrev first : GroupDesc
first = record second { bg_block_bitmap = 2; bg_inode_bitmap = 3; bg_inode_table = 4 }

abbrev two_groups : Fs
two_groups = record mounted { table = some (first ∷ second ∷ []) ∷ [] }

passes : check_descriptors two_groups ≡ true
unfolding check_descriptors check_loop get_group_desc
passes = refl

check_descriptors-IsInGroup_example : IsInGroup two_groups 1
check_descriptors-IsInGroup_example = check_descriptors-IsInGroup two_groups 1 passes (omega arith)

abbrev block : EsBlock
block = record {
  s_state = 1;
  s_free_blocks_count = 0;
  s_free_inodes_count = 0;
  s_wtime = 0;
  s_mtime = 0;
  s_mnt_count = 3;
  s_rev_level = 0;
}

abbrev valid_super : Super
valid_super = record {
  fs = two_groups;
  es = block;
  mount_state = 1;
  mount_opt = record { errors_cont = true; errors_ro = false; errors_panic = false; debug = false };
  rdonly = false;
  io_error = false;
  uptodate = true;
  blocks_last = 0;
  overhead_last = 0;
}

start_super-is_marked_example : is_marked (sync_fs 9 (start_super 7 valid_super)) ≡ true
start_super-is_marked_example = start_super-is_marked 7 valid_super refl (after done (is_synced 9))

abbrev after_error : Super
after_error =
    let s = record valid_super { mount_state = 3; es = record block { s_state = 3 } } in
    sync_super 7 s

fails : error 7 valid_super ≡ goes_on after_error
unfolding error sync_super
fails = refl

abbrev raw : RawSuper
raw = record {
  changing = block;
  s_magic = 61267;
  s_errors = 1;
  s_feature_compat = 0;
  s_feature_ro_compat = 0;
  s_feature_incompat = 0;
  s_log_block_size = 2;
  s_first_ino = 11;
  s_inode_size = 128;
  s_blocks_per_group = 8;
  s_inodes_per_group = 32;
  s_blocks_count = 16;
  s_inodes_count = 64;
  s_first_data_block = 0;
  s_first_meta_bg = 1;
}

abbrev answers : Answers
answers = record {
  sbi_ok = true;
  lock_ok = true;
  min_blocksize = 1024;
  first_read = λ b. some raw;
  set_blocksize_ok = λ b. true;
  second_read = λ b. some raw;
  b_size = 4096;
  array_ok = true;
  read_desc = λ b. some (first ∷ second ∷ []);
  freeblocks_init = none;
  freeinodes_init = none;
  dirs_init = none;
  root = ok (record { is_dir = true; i_blocks = 8; i_size = 4096 });
  root_ok = true;
  ilog2 = λ n. 7;
  bits = λ b. bits;
}

abbrev asked : Asked
asked = record { options = none; rdonly = false; now = 7 }

-- Something is held before.
abbrev before : Held
before = record {
  memory = 3;
  buffers = 2;
  inodes = 1;
  freeblocks = false;
  freeinodes = false;
  dirs = false;
}

fill_super-Ended_example : Ended before (fill_super answers asked before)
fill_super-Ended_example = fill_super-Ended before answers asked refl
