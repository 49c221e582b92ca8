-- ===== src/Ext2/Super/Mounted.antt =====
-- What a mount by super.c leaves, whichever way it ends.
use operating_systems_ntua.Prelude.{
  ℕ, zero, suc, ◌+◌, ◌*◌, ◌/◌, ◌%◌, ◌^◌, ◌≤◌, ◌<◌, ◌≡◌, refl, sym, ap, ◌∙◌, true, false, not, ◌&&◌,
  ◌||◌, Option, none, some, List, [], ◌∷◌, ◌++◌, arith, ltb, ◌==◌, if-elim, Bool-cases, inl, inr,
  Errno, einval, enomem, Result, ok, err, subst,
}
use native.Mathlib.Nat.{div-zero, div-eq_of_lt}
use operating_systems_ntua.Ext2.Groups.{GroupDesc, SbInfo, DescTable}
use operating_systems_ntua.Ext2.Mount.{Fs}
use operating_systems_ntua.Ext2.Super.{
  Super, check_descriptors, descriptor_loc, start_super, write_super, sync_fs, sync_super,
}
use operating_systems_ntua.Ext2.Super.Options.{MountOpt, parse_options, default_options}
use operating_systems_ntua.Ext2.Super.Fill.{
  RawSuper, Root, Answers, Held, kmalloc, kfree, bread, brelse, grab, iput, failed_sbi,
  failed_mount, failed_mount_group_desc, failed_mount2, failed_mount3, Mounting, block_size,
  super_magic, Asked, inode_size, bad_inode_size, db_count, info_of, fs_of, super_of, with_root,
  with_dirs, with_freeinodes, with_counters, with_table, with_desc, read_descs, with_groups,
  with_geometry, reread, with_blocksize, with_options, with_super, fill_super, put_held,
}
use operating_systems_ntua.Ext2.Super.Labels.{
  has_no_counter, Holds, failed_sbi-back, failed_mount-back, failed_mount_group_desc-back,
  failed_mount2-back, failed_mount3-back, failed_root-back, put_held-back, one_buffer, no_buffer,
}

-- The numbers of a super block that the tests of a mount have passed
pub record IsSane (info : SbInfo) : Type 0 where
  pub some_size : 0 < info.s_inode_size
  pub fits : info.s_inode_size ≤ info.s_blocksize
  pub some_inodes : 0 < info.s_inodes_per_group
  pub some_blocks : 0 < info.s_blocks_per_group
  pub inode_bits : info.s_inodes_per_group ≤ info.s_blocksize * 8
  pub block_bits : info.s_blocks_per_group ≤ info.s_blocksize * 8

-- A file system that is mounted, from what was held before
pub record IsMounted (before : Held) (n : ℕ) (h : Held) (s : Super) : Type 0 where
  pub sane : IsSane s.fs.info
  pub described : check_descriptors s.fs ≡ true
  pub given_back : put_held n h ≡ grab before

-- A mount that has failed holds nothing more than before.
abbrev pub Ended : Held → Mounting → Type 0
Ended before (h, err e) = h ≡ before
Ended before (h, ok (s, n)) = IsMounted before n h s

start_super-fs : (now : ℕ) (s : Super) → (start_super now s).fs ≡ s.fs
unfolding start_super write_super sync_fs sync_super
start_super-fs now s = ground arith

div_some : (b i : ℕ) → 0 < b / i → (0 < i) × (i ≤ b)
div_some b zero h = absurd (omega (arith, h, div-zero b))
div_some b (suc i) h = elim (Bool-cases (ltb b (suc i))) [
  | inl less ↦
      let small : b / suc i ≡ 0 = div-eq_of_lt (ground (arith, less)) in
      absurd (omega (arith, h, small))
  | inr more ↦ (omega arith, ground (arith, more))
]

module _ (before : Held) (none_before : has_no_counter before ≡ true) where
  module _ (a : Answers) (q : Asked) (es : RawSuper) (opt : MountOpt) where
    with_root-Ended :
        (fs : Fs) (n : ℕ) (h : Held) (r : Result Root)
        → Holds before 3 (n + 1) h
        → IsSane fs.info
        → check_descriptors fs ≡ true
        → Ended before (with_root a q es opt fs n h r)
    with_root-Ended fs n h (err e) p s d = failed_mount3-back before none_before n h p
    with_root-Ended fs n h (ok root) p s d =
        let here = super_of q es opt fs in
        let same = start_super-fs q.now here in
        if-elim (Ended before) (not root.is_dir || (root.i_blocks == 0 || (root.i_size == 0)))
          {x = (failed_mount3 n (iput (grab h)), err einval)}
          (λ _. failed_root-back before none_before n h p)
          (λ _.
            if-elim (Ended before) a.root_ok {x = (grab h, ok (start_super q.now here, n))}
              {y = (failed_mount3 n (iput (grab h)), err enomem)}
              (λ _. record {
                sane = subst (λ f. IsSane f.info) (sym same) s;
                described = ap check_descriptors same ∙ d;
                given_back = put_held-back before none_before n h p;
              })
              (λ _. failed_root-back before none_before n h p))

    with_dirs-Ended :
        (fs : Fs) (n : ℕ) (h : Held) (o : Option Errno)
        → Holds before 3 (n + 1) h
        → IsSane fs.info
        → check_descriptors fs ≡ true
        → Ended before (with_dirs a q es opt fs n h o)
    with_dirs-Ended fs n h (some e) p s d = failed_mount3-back before none_before n h p
    with_dirs-Ended fs n h none p s d =
        with_root-Ended fs n (record h { dirs = true }) a.root
          (record { memory = p.memory; buffers = p.buffers; inodes = p.inodes }) s d

    with_freeinodes-Ended :
        (fs : Fs) (n : ℕ) (h : Held) (o : Option Errno)
        → Holds before 3 (n + 1) h
        → IsSane fs.info
        → check_descriptors fs ≡ true
        → Ended before (with_freeinodes a q es opt fs n h o)
    with_freeinodes-Ended fs n h (some e) p s d = failed_mount3-back before none_before n h p
    with_freeinodes-Ended fs n h none p s d =
        with_dirs-Ended fs n (record h { freeinodes = true }) a.dirs_init
          (record { memory = p.memory; buffers = p.buffers; inodes = p.inodes }) s d

    with_counters-Ended :
        (fs : Fs) (n : ℕ) (h : Held) (o : Option Errno)
        → Holds before 3 (n + 1) h
        → IsSane fs.info
        → check_descriptors fs ≡ true
        → Ended before (with_counters a q es opt fs n h o)
    with_counters-Ended fs n h (some e) p s d = failed_mount3-back before none_before n h p
    with_counters-Ended fs n h none p s d =
        with_freeinodes-Ended fs n (record h { freeblocks = true }) a.freeinodes_init
          (record { memory = p.memory; buffers = p.buffers; inodes = p.inodes }) s d

    with_table-Ended :
        (fs : Fs) (n : ℕ) (h : Held)
        → Holds before 3 (n + 1) h
        → has_no_counter h ≡ true
        → IsSane fs.info
        → Ended before (with_table a q es opt fs n h)
    with_table-Ended fs n h p c s =
        if-elim (Ended before) (check_descriptors fs)
          {x = with_counters a q es opt fs n h a.freeblocks_init}
          {y = (failed_mount2 n h, err einval)}
          (λ d. with_counters-Ended fs n h a.freeblocks_init p s d)
          (λ _. failed_mount2-back before none_before n h p c)

    module _ (blocksize logic : ℕ) (s : IsSane (info_of a es blocksize)) where
      failed_read-back :
          (i : ℕ) (h : Held)
          → Holds before 3 (i + 1) h
          → has_no_counter h ≡ true
          → failed_mount_group_desc (brelse i h) ≡ before
      failed_read-back i h p c =
          failed_mount_group_desc-back before none_before (brelse i h)
            (record { memory = p.memory; buffers = omega (arith, p.buffers); inodes = p.inodes }) c

      with_desc-Ended :
          (next : Held → List GroupDesc → Mounting) (i : ℕ) (h : Held) (o : Option (List GroupDesc))
          → Holds before 3 (i + 1) h
          → has_no_counter h ≡ true
          → ((descs : List GroupDesc) → Ended before (next (bread 1 h) descs))
          → Ended before
              (with_desc a q (failed_mount_group_desc (brelse i h), err einval) next h i o)
      with_desc-Ended next i h (some descs) p c go = go descs
      with_desc-Ended next i h none p c go = failed_read-back i h p c

      read_descs-Ended :
          (n i : ℕ) (h : Held) (table : DescTable)
          → Holds before 3 (i + 1) h
          → has_no_counter h ≡ true
          → Ended before (read_descs a q es opt blocksize logic i n table h)
      unfolding read_descs
      read_descs-Ended zero i h table p c =
          with_table-Ended (fs_of a (info_of a es blocksize) table) i h p c s
      read_descs-Ended (suc n) i h table p c =
          with_desc-Ended
            (λ h' descs.
              read_descs a q es opt blocksize logic (i + 1) n (table ++ some descs ∷ []) h')
            i h (a.read_desc (descriptor_loc (info_of a es blocksize) es.s_first_meta_bg logic i)) p
            c
            (λ descs.
              read_descs-Ended n (i + 1) (bread 1 h) (table ++ some descs ∷ [])
                (record {
                  memory = p.memory;
                  buffers = omega (arith, p.buffers);
                  inodes = p.inodes;
                })
                c)

      with_groups-Ended :
          (h : Held)
          → Holds before 2 1 h
          → has_no_counter h ≡ true
          → Ended before (with_groups a q es opt blocksize logic h)
      with_groups-Ended h p c =
          if-elim (Ended before) a.array_ok
            {x = read_descs a q es opt blocksize logic 0 (db_count es blocksize) [] (kmalloc h)}
            {y = (failed_mount h, err enomem)}
            (λ _.
              read_descs-Ended (db_count es blocksize) 0 (kmalloc h) []
                (record {
                  memory = omega (arith, p.memory);
                  buffers = p.buffers;
                  inodes = p.inodes;
                })
                c)
            (λ _. failed_mount-back before none_before h p c)

    sane :
        (blocksize : ℕ)
        → bad_inode_size es blocksize ≡ false
        → blocksize / inode_size es == 0 || (es.s_inodes_per_group == 0) ≡ false
        → ltb (blocksize * 8) es.s_blocks_per_group ≡ false
        → ltb (blocksize * 8) es.s_inodes_per_group ≡ false
        → es.s_blocks_per_group == 0 ≡ false
        → IsSane (info_of a es blocksize)
    sane blocksize size inodes bb ib some_blocks = record {
      some_size = (div_some blocksize (inode_size es) (ground (arith, inodes))).0;
      fits = (div_some blocksize (inode_size es) (ground (arith, inodes))).1;
      some_inodes = ground (arith, inodes);
      some_blocks = ground (arith, some_blocks);
      inode_bits = ground (arith, ib);
      block_bits = ground (arith, bb);
    }

    with_geometry-Ended :
        (blocksize logic : ℕ) (h : Held)
        → Holds before 2 1 h
        → has_no_counter h ≡ true
        → Ended before (with_geometry a q es opt blocksize logic h)
    with_geometry-Ended blocksize logic h p c =
        let out : Mounting = (failed_mount h, err einval) in
        let clean : Ended before out = failed_mount-back before none_before h p c in
        if-elim (Ended before) (bad_inode_size es blocksize) {x = out} (λ _. clean)
          (λ size.
            if-elim (Ended before) (blocksize / inode_size es == 0 || (es.s_inodes_per_group == 0))
              {x = out} (λ _. clean)
              (λ inodes.
                if-elim (Ended before) (not (blocksize == a.b_size)) {x = out} (λ _. clean)
                  (λ _.
                    if-elim (Ended before) (ltb (blocksize * 8) es.s_blocks_per_group) {x = out}
                      (λ _. clean)
                      (λ bb.
                        if-elim (Ended before) (ltb (blocksize * 8) es.s_inodes_per_group) {x = out}
                          (λ _. clean)
                          (λ ib.
                            if-elim (Ended before) (es.s_blocks_per_group == 0) {x = out}
                              {y = with_groups a q es opt blocksize logic h} (λ _. clean)
                              (λ some_blocks.
                                with_groups-Ended blocksize logic
                                  (sane blocksize size inodes bb ib some_blocks) h p c))))))

  module _ (a : Answers) (q : Asked) where
    reread-Ended :
        (opt : MountOpt) (blocksize : ℕ) (h : Held) (o : Option RawSuper)
        → Holds before 2 0 h
        → has_no_counter h ≡ true
        → Ended before (reread a q opt blocksize h o)
    reread-Ended opt blocksize h none p c = failed_sbi-back before none_before h p c
    reread-Ended opt blocksize h (some es) p c =
        let p' = one_buffer before none_before h p in
        if-elim (Ended before) (not (es.s_magic == super_magic))
          {x = (failed_mount (bread 1 h), err einval)}
          {y = with_geometry a q es opt blocksize (block_size / blocksize) (bread 1 h)}
          (λ _. failed_mount-back before none_before (bread 1 h) p' c)
          (λ _. with_geometry-Ended a q es opt blocksize (block_size / blocksize) (bread 1 h) p' c)

    with_blocksize-Ended :
        (es : RawSuper) (opt : MountOpt) (h : Held)
        → Holds before 2 1 h
        → has_no_counter h ≡ true
        → Ended before (with_blocksize a q es opt h)
    with_blocksize-Ended es opt h p c =
        let blocksize = block_size * 2 ^ es.s_log_block_size % 2 ^ 32 in
        let p' = no_buffer before none_before h p in
        if-elim (Ended before) (a.min_blocksize == blocksize)
          {x = with_geometry a q es opt blocksize (block_size / a.min_blocksize) h}
          (λ _. with_geometry-Ended a q es opt blocksize (block_size / a.min_blocksize) h p c)
          (λ _.
            if-elim (Ended before) (a.set_blocksize_ok blocksize)
              {x = reread a q opt blocksize (brelse 1 h) (a.second_read (block_size / blocksize))}
              {y = (failed_sbi (brelse 1 h), err einval)}
              (λ _.
                reread-Ended opt blocksize (brelse 1 h) (a.second_read (block_size / blocksize)) p'
                  c)
              (λ _. failed_sbi-back before none_before (brelse 1 h) p' c))

    with_options-Ended :
        (es : RawSuper) (h : Held) (o : Option MountOpt)
        → Holds before 2 1 h
        → has_no_counter h ≡ true
        → Ended before (with_options a q es h o)
    with_options-Ended es h none p c = failed_mount-back before none_before h p c
    with_options-Ended es h (some opt) p c =
        if-elim (Ended before)
          (not (
            es.s_feature_ro_compat == 0
            && (es.s_feature_compat == 0 && (es.s_feature_incompat == 0))))
          {x = (failed_mount h, err einval)} {y = with_blocksize a q es opt h}
          (λ _. failed_mount-back before none_before h p c) (λ _. with_blocksize-Ended es opt h p c)

    with_super-Ended :
        (h : Held) (o : Option RawSuper)
        → Holds before 2 0 h
        → has_no_counter h ≡ true
        → Ended before (with_super a q h o)
    with_super-Ended h none p c = failed_sbi-back before none_before h p c
    with_super-Ended h (some es) p c =
        let parsed = parse_options q.options (default_options es.s_errors) in
        let p' = one_buffer before none_before h p in
        if-elim (Ended before) (not (es.s_magic == super_magic))
          {x = (failed_mount (bread 1 h), err einval)} {y = with_options a q es (bread 1 h) parsed}
          (λ _. failed_mount-back before none_before (bread 1 h) p' c)
          (λ _. with_options-Ended es (bread 1 h) parsed p' c)

-- `ext2_fill_super` gives back all memory, buffers, counters and inodes that it has got, and nothing else, on
-- each of its error paths, whatever else is held, and whichever of the counters were set up. When it
-- succeeds, the sizes, and the numbers of blocks and inodes in a group, are positive and in bounds, the
-- descriptors have passed their check, and `ext2_put_super` gives back all that it holds but the root. No
-- counter of the mount is set up before it.
pub fill_super-Ended :
    (before : Held) (a : Answers) (q : Asked)
    → has_no_counter before ≡ true
    → Ended before (fill_super a q before)
unfolding fill_super
fill_super-Ended before a q c =
    let h = kmalloc (kmalloc before) in
    let p : Holds before 2 0 h = record {
      memory = omega arith;
      buffers = omega arith;
      inodes = refl;
    } in
    let one : kfree (kmalloc before) ≡ before = ground arith in
    if-elim (Ended before) (not a.sbi_ok) {x = (before, err enomem)} (λ _. refl)
      (λ _.
        if-elim (Ended before) (not a.lock_ok) {x = (kfree (kmalloc before), err enomem)} (λ _. one)
          (λ _.
            if-elim (Ended before) (a.min_blocksize == 0) {x = (failed_sbi h, err einval)}
              {y = with_super a q h (a.first_read (block_size / a.min_blocksize))}
              (λ _. failed_sbi-back before c h p c)
              (λ _.
                with_super-Ended before c a q h (a.first_read (block_size / a.min_blocksize)) p c)))
