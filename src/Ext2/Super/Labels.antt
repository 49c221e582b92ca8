-- ===== src/Ext2/Super/Labels.antt =====
-- What is held behind each label of `ext2_fill_super` of super.c.
use operating_systems_ntua.Prelude.{ℕ, ◌+◌, ◌≡◌, refl, Bool, true, not, ◌&&◌, arith}
use operating_systems_ntua.Ext2.Super.Fill.{
  Held, kfree, bread, brelse, grab, iput, destroy_counters, failed_sbi, failed_mount,
  failed_mount_group_desc, failed_mount2, failed_mount3, put_held,
}

-- No counter is set up.
abbrev pub has_no_counter : Held → Bool
has_no_counter h = not h.freeblocks && (not h.freeinodes && not h.dirs)

-- Memory and buffers that are held more than before, and inodes as before
pub record Holds (before : Held) (m b : ℕ) (h : Held) : Type 0 where
  pub memory : h.memory ≡ before.memory + m
  pub buffers : h.buffers ≡ before.buffers + b
  pub inodes : h.inodes ≡ before.inodes

module _ (before : Held) (none_before : has_no_counter before ≡ true) where
  back : (h : Held) → Holds before 0 0 h → has_no_counter h ≡ true → h ≡ before
  back h p c = ground (arith, p.memory, p.buffers, p.inodes, c, none_before)

  pub failed_sbi-back :
      (h : Held) → Holds before 2 0 h → has_no_counter h ≡ true → failed_sbi h ≡ before
  failed_sbi-back h p c =
      back (failed_sbi h)
        (record { memory = omega (arith, p.memory); buffers = p.buffers; inodes = p.inodes }) c

  pub failed_mount-back :
      (h : Held) → Holds before 2 1 h → has_no_counter h ≡ true → failed_mount h ≡ before
  failed_mount-back h p c =
      failed_sbi-back (brelse 1 h)
        (record { memory = p.memory; buffers = omega (arith, p.buffers); inodes = p.inodes }) c

  pub failed_mount_group_desc-back :
      (h : Held) → Holds before 3 1 h → has_no_counter h ≡ true → failed_mount_group_desc h ≡ before
  failed_mount_group_desc-back h p c =
      failed_mount-back (kfree h)
        (record { memory = omega (arith, p.memory); buffers = p.buffers; inodes = p.inodes }) c

  pub failed_mount2-back :
      (n : ℕ) (h : Held)
      → Holds before 3 (n + 1) h
      → has_no_counter h ≡ true
      → failed_mount2 n h ≡ before
  failed_mount2-back n h p c =
      failed_mount_group_desc-back (brelse n h)
        (record { memory = p.memory; buffers = omega (arith, p.buffers); inodes = p.inodes }) c

  pub failed_mount3-back :
      (n : ℕ) (h : Held) → Holds before 3 (n + 1) h → failed_mount3 n h ≡ before
  failed_mount3-back n h p =
      failed_mount2-back n (destroy_counters h)
        (record { memory = p.memory; buffers = p.buffers; inodes = p.inodes }) refl

  -- A root that was got and given back
  pub failed_root-back :
      (n : ℕ) (h : Held) → Holds before 3 (n + 1) h → failed_mount3 n (iput (grab h)) ≡ before
  failed_root-back n h p =
      failed_mount3-back n (iput (grab h))
        (record { memory = p.memory; buffers = p.buffers; inodes = omega (arith, p.inodes) })

  pub put_held-back :
      (n : ℕ) (h : Held) → Holds before 3 (n + 1) h → put_held n (grab h) ≡ grab before
  put_held-back n h p = ground (arith, p.memory, p.buffers, p.inodes, none_before)

  pub one_buffer : (h : Held) → Holds before 2 0 h → Holds before 2 1 (bread 1 h)
  one_buffer h p = record {
    memory = p.memory;
    buffers = omega (arith, p.buffers);
    inodes = p.inodes;
  }

  pub no_buffer : (h : Held) → Holds before 2 1 h → Holds before 2 0 (brelse 1 h)
  no_buffer h p = record {
    memory = p.memory;
    buffers = omega (arith, p.buffers);
    inodes = p.inodes;
  }
