-- ===== src/Ext2/Super/Checked.antt =====
-- What the check of the group descriptors in super.c says of each of them.
use operating_systems_ntua.Prelude.{
  ℕ, zero, suc, ◌+◌, ◌-◌, ◌%◌, ◌^◌, ◌≤◌, ◌<◌, ◌≡◌, refl, true, Option, none, some, arith, ◌==◌,
  subst, Bool-cases, inl, inr,
}
use operating_systems_ntua.Ext2.Groups.{
  GroupDesc, group_first_block_no, group_last_block_no, get_group_desc,
}
use operating_systems_ntua.Ext2.Mount.{Fs}
use operating_systems_ntua.Ext2.Super.{in_group, check_loop, check_descriptors}

-- A group's two bitmaps and its inode table lie in the group, where the end of the table is a number of 32
-- bits.
pub record IsInGroup (fs : Fs) (i : ℕ) : Type 0 where
  pub desc : GroupDesc
  pub there : get_group_desc fs.info fs.table i ≡ some desc
  pub block_bitmap_from : group_first_block_no fs.info i ≤ desc.bg_block_bitmap
  pub block_bitmap_to : desc.bg_block_bitmap ≤ group_last_block_no fs.info i
  pub inode_bitmap_from : group_first_block_no fs.info i ≤ desc.bg_inode_bitmap
  pub inode_bitmap_to : desc.bg_inode_bitmap ≤ group_last_block_no fs.info i
  pub table_from : group_first_block_no fs.info i ≤ desc.bg_inode_table
  pub table_to :
      (desc.bg_inode_table + fs.info.s_itb_per_group + 2 ^ 32 - 1) % 2 ^ 32
      ≤ group_last_block_no fs.info i

in_group-IsInGroup :
    (fs : Fs) (i : ℕ) (d : Option GroupDesc)
    → get_group_desc fs.info fs.table i ≡ d
    → in_group fs.info i d ≡ true
    → IsInGroup fs i
in_group-IsInGroup fs i none h g = ground (arith, g)
in_group-IsInGroup fs i (some desc) h g = record {
  desc = desc;
  there = h;
  block_bitmap_from = ground (arith, g);
  block_bitmap_to = ground (arith, g);
  inode_bitmap_from = ground (arith, g);
  inode_bitmap_to = ground (arith, g);
  table_from = ground (arith, g);
  table_to = ground (arith, g);
}

check_loop-IsInGroup :
    (fs : Fs) (i n j : ℕ) → check_loop fs i n ≡ true → i ≤ j → j < i + n → IsInGroup fs j
unfolding check_loop
check_loop-IsInGroup fs i zero j c p q = absurd (omega (arith, p, q))
check_loop-IsInGroup fs i (suc n) j c p q =
    let d = get_group_desc fs.info fs.table i in
    elim (Bool-cases (in_group fs.info i d)) [
      | inr out ↦ absurd (ground (arith, c, out))
      | inl here ↦ elim (Bool-cases (i == j)) [
        | inl e ↦
            let same : i ≡ j = ground (arith, e) in
            subst (IsInGroup fs) same (in_group-IsInGroup fs i d refl here)
        | inr ne ↦
            let rest : check_loop fs (i + 1) n ≡ true = ground (arith, c, here) in
            check_loop-IsInGroup fs (i + 1) n j rest (ground (arith, p, ne)) (omega (arith, q))
      ]
    ]

-- When `ext2_check_descriptors` is passed, every group has a descriptor, and its bitmaps and its inode
-- table lie in it, where the end of the table is what the code's 32 bits say.
pub check_descriptors-IsInGroup :
    (fs : Fs) (j : ℕ) → check_descriptors fs ≡ true → j < fs.info.s_groups_count → IsInGroup fs j
unfolding check_descriptors
check_descriptors-IsInGroup fs j c h =
    check_loop-IsInGroup fs 0 fs.info.s_groups_count j c (omega arith) (omega (arith, h))
