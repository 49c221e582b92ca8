-- ===== src/Ext2/Ialloc/Tests.antt =====
-- The inode allocator of ialloc.c on the file system of the block allocator's tests.
use operating_systems_ntua.Prelude.{
  ℕ, zero, suc, subst, get_elem?, ◌/◌, ◌%◌, ◌^◌, ◌≡◌, refl, true, false, none, some, [], ◌∷◌, arith,
  ok,
}
use operating_systems_ntua.Ext2.Bitmap.{scan, find_next_zero_bit}
use operating_systems_ntua.Ext2.Groups.{desc_in, GroupDesc, get_group_desc}
use operating_systems_ntua.Ext2.Mount.{Inode}
use operating_systems_ntua.Ext2.Sample.{info, desc, mounted, device, root}
use operating_systems_ntua.Ext2.Balloc.Outcome.{SameData}
use operating_systems_ntua.Ext2.Ialloc.{
  InodeCache, read_inode_bitmap, hash_loop, linear_loop, find_group, take_inode, free_inode,
  new_inode_loop, new_inode,
}
use operating_systems_ntua.Ext2.Ialloc.Hash.{FirstFrom, hash_loop-FirstFrom}
use operating_systems_ntua.Ext2.Ialloc.Outcome.{Outcome, filled, number_of, new_inode-Outcome}
use operating_systems_ntua.Ext2.Ialloc.Free.{FitsDesc, free_inode-new_inode}

abbrev cache : InodeCache
cache = record { new_inode_ok = true; insert_ok = λ ino. true }

-- No group has a free inode.
abbrev used_up : GroupDesc
used_up = record desc { bg_free_inodes_count = 0 }

finds : find_group info mounted.table root ≡ some 0
unfolding find_group get_group_desc
finds = refl

finds_none : find_group info (some (used_up ∷ used_up ∷ []) ∷ []) root ≡ none
unfolding find_group get_group_desc hash_loop linear_loop
finds_none = refl

hash_loop-FirstFrom_example : FirstFrom info mounted.table 1 0 (hash_loop info mounted.table 2 1 1)
hash_loop-FirstFrom_example = hash_loop-FirstFrom info mounted.table 1 (omega arith) (omega arith)

new_inode-Outcome_example :
    Outcome cache mounted root false (new_inode device cache mounted root false)
new_inode-Outcome_example = new_inode-Outcome device cache mounted root false

abbrev made_inode : Inode
made_inode = filled root false 0 (number_of mounted 0 2)

makes :
    new_inode device cache mounted root false
    ≡ ((new_inode device cache mounted root false).0, ok made_inode)
unfolding new_inode find_group new_inode_loop read_inode_bitmap get_group_desc take_inode
    find_next_zero_bit scan
makes = refl

entry-FitsDesc :
    (b o : ℕ) (d : GroupDesc) → desc_in (get_elem? mounted.table b) o ≡ some d → FitsDesc d
entry-FitsDesc zero zero d h =
    let e : desc ≡ d = ground (arith, h) in subst FitsDesc e (omega arith)
entry-FitsDesc zero (suc zero) d h =
    let e : desc ≡ d = ground (arith, h) in subst FitsDesc e (omega arith)
entry-FitsDesc zero (suc (suc o)) d h = ground (arith, h)
entry-FitsDesc (suc b) o d h = ground (arith, h)

desc-FitsDesc : (g : ℕ) (d : GroupDesc) → get_group_desc info mounted.table g ≡ some d → FitsDesc d
unfolding get_group_desc
desc-FitsDesc g d h = entry-FitsDesc (g / 2 ^ 1) (g % 2 ^ 1) d (ground (arith, h))

free_inode-new_inode_example :
    SameData mounted (free_inode device (new_inode device cache mounted root false).0 made_inode)
free_inode-new_inode_example =
    free_inode-new_inode device cache mounted root false (λ b. refl) (λ b. refl) (λ b. ground arith)
      desc-FitsDesc (omega arith) makes
