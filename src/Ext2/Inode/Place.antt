-- ===== src/Ext2/Inode/Place.antt =====
-- Where inode.c finds an inode on the disk.
use operating_systems_ntua.Prelude.{
  ℕ, ◌+◌, ◌-◌, ◌*◌, ◌/◌, ◌%◌, ◌≤◌, ◌<◌, ◌≡◌, refl, sym, ap, ◌∙◌, true, not, ◌&&◌, ◌||◌, Option,
  none, some, arith, ltb, ◌==◌, if-elim, Result, ok, err, subst,
}
use native.Mathlib.Nat.{
  div-add-mod, mod-lt, mod-eq_of_lt, mul-lt-mul_of_pos_right, mul-le-mul_right,
  mul-add-mod_self_right, add-mul, mul_assoc, mul_comm, div-lt_iff_lt-mul,
}
use operating_systems_ntua.Ext2.Groups.{GroupDesc, SbInfo, DescTable, get_group_desc}
use operating_systems_ntua.Ext2.Inode.Disk.{root_ino, place_in, inode_place}

-- The place of an inode on the disk, counted in bytes.
pub record IsPlace (sbi : SbInfo) (table : DescTable) (ino block offset : ℕ) : Type 0 where
  pub desc : GroupDesc
  pub numbered :
      (ino == root_ino || not (ltb ino sbi.s_first_ino)) && not (ltb sbi.s_inodes_count ino) ≡ true
  pub group_desc : get_group_desc sbi table ((ino - 1) / sbi.s_inodes_per_group) ≡ some desc
  pub linear :
      sbi.s_blocksize * block + offset
      ≡ sbi.s_blocksize * desc.bg_inode_table
        + (ino - 1) % sbi.s_inodes_per_group * sbi.s_inode_size
  pub inside : offset + sbi.s_inode_size ≤ sbi.s_blocksize
  pub in_table : block < desc.bg_inode_table + sbi.s_itb_per_group

-- Records of one size do not cross the blocks that a number of them fills.
mul-mod_of_mul : (i k s : ℕ) → 0 < k → 0 < s → i * s % (k * s) ≡ i % k * s
mul-mod_of_mul i k s pos size =
    let parts : i * s ≡ i / k * (k * s) + i % k * s =
      ap (λ x. x * s) (sym (div-add-mod i k))
      ∙ omega (arith, add-mul (k * (i / k)) (i % k) s, mul_assoc (i / k) k s, mul_comm (i / k) k) in
    ap (λ x. x % (k * s)) parts
    ∙ mul-add-mod_self_right (i / k) (k * s) (i % k * s)
    ∙ mod-eq_of_lt (mul-lt-mul_of_pos_right (mod-lt i pos) size)

record_inside : (i k s : ℕ) → 0 < k → 0 < s → i * s % (k * s) + s ≤ k * s
record_inside i k s pos size =
    let le : (i % k + 1) * s ≤ k * s = mul-le-mul_right s (omega (arith, mod-lt i pos)) in
    omega (arith, mul-mod_of_mul i k s pos size, add-mul (i % k) 1 s, le)

module _ (sbi : SbInfo) (table : DescTable) (ino per_block : ℕ) (some_size : 0 < sbi.s_inode_size)
    (some_inodes : 0 < per_block) (some_group : 0 < sbi.s_inodes_per_group)
    (blocks : sbi.s_blocksize ≡ per_block * sbi.s_inode_size)
    (table_size : sbi.s_inodes_per_group * sbi.s_inode_size
      ≤ sbi.s_itb_per_group * sbi.s_blocksize) where
  abbrev Placed : Result (ℕ × ℕ) → Type 0
  Placed (ok (block, offset)) = IsPlace sbi table ino block offset
  Placed (err e) = Unit {0}

  place_in-Placed :
      (ino == root_ino || not (ltb ino sbi.s_first_ino)) && not (ltb sbi.s_inodes_count ino) ≡ true
      → (d : Option GroupDesc) → get_group_desc sbi table ((ino - 1) / sbi.s_inodes_per_group) ≡ d
      → Placed (place_in sbi ino d)
  place_in-Placed n none h = tt
  place_in-Placed n (some desc) h =
      let i = (ino - 1) % sbi.s_inodes_per_group in
      let offset = i * sbi.s_inode_size in
      let bs = sbi.s_blocksize in
      let low : i < sbi.s_inodes_per_group = mod-lt (ino - 1) some_group in
      let inner : offset < sbi.s_itb_per_group * bs =
        omega (arith, mul-lt-mul_of_pos_right low some_size, table_size) in
      let fits : offset % bs + sbi.s_inode_size ≤ bs =
        rw blocks (record_inside i per_block sbi.s_inode_size some_inodes some_size) in
      let block_there : offset / bs < sbi.s_itb_per_group =
        (div-lt_iff_lt-mul {k = bs} {x = offset} {y = sbi.s_itb_per_group}
            (omega (arith, fits, some_size))).1
          inner in
      record {
        desc = desc;
        numbered = n;
        group_desc = h;
        linear = omega (arith, div-add-mod offset bs);
        inside = fits;
        in_table = omega (arith, block_there);
      }

  inode_place-Placed : Placed (inode_place sbi table ino)
  unfolding inode_place
  inode_place-Placed =
      if-elim Placed
        (not (ino == root_ino) && ltb ino sbi.s_first_ino || ltb sbi.s_inodes_count ino) (λ _. tt)
        (λ fine.
          place_in-Placed (ground (arith, fine))
            (get_group_desc sbi table ((ino - 1) / sbi.s_inodes_per_group)) refl)

-- When `ext2_get_inode` gives a place, the number is the root's or an unreserved one, up to the number of
-- inodes; the inode lies at its index in the table of its group, counted in bytes from the table's first
-- block, does not cross the end of its block, and its block is one of the table's. The blocks are a whole
-- number of inodes long, and the table has room for the inodes of a group.
pub inode_place-IsPlace :
    (sbi : SbInfo) (table : DescTable) (ino per_block block offset : ℕ)
    → 0 < sbi.s_inode_size
    → 0 < per_block
    → 0 < sbi.s_inodes_per_group
    → sbi.s_blocksize ≡ per_block * sbi.s_inode_size
    → sbi.s_inodes_per_group * sbi.s_inode_size ≤ sbi.s_itb_per_group * sbi.s_blocksize
    → inode_place sbi table ino ≡ ok (block, offset)
    → IsPlace sbi table ino block offset
inode_place-IsPlace sbi table ino per_block block offset s p g b t h =
    subst (Placed sbi table ino per_block s p g b t) h
      (inode_place-Placed sbi table ino per_block s p g b t)
