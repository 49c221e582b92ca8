-- ===== src/Ext2/Ialloc/Search.antt =====
-- Where `find_group` and the search in a group of `ext2_new_inode` look.
use operating_systems_ntua.Prelude.{
  ℕ, zero, suc, ◌+◌, ◌-◌, ◌*◌, ◌%◌, ◌≤◌, ◌<◌, ◌≡◌, ◌⊎◌, refl, ap, ◌∙◌, true, false, Option, none,
  some, arith, ltb, leb, ◌==◌, if◌then◌else◌, Bool-cases, Option-cases, inl, inr, subst,
}
use native.Mathlib.Nat.{mod-eq_of_lt, mod_self}
use operating_systems_ntua.Ext2.Bitmap.{Bits, test_bit, find_next_zero_bit}
use operating_systems_ntua.Ext2.Bitmap.Scan.{find_next_zero_bit_lem, find_next_zero_bit-before}
use operating_systems_ntua.Ext2.Groups.{GroupDesc, SbInfo, DescTable, get_group_desc}
use operating_systems_ntua.Ext2.Mount.{Inode}
use operating_systems_ntua.Ext2.Ialloc.{
  has_inodes, has_both, hash_loop, linear_loop, or_else, find_group, take_inode,
}

has_both-has_inodes : (d : Option GroupDesc) → has_both d ≡ true → has_inodes d ≡ true
has_both-has_inodes none h = h
has_both-has_inodes (some desc) h = ground (arith, h)

hash_loop-has_inodes :
    (sbi : SbInfo) (table : DescTable) (fuel group i : ℕ) {g : ℕ}
    → hash_loop sbi table fuel group i ≡ some g
    → has_inodes (get_group_desc sbi table g) ≡ true
unfolding hash_loop
hash_loop-has_inodes sbi table zero group i h = ground arith
hash_loop-has_inodes sbi table (suc fuel) group i {g = g} h =
    let next =
      if leb sbi.s_groups_count (group + i) then group + i - sbi.s_groups_count else group + i in
    elim (Bool-cases (ltb i sbi.s_groups_count)) [
      | inr stop ↦ ground (arith, stop, h)
      | inl go ↦ elim (Bool-cases (has_both (get_group_desc sbi table next))) [
        | inl both ↦
            let e : next ≡ g = ground (arith, go, both, h) in
            has_both-has_inodes (get_group_desc sbi table g)
              (subst (λ j. has_both (get_group_desc sbi table j) ≡ true) e both)
        | inr miss ↦ hash_loop-has_inodes sbi table fuel next (i * 2) (ground (arith, go, miss, h))
      ]
    ]

linear_loop-has_inodes :
    (sbi : SbInfo) (table : DescTable) (n group : ℕ) {g : ℕ}
    → linear_loop sbi table n group ≡ some g
    → has_inodes (get_group_desc sbi table g) ≡ true
unfolding linear_loop
linear_loop-has_inodes sbi table zero group h = ground arith
linear_loop-has_inodes sbi table (suc n) group {g = g} h =
    let next = (group + 1) % sbi.s_groups_count in
    elim (Bool-cases (has_inodes (get_group_desc sbi table next))) [
      | inl here ↦
          let e : next ≡ g = ground (arith, here, h) in
          subst (λ j. has_inodes (get_group_desc sbi table j) ≡ true) e here
      | inr miss ↦ linear_loop-has_inodes sbi table n next (ground (arith, miss, h))
    ]

-- A group that `find_group` returns has a descriptor that says that it has a free inode.
pub find_group-has_inodes :
    (sbi : SbInfo) (table : DescTable) (parent : Inode) {g : ℕ}
    → find_group sbi table parent ≡ some g
    → has_inodes (get_group_desc sbi table g) ≡ true
unfolding find_group
find_group-has_inodes sbi table parent {g = g} h =
    let group = parent.i_block_group in
    let start = (group + parent.i_ino) % sbi.s_groups_count in
    let hashed = hash_loop sbi table sbi.s_groups_count start 1 in
    elim (Bool-cases (has_both (get_group_desc sbi table group))) [
      | inl both ↦
          let e : group ≡ g = ground (arith, both, h) in
          has_both-has_inodes (get_group_desc sbi table g)
            (subst (λ j. has_both (get_group_desc sbi table j) ≡ true) e both)
      | inr miss ↦ elim (Option-cases hashed) [
        | inl missed ↦
            linear_loop-has_inodes sbi table sbi.s_groups_count group
              (ground (arith, miss, missed, h))
        | inr (j, found) ↦
            let e : hashed ≡ some g = ground (arith, miss, found, h) in
            hash_loop-has_inodes sbi table sbi.s_groups_count start 1 e
      ]
    ]

mod-suc :
    (group n : ℕ)
    → group < n
    → (((group + 1) % n ≡ group + 1) × (group + 1 < n)) ⊎ (((group + 1) % n ≡ 0) × (group + 1 ≡ n))
mod-suc group n h = elim (Bool-cases (group + 1 == n)) [
  | inl e ↦
      let same : group + 1 ≡ n = ground (arith, e) in inr (ap (λ k. k % n) same ∙ mod_self n, same)
  | inr ne ↦ let lt : group + 1 < n = ground (arith, ne) in inl (mod-eq_of_lt lt, lt)
]

-- The linear search passes over the groups after `group` cyclically.
linear_loop-none :
    (sbi : SbInfo) (table : DescTable) (n group g : ℕ)
    → group < sbi.s_groups_count
    → linear_loop sbi table n group ≡ none
    → g < sbi.s_groups_count
    → ((group < g) × (g ≤ group + n)) ⊎ (g + sbi.s_groups_count ≤ group + n)
    → n ≤ sbi.s_groups_count
    → has_inodes (get_group_desc sbi table g) ≡ false
unfolding linear_loop
linear_loop-none sbi table zero group g l h gl r b = ground arith
linear_loop-none sbi table (suc n) group g l h gl r b =
    let next = (group + 1) % sbi.s_groups_count in
    let miss : has_inodes (get_group_desc sbi table next) ≡ false = ground (arith, h) in
    let rest : linear_loop sbi table n next ≡ none = ground (arith, h, miss) in
    let step = mod-suc group sbi.s_groups_count l in
    elim (Bool-cases (g == next)) [
      | inl e ↦
          let same : next ≡ g = ground (arith, e) in
          subst (λ j. has_inodes (get_group_desc sbi table j) ≡ false) same miss
      | inr ne ↦
          linear_loop-none sbi table n next g (ground (arith, step)) rest gl
            (ground (arith, step, ne, r)) (omega arith)
    ]

-- `find_group` fails only if no group at all has a free inode.
pub find_group-none :
    (sbi : SbInfo) (table : DescTable) (parent : Inode) (g : ℕ)
    → parent.i_block_group < sbi.s_groups_count
    → find_group sbi table parent ≡ none
    → g < sbi.s_groups_count
    → has_inodes (get_group_desc sbi table g) ≡ false
unfolding find_group
find_group-none sbi table parent g l h gl =
    let group = parent.i_block_group in
    let start = (group + parent.i_ino) % sbi.s_groups_count in
    let hashed = hash_loop sbi table sbi.s_groups_count start 1 in
    let miss : has_both (get_group_desc sbi table group) ≡ false = ground (arith, h) in
    let e : or_else hashed (linear_loop sbi table sbi.s_groups_count group) ≡ none =
      ground (arith, h, miss) in
    let missed : hashed ≡ none = elim (Option-cases hashed) [
      | inl m ↦ m
      | inr (j, found) ↦ ground (arith, e, found)
    ] in
    linear_loop-none sbi table sbi.s_groups_count group g l (ground (arith, e, missed)) gl
      (ground arith) (omega arith)

-- The search in a group's bitmap takes the first clear bit, at the first try, and fails only if every
-- bit is set.
pub take_inode_lem :
    (bits : Bits) (size : ℕ)
    → (take_inode size bits size 0 ≡ none) × ((j : ℕ) → j < size → test_bit j bits ≡ true)
      ⊎ ((i : ℕ) × (take_inode size bits size 0 ≡ some i)
          × (i < size)
          × (test_bit i bits ≡ false)
          × ((j : ℕ) → j < i → test_bit j bits ≡ true))
unfolding take_inode
take_inode_lem bits zero = inl (refl, λ j h. ground arith)
take_inode_lem bits (suc n) =
    let size = suc n in
    let i = find_next_zero_bit bits size 0 in
    let found = find_next_zero_bit_lem bits size 0 (omega arith) in
    elim (Bool-cases (leb size i)) [
      | inl full ↦ inl (
        ground (arith, full),
        λ j h. find_next_zero_bit-before bits size 0 j (omega arith) (ground (arith, full)) h,
      )
      | inr inside ↦
          let free : test_bit i bits ≡ false = ground (arith, found, inside) in
          let lt : i < size = ground (arith, inside) in
          inr (
            i,
            ground (arith, inside, free),
            lt,
            free,
            λ j h. find_next_zero_bit-before bits size 0 j (omega arith) h (omega arith),
          )
    ]
