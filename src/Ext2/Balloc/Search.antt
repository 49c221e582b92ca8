-- ===== src/Ext2/Balloc/Search.antt =====
-- `ext2_allocate_in_bg` of balloc.c: where it looks.
use operating_systems_ntua.Prelude.{
  ℕ, suc, ◌-◌, ◌≤◌, ◌<◌, ◌≡◌, true, false, none, arith, leb, length, Bool-cases, inl, inr,
}
use operating_systems_ntua.Ext2.Bitmap.{Bits, test_bit, find_next_zero_bit}
use operating_systems_ntua.Ext2.Bitmap.Scan.{
  find_next_zero_bit_lem, find_next_zero_bit-before, find_next_zero_bit_past,
}
use operating_systems_ntua.Ext2.Groups.{SbInfo, group_first_block_no}
use operating_systems_ntua.Ext2.Balloc.{nblocks, take_loop, taken, allocate_in_bg}
use operating_systems_ntua.Ext2.Balloc.Allocate.{take_loop-pos, start-Holds}

-- In a group whose first block number is not less than its number of blocks, as every group but the
-- first normally is, the allocator finds nothing, however many of the group's blocks are free: it
-- begins its search at the block number instead of at bit 0.
pub allocate_in_bg_blind :
    (sbi : SbInfo) (group : ℕ) (bits : Bits) (count : ℕ)
    → nblocks sbi group ≤ group_first_block_no sbi group
    → allocate_in_bg sbi group bits count ≡ none
unfolding allocate_in_bg
allocate_in_bg_blind sbi group bits count h =
    let size = nblocks sbi group in
    ground (arith, find_next_zero_bit_past bits size (group_first_block_no sbi group) h)

taken-eq-none : (r : ℕ × ℕ × Bits) → taken r ≡ none → r.1 ≡ 0
taken-eq-none (b, n, bits) h = ground arith

-- A loop that starts at a clear bit takes it.
take_loop-ne-none :
    (bits : Bits) (size first count : ℕ)
    → first < size
    → size ≤ length bits
    → 0 < count
    → test_bit first bits ≡ false
    → ¬ (taken (take_loop bits first (size - first) 0 count) ≡ none)
take_loop-ne-none bits size first count h l c free e =
    let n = size - first - 1 in
    let rounds : size - first ≡ suc n = omega arith in
    let pos =
      take_loop-pos bits size first count n first bits (omega arith) c free
        (start-Holds bits size first first count (omega arith) (omega arith) l) in
    absurd
      (omega (arith, pos, taken-eq-none (take_loop bits first (suc n) 0 count) (rw rounds at e)))

-- Where the search begins inside the group, the allocator fails only if nothing is asked for, or if
-- every block from there to the end of the group is in use.
pub allocate_in_bg-none :
    (sbi : SbInfo) (group : ℕ) (bits : Bits) (count j : ℕ)
    → nblocks sbi group ≤ length bits
    → 0 < count
    → allocate_in_bg sbi group bits count ≡ none
    → group_first_block_no sbi group ≤ j
    → j < nblocks sbi group
    → test_bit j bits ≡ true
unfolding allocate_in_bg
allocate_in_bg-none sbi group bits count j l c h low high =
    let size = nblocks sbi group in
    let first = find_next_zero_bit bits size (group_first_block_no sbi group) in
    let found = find_next_zero_bit_lem bits size (group_first_block_no sbi group) (omega arith) in
    elim (Bool-cases (leb size first)) [
      | inl full ↦
          find_next_zero_bit-before bits size (group_first_block_no sbi group) j low
            (ground (arith, full)) high
      | inr inside ↦
          let lt : first < size = ground (arith, inside) in
          let free : test_bit first bits ≡ false = ground (arith, found) in
          absurd (take_loop-ne-none bits size first count lt l c free (ground (arith, h, inside)))
    ]
