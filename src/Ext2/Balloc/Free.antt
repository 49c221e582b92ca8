-- ===== src/Ext2/Balloc/Free.antt =====
-- The loop of `ext2_free_blocks` of balloc.c over the bits of a range.
use operating_systems_ntua.Prelude.{
  ℕ, zero, suc, ◌+◌, ◌≤◌, ◌<◌, ◌≡◌, refl, ap, ◌∙◌, true, false, some, arith, if◌then◌else◌, length,
  length-set, set, set_same, eq_of_get_or, subst, Bool-cases, inl, inr,
}
use operating_systems_ntua.Ext2.Bitmap.{within, Bits, test_bit, clear_bit, count_zero}
use operating_systems_ntua.Ext2.Bitmap.Scan.{test_bit-set, count_zero-clear_bit}
use operating_systems_ntua.Ext2.Groups.{SbInfo}
use operating_systems_ntua.Ext2.Balloc.{nblocks, clear_loop, allocate_in_bg}
use operating_systems_ntua.Ext2.Balloc.Allocate.{IsTaken, allocate_in_bg-Allocated}

pub test_bit-clear_loop :
    (n bit freed : ℕ) (bits : Bits) (j : ℕ)
    → bit + n ≤ length bits
    → test_bit j (clear_loop bits bit n freed).0
      ≡ (if within bit n j then false else test_bit j bits)
unfolding clear_loop
test_bit-clear_loop zero bit freed bits j h = ground arith
test_bit-clear_loop (suc n) bit freed bits j h = ground (
  arith,
  length-set bits bit false,
  test_bit-set bits bit j false,
  test_bit-clear_loop n (bit + 1) (if test_bit bit bits then freed + 1 else freed)
      (clear_bit bit bits) j,
)

length-clear_loop :
    (n bit freed : ℕ) (bits : Bits) → length (clear_loop bits bit n freed).0 ≡ length bits
unfolding clear_loop
length-clear_loop zero bit freed bits = refl
length-clear_loop (suc n) bit freed bits =
    length-clear_loop n (bit + 1) (if test_bit bit bits then freed + 1 else freed)
      (clear_bit bit bits)
    ∙ length-set bits bit false

clear_bit_clear :
    (bits : Bits) (i : ℕ) → i < length bits → test_bit i bits ≡ false → clear_bit i bits ≡ bits
clear_bit_clear bits i h c = subst (λ v. set bits i v ≡ bits) c (set_same bits i false h)

clear_loop-used :
    (bits : Bits) (bit n freed : ℕ)
    → test_bit bit bits ≡ true
    → clear_loop bits bit (suc n) freed ≡ clear_loop (clear_bit bit bits) (bit + 1) n (freed + 1)
unfolding clear_loop
clear_loop-used bits bit n freed used =
    ap (λ b. clear_loop (clear_bit bit bits) (bit + 1) n (if b then freed + 1 else freed)) used

clear_loop-unused :
    (bits : Bits) (bit n freed : ℕ)
    → bit < length bits
    → test_bit bit bits ≡ false
    → clear_loop bits bit (suc n) freed ≡ clear_loop bits (bit + 1) n freed
unfolding clear_loop
clear_loop-unused bits bit n freed h free =
    ap (λ b. clear_loop (clear_bit bit bits) (bit + 1) n (if b then freed + 1 else freed)) free
    ∙ ap (λ v. clear_loop v (bit + 1) n freed) (clear_bit_clear bits bit h free)

-- The loop counts exactly the bits that it clears: as many clear bits more as it says.
pub count_zero-clear_loop :
    (n bit freed : ℕ) (bits : Bits) (size : ℕ)
    → bit + n ≤ size
    → size ≤ length bits
    → count_zero (clear_loop bits bit n freed).0 size + freed
      ≡ count_zero bits size + (clear_loop bits bit n freed).1
unfolding clear_loop
count_zero-clear_loop zero bit freed bits size h l = refl
count_zero-clear_loop (suc n) bit freed bits size h l = elim (Bool-cases (test_bit bit bits)) [
  | inl used ↦
      let ih =
        count_zero-clear_loop n (bit + 1) (freed + 1) (clear_bit bit bits) size (omega arith)
          (omega (arith, length-set bits bit false)) in
      rw (clear_loop-used bits bit n freed used)
        (omega (arith, ih, count_zero-clear_bit bits bit size (omega arith) (omega arith) used))
  | inr free ↦
      rw (clear_loop-unused bits bit n freed (omega arith) free)
        (count_zero-clear_loop n (bit + 1) freed bits size (omega arith) l)
]

-- The count of a range whose bits are all set is the range.
clear_loop-all_set :
    (n bit freed : ℕ) (bits : Bits)
    → bit + n ≤ length bits
    → ((j : ℕ) → bit ≤ j → j < bit + n → test_bit j bits ≡ true)
    → (clear_loop bits bit n freed).1 ≡ freed + n
unfolding clear_loop
clear_loop-all_set zero bit freed bits h s = omega arith
clear_loop-all_set (suc n) bit freed bits h s =
    let here = s bit (omega arith) (omega arith) in
    rw (clear_loop-used bits bit n freed here) (
      clear_loop-all_set n (bit + 1) (freed + 1) (clear_bit bit bits)
        (omega (arith, length-set bits bit false))
        (λ j low high. ground (arith, test_bit-set bits bit j false, s j))
      ∙ omega arith)

IsTaken-clear_loop :
    (old new : Bits) (start num : ℕ)
    → start + num ≤ length new
    → length new ≡ length old
    → IsTaken old start num new
    → clear_loop new start num 0 ≡ (old, num)
IsTaken-clear_loop old new start num h l t =
    let count =
      clear_loop-all_set num start 0 new h (λ j low high. ground (arith, t.set_there j)) in
    let same : (clear_loop new start num 0).0 ≡ old =
      eq_of_get_or (clear_loop new start num 0).0 old false (length-clear_loop num start 0 new ∙ l)
        (λ j. restored j) in
    ground (arith, same, count)
  where
    restored : (j : ℕ) → test_bit j (clear_loop new start num 0).0 ≡ test_bit j old
    restored j =
        ground (arith, test_bit-clear_loop num start 0 new j h, t.was_clear j, t.set_there j)

-- Freeing the blocks that the allocator has just taken gives the bitmap back as it was, bit for bit,
-- and counts as many freed blocks as were taken.
pub clear_loop-allocate_in_bg :
    (sbi : SbInfo) (group : ℕ) (bits : Bits) (count : ℕ) {start num : ℕ} {bits' : Bits}
    → nblocks sbi group ≤ length bits
    → allocate_in_bg sbi group bits count ≡ some (start, num, bits')
    → clear_loop bits' start num 0 ≡ (bits, num)
clear_loop-allocate_in_bg sbi group bits count {start = start} {num = num} {bits' = bits'} l h =
    let a = allocate_in_bg-Allocated sbi group bits count l h in
    IsTaken-clear_loop bits bits' start num (omega (arith, a.inside, a.same_length)) a.same_length
      a.took
