-- ===== src/Ext2/Bitmap/Scan.antt =====
-- What the search of a bitmap finds, and how setting and clearing bits change the number of clear ones.
use operating_systems_ntua.Prelude.{
  ℕ, zero, suc, ◌+◌, ◌-◌, ◌≤◌, ◌<◌, ◌≡◌, refl, sym, ap, ◌∙◌, Bool, true, false, arith, leb, ◌==◌,
  if◌then◌else◌, length, set, get_or-set, ==_iff, ◌⊎◌, Bool-cases, inl, inr,
}
use operating_systems_ntua.Ext2.Bitmap.{
  Bits, test_bit, scan, find_next_zero_bit, set_bit, clear_bit, count_zero,
}

pub scan_bounds : (bits : Bits) (i n : ℕ) → (i ≤ scan bits i n) × (scan bits i n ≤ i + n)
unfolding scan
scan_bounds bits i zero = omega arith
scan_bounds bits i (suc n) = ground (arith, scan_bounds bits (i + 1) n)

pub scan-clear :
    (bits : Bits) (i n : ℕ) → scan bits i n < i + n → test_bit (scan bits i n) bits ≡ false
unfolding scan
scan-clear bits i zero h = absurd (omega arith)
scan-clear bits i (suc n) h = ground (arith, scan-clear bits (i + 1) n)

scan-before-step :
    (bits : Bits) (i n j : ℕ)
    → ((i + 1 ≤ j) → j < scan bits (i + 1) n → test_bit j bits ≡ true)
    → i ≤ j
    → j < scan bits i (suc n)
    → test_bit j bits ≡ true
unfolding scan
scan-before-step bits i n j later h k = elim (Bool-cases (test_bit i bits)) [
  | inl used ↦ elim (Bool-cases (i == j)) [
    | inl same ↦ ap (λ t. test_bit t bits) (sym ((==_iff i j).0 same)) ∙ used
    | inr other ↦ later (ground (arith, other)) (rw used at k)
  ]
  | inr free ↦ absurd (ground (arith, free))
]

-- Every bit that the search passes is set.
pub scan-before : (bits : Bits) (i n j : ℕ) → i ≤ j → j < scan bits i n → test_bit j bits ≡ true
scan-before bits i zero j h k = absurd (unfold scan in omega arith)
scan-before bits i (suc n) j h k = scan-before-step bits i n j (scan-before bits (i + 1) n j) h k

-- The search stops at the end, or at a clear bit in the range; all bits before it are set.
pub find_next_zero_bit_lem :
    (bits : Bits) (size offset : ℕ)
    → offset ≤ size
    → let b = find_next_zero_bit bits size offset in
      (offset ≤ b) × (b ≤ size) × ((b ≡ size) ⊎ (test_bit b bits ≡ false))
unfolding find_next_zero_bit
find_next_zero_bit_lem bits size offset h =
    ground (arith, scan_bounds bits offset (size - offset), scan-clear bits offset (size - offset))

-- Every bit from the start of the search to where it stops is set.
pub find_next_zero_bit-before :
    (bits : Bits) (size offset j : ℕ)
    → offset ≤ j
    → j < find_next_zero_bit bits size offset
    → j < size
    → test_bit j bits ≡ true
unfolding find_next_zero_bit
find_next_zero_bit-before bits size offset j h k l =
    let inside : leb size offset ≡ false = ground arith in
    scan-before bits offset (size - offset) j h (rw inside at k)

pub find_next_zero_bit_past :
    (bits : Bits) (size offset : ℕ) → size ≤ offset → find_next_zero_bit bits size offset ≡ size
unfolding find_next_zero_bit
find_next_zero_bit_past bits size offset h = ground arith

pub test_bit-set :
    (bits : Bits) (i j : ℕ) (v : Bool)
    → i < length bits
    → test_bit j (set bits i v) ≡ (if i == j then v else test_bit j bits)
test_bit-set bits i j v h = ground (arith, get_or-set bits i j v false)

pub count_zero-set-above :
    (bits : Bits) (i n : ℕ) (v : Bool)
    → i < length bits
    → n ≤ i
    → count_zero (set bits i v) n ≡ count_zero bits n
unfolding count_zero
count_zero-set-above bits i zero v h k = refl
count_zero-set-above bits i (suc n) v h k =
    ground (arith, test_bit-set bits i n v h, count_zero-set-above bits i n v h)

-- Setting a clear bit takes one clear bit away.
pub count_zero-set_bit :
    (bits : Bits) (i n : ℕ)
    → i < n
    → i < length bits
    → test_bit i bits ≡ false
    → count_zero (set_bit i bits) n + 1 ≡ count_zero bits n
unfolding count_zero
count_zero-set_bit bits i zero h l c = absurd (omega arith)
count_zero-set_bit bits i (suc n) h l c = elim (Bool-cases (i == n)) [
  | inl same ↦
      let e : i ≡ n = (==_iff i n).0 same in
      ground (
        arith,
        test_bit-set bits i n true l,
        count_zero-set-above bits i n true l,
        ap (λ t. test_bit t bits) e,
      )
  | inr other ↦ ground (arith, test_bit-set bits i n true l, count_zero-set_bit bits i n)
]

-- Clearing a set bit adds one.
pub count_zero-clear_bit :
    (bits : Bits) (i n : ℕ)
    → i < n
    → i < length bits
    → test_bit i bits ≡ true
    → count_zero (clear_bit i bits) n ≡ count_zero bits n + 1
unfolding count_zero
count_zero-clear_bit bits i zero h l c = absurd (omega arith)
count_zero-clear_bit bits i (suc n) h l c = elim (Bool-cases (i == n)) [
  | inl same ↦
      let e : i ≡ n = (==_iff i n).0 same in
      ground (
        arith,
        test_bit-set bits i n false l,
        count_zero-set-above bits i n false l,
        ap (λ t. test_bit t bits) e,
      )
  | inr other ↦ ground (arith, test_bit-set bits i n false l, count_zero-clear_bit bits i n)
]
