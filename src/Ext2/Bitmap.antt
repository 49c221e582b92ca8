-- ===== src/Ext2/Bitmap.antt =====
-- The kernel's bitmap operations that balloc.c and ialloc.c use, on a bitmap as the list of its bits;
-- `true` is a bit that is set. A bit past the end reads as clear, and setting it changes nothing.
pub mod Scan
use operating_systems_ntua.Prelude.{
  ℕ, zero, suc, ◌+◌, ◌-◌, Bool, true, false, ◌&&◌, ltb, List, [], ◌∷◌, leb, if◌then◌else◌, get_or,
  set,
}

abbrev pub Bits : Type 0
Bits = List Bool

-- `test_bit_le`
abbrev pub test_bit : ℕ → Bits → Bool
test_bit i bits = get_or bits i false

-- The first clear bit at `i` or among the `n` bits from there on, or `i + n`.
unfoldable pub scan : Bits → ℕ → ℕ → ℕ
scan bits i zero = i
scan bits i (suc n) = if test_bit i bits then scan bits (i + 1) n else i

-- `find_next_zero_bit_le(bits, size, offset)`
unfoldable pub find_next_zero_bit : Bits → ℕ → ℕ → ℕ
find_next_zero_bit bits size offset =
    if leb size offset then size else scan bits offset (size - offset)

-- `ext2_set_bit_atomic` and `ext2_clear_bit_atomic` return what the bit was.
abbrev pub set_bit : ℕ → Bits → Bits
set_bit i bits = set bits i true

abbrev pub clear_bit : ℕ → Bits → Bits
clear_bit i bits = set bits i false

-- The number of clear bits below `n`.
pub count_zero : Bits → ℕ → ℕ
count_zero bits zero = 0
count_zero bits (suc n) = (if test_bit n bits then 0 else 1) + count_zero bits n

-- Whether `j` is among the `n` bits from `i` on.
abbrev pub within : ℕ → ℕ → ℕ → Bool
within i n j = leb i j && ltb j (i + n)
