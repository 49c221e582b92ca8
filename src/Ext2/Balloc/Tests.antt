-- ===== src/Ext2/Balloc/Tests.antt =====
-- The block allocator of balloc.c on a file system of two groups of eight blocks.
use operating_systems_ntua.Prelude.{◌≡◌, refl, true, none, some, [], ◌∷◌, arith}
use operating_systems_ntua.Ext2.Bitmap.{Bits, scan, find_next_zero_bit}
use operating_systems_ntua.Ext2.Balloc.{take_loop, allocate_in_bg}
use operating_systems_ntua.Ext2.Sample.{info, bits, mounted, device, root}
use operating_systems_ntua.Ext2.Balloc.Release
use operating_systems_ntua.Ext2.Balloc.Release.{free_blocks-Outcome}
use operating_systems_ntua.Ext2.Balloc.{free_blocks}
use operating_systems_ntua.Ext2.Balloc.Outcome.{Outcome}

abbrev full : Bits
full = true ∷ true ∷ true ∷ true ∷ true ∷ true ∷ true ∷ true ∷ []

allocates : allocate_in_bg info 0 bits 5 ≡ some (5, 2, full)
unfolding allocate_in_bg take_loop find_next_zero_bit scan
allocates = refl

finds_none : allocate_in_bg info 0 full 5 ≡ none
unfolding allocate_in_bg take_loop find_next_zero_bit scan
finds_none = refl

free_blocks-Outcome_example : Release.Outcome mounted root 4 2 (free_blocks device mounted root 4 2)
free_blocks-Outcome_example =
    free_blocks-Outcome device mounted root 4 2 (λ b. ground arith) (omega arith)
