-- ===== src/Ext2/Inode/Runs.antt =====
-- The runs of consecutive blocks that the truncation of inode.c frees with one call each.
use operating_systems_ntua.Prelude.{
  ℕ, zero, suc, ◌+◌, ◌-◌, ◌%◌, ◌^◌, ◌≤◌, ◌<◌, ◌≡◌, refl, ap, ◌∙◌, Bool, true, ◌&&◌, List, [], ◌∷◌,
  arith, ltb, ◌==◌, if◌then◌else◌, length, if-elim,
}
use operating_systems_ntua.Ext2.Mount.{Device, Fs, Inode}
use operating_systems_ntua.Ext2.Balloc.{free_blocks}
use operating_systems_ntua.Ext2.Inode.{free_loop}

-- Runs of blocks, freed one after the other
abbrev pub free_all : Device → Fs → Inode → List (ℕ × ℕ) → Fs × Inode
free_all dev fs inode [] = (fs, inode)
free_all dev fs inode ((start, count) ∷ runs) =
    let (fs', inode') = free_blocks dev fs inode start count in free_all dev fs' inode' runs

-- The blocks of a run, before more
abbrev pub run : ℕ → ℕ → List ℕ → List ℕ
run start zero more = more
run start (suc n) more = start ∷ run (start + 1) n more

abbrev pub blocks_of : List (ℕ × ℕ) → List ℕ
blocks_of [] = []
blocks_of ((start, count) ∷ runs) = run start count (blocks_of runs)

-- The numbers that are not 0
abbrev pub present : List ℕ → List ℕ
present [] = []
present (nr ∷ rest) = if nr == 0 then present rest else nr ∷ present rest

abbrev pub numbers32 : List ℕ → Bool
numbers32 [] = true
numbers32 (nr ∷ rest) = ltb nr (2 ^ 32) && numbers32 rest

run_join :
    (start n m nr : ℕ) (more : List ℕ)
    → m ≡ n + 1
    → nr ≡ start + n
    → run start m more ≡ run start n (nr ∷ more)
run_join start n zero nr more l e = absurd (omega (arith, l))
run_join start zero (suc zero) nr more l e = ap (λ b. b ∷ more) (omega (arith, e))
run_join start zero (suc (suc m)) nr more l e = absurd (omega (arith, l))
run_join start (suc n) (suc m) nr more l e =
    ap (λ t. start ∷ t) (run_join (start + 1) n m nr more (omega (arith, l)) (omega (arith, e)))

-- What the loop frees, given what it has gathered.
record Split (dev : Device) (fs : Fs) (inode : Inode) (blocks : List ℕ) (r : Fs × Inode)
    : Type 0 where
  runs : List (ℕ × ℕ)
  frees : r ≡ free_all dev fs inode runs
  exactly : blocks_of runs ≡ blocks

module _ (dev : Device) where
  recast :
      (fs : Fs) (inode : Inode) {blocks blocks' : List ℕ} {r : Fs × Inode}
      → blocks ≡ blocks'
      → Split dev fs inode blocks r
      → Split dev fs inode blocks' r
  recast fs inode e s = record { runs = s.runs; frees = s.frees; exactly = s.exactly ∙ e }

  -- A run is freed before the rest.
  flush_run :
      (fs : Fs) (inode : Inode) (start count : ℕ) {blocks : List ℕ} {r : Fs × Inode}
      → let (fs', inode') = free_blocks dev fs inode start count in
        Split dev fs' inode' blocks r → Split dev fs inode (run start count blocks) r
  flush_run fs inode start count s = record {
    runs = (start, count) ∷ s.runs;
    frees = s.frees;
    exactly = ap (run start count) s.exactly;
  }

  free_loop-Split :
      (slots : List ℕ) (fs : Fs) (inode : Inode) (start count : ℕ)
      → numbers32 slots ≡ true
      → start < 2 ^ 32
      → count + length slots ≤ 2 ^ 32
      → Split dev fs inode
          (run start count (present slots))
          (free_loop dev fs inode slots start count)
  unfolding free_loop
  free_loop-Split [] fs inode start zero n s c = record { runs = []; frees = refl; exactly = refl }
  free_loop-Split [] fs inode start (suc count) n s c = record {
    runs = (start, suc count) ∷ [];
    frees = ground arith;
    exactly = refl;
  }
  free_loop-Split (nr ∷ rest) fs inode start count n s c =
      let Q : Fs × Inode → Type 0 = Split dev fs inode (run start count (present (nr ∷ rest))) in
      let later : numbers32 rest ≡ true = ground (arith, n) in
      let small : nr < 2 ^ 32 = ground (arith, n) in
      if-elim Q (nr == 0)
        (λ z.
          recast fs inode (ap (run start count) (rw z refl))
            (free_loop-Split rest fs inode start count later s (omega (arith, c))))
        (λ nz.
          let more : nr ∷ present rest ≡ present (nr ∷ rest) = rw nz refl in
          if-elim Q (count == 0)
            (λ none_yet.
              let zero_count : 0 ≡ count = ground (arith, none_yet) in
              recast fs inode (more ∙ ap (λ k. run start k (present (nr ∷ rest))) zero_count)
                (free_loop-Split rest fs inode nr 1 later small (omega (arith, c, zero_count))))
            (λ _.
              if-elim Q (start == (nr + 2 ^ 64 - count) % 2 ^ 64)
                (λ adjacent.
                  let next : nr ≡ start + count = ground (arith, adjacent, small, s, c) in
                  recast fs inode
                    (run_join start count (count + 1) nr (present rest) refl next
                      ∙ ap (run start count) more)
                    (free_loop-Split rest fs inode start (count + 1) later s (omega (arith, c))))
                (λ _. recast fs inode (ap (run start count) more) (
                  flush_run fs inode start count (
                    free_loop-Split rest (free_blocks dev fs inode start count).0
                      (free_blocks dev fs inode start count).1 nr 1 later small
                      (omega (arith, c)))))))

-- The loop of `ext2_free_data` is a sequence of calls of `ext2_free_blocks` for runs of consecutive
-- blocks, which together are the numbers other than 0 of its array, each once and in their order. The
-- numbers have 32 bits, and the array fewer than 2 ^ 32 entries.
pub free_loop-free_all :
    (dev : Device) (slots : List ℕ) (fs : Fs) (inode : Inode)
    → numbers32 slots ≡ true
    → length slots ≤ 2 ^ 32
    → (runs : List (ℕ × ℕ)) × (free_loop dev fs inode slots 0 0 ≡ free_all dev fs inode runs)
      × (blocks_of runs ≡ present slots)
free_loop-free_all dev slots fs inode n c =
    let s = free_loop-Split dev slots fs inode 0 0 n (omega arith) (omega (arith, c)) in
    (s.runs, s.frees, s.exactly)
