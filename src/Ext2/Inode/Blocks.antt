-- ===== src/Ext2/Inode/Blocks.antt =====
-- The blocks of a file in inode.c: look-ups after allocations, and what a truncation leaves of `i_data`.
use operating_systems_ntua.Prelude.{
  ℕ, zero, suc, ◌+◌, ◌-◌, ◌/◌, ◌%◌, ◌^◌, ◌≤◌, ◌<◌, ◌≡◌, refl, ap, ◌∙◌, Bool, true, false, not, ◌&&◌,
  List, [], ◌∷◌, ◌++◌, arith, ltb, leb, if◌then◌else◌, length, get_or, set, take, drop, get_or-set,
  if-elim, Bool-cases, inl, inr, Result, ok, err, subst,
}
use operating_systems_ntua.Ext2.Mount.{Device, Fs, Inode}
use operating_systems_ntua.Ext2.Balloc.{new_blocks}
use operating_systems_ntua.Ext2.Inode.{
  ndir_blocks, Node, Found, keep_block, get_blocks, cleared, free_data, has_blocks, truncate_blocks,
}

-- What a call of `ext2_get_blocks` has done for later calls.
abbrev Later : ℕ → Fs × Inode × Result Found → Type 0
Later iblock (fs', inode', err e) = Unit {0}
Later iblock (fs', inode', ok f) =
    0 < f.bno
    → (dev : Device) (fs : Fs) (create : Bool)
    → get_blocks dev fs inode' iblock create
      ≡ (fs, inode', ok (record { ret = 1; bno = f.bno; new = false }))

present-Later :
    (dev : Device) (fs : Fs) (inode : Inode) (iblock : ℕ) (create : Bool)
    → leb ndir_blocks iblock ≡ false
    → 0 < get_or inode.i_data iblock 0
    → get_blocks dev fs inode iblock create
      ≡ (fs, inode, ok (record { ret = 1; bno = get_or inode.i_data iblock 0; new = false }))
unfolding get_blocks
present-Later dev fs inode iblock create low there = ground (arith, low, there)

keep_block-Later :
    (inode : Inode) (iblock : ℕ) (r : Fs × Result (ℕ × ℕ))
    → leb ndir_blocks iblock ≡ false
    → iblock < length inode.i_data
    → Later iblock (keep_block inode iblock r)
keep_block-Later inode iblock (fs, err e) low inside = tt
keep_block-Later inode iblock (fs, ok (resb, count)) low inside = λ pos dev fs'' create.
    let there : get_or (set inode.i_data iblock (resb % 2 ^ 32)) iblock 0 ≡ resb % 2 ^ 32 =
      ground (arith, get_or-set inode.i_data iblock iblock (resb % 2 ^ 32) 0, inside) in
    present-Later dev fs'' (keep_block inode iblock (fs, ok (resb, count))).1 iblock create low
      (rw there pos)
    ∙ ap
        (λ b. (
          fs'',
          (keep_block inode iblock (fs, ok (resb, count))).1,
          ok (record { ret = 1; bno = b; new = false }),
        ))
        there

get_blocks-Later :
    (dev : Device) (fs : Fs) (inode : Inode) (iblock : ℕ) (create : Bool)
    → iblock < length inode.i_data
    → Later iblock (get_blocks dev fs inode iblock create)
unfolding get_blocks
get_blocks-Later dev fs inode iblock create inside =
    let P = Later iblock in
    if-elim P (leb ndir_blocks iblock) (λ _. tt)
      (λ low.
        if-elim P (ltb 0 (get_or inode.i_data iblock 0))
          (λ there. λ pos dev' fs' create'. present-Later dev' fs' inode iblock create' low pos)
          (λ _.
            if-elim P (not create) (λ _. λ pos. absurd (omega (arith, pos)))
              (λ _. keep_block-Later inode iblock (new_blocks dev fs inode 1) low inside)))

-- When `ext2_get_blocks` has found or allocated a block with a number other than 0, a later call for the
-- same place of the file, to create or not, in any state of the file system, finds that block as an old
-- one, and changes neither the state nor the inode. The inode has an entry for the place.
pub get_blocks-get_blocks :
    (dev : Device) (fs : Fs) (inode : Inode) (iblock : ℕ) (create : Bool) {fs' : Fs}
    {inode' : Inode} {f : Found}
    → iblock < length inode.i_data
    → get_blocks dev fs inode iblock create ≡ (fs', inode', ok f)
    → 0 < f.bno
    → (dev' : Device) (fs'' : Fs) (create' : Bool)
    → get_blocks dev' fs'' inode' iblock create'
      ≡ (fs'', inode', ok (record { ret = 1; bno = f.bno; new = false }))
get_blocks-get_blocks dev fs inode iblock create inside h =
    subst (Later iblock) h (get_blocks-Later dev fs inode iblock create inside)

get_or-cleared : (xs : List ℕ) (j : ℕ) → get_or (cleared xs) j 0 ≡ 0
get_or-cleared [] j = refl
get_or-cleared (x ∷ xs) zero = ground arith
get_or-cleared (x ∷ xs) (suc j) = get_or-cleared xs j

-- An array in which a stretch has been cleared.
get_or_middle :
    (xs : List ℕ) (a n m j : ℕ)
    → m ≡ a + n
    → m ≤ length xs
    → get_or (take a xs ++ (cleared (take n (drop a xs)) ++ drop m xs)) j 0
      ≡ (if leb a j && ltb j m then 0 else get_or xs j 0)
get_or_middle xs zero zero zero j e h = ground arith
get_or_middle xs zero zero (suc m) j e h = absurd (omega arith)
get_or_middle xs zero (suc n) zero j e h = absurd (omega arith)
get_or_middle [] zero (suc n) (suc m) j e h = absurd (omega arith)
get_or_middle (x ∷ xs) zero (suc n) (suc m) zero e h = ground arith
get_or_middle (x ∷ xs) zero (suc n) (suc m) (suc j) e h =
    ground (arith, get_or_middle xs zero n m j (omega arith) (omega arith))
get_or_middle xs (suc a) n zero j e h = absurd (omega arith)
get_or_middle [] (suc a) n (suc m) j e h = absurd (omega arith)
get_or_middle (x ∷ xs) (suc a) n (suc m) zero e h = ground arith
get_or_middle (x ∷ xs) (suc a) n (suc m) (suc j) e h =
    ground (arith, get_or_middle xs a n m j (omega arith) (omega arith))

both_hold :
    (b c d : Bool) (x y : ℕ) → b && c ≡ true → (if d then x else y) ≡ (if b && d then x else y)
both_hold true true d x y h = refl
both_hold true false d x y h = ground (arith, h)
both_hold false c d x y h = ground (arith, h)

one_fails :
    (b c d : Bool) (x y : ℕ)
    → b && c ≡ false
    → (c ≡ false → d ≡ false)
    → y ≡ (if b && d then x else y)
one_fails true true d x y h out = ground (arith, h)
one_fails true false d x y h out = let e = out refl in rw e refl
one_fails false c d x y h out = refl

-- The first block behind a size
abbrev pub blocks_for : ℕ → ℕ → ℕ
blocks_for blocksize size = (size + blocksize - 1) / blocksize

-- `ext2_truncate_blocks` clears exactly the direct entries of `i_data` from the first block behind the
-- size on, in a file that has blocks, and no entry in any other. The inode has at least 12 entries.
pub truncate_blocks-i_data :
    (dev : Device) (fs : Fs) (n : Node) (size j : ℕ)
    → ndir_blocks ≤ length n.core.i_data
    → get_or (truncate_blocks dev fs n size).1.core.i_data j 0 ≡ (
        if has_blocks n && (leb (blocks_for fs.info.s_blocksize size) j && ltb j ndir_blocks)
        then 0
        else get_or n.core.i_data j 0)
unfolding truncate_blocks free_data
truncate_blocks-i_data dev fs n size j long =
    let a = blocks_for fs.info.s_blocksize size in
    elim (Bool-cases (has_blocks n && leb a ndir_blocks)) [
      | inl in_range ↦
          let le : a ≤ ndir_blocks = ground (arith, in_range) in
          rw in_range (
            get_or_middle n.core.i_data a (ndir_blocks - a) ndir_blocks j (omega (arith, le)) long
            ∙ both_hold (has_blocks n) (leb a ndir_blocks) _ 0 _ in_range)
      | inr out ↦ rw out (
          one_fails (has_blocks n) (leb a ndir_blocks) (leb a j && ltb j ndir_blocks) 0
            (get_or n.core.i_data j 0) out (λ e. ground (arith, e)))
    ]
