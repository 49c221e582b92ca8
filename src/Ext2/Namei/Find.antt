-- ===== src/Ext2/Namei/Find.antt =====
-- Names that namei.c has made, and finds again.
use operating_systems_ntua.Prelude.{
  ℕ, ◌≤◌, ◌<◌, ◌≡◌, refl, sym, false, some, List, arith, ltb, ◌==◌, length, Result, ok, err, subst,
}
use operating_systems_ntua.Ext2.Mount.{update}
use operating_systems_ntua.Ext2.Dir.{dir_rec_len}
use operating_systems_ntua.Ext2.Dirfile.{Geometry, Dirfile, Writes, add_link, inode_by_name}
use operating_systems_ntua.Ext2.Dirfile.Pages.{IsKept}
use operating_systems_ntua.Ext2.Dirfile.Insertion.{inode_by_name-add_link}
use operating_systems_ntua.Ext2.Namei.{
  Names, dec_link, with_dir, discard, instantiate, fresh, Outcome, looked_up, add_nondir, create,
  lookup,
}

-- A lookup of the inode of a name in a state, after the call that made it.
abbrev Finds : Geometry → (ℕ → Result ℕ) → ℕ → List ℕ → ℕ → Outcome → Type 0
Finds g iget dir name i (v, ok u) = lookup g iget dir name v ≡ ok (some i)
Finds g iget dir name i (v, err e) = Unit {0}

module _ (g : Geometry) (iget : ℕ → Result ℕ) (dir : ℕ) (name : List ℕ) (i : ℕ)
    (short : length name ≤ 255) (gets : iget i ≡ ok i) where
  lookup-found :
      (v : Names)
      → inode_by_name g (v.dirs dir) name ≡ ok i
      → lookup g iget dir name v ≡ ok (some i)
  unfolding lookup
  lookup-found v h =
      let fits : ltb 255 (length name) ≡ false = ground (arith, short) in
      rw (fits, h) (rw (looked_up, gets) refl)

  with_link-Finds :
      (v : Names) (a : Dirfile × Result (Unit {0}))
      → ((d : Dirfile) → a ≡ (d, ok tt) → inode_by_name g d name ≡ ok i)
      → Finds g iget dir name i (elim a.1 as (λ _. Outcome) [
        | ok u ↦ (instantiate name i (with_dir dir a.0 v), ok tt)
        | err e ↦ (discard i (dec_link i (with_dir dir a.0 v)), err e)
      ])
  with_link-Finds v (d, err e) found_in = tt
  with_link-Finds v (d, ok u) found_in =
      let at : update v.dirs dir d dir ≡ d = ground arith in
      lookup-found (instantiate name i (with_dir dir d v)) (rw at (found_in d refl))

-- A file that `ext2_create` has made is found by `ext2_lookup` under its name. The directory is another one
-- than the new inode and is in order, the name fits a chunk and has at most 255 bytes, the number is in
-- range, and ext2_iget returns the inode of the number.
pub lookup-create :
    (g : Geometry) (w : Writes) (iget : ℕ → Result ℕ) (dir : ℕ) (name : List ℕ) (i : ℕ) (v : Names)
    → i == dir ≡ false
    → IsKept g (v.dirs dir)
    → dir_rec_len (length name) ≤ g.chunk
    → 0 < length name
    → length name ≤ 255
    → 0 < i
    → i ≤ g.max_inumber
    → iget i ≡ ok i
    → (create g w dir name (ok i) v).1 ≡ ok tt
    → lookup g iget dir name (create g w dir name (ok i) v).0 ≡ ok (some i)
unfolding create add_nondir
lookup-create g w iget dir name i v ne k fits some_name short in_use known gets h =
    let new = fresh i v in
    let same : new.dirs dir ≡ v.dirs dir = ground (arith, ne) in
    let a = add_link g w (new.dirs dir) name i in
    let finds = with_link-Finds g iget dir name i short gets new a (λ d e.
      inode_by_name-add_link g w (new.dirs dir) name i (subst (IsKept g) (sym same) k) fits known
        some_name in_use e) in
    subst (λ r. Finds g iget dir name i ((create g w dir name (ok i) v).0, r)) h finds
