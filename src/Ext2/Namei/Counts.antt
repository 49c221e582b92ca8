-- ===== src/Ext2/Namei/Counts.antt =====
-- What the operations of namei.c do to link counts.
use operating_systems_ntua.Prelude.{
  ℕ, ◌+◌, ◌^◌, ◌<◌, ◌≡◌, refl, ◌∙◌, Bool, false, not, Option, none, some, List, arith, ltb, ◌==◌,
  if◌then◌else◌, if-elim, length, Errno, Result, ok, err, enotempty, subst,
}
use operating_systems_ntua.Ext2.Dirfile.{
  Geometry, Dirfile, Writes, Position, find_entry, add_link, delete_entry, make_dir, empty_dir,
}
use operating_systems_ntua.Ext2.Namei.{
  Names, up, down, inc_link, dec_link, with_dir, discard, instantiate, fresh, Outcome, with_link,
  add_nondir, create_as, link, unlinked, unlink_at, unlink, symlink_as, symlink, i_data_size,
  mkdir_undo, mkdir_filled, mkdir, removed, rmdir,
}

pub down-up : (n : ℕ) → n < 2 ^ 32 → down (up n) ≡ n
down-up n h = omega arith

module _ (g : Geometry) where
  -- An addition of a name ends well or badly.
  pub with_link-elim :
      (P : Outcome → Type 0) (w : Writes) (dir : ℕ) (name : List ℕ) (i : ℕ) (v : Names)
      (done failed : Names → Names)
      → ((d : Dirfile) → P (done (with_dir dir d v), ok tt))
      → ((d : Dirfile) (e : Errno) → P (failed (with_dir dir d v), err e))
      → P (with_link g w dir name i v done failed)
  with_link-elim P w dir name i v done failed good bad = go (add_link g w (v.dirs dir) name i)
    where
      go :
          (a : Dirfile × Result (Unit {0}))
          → P (elim a.1 [
            | ok u ↦ (done (with_dir dir a.0 v), ok tt)
            | err e ↦ (failed (with_dir dir a.0 v), err e)
          ])
      go (d, ok u) = good d
      go (d, err e) = bad d e

  -- The counts after a new inode has been given a name, or not.
  abbrev pub after_new : ℕ → (ℕ → ℕ) → Result (Unit {0}) → ℕ → ℕ
  after_new i nlink (ok u) j = if i == j then 1 else nlink j
  after_new i nlink (err e) j = if i == j then 0 else nlink j

  abbrev After : (Result (Unit {0}) → ℕ → ℕ) → Outcome → Type 0
  After f (v', r) = (j : ℕ) → v'.nlink j ≡ f r j

  add_nondir-After :
      (w : Writes) (dir : ℕ) (name : List ℕ) (i : ℕ) (v : Names)
      → After (after_new i v.nlink) (add_nondir g w dir name i (fresh i v))
  unfolding add_nondir
  add_nondir-After w dir name i v =
      with_link-elim (After (after_new i v.nlink)) w dir name i (fresh i v) (instantiate name i)
        (λ v'. discard i (dec_link i v')) (λ d j. refl) (λ d e j. ground arith)

  -- The counts after the making of a directory
  abbrev pub after_mkdir : ℕ → ℕ → (ℕ → ℕ) → Result (Unit {0}) → ℕ → ℕ
  after_mkdir dir i nlink (ok u) j =
      if i == j then 2 else if dir == j then up (nlink j) else nlink j
  after_mkdir dir i nlink (err e) j = if i == j then 0 else nlink j

  mkdir_undo-After :
      (dir i : ℕ) (v : Names) (nlink : ℕ → ℕ) (e : Errno)
      → dir == i ≡ false
      → nlink dir < 2 ^ 32
      → After (after_mkdir dir i nlink) (v, ok tt)
      → After (after_mkdir dir i nlink) (mkdir_undo dir i v, err e)
  mkdir_undo-After dir i v nlink e ne small h j =
      let at_dir : v.nlink dir ≡ up (nlink dir) = h dir ∙ ground (arith, ne) in
      let at_i : v.nlink i ≡ 2 = h i ∙ ground (arith, ne) in
      let back = down-up (nlink dir) small in ground (arith, h j, at_dir, at_i, back, ne)

  mkdir_filled-After :
      (w : Writes) (dir : ℕ) (name : List ℕ) (i : ℕ) (v : Names) (nlink : ℕ → ℕ)
      (a : Dirfile × Result (Unit {0}))
      → dir == i ≡ false
      → nlink dir < 2 ^ 32
      → After (after_mkdir dir i nlink) (v, ok tt)
      → After (after_mkdir dir i nlink) (mkdir_filled g w dir name i v a)
  mkdir_filled-After w dir name i v nlink (d, err e) ne small h =
      mkdir_undo-After dir i (with_dir i d v) nlink e ne small h
  mkdir_filled-After w dir name i v nlink (d, ok u) ne small h =
      with_link-elim (After (after_mkdir dir i nlink)) w dir name i (with_dir i d v)
        (instantiate name i) (mkdir_undo dir i) (λ d'. h)
        (λ d' e. mkdir_undo-After dir i (with_dir dir d' (with_dir i d v)) nlink e ne small h)

  -- `ext2_mkdir` that has got a new inode gives it two links, and its directory one more, when it
  -- succeeds; on every failure it leaves no link of the new inode, and all other counts as they were.
  -- The new inode is another one than the directory.
  pub mkdir-after_mkdir :
      (w1 w2 : Writes) (page_ok : Bool) (dir : ℕ) (name : List ℕ) (i : ℕ) (v : Names)
      → dir == i ≡ false
      → v.nlink dir < 2 ^ 32
      → (j : ℕ)
      → let r = mkdir g w1 w2 page_ok dir name (ok i) v in
        r.0.nlink j ≡ after_mkdir dir i v.nlink r.1 j
  unfolding mkdir
  mkdir-after_mkdir w1 w2 page_ok dir name i v ne small =
      let v' = inc_link i (fresh i (inc_link dir v)) in
      mkdir_filled-After w2 dir name i v' v.nlink (make_dir g w1 page_ok (v'.dirs i) dir) ne small
        (λ j. ground (arith, ne))

  create_as-After :
      (w : Writes) (dir : ℕ) (name : List ℕ) (i : ℕ) (v : Names)
      → After (after_new i v.nlink) (create_as g w dir name v (ok i))
  create_as-After w dir name i v = add_nondir-After w dir name i v

  -- `ext2_symlink` that has got a new inode gives it one link when it succeeds; on every failure behind
  -- that it leaves it no link; and it changes no other count.
  pub symlink-after_new :
      (w : Writes) (dir : ℕ) (name symname : List ℕ) (page_symlink : Option Errno) (i : ℕ)
      (v : Names)
      → length symname < g.chunk
      → (j : ℕ)
      → let r = symlink g w dir name symname page_symlink (ok i) v in
        r.0.nlink j ≡ after_new i v.nlink r.1 j
  unfolding symlink
  symlink-after_new w dir name symname page_symlink i v short =
      let l = length symname + 1 in
      let fits : ltb g.chunk l ≡ false = ground (arith, short) in rw fits (go page_symlink)
    where
      go :
          (p : Option Errno)
          → After (after_new i v.nlink) (symlink_as g w dir name (length symname + 1) p v (ok i))
      go none = add_nondir-After w dir name i v
      go (some e) =
          if-elim (After (after_new i v.nlink)) (ltb i_data_size (length symname + 1))
            (λ _. λ j. ground arith) (λ _. add_nondir-After w dir name i v)

  -- The counts after a link
  abbrev pub after_link : ℕ → (ℕ → ℕ) → Result (Unit {0}) → ℕ → ℕ
  after_link i nlink (ok u) j = if i == j then up (nlink j) else nlink j
  after_link i nlink (err e) j = nlink j

  pub link-after_link :
      (w : Writes) (i dir : ℕ) (name : List ℕ) (v : Names)
      → v.nlink i < 2 ^ 32
      → (j : ℕ) → let r = link g w i dir name v in r.0.nlink j ≡ after_link i v.nlink r.1 j
  unfolding link
  link-after_link w i dir name v small =
      with_link-elim (After (after_link i v.nlink)) w dir name i (inc_link i v) (instantiate name i)
        (dec_link i) (λ d j. ground arith)
        (λ d e j. let back = down-up (v.nlink i) small in ground (arith, back))

  -- The counts after a name is gone
  abbrev pub after_unlink : ℕ → (ℕ → ℕ) → Result (Unit {0}) → ℕ → ℕ
  after_unlink i nlink (ok u) j = if i == j then down (nlink j) else nlink j
  after_unlink i nlink (err e) j = nlink j

  unlinked-After :
      (dir i : ℕ) (v : Names) (a : Dirfile × Result (Unit {0}))
      → After (after_unlink i v.nlink) (unlinked dir i v a)
  unlinked-After dir i v (d, err e) j = refl
  unlinked-After dir i v (d, ok u) j = ground arith

  unlink_at-After :
      (w : Writes) (dir i : ℕ) (v : Names) (r : Result Position)
      → After (after_unlink i v.nlink) (unlink_at g w dir i v r)
  unlink_at-After w dir i v (err e) = λ j. refl
  unlink_at-After w dir i v (ok p) = unlinked-After dir i v (delete_entry g w (v.dirs dir) p)

  -- The counts after a directory is gone
  abbrev pub after_rmdir : ℕ → ℕ → (ℕ → ℕ) → Result (Unit {0}) → ℕ → ℕ
  after_rmdir dir i nlink (ok u) j =
      if i == j then down (down (nlink j)) else if dir == j then down (nlink j) else nlink j
  after_rmdir dir i nlink (err e) j = nlink j

  removed-After :
      (dir i : ℕ) (nlink : ℕ → ℕ) (o : Outcome)
      → dir == i ≡ false
      → After (after_unlink i nlink) o
      → After (after_rmdir dir i nlink) (removed dir i o)
  removed-After dir i nlink (v, err e) ne h = h
  removed-After dir i nlink (v, ok u) ne h = λ j. ground (arith, h j, h i, h dir, ne)

  rmdir-After :
      (w : Writes) (dir : ℕ) (name : List ℕ) (i : ℕ) (v : Names)
      → dir == i ≡ false
      → After (after_rmdir dir i v.nlink) (rmdir g w dir name i v)
  unfolding rmdir unlink
  rmdir-After w dir name i v ne =
      if-elim (After (after_rmdir dir i v.nlink)) (not (empty_dir g (v.dirs i)))
        {x = (v, err enotempty)} {y = removed dir i (unlink g w dir name i v)} (λ _ j. refl)
        (λ _.
          removed-After dir i v.nlink (unlink g w dir name i v) ne
            (unlink_at-After w dir i v (find_entry g (v.dirs dir) name)))

  -- `ext2_rmdir` takes two links of the directory and one of its parent when it succeeds, and on every
  -- failure leaves all counts as they were. The directory is another one than the parent.
  pub rmdir-after_rmdir :
      (w : Writes) (dir : ℕ) (name : List ℕ) (i : ℕ) (v : Names)
      → dir == i ≡ false
      → (j : ℕ) → let r = rmdir g w dir name i v in r.0.nlink j ≡ after_rmdir dir i v.nlink r.1 j
  rmdir-after_rmdir w dir name i v ne = rmdir-After w dir name i v ne

  -- A directory that is made by `ext2_mkdir` and then removed by `ext2_rmdir`, both with success, has no
  -- link left, and every other count is what it was.
  pub rmdir-mkdir :
      (w1 w2 w3 : Writes) (page_ok : Bool) (dir : ℕ) (name name' : List ℕ) (i : ℕ) (v : Names)
      → dir == i ≡ false
      → v.nlink dir < 2 ^ 32
      → (mkdir g w1 w2 page_ok dir name (ok i) v).1 ≡ ok tt
      → (rmdir g w3 dir name' i (mkdir g w1 w2 page_ok dir name (ok i) v).0).1 ≡ ok tt
      → (j : ℕ)
      → (rmdir g w3 dir name' i (mkdir g w1 w2 page_ok dir name (ok i) v).0).0.nlink j
        ≡ (if i == j then 0 else v.nlink j)
  rmdir-mkdir w1 w2 w3 page_ok dir name name' i v ne small made gone j =
      let m = mkdir g w1 w2 page_ok dir name (ok i) v in
      let first = mkdir-after_mkdir w1 w2 page_ok dir name i v ne small j in
      let made_j : m.0.nlink j ≡ after_mkdir dir i v.nlink (ok tt) j =
        subst (λ r. m.0.nlink j ≡ after_mkdir dir i v.nlink r j) made first in
      let second = rmdir-after_rmdir w3 dir name' i m.0 ne j in
      let gone_j : (rmdir g w3 dir name' i m.0).0.nlink j ≡ after_rmdir dir i m.0.nlink (ok tt) j =
        subst (λ r. (rmdir g w3 dir name' i m.0).0.nlink j ≡ after_rmdir dir i m.0.nlink r j) gone
          second in
      let back = down-up (v.nlink dir) small in gone_j ∙ ground (arith, made_j, back, ne)
