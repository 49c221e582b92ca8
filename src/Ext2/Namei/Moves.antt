-- ===== src/Ext2/Namei/Moves.antt =====
-- namei.c: a rename.
use operating_systems_ntua.Prelude.{
  ℕ, ◌/◌, ◌^◌, ◌<◌, ◌≡◌, refl, Bool, true, false, not, ◌&&◌, ◌||◌, Option, none, some, List, arith,
  ◌==◌, if◌then◌else◌, if-elim, eio, einval, enotempty, Result, ok, err,
}
use operating_systems_ntua.Ext2.Mount.{update}
use operating_systems_ntua.Ext2.Dirfile.{
  Geometry, Dirfile, Writes, Position, find_entry, dotdot, set_link, add_link, delete_entry,
  empty_dir,
}
use operating_systems_ntua.Ext2.Namei.{Names, up, down, inc_link, dec_link, with_dir, Outcome}
use operating_systems_ntua.Ext2.Namei.Counts.{down-up}

-- What a rename is asked for: the old place with the inode that is moved and if that is a directory, and
-- the new place with the inode that has the name there, if one has.
pub record Request : Type 0 where
  pub old_dir : ℕ
  pub old_name : List ℕ
  pub old_inode : ℕ
  pub is_directory : Bool
  pub new_dir : ℕ
  pub new_name : List ℕ
  pub new_inode : Option ℕ
  pub flags : ℕ

-- The end of `ext2_rename`: the old entry goes, whether or not that succeeds; a directory's ".." is set.
abbrev pub finish_rename :
    Geometry → Writes → Request → Position → Option Position → Names → Outcome
finish_rename g w q old_de none v =
    (with_dir q.old_dir (delete_entry g w (v.dirs q.old_dir) old_de).0 v, ok tt)
finish_rename g w q old_de (some dir_de) v =
    let v' = with_dir q.old_dir (delete_entry g w (v.dirs q.old_dir) old_de).0 v in
    let linked = with_dir q.old_inode (set_link (v'.dirs q.old_inode) dir_de q.new_dir) v' in
    (dec_link q.old_dir (if q.old_dir == q.new_dir then v' else linked), ok tt)

-- A name that is there gets the inode.
abbrev pub replace :
    Geometry → Writes → Request → Position → Option Position → ℕ → Names → Result Position → Outcome
replace g w q old_de dir_de n v (err e) = (v, err e)
replace g w q old_de none n v (ok new_de) =
    finish_rename g w q old_de none
      (dec_link n (with_dir q.new_dir (set_link (v.dirs q.new_dir) new_de q.old_inode) v))
replace g w q old_de (some d) n v (ok new_de) = finish_rename g w q old_de (some d) (
    dec_link n (dec_link n (with_dir q.new_dir (set_link (v.dirs q.new_dir) new_de q.old_inode) v)))

-- A directory only replaces an empty one.
abbrev pub blocked : Geometry → Option Position → Dirfile → Bool
blocked g none d = false
blocked g (some p) d = not (empty_dir g d)

abbrev pub over : Geometry → Writes → Request → Position → Option Position → ℕ → Names → Outcome
over g w q old_de dir_de n v =
    if blocked g dir_de (v.dirs n)
    then (v, err enotempty)
    else replace g w q old_de dir_de n v (find_entry g (v.dirs q.new_dir) q.new_name)

abbrev pub beside_added :
    Geometry
    → Writes
    → Request
    → Position
    → Option Position
    → Names
    → Dirfile × Result (Unit {0})
    → Outcome
beside_added g w q old_de dir_de v (d, err e) = (with_dir q.new_dir d v, err e)
beside_added g w q old_de none v (d, ok u) =
    finish_rename g w q old_de none (with_dir q.new_dir d v)
beside_added g w q old_de (some p) v (d, ok u) =
    finish_rename g w q old_de (some p) (inc_link q.new_dir (with_dir q.new_dir d v))

abbrev pub to_target :
    Geometry → Writes → Writes → Request → Position → Option Position → Names → Option ℕ → Outcome
to_target g w1 w2 q old_de dir_de v (some n) = over g w2 q old_de dir_de n v
to_target g w1 w2 q old_de dir_de v none =
    beside_added g w2 q old_de dir_de v (add_link g w1 (v.dirs q.new_dir) q.new_name q.old_inode)

-- The ".." of what is moved, which a directory has to have
abbrev pub with_dotdot :
    Geometry → Writes → Writes → Request → Position → Names → Option Position → Outcome
with_dotdot g w1 w2 q old_de v none = (v, err eio)
with_dotdot g w1 w2 q old_de v (some p) = to_target g w1 w2 q old_de (some p) v q.new_inode

abbrev pub from_entry : Geometry → Writes → Writes → Request → Names → Result Position → Outcome
from_entry g w1 w2 q v (err e) = (v, err e)
from_entry g w1 w2 q v (ok old_de) =
    if q.is_directory
    then with_dotdot g w1 w2 q old_de v (dotdot g (v.dirs q.old_inode))
    else to_target g w1 w2 q old_de none v q.new_inode

-- `ext2_rename`; of the flags only RENAME_NOREPLACE, 1, is allowed.
unfoldable pub rename : Geometry → Writes → Writes → Request → Names → Outcome
rename g w1 w2 q v =
    if not (q.flags / 2 == 0)
    then (v, err einval)
    else from_entry g w1 w2 q v (find_entry g (v.dirs q.old_dir) q.old_name)

-- The counts after a rename: the inode that had the new name has a link less, or two when it is a
-- directory; a directory that moves takes its parent's link along.
abbrev pub after_rename : Request → (ℕ → ℕ) → Result (Unit {0}) → ℕ → ℕ
after_rename q nlink (err e) j = nlink j
after_rename q nlink (ok u) j = elim q.new_inode [
  | none ↦
      if not q.is_directory || (q.old_dir == q.new_dir)
      then nlink j
      else if q.old_dir == j
      then down (nlink j)
      else if q.new_dir == j
      then up (nlink j)
      else nlink j
  | some n ↦
      if n == j
      then (if q.is_directory then down (down (nlink j)) else down (nlink j))
      else if q.is_directory && (q.old_dir == j)
      then down (nlink j)
      else nlink j
]

-- The inode that is replaced is another one than the directory of the old name.
abbrev pub target_apart : Request → Bool
target_apart q = elim q.new_inode [ none ↦ true | some n ↦ not (n == q.old_dir) ]

abbrev After : Request → (ℕ → ℕ) → Outcome → Type 0
After q nlink (v', r) = (j : ℕ) → v'.nlink j ≡ after_rename q nlink r j

-- If the request is for a directory, its ".." has been found.
abbrev goes_with : Bool → Option Position → Bool
goes_with b none = not b
goes_with b (some p) = b

module _ (g : Geometry) (q : Request) (old_de : Position) where
  finish_rename-After :
      (w : Writes) (dir_de : Option Position) (nlink : ℕ → ℕ) (v : Names)
      → ((j : ℕ)
          → (if goes_with true dir_de && (q.old_dir == j) then down (v.nlink j) else v.nlink j)
            ≡ after_rename q nlink (ok tt) j)
      → After q nlink (finish_rename g w q old_de dir_de v)
  finish_rename-After w none nlink v h j = h j
  finish_rename-After w (some p) nlink v h j =
      if-elim {A = Names}
        (λ x.
          update x.nlink q.old_dir (down (x.nlink q.old_dir)) j ≡ after_rename q nlink (ok tt) j)
        (q.old_dir == q.new_dir) (λ _. ground (arith, h j)) (λ _. ground (arith, h j))

  beside_added-After :
      (w : Writes) (dir_de : Option Position) (v : Names) (a : Dirfile × Result (Unit {0}))
      → q.new_inode ≡ none
      → goes_with q.is_directory dir_de ≡ true
      → v.nlink q.new_dir < 2 ^ 32
      → After q v.nlink (beside_added g w q old_de dir_de v a)
  beside_added-After w dir_de v (d, err e) n k small = λ j. refl
  beside_added-After w none v (d, ok u) n k small =
      finish_rename-After w none v.nlink (with_dir q.new_dir d v) (λ j. rw n (ground (arith, k)))
  beside_added-After w (some p) v (d, ok u) n k small =
      let back = down-up (v.nlink q.new_dir) small in
      finish_rename-After w (some p) v.nlink (inc_link q.new_dir (with_dir q.new_dir d v))
        (λ j. rw n (ground (arith, k, back)))

  replace-After :
      (w : Writes) (dir_de : Option Position) (n : ℕ) (v : Names) (r : Result Position)
      → q.new_inode ≡ some n
      → n == q.old_dir ≡ false
      → goes_with q.is_directory dir_de ≡ true
      → After q v.nlink (replace g w q old_de dir_de n v r)
  replace-After w dir_de n v (err e) t ne k = λ j. refl
  replace-After w none n v (ok new_de) t ne k =
      finish_rename-After w none v.nlink
        (dec_link n (with_dir q.new_dir (set_link (v.dirs q.new_dir) new_de q.old_inode) v))
        (λ j. rw t (ground (arith, k, ne)))
  replace-After w (some p) n v (ok new_de) t ne k =
      finish_rename-After w (some p) v.nlink
        (dec_link n
          (dec_link n (with_dir q.new_dir (set_link (v.dirs q.new_dir) new_de q.old_inode) v)))
        (λ j. rw t (ground (arith, k, ne)))

  over-After :
      (w : Writes) (dir_de : Option Position) (n : ℕ) (v : Names)
      → q.new_inode ≡ some n
      → n == q.old_dir ≡ false
      → goes_with q.is_directory dir_de ≡ true
      → After q v.nlink (over g w q old_de dir_de n v)
  over-After w dir_de n v t ne k =
      if-elim (After q v.nlink) (blocked g dir_de (v.dirs n)) {x = (v, err enotempty)}
        {y = replace g w q old_de dir_de n v (find_entry g (v.dirs q.new_dir) q.new_name)}
        (λ _ j. refl)
        (λ _. replace-After w dir_de n v (find_entry g (v.dirs q.new_dir) q.new_name) t ne k)

  to_target-After :
      (w1 w2 : Writes) (dir_de : Option Position) (v : Names) (target : Option ℕ)
      → q.new_inode ≡ target
      → target_apart q ≡ true
      → goes_with q.is_directory dir_de ≡ true
      → v.nlink q.new_dir < 2 ^ 32
      → After q v.nlink (to_target g w1 w2 q old_de dir_de v target)
  to_target-After w1 w2 dir_de v none t apart k small =
      beside_added-After w2 dir_de v (add_link g w1 (v.dirs q.new_dir) q.new_name q.old_inode) t k
        small
  to_target-After w1 w2 dir_de v (some n) t apart k small =
      over-After w2 dir_de n v t (apart_from n t apart) k
    where
      apart_from : (n : ℕ) → q.new_inode ≡ some n → target_apart q ≡ true → n == q.old_dir ≡ false
      apart_from n t apart = ground (arith, t, apart)

  with_dotdot-After :
      (w1 w2 : Writes) (v : Names) (o : Option Position)
      → q.is_directory ≡ true
      → target_apart q ≡ true
      → v.nlink q.new_dir < 2 ^ 32
      → After q v.nlink (with_dotdot g w1 w2 q old_de v o)
  with_dotdot-After w1 w2 v none is_d apart small = λ j. refl
  with_dotdot-After w1 w2 v (some p) is_d apart small =
      to_target-After w1 w2 (some p) v q.new_inode refl apart is_d small

from_entry-After :
    (g : Geometry) (w1 w2 : Writes) (q : Request) (v : Names) (r : Result Position)
    → target_apart q ≡ true
    → v.nlink q.new_dir < 2 ^ 32
    → After q v.nlink (from_entry g w1 w2 q v r)
from_entry-After g w1 w2 q v (err e) apart small = λ j. refl
from_entry-After g w1 w2 q v (ok old_de) apart small =
    if-elim (After q v.nlink) q.is_directory
      {x = with_dotdot g w1 w2 q old_de v (dotdot g (v.dirs q.old_inode))}
      {y = to_target g w1 w2 q old_de none v q.new_inode}
      (λ is_d.
        with_dotdot-After g q old_de w1 w2 v (dotdot g (v.dirs q.old_inode)) is_d apart small)
      (λ not_d.
        to_target-After g q old_de w1 w2 none v q.new_inode refl apart (ground (arith, not_d))
          small)

rename-After :
    (g : Geometry) (w1 w2 : Writes) (q : Request) (v : Names)
    → target_apart q ≡ true
    → v.nlink q.new_dir < 2 ^ 32
    → After q v.nlink (rename g w1 w2 q v)
unfolding rename
rename-After g w1 w2 q v apart small =
    if-elim (After q v.nlink) (not (q.flags / 2 == 0)) {x = (v, err einval)}
      {y = from_entry g w1 w2 q v (find_entry g (v.dirs q.old_dir) q.old_name)} (λ _ j. refl)
      (λ _. from_entry-After g w1 w2 q v (find_entry g (v.dirs q.old_dir) q.old_name) apart small)

-- `ext2_rename` leaves every link count as it was when it fails. When it succeeds, the inode that had the
-- new name has one link less, or two less if a directory was moved onto it; a directory that moves to
-- another parent takes one link from the old parent, and gives one to the new parent unless it replaces a
-- directory there; one that replaces a directory in its own parent takes one link from that; all other
-- counts stay. What is replaced is not the directory of the old name.
pub rename-after_rename :
    (g : Geometry) (w1 w2 : Writes) (q : Request) (v : Names)
    → target_apart q ≡ true
    → v.nlink q.new_dir < 2 ^ 32
    → (j : ℕ) → (rename g w1 w2 q v).0.nlink j ≡ after_rename q v.nlink (rename g w1 w2 q v).1 j
rename-after_rename g w1 w2 q v apart small = rename-After g w1 w2 q v apart small
