-- ===== src/Ext2/Namei.antt =====
-- namei.c: the operations on names, as what they do to directories and link counts. Times, the operation
-- tables of an inode and the counts of references are left out. What a function returns that stands in
-- another file is a parameter: `made` is what ext2_new_inode returns, an inode's number.
pub mod Counts
pub mod Moves
pub mod Find
mod Tests
use operating_systems_ntua.Prelude.{
  ℕ, zero, suc, ◌+◌, ◌-◌, ◌*◌, ◌/◌, ◌%◌, ◌^◌, Bool, true, false, not, ◌&&◌, ◌||◌, Option, none,
  some, List, [], ◌∷◌, ltb, leb, ◌==◌, if◌then◌else◌, length, Errno, eio, einval, enoent,
  enametoolong, enotempty, Result, ok, err,
}
use operating_systems_ntua.Ext2.Mount.{update}
use operating_systems_ntua.Ext2.Dirfile.{
  Geometry, Dirfile, Writes, Position, find_entry, inode_by_name, dotdot, set_link, add_link,
  delete_entry, make_dir, empty_dir,
}

-- The directories by inode number, the link counts, which are `unsigned int`, the new inodes that have
-- been discarded, and the names that have got an inode.
pub record Names : Type 0 where
  pub dirs : ℕ → Dirfile
  pub nlink : ℕ → ℕ
  pub discarded : List ℕ
  pub instantiated : List (List ℕ × ℕ)

-- inode_inc_link_count and inode_dec_link_count
abbrev pub up : ℕ → ℕ
up n = (n + 1) % 2 ^ 32

abbrev pub down : ℕ → ℕ
down n = (n + 2 ^ 32 - 1) % 2 ^ 32

abbrev pub inc_link : ℕ → Names → Names
inc_link i v = record v { nlink = update v.nlink i (up (v.nlink i)) }

abbrev pub dec_link : ℕ → Names → Names
dec_link i v = record v { nlink = update v.nlink i (down (v.nlink i)) }

abbrev pub with_dir : ℕ → Dirfile → Names → Names
with_dir i d v = record v { dirs = update v.dirs i d }

abbrev pub discard : ℕ → Names → Names
discard i v = record v { discarded = i ∷ v.discarded }

abbrev pub instantiate : List ℕ → ℕ → Names → Names
instantiate name i v = record v { instantiated = (name, i) ∷ v.instantiated }

-- A new inode has one link, and no contents.
abbrev pub fresh : ℕ → Names → Names
fresh i v = record v {
  dirs = update v.dirs i (record { i_ino = i; i_size = 0; pages = [] });
  nlink = update v.nlink i 1;
}

abbrev pub Outcome : Type 0
Outcome = Names × Result (Unit {0})

abbrev pub is_enoent : Errno → Bool
is_enoent enoent = true
is_enoent _ = false

-- What a lookup comes to, with what ext2_iget returns; that never is -ESTALE, which would become -EIO.
abbrev pub looked_up : (ℕ → Result ℕ) → Result ℕ → Result (Option ℕ)
looked_up iget (err e) = if is_enoent e then ok none else err e
looked_up iget (ok i) = elim (iget i) [ ok j ↦ ok (some j) | err e ↦ err e ]

-- The end of `ext2_unlink`
abbrev pub unlinked : ℕ → ℕ → Names → Dirfile × Result (Unit {0}) → Outcome
unlinked dir i v (d, err e) = (with_dir dir d v, err e)
unlinked dir i v (d, ok u) = (dec_link i (with_dir dir d v), ok tt)

-- sizeof (EXT2_I(inode)->i_data)
abbrev pub i_data_size : ℕ
i_data_size = 60

-- `out_fail` of `ext2_mkdir`
abbrev pub mkdir_undo : ℕ → ℕ → Names → Names
mkdir_undo dir i v = dec_link dir (discard i (dec_link i (dec_link i v)))

-- `inode->i_size = 0` and the two decrements
abbrev pub removed : ℕ → ℕ → Outcome → Outcome
removed dir i (v, err e) = (v, err e)
removed dir i (v, ok u) =
    (dec_link dir (dec_link i (with_dir i (record (v.dirs i) { i_size = 0 }) v)), ok tt)

module _ (g : Geometry) where
  -- A name is added to a directory; then the rest is done, or what a failure asks for.
  abbrev pub with_link :
      Writes → ℕ → List ℕ → ℕ → Names → (Names → Names) → (Names → Names) → Outcome
  with_link w dir name i v done failed =
      let (d, r) = add_link g w (v.dirs dir) name i in
      let v' = with_dir dir d v in elim r [ ok u ↦ (done v', ok tt) | err e ↦ (failed v', err e) ]

  -- `ext2_add_nondir`
  pub add_nondir : Writes → ℕ → List ℕ → ℕ → Names → Outcome
  add_nondir w dir name i v =
      with_link w dir name i v (instantiate name i) (λ v'. discard i (dec_link i v'))

  abbrev pub create_as : Writes → ℕ → List ℕ → Names → Result ℕ → Outcome
  create_as w dir name v (err e) = (v, err e)
  create_as w dir name v (ok i) = add_nondir w dir name i (fresh i v)

  -- `ext2_create`
  pub create : Writes → ℕ → List ℕ → Result ℕ → Names → Outcome
  create w dir name made v = create_as w dir name v made

  -- `ext2_mknod`
  pub mknod : Writes → ℕ → List ℕ → Result ℕ → Names → Outcome
  mknod w dir name made v = create_as w dir name v made

  -- `ext2_lookup`
  pub lookup : (ℕ → Result ℕ) → ℕ → List ℕ → Names → Result (Option ℕ)
  lookup iget dir name v =
      if ltb 255 (length name)
      then err enametoolong
      else looked_up iget (inode_by_name g (v.dirs dir) name)

  -- `ext2_link`
  pub link : Writes → ℕ → ℕ → List ℕ → Names → Outcome
  link w i dir name v = with_link w dir name i (inc_link i v) (instantiate name i) (dec_link i)

  abbrev pub unlink_at : Writes → ℕ → ℕ → Names → Result Position → Outcome
  unlink_at w dir i v (err e) = (v, err e)
  unlink_at w dir i v (ok p) = unlinked dir i v (delete_entry g w (v.dirs dir) p)

  -- `ext2_unlink` of the name of an inode
  pub unlink : Writes → ℕ → List ℕ → ℕ → Names → Outcome
  unlink w dir name i v = unlink_at w dir i v (find_entry g (v.dirs dir) name)

  abbrev pub symlink_as : Writes → ℕ → List ℕ → ℕ → Option Errno → Names → Result ℕ → Outcome
  symlink_as w dir name l page_symlink v (err e) = (v, err e)
  symlink_as w dir name l none v (ok i) = add_nondir w dir name i (fresh i v)
  symlink_as w dir name l (some e) v (ok i) =
      if ltb i_data_size l
      then (discard i (dec_link i (fresh i v)), err e)
      else add_nondir w dir name i (fresh i v)

  -- `ext2_symlink` to a path; `page_symlink` is what page_symlink returns for a long one.
  pub symlink : Writes → ℕ → List ℕ → List ℕ → Option Errno → Result ℕ → Names → Outcome
  symlink w dir name symname page_symlink made v =
      let l = length symname + 1 in
      if ltb g.chunk l then (v, err enametoolong) else symlink_as w dir name l page_symlink v made

  abbrev pub mkdir_filled : Writes → ℕ → List ℕ → ℕ → Names → Dirfile × Result (Unit {0}) → Outcome
  mkdir_filled w dir name i v (d, err e) = (mkdir_undo dir i (with_dir i d v), err e)
  mkdir_filled w dir name i v (d, ok u) =
      with_link w dir name i (with_dir i d v) (instantiate name i) (mkdir_undo dir i)

  abbrev pub mkdir_as : Writes → Writes → Bool → ℕ → List ℕ → Names → Result ℕ → Outcome
  mkdir_as w1 w2 page_ok dir name v (err e) = (dec_link dir v, err e)
  mkdir_as w1 w2 page_ok dir name v (ok i) =
      let v' = inc_link i (fresh i v) in
      mkdir_filled w2 dir name i v' (make_dir g w1 page_ok (v'.dirs i) dir)

  -- `ext2_mkdir`
  pub mkdir : Writes → Writes → Bool → ℕ → List ℕ → Result ℕ → Names → Outcome
  mkdir w1 w2 page_ok dir name made v = mkdir_as w1 w2 page_ok dir name (inc_link dir v) made

  -- `ext2_rmdir`
  pub rmdir : Writes → ℕ → List ℕ → ℕ → Names → Outcome
  rmdir w dir name i v =
      if not (empty_dir g (v.dirs i))
      then (v, err enotempty)
      else removed dir i (unlink w dir name i v)
