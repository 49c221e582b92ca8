-- ===== src/Ext2/Namei/Tests.antt =====
-- The operations of namei.c on a root directory.
use operating_systems_ntua.Prelude.{ℕ, ◌≡◌, refl, true, List, [], ◌∷◌, none, arith, ok}
use operating_systems_ntua.Ext2.Dir.{
  Entry, check_entries, check_page, find_in_page, empty_page, add_in_page, delete_in_page,
  make_empty,
}
use operating_systems_ntua.Ext2.Dirfile.{
  Geometry, Dirfile, Writes, get_page, find_loop, find_entry, add_loop, add_link, add_end,
  delete_entry, make_dir, empty_loop, empty_dir, commit_chunk, dotdot, set_link,
}
use operating_systems_ntua.Ext2.Namei.{add_nondir, Names, mkdir, rmdir, unlink, symlink}
use operating_systems_ntua.Ext2.Namei.Counts.{mkdir-after_mkdir, rmdir-mkdir, symlink-after_new}
use operating_systems_ntua.Prelude.{some}
use operating_systems_ntua.Ext2.Dirfile.Pages.{IsKept}
use operating_systems_ntua.Ext2.Namei.{create, lookup}
use operating_systems_ntua.Ext2.Namei.Find.{lookup-create}
use operating_systems_ntua.Ext2.Namei.Moves.{Request, rename, rename-after_rename}

abbrev geometry : Geometry
geometry = record { chunk = 1024; max_inumber = 8 }

abbrev fine : Writes
fine = record { begin_error = none; commit_error = none }

abbrev root_entries : List Entry
root_entries =
    record { inode = 2; rec_len = 12; name = b'.' ∷ [] }
    ∷ record { inode = 2; rec_len = 1012; name = b'.' ∷ b'.' ∷ [] }
    ∷ []

abbrev root_dir : Dirfile
root_dir = record {
  i_ino = 2;
  i_size = 1024;
  pages = record { entries = root_entries; read_error = none; is_checked = true } ∷ [];
}

abbrev start : Names
start = record { dirs = λ i. root_dir; nlink = λ i. 2; discarded = []; instantiated = [] }

abbrev new_name : List ℕ
new_name = b'd' ∷ []

makes : (mkdir geometry fine fine true 2 new_name (ok 5) start).1 ≡ ok tt
unfolding mkdir make_dir make_empty commit_chunk add_link add_loop add_in_page get_page check_page
    check_entries
makes = refl

removes :
    (rmdir geometry fine 2 new_name 5 (mkdir geometry fine fine true 2 new_name (ok 5) start).0).1
    ≡ ok tt
unfolding mkdir make_dir make_empty commit_chunk add_link add_loop add_in_page get_page check_page
    check_entries rmdir unlink empty_dir empty_loop empty_page find_entry find_loop find_in_page
    delete_entry delete_in_page add_end
removes = refl

rmdir-mkdir_example :
    (rmdir geometry fine 2 new_name 5
        (mkdir geometry fine fine true 2 new_name (ok 5) start).0).0.nlink
      2
    ≡ 2
rmdir-mkdir_example =
    rmdir-mkdir geometry fine fine fine true 2 new_name new_name 5 start refl (omega arith) makes
      removes 2

mkdir-after_mkdir_example : (mkdir geometry fine fine true 2 new_name (ok 5) start).0.nlink 2 ≡ 3
unfolding mkdir make_dir make_empty commit_chunk add_link add_loop add_in_page get_page check_page
    check_entries
mkdir-after_mkdir_example =
    mkdir-after_mkdir geometry fine fine true 2 new_name 5 start refl (omega arith) 2

symlink-after_new_example :
    let r = symlink geometry fine 2 new_name (b'a' ∷ []) none (ok 5) start in
    (r.0.nlink 5 ≡ 1) × (r.0.nlink 2 ≡ 2)
unfolding symlink add_nondir add_link add_loop add_in_page get_page check_page check_entries
symlink-after_new_example = (
  symlink-after_new geometry fine 2 new_name (b'a' ∷ []) none 5 start (omega arith) 5,
  symlink-after_new geometry fine 2 new_name (b'a' ∷ []) none 5 start (omega arith) 2,
)

abbrev request : Request
request = record {
  old_dir = 2;
  old_name = new_name;
  old_inode = 5;
  is_directory = true;
  new_dir = 7;
  new_name = b'e' ∷ [];
  new_inode = none;
  flags = 0;
}

abbrev with_directory : Names
with_directory = (mkdir geometry fine fine true 2 new_name (ok 5) start).0

rename-after_rename_example :
    ((rename geometry fine fine request with_directory).0.nlink 2 ≡ 2)
    × ((rename geometry fine fine request with_directory).0.nlink 7 ≡ 3)
unfolding rename mkdir make_dir make_empty commit_chunk add_link add_loop add_in_page get_page
    check_page check_entries find_entry find_loop find_in_page delete_entry delete_in_page add_end
    dotdot set_link
rename-after_rename_example = (
  rename-after_rename geometry fine fine request with_directory refl (omega arith) 2,
  rename-after_rename geometry fine fine request with_directory refl (omega arith) 7,
)

root_dir-reads : get_page geometry root_dir 0 ≡ ok root_entries
unfolding get_page
root_dir-reads = refl

root_dir-checked : check_entries 1024 8 1024 0 root_entries ≡ true
unfolding check_entries
root_dir-checked = refl

root_dir-IsKept : IsKept geometry root_dir
root_dir-IsKept = record {
  small = omega arith;
  as_long = refl;
  ready = refl;
  names = refl;
  sound = (
    record {
      entries = root_entries;
      reads = root_dir-reads;
      page = record { checked = root_dir-checked; ends = refl; real = refl };
    },
    tt,
  );
  some_chunk = omega arith;
  words = refl;
  chunks_of_page = refl;
  chunks = refl;
}

creates : (create geometry fine 2 new_name (ok 5) start).1 ≡ ok tt
unfolding create add_nondir add_link add_loop add_in_page get_page
creates = refl

lookup-create_example :
    lookup geometry (λ i. ok i) 2 new_name (create geometry fine 2 new_name (ok 5) start).0
    ≡ ok (some 5)
lookup-create_example =
    lookup-create geometry fine (λ i. ok i) 2 new_name 5 start refl root_dir-IsKept (omega arith)
      (omega arith) (omega arith) (omega arith) (omega arith) refl creates
