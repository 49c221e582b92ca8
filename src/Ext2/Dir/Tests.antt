-- ===== src/Ext2/Dir/Tests.antt =====
-- The directory operations of dir.c on the first chunk of a directory.
use operating_systems_ntua.Prelude.{ℕ, ◌≡◌, ◌≢◌, refl, true, some, List, [], ◌∷◌, arith}
use operating_systems_ntua.Ext2.Dir.{
  Entry, check_entries, make_empty, placed, add_in_page, empty_page,
}
use operating_systems_ntua.Ext2.Dir.Lookup.{lookup, total, IsPage}
use operating_systems_ntua.Ext2.Dir.Insert.{add_in_page-lookup}
use operating_systems_ntua.Ext2.Dir.Valid.{add_in_page-IsPage}

abbrev dot : Entry
dot = record { inode = 11; rec_len = 12; name = b'.' ∷ [] }

abbrev new_dir : List Entry
new_dir = dot ∷ record { inode = 2; rec_len = 1012; name = b'.' ∷ b'.' ∷ [] } ∷ []

new_dir-made : make_empty 1024 11 2 ≡ new_dir
unfolding make_empty
new_dir-made = refl

new_dir-empty : empty_page 11 1024 0 new_dir ≡ true
unfolding empty_page
new_dir-empty = refl

new_dir-IsPage : IsPage 1024 100 1024 0 new_dir
unfolding check_entries
new_dir-IsPage = record { checked = refl; ends = refl; real = refl }

abbrev file : List ℕ
file = b'f' ∷ []

abbrev dot_dot : List ℕ
dot_dot = b'.' ∷ b'.' ∷ []

abbrev with_file : List Entry
with_file =
    dot
    ∷ record { inode = 2; rec_len = 12; name = b'.' ∷ b'.' ∷ [] }
    ∷ record { inode = 50; rec_len = 1000; name = file }
    ∷ []

adds : add_in_page 1024 file 50 1024 0 new_dir ≡ placed with_file
unfolding add_in_page
adds = refl

file-ne-dot_dot : dot_dot ≢ file
file-ne-dot_dot e = ground (arith, e)

add_in_page-lookup_example :
    (lookup file with_file ≡ some 50) × (lookup dot_dot with_file ≡ lookup dot_dot new_dir)
add_in_page-lookup_example =
    add_in_page-lookup 1024 100 1024 file dot_dot 50 0 new_dir (omega arith) file-ne-dot_dot
      new_dir-IsPage adds

add_in_page-IsPage_example : check_entries 1024 100 (total with_file) 0 with_file ≡ true
add_in_page-IsPage_example =
    add_in_page-IsPage 1024 100 1024 file 50 new_dir refl (omega arith) refl (omega arith)
      (omega arith) new_dir-IsPage refl adds

abbrev the_file : Entry
the_file = record { inode = 50; rec_len = 1000; name = file }
