-- ===== src/Ext2/Dirfile/Tests.antt =====
-- A directory of dir.c with the entries of an empty one and one file.
use operating_systems_ntua.Prelude.{◌≡◌, refl, true, List, [], ◌∷◌, none, arith, ok}
use operating_systems_ntua.Ext2.Dir.{Entry, check_entries}
use operating_systems_ntua.Ext2.Dirfile.{Geometry, Dirfile, get_page, inode_by_name}
use operating_systems_ntua.Ext2.Dirfile.Names.{IsSound, inode_by_name-lookup}
use operating_systems_ntua.Prelude.{ℕ}
use operating_systems_ntua.Ext2.Dir.{add_in_page}
use operating_systems_ntua.Ext2.Dirfile.{Writes, add_link, add_loop}
use operating_systems_ntua.Ext2.Dirfile.Pages.{IsKept}
use operating_systems_ntua.Ext2.Dirfile.Insertion.{inode_by_name-add_link}
use operating_systems_ntua.Ext2.Dirfile.Listing.{readdir, readdir-live_names}

abbrev geometry : Geometry
geometry = record { chunk = 1024; max_inumber = 8 }

abbrev entries : List Entry
entries =
    record { inode = 3; rec_len = 12; name = b'.' ∷ [] }
    ∷ record { inode = 2; rec_len = 12; name = b'.' ∷ b'.' ∷ [] }
    ∷ record { inode = 5; rec_len = 1000; name = b'a' ∷ [] }
    ∷ []

abbrev sample : Dirfile
sample = record {
  i_ino = 3;
  i_size = 1024;
  pages = record { entries = entries; read_error = none; is_checked = true } ∷ [];
}

reads : get_page geometry sample 0 ≡ ok entries
unfolding get_page
reads = refl

passes : check_entries 1024 8 1024 0 entries ≡ true
unfolding check_entries
passes = refl

sample-IsSound : IsSound geometry sample
sample-IsSound = (
  record {
    entries = entries;
    reads = reads;
    page = record { checked = passes; ends = refl; real = refl };
  },
  tt,
)

inode_by_name-lookup_example : inode_by_name geometry sample (b'a' ∷ []) ≡ ok 5
unfolding get_page
inode_by_name-lookup_example = inode_by_name-lookup geometry sample (b'a' ∷ []) sample-IsSound

readdir-live_names_example :
    let r = readdir geometry sample true (record { pos = 0; emitted = []; room = 9 }) in
    (r.0.emitted ≡ (b'.' ∷ [], 3) ∷ (b'.' ∷ b'.' ∷ [], 2) ∷ (b'a' ∷ [], 5) ∷ []) × (r.1 ≡ ok tt)
unfolding get_page
readdir-live_names_example =
    readdir-live_names geometry sample true 9 sample-IsSound (omega arith) (omega arith)

sample-IsKept : IsKept geometry sample
sample-IsKept = record {
  small = omega arith;
  as_long = refl;
  ready = refl;
  names = refl;
  sound = sample-IsSound;
  some_chunk = omega arith;
  words = refl;
  chunks_of_page = refl;
  chunks = refl;
}

abbrev fine : Writes
fine = record { begin_error = none; commit_error = none }

abbrev new_name : List ℕ
new_name = b'n' ∷ b'e' ∷ b'w' ∷ []

adds :
    add_link geometry fine sample new_name 6 ≡ ((add_link geometry fine sample new_name 6).0, ok tt)
unfolding add_link add_loop add_in_page get_page
adds = refl

inode_by_name-add_link_example :
    inode_by_name geometry (add_link geometry fine sample new_name 6).0 new_name ≡ ok 6
inode_by_name-add_link_example =
    inode_by_name-add_link geometry fine sample new_name 6 sample-IsKept (omega arith) (omega arith)
      (omega arith) (omega arith) adds
