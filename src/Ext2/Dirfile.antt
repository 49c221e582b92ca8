-- ===== src/Ext2/Dirfile.antt =====
-- dir.c: a directory as a file of pages. A page that was never written has no entries. The marks that a
-- page has passed or failed its check are part of the state; locks, times, versions and messages are left
-- out.
pub mod Listing
pub mod Names
pub mod Growth
pub mod Pages
pub mod Insertion
mod Tests
use operating_systems_ntua.Prelude.{
  ℕ, zero, suc, ◌+◌, ◌-◌, ◌*◌, ◌/◌, ◌%◌, Bool, true, false, not, ◌&&◌, ◌||◌, Option, none, some,
  List, [], ◌∷◌, ◌++◌, ltb, leb, ◌==◌, if◌then◌else◌, length, get_or, Errno, eio, einval, enoent,
  enomem, Result, ok, err,
}
use operating_systems_ntua.Ext2.Dir.{
  page_size, Entry, dir_rec_len, last_byte, check_page, matches, Look, found, absent, zero_length,
  find_in_page, Place, placed, refused, no_room, add_in_page, delete_in_page, make_empty,
  empty_page,
}

-- The size of a chunk, which is a block's, and the number of inodes.
pub record Geometry : Type 0 where
  pub chunk : ℕ
  pub max_inumber : ℕ

-- A page of a directory: its entries, why it cannot be read, and PageChecked.
pub record Page : Type 0 where
  pub entries : List Entry
  pub read_error : Option Errno
  pub is_checked : Bool

abbrev pub blank_page : Page
blank_page = record { entries = []; read_error = none; is_checked = false }

-- What the functions see of the inode of a directory.
pub record Dirfile : Type 0 where
  pub i_ino : ℕ
  pub i_size : ℕ
  pub pages : List Page

-- How the next write to the device ends: __block_write_begin, and the write of a synchronous commit.
pub record Writes : Type 0 where
  pub begin_error : Option Errno
  pub commit_error : Option Errno

-- `dir_pages`
abbrev pub dir_pages : Dirfile → ℕ
dir_pages d = (d.i_size + (page_size - 1)) / page_size

abbrev pub checked_page : Geometry → ℕ → ℕ → Page → Option Errno → Result (List Entry)
checked_page g i_size n p (some e) = err e
checked_page g i_size n p none =
    if p.is_checked || check_page g.chunk g.max_inumber i_size n p.entries
    then ok p.entries
    else err eio

-- `ext2_get_page`
unfoldable pub get_page : Geometry → Dirfile → ℕ → Result (List Entry)
get_page g d n = let p = get_or d.pages n blank_page in checked_page g d.i_size n p p.read_error

-- A page, an offset in it, and the entry there
abbrev pub Position : Type 0
Position = ℕ × ℕ × Entry

abbrev pub found_in_page : Result Position → ℕ → Look → Result Position
found_in_page next i (found offs e) = ok (i, offs, e)
found_in_page next i absent = next
found_in_page next i zero_length = err enoent

abbrev pub search_page : Result Position → List ℕ → ℕ → ℕ → Result (List Entry) → Result Position
search_page next name last i (err e) = err e
search_page next name last i (ok es) = found_in_page next i (find_in_page name last 0 es)

-- The loop of `ext2_find_entry` with `n` pages to go
unfoldable pub find_loop : Geometry → Dirfile → List ℕ → ℕ → ℕ → Result Position
find_loop g d name i zero = err enoent
find_loop g d name i (suc n) =
    search_page (find_loop g d name (i + 1) n) name (last_byte d.i_size i) i (get_page g d i)

-- `ext2_find_entry`
unfoldable pub find_entry : Geometry → Dirfile → List ℕ → Result Position
find_entry g d name = find_loop g d name 0 (dir_pages d)

abbrev pub number_at : Result Position → Result ℕ
number_at (ok (i, offs, e)) = ok e.inode
number_at (err e) = err e

-- `ext2_inode_by_name`
pub inode_by_name : Geometry → Dirfile → List ℕ → Result ℕ
inode_by_name g d name = number_at (find_entry g d name)

-- What stands behind the entries of a page
abbrev pub no_entry : Entry
no_entry = record { inode = 0; rec_len = 0; name = [] }

abbrev pub second_entry : Result (List Entry) → Option Position
second_entry (err e) = none
second_entry (ok []) = some (0, 0, no_entry)
second_entry (ok (e ∷ [])) = some (0, e.rec_len, no_entry)
second_entry (ok (e ∷ d ∷ es)) = some (0, e.rec_len, d)

-- `ext2_dotdot`
unfoldable pub dotdot : Geometry → Dirfile → Option Position
dotdot g d = second_entry (get_page g d 0)

-- A page written over, which has passed its check when it was got by `ext2_get_page`; the pages before it
-- that were never written are blank.
abbrev pub put_page : Bool → List Page → ℕ → List Entry → List Page
put_page passed [] zero es = record blank_page { entries = es; is_checked = passed } ∷ []
put_page passed [] (suc n) es = blank_page ∷ put_page passed [] n es
put_page passed (p ∷ ps) zero es =
    record p { entries = es; is_checked = p.is_checked || passed } ∷ ps
put_page passed (p ∷ ps) (suc n) es = p ∷ put_page passed ps n es

-- `ext2_commit_chunk` for entries of a page that end at `end`: the size grows with them.
unfoldable pub commit_chunk : Bool → Dirfile → ℕ → ℕ → List Entry → Dirfile
commit_chunk passed d n end es =
    let pos = n * page_size + end in
    record d {
      i_size = if ltb d.i_size pos then pos else d.i_size;
      pages = put_page passed d.pages n es;
    }

abbrev pub committed : Writes → Result (Unit {0})
committed w = elim w.commit_error [ none ↦ ok tt | some e ↦ err e ]

-- The entry at an offset gets another inode.
abbrev pub relink : ℕ → ℕ → ℕ → List Entry → List Entry
relink target ino offs [] = []
relink target ino offs (e ∷ es) =
    let rest = relink target ino (offs + e.rec_len) es in
    if offs == target then record e { inode = ino } ∷ es else e ∷ rest

-- `ext2_set_link`; the write is taken to begin, or the kernel stops, and its end is not looked at.
unfoldable pub set_link : Dirfile → Position → ℕ → Dirfile
set_link d (n, offs, e) ino =
    commit_chunk true d n (offs + e.rec_len)
      (relink offs ino 0 (get_or d.pages n blank_page).entries)

-- Where the entry ends that `ext2_add_link` takes; the tests are those of `add_in_page`.
unfoldable pub add_end : ℕ → List ℕ → ℕ → ℕ → List Entry → ℕ
add_end chunk name dir_end offs [] = offs + chunk
add_end chunk name dir_end offs (e ∷ es) =
    let rest = add_end chunk name dir_end (offs + e.rec_len) es in
    let reclen = dir_rec_len (length name) in
    if offs == dir_end
    then offs + chunk
    else if e.inode == 0 && leb reclen e.rec_len
    then offs + e.rec_len
    else if leb (dir_rec_len (length e.name) + reclen) e.rec_len
    then offs + e.rec_len
    else rest

-- The code from `got_it` on. When the write does not begin, what has been written behind the directory's
-- end has no meaning.
abbrev pub got_it :
    Writes → Dirfile → ℕ → ℕ → List Entry → Option Errno → Dirfile × Result (Unit {0})
got_it w d n end es (some e) = (d, err e)
got_it w d n end es none = (commit_chunk true d n end es, committed w)

abbrev pub place_in_page :
    Writes → Dirfile → ℕ → ℕ → Place → Dirfile × Result (Unit {0}) → Dirfile × Result (Unit {0})
place_in_page w d n end (placed es) next = got_it w d n end es w.begin_error
place_in_page w d n end (refused e) next = (d, err e)
place_in_page w d n end no_room next = next

abbrev pub add_to_page :
    Geometry
    → Writes
    → Dirfile
    → List ℕ
    → ℕ
    → ℕ
    → Result (List Entry)
    → Dirfile × Result (Unit {0})
    → Dirfile × Result (Unit {0})
add_to_page g w d name ino n (err e) next = (d, err e)
add_to_page g w d name ino n (ok es) next =
    let dir_end = last_byte d.i_size n in
    place_in_page w d n (add_end g.chunk name dir_end 0 es)
      (add_in_page g.chunk name ino dir_end 0 es) next

-- The loop of `ext2_add_link` with `k` pages to go; behind it the kernel stops, or the call fails.
unfoldable pub add_loop :
    Geometry → Writes → Dirfile → List ℕ → ℕ → ℕ → ℕ → Dirfile × Result (Unit {0})
add_loop g w d name ino n zero = (d, err einval)
add_loop g w d name ino n (suc k) =
    add_to_page g w d name ino n (get_page g d n) (add_loop g w d name ino (n + 1) k)

-- `ext2_add_link`
unfoldable pub add_link : Geometry → Writes → Dirfile → List ℕ → ℕ → Dirfile × Result (Unit {0})
add_link g w d name ino = add_loop g w d name ino 0 (dir_pages d + 1)

abbrev pub deleted : Writes → Dirfile → Position → Place → Dirfile × Result (Unit {0})
deleted w d (n, offs, e) (placed es) = (commit_chunk true d n (offs + e.rec_len) es, committed w)
deleted w d (n, offs, e) (refused r) = (d, err r)
deleted w d (n, offs, e) no_room = (d, err eio)

-- `ext2_delete_entry` of an entry that a search has found; the write is taken to begin.
unfoldable pub delete_entry : Geometry → Writes → Dirfile → Position → Dirfile × Result (Unit {0})
delete_entry g w d (n, offs, e) =
    deleted w d (n, offs, e) (delete_in_page g.chunk offs 0 (get_or d.pages n blank_page).entries)

abbrev pub made_empty : Geometry → Writes → Dirfile → ℕ → Option Errno → Dirfile × Result (Unit {0})
made_empty g w d parent (some e) = (d, err e)
made_empty g w d parent none =
    (commit_chunk false d 0 g.chunk (make_empty g.chunk d.i_ino parent), committed w)

-- `ext2_make_empty`; `page_ok` says that there is a page.
unfoldable pub make_dir : Geometry → Writes → Bool → Dirfile → ℕ → Dirfile × Result (Unit {0})
make_dir g w page_ok d parent =
    if page_ok then made_empty g w d parent w.begin_error else (d, err enomem)

-- A page of `ext2_empty_dir`; one that cannot be read is passed over.
abbrev pub empty_so_far : ℕ → ℕ → Result (List Entry) → Bool
empty_so_far self last (err e) = true
empty_so_far self last (ok es) = empty_page self last 0 es

unfoldable pub empty_loop : Geometry → Dirfile → ℕ → ℕ → Bool
empty_loop g d i zero = true
empty_loop g d i (suc n) =
    if empty_so_far d.i_ino (last_byte d.i_size i) (get_page g d i)
    then empty_loop g d (i + 1) n
    else false

-- `ext2_empty_dir`
unfoldable pub empty_dir : Geometry → Dirfile → Bool
empty_dir g d = empty_loop g d 0 (dir_pages d)
