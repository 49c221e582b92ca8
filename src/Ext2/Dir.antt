-- ===== src/Ext2/Dir.antt =====
-- dir.c: the entries of a directory. A page is the list of its entries in the order in which their
-- lengths chain them; an entry's offset is the sum of the lengths before it, and the bytes behind the
-- last one are zero. `name` has `name_len` bytes, which are fewer than 256. Locks, times, versions and
-- writes to the device are left out.
pub mod Lookup
pub mod Insert
pub mod Valid
pub mod Delete
mod Tests
use operating_systems_ntua.Prelude.{
  ℕ, zero, suc, ◌+◌, ◌-◌, ◌*◌, ◌/◌, ◌%◌, ◌^◌, ◌≡◌, Bool, true, false, not, ◌&&◌, ◌||◌, Option, none,
  some, List, [], ◌∷◌, ltb, leb, ◌==◌, if◌then◌else◌, length, get_or, same_bytes, Errno, eio,
  eexist, enoent, Result, ok, err,
}

-- PAGE_SIZE
abbrev pub page_size : ℕ
page_size = 4096

-- `ext2_dirent`, less `file_type`, which is always 0
pub record Entry : Type 0 where
  pub inode : ℕ
  pub rec_len : ℕ
  pub name : List ℕ

-- `EXT2_DIR_REC_LEN`
abbrev pub dir_rec_len : ℕ → ℕ
dir_rec_len n = (n + 8 + 3) / 4 * 4

-- `ext2_last_byte`, on unsigned numbers of 32 bits
abbrev pub last_byte : ℕ → ℕ → ℕ
last_byte i_size page_nr =
    let l = (i_size + 2 ^ 32 - page_nr * page_size % 2 ^ 32) % 2 ^ 32 in
    if ltb page_size l then page_size else l

-- The tests on one entry at an offset; the blocks are a power of two long, so that the last test of the
-- code is the one that compares the numbers of the blocks.
abbrev pub good_entry : ℕ → ℕ → ℕ → Entry → Bool
good_entry chunk max_inumber offs e =
    if ltb e.rec_len (dir_rec_len 1)
    then false
    else if not (e.rec_len % 4 == 0)
    then false
    else if ltb e.rec_len (dir_rec_len (length e.name))
    then false
    else if not ((offs + e.rec_len - 1) / chunk == offs / chunk)
    then false
    else not (ltb max_inumber e.inode)

-- The loop of `ext2_check_page`; past the entries it would find a length of 0.
unfoldable pub check_entries : ℕ → ℕ → ℕ → ℕ → List Entry → Bool
check_entries chunk max_inumber limit offs [] =
    if leb (offs + dir_rec_len 1) limit then false else offs == limit
check_entries chunk max_inumber limit offs (e ∷ es) =
    let rest = check_entries chunk max_inumber limit (offs + e.rec_len) es in
    if leb (offs + dir_rec_len 1) limit
    then (if good_entry chunk max_inumber offs e then rest else false)
    else offs == limit

-- `ext2_check_page` for the page with an index
unfoldable pub check_page : ℕ → ℕ → ℕ → ℕ → List Entry → Bool
check_page chunk max_inumber i_size index es =
    if i_size / page_size == index
    then (if not (i_size % page_size % chunk == 0)
        then false
        else if i_size % page_size == 0
        then true
        else check_entries chunk max_inumber (i_size % page_size) 0 es)
    else check_entries chunk max_inumber page_size 0 es

-- `ext2_match`
abbrev pub matches : List ℕ → Entry → Bool
matches name e =
    if not (length name == length e.name)
    then false
    else if e.inode == 0
    then false
    else same_bytes name e.name

-- What the search of a page comes to: an entry and its offset, the end, or a length of 0.
pub data Look : Type 0 where
  found : ℕ → Entry → Look
  absent : Look
  zero_length : Look

-- The loop of `ext2_find_entry` in a page, up to its last byte.
unfoldable pub find_in_page : List ℕ → ℕ → ℕ → List Entry → Look
find_in_page name last offs [] =
    if leb (offs + dir_rec_len (length name)) last then zero_length else absent
find_in_page name last offs (e ∷ es) =
    let rest = find_in_page name last (offs + e.rec_len) es in
    if leb (offs + dir_rec_len (length name)) last
    then (if e.rec_len == 0 then zero_length else if matches name e then found offs e else rest)
    else absent

-- What an insertion into a page comes to: the page with the entry, an error, or no room.
pub data Place : Type 0 where
  placed : List Entry → Place
  refused : Errno → Place
  no_room : Place

-- An entry put before what an insertion made of the rest.
abbrev pub before : Entry → Place → Place
before e (placed es) = placed (e ∷ es)
before e (refused r) = refused r
before e no_room = no_room

-- The code from `got_it` on, at an entry: an entry in use is split.
abbrev pub put_entry : List ℕ → ℕ → Entry → List Entry → Place
put_entry name ino e es =
    if e.inode == 0
    then placed (record { inode = ino; rec_len = e.rec_len; name = name } ∷ es)
    else placed (
        record e { rec_len = dir_rec_len (length e.name) }
        ∷ record { inode = ino; rec_len = e.rec_len - dir_rec_len (length e.name); name = name }
        ∷ es)

-- The loop of `ext2_add_link` in a page that ends at `dir_end`; a new chunk is made there.
unfoldable pub add_in_page : ℕ → List ℕ → ℕ → ℕ → ℕ → List Entry → Place
add_in_page chunk name ino dir_end offs [] =
    if leb (offs + dir_rec_len (length name)) page_size
    then (if offs == dir_end
        then placed (record { inode = ino; rec_len = chunk; name = name } ∷ [])
        else refused eio)
    else no_room
add_in_page chunk name ino dir_end offs (e ∷ es) =
    let rest = add_in_page chunk name ino dir_end (offs + e.rec_len) es in
    let reclen = dir_rec_len (length name) in
    if leb (offs + reclen) page_size
    then (if offs == dir_end
        then placed (record { inode = ino; rec_len = chunk; name = name } ∷ [])
        else if e.rec_len == 0
        then refused eio
        else if matches name e
        then refused eexist
        else if e.inode == 0 && leb reclen e.rec_len
        then put_entry name ino e es
        else if leb (dir_rec_len (length e.name) + reclen) e.rec_len
        then put_entry name ino e es
        else before e rest)
    else no_room

-- The part of `ext2_delete_entry` that changes the page, for the entry at the offset `target`. An entry
-- that is not the first of its chunk is joined to the one before it. The code walks from the start of
-- the chunk, and the entries before the chunk are only passed here to get there.
unfoldable pub delete_in_page : ℕ → ℕ → ℕ → List Entry → Place
delete_in_page chunk target offs [] = refused eio
delete_in_page chunk target offs (e ∷ []) =
    if offs == target then placed (record e { inode = 0 } ∷ []) else refused eio
delete_in_page chunk target offs (e ∷ d ∷ es) =
    let rest = delete_in_page chunk target (offs + e.rec_len) (d ∷ es) in
    if offs == target
    then placed (record e { inode = 0 } ∷ d ∷ es)
    else if e.rec_len == 0
    then refused eio
    else if offs + e.rec_len == target && not (target % chunk == 0)
    then placed (record e { rec_len = e.rec_len + d.rec_len } ∷ es)
    else before e rest

-- `ext2_make_empty`: the entries of a new directory's first chunk
unfoldable pub make_empty : ℕ → ℕ → ℕ → List Entry
make_empty chunk ino parent =
    record { inode = ino; rec_len = dir_rec_len 1; name = b'.' ∷ [] }
    ∷ record { inode = parent; rec_len = chunk - dir_rec_len 1; name = b'.' ∷ b'.' ∷ [] }
    ∷ []

-- The test of `ext2_empty_dir` on one entry in use; past its end a name reads as zero.
abbrev pub dot_entry : ℕ → Entry → Bool
dot_entry self e =
    if not (get_or e.name 0 0 == b'.')
    then false
    else if ltb 2 (length e.name)
    then false
    else if ltb (length e.name) 2
    then e.inode == self
    else get_or e.name 1 0 == b'.'

-- The loop of `ext2_empty_dir` in a page, up to its last byte
unfoldable pub empty_page : ℕ → ℕ → ℕ → List Entry → Bool
empty_page self last offs [] = not (leb (offs + dir_rec_len 1) last)
empty_page self last offs (e ∷ es) =
    let rest = empty_page self last (offs + e.rec_len) es in
    if leb (offs + dir_rec_len 1) last
    then (if e.rec_len == 0
        then false
        else if e.inode == 0
        then rest
        else if dot_entry self e
        then rest
        else false)
    else true
