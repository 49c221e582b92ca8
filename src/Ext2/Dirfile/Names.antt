-- ===== src/Ext2/Dirfile/Names.antt =====
-- The names of a whole directory in dir.c.
use operating_systems_ntua.Prelude.{
  ℕ, zero, suc, ◌+◌, ◌≡◌, refl, sym, ap, ◌∙◌, Bool, true, ◌&&◌, ◌||◌, Option, none, some, List, [],
  ◌∷◌, ◌++◌, arith, leb, ◌==◌, if-elim, length, Bool-cases, inl, inr, enoent, Result, ok, err,
}
use operating_systems_ntua.Ext2.Dir.{
  Entry, dir_rec_len, last_byte, matches, Look, found, absent, zero_length, find_in_page,
  empty_page, dot_entry,
}
use operating_systems_ntua.Ext2.Dir.Lookup.{
  lookup, inode_of, IsPage, IsPage-cons, find_in_page-lookup,
}
use operating_systems_ntua.Ext2.Dirfile.{
  Geometry, Dirfile, dir_pages, get_page, found_in_page, find_loop, find_entry, number_at,
  inode_by_name, empty_loop, empty_dir,
}

-- A page that can be read, and that is good up to its last byte.
pub record IsGood (g : Geometry) (d : Dirfile) (i : ℕ) : Type 0 where
  pub entries : List Entry
  pub reads : get_page g d i ≡ ok entries
  pub page : IsPage g.chunk g.max_inumber (last_byte d.i_size i) 0 entries

-- So are the `n` pages from `i` on.
abbrev pub GoodFrom : Geometry → Dirfile → ℕ → ℕ → Type 0
GoodFrom g d i zero = Unit {0}
GoodFrom g d i (suc n) = IsGood g d i × GoodFrom g d (i + 1) n

-- Every page of a directory
abbrev pub IsSound : Geometry → Dirfile → Type 0
IsSound g d = GoodFrom g d 0 (dir_pages d)

abbrev pub readable : Result (List Entry) → List Entry
readable (ok es) = es
readable (err e) = []

-- The entries of `n` pages in a row
abbrev pub entries_from : Geometry → Dirfile → ℕ → ℕ → List Entry
entries_from g d i zero = []
entries_from g d i (suc n) = readable (get_page g d i) ++ entries_from g d (i + 1) n

abbrev pub all_entries : Geometry → Dirfile → List Entry
all_entries g d = entries_from g d 0 (dir_pages d)

abbrev pub or_else : Option ℕ → Option ℕ → Option ℕ
or_else (some x) o = some x
or_else none o = o

pub lookup-append :
    (name : List ℕ) (xs ys : List Entry)
    → lookup name (xs ++ ys) ≡ or_else (lookup name xs) (lookup name ys)
lookup-append name [] ys = refl
lookup-append name (x ∷ xs) ys = elim (Bool-cases (matches name x)) [
  | inl here ↦ rw here refl
  | inr there ↦ rw there (lookup-append name xs ys)
]

-- The search of a good page does not run into an entry without length.
abbrev pub Ends : Look → Type 0
Ends (found offs e) = Unit {0}
Ends absent = Unit {0}
Ends zero_length = ⊥

pub find_in_page-Ends :
    (chunk max_inumber limit : ℕ) (name : List ℕ) (offs : ℕ) (es : List Entry)
    → IsPage chunk max_inumber limit offs es
    → Ends (find_in_page name limit offs es)
unfolding find_in_page
find_in_page-Ends chunk max_inumber limit name offs [] p =
    if-elim Ends (leb (offs + dir_rec_len (length name)) limit) (λ far. ground (arith, far, p.ends))
      (λ _. tt)
find_in_page-Ends chunk max_inumber limit name offs (e ∷ es) p =
    let (good, low, rest) = IsPage-cons chunk max_inumber limit offs e es p in
    if-elim Ends (leb (offs + dir_rec_len (length name)) limit)
      (λ _.
        if-elim Ends (e.rec_len == 0) (λ z. ground (arith, z, p.real))
          (λ _.
            if-elim Ends (matches name e) (λ _. tt)
              (λ _. find_in_page-Ends chunk max_inumber limit name (offs + e.rec_len) es rest)))
      (λ _. tt)

-- What a name is in a directory
abbrev pub to_result : Option ℕ → Result ℕ
to_result (some x) = ok x
to_result none = err enoent

found_in_page-number :
    (next : Result _) (i : ℕ) (l : Look) (o : Option ℕ)
    → Ends l
    → number_at next ≡ to_result o
    → number_at (found_in_page next i l) ≡ to_result (or_else (inode_of l) o)
found_in_page-number next i (found offs e) o t h = refl
found_in_page-number next i absent o t h = h
found_in_page-number next i zero_length o t h = absurd t

find_loop-lookup :
    (g : Geometry) (d : Dirfile) (name : List ℕ) (i n : ℕ)
    → GoodFrom g d i n
    → number_at (find_loop g d name i n) ≡ to_result (lookup name (entries_from g d i n))
unfolding find_loop
find_loop-lookup g d name i zero s = refl
find_loop-lookup g d name i (suc n) (p, s) =
    let last = last_byte d.i_size i in
    let next = find_loop g d name (i + 1) n in
    let later = find_loop-lookup g d name (i + 1) n s in
    let l = find_in_page name last 0 p.entries in
    let here : inode_of l ≡ lookup name p.entries =
      find_in_page-lookup g.chunk g.max_inumber last name 0 p.entries p.page in
    let split : lookup name (p.entries ++ entries_from g d (i + 1) n)
        ≡ or_else (inode_of l) (lookup name (entries_from g d (i + 1) n)) =
      lookup-append name p.entries (entries_from g d (i + 1) n)
      ∙ ap (λ o. or_else o (lookup name (entries_from g d (i + 1) n))) (sym here) in
    rw p.reads (
      found_in_page-number next i l (lookup name (entries_from g d (i + 1) n))
        (find_in_page-Ends g.chunk g.max_inumber last name 0 p.entries p.page) later
      ∙ ap to_result (sym split))

-- In a directory whose pages can be read and are good up to their last bytes, `ext2_inode_by_name` gives
-- the number of the first live entry of the whole directory that has the name, and ENOENT when there is
-- none.
pub inode_by_name-lookup :
    (g : Geometry) (d : Dirfile) (name : List ℕ)
    → IsSound g d
    → inode_by_name g d name ≡ to_result (lookup name (all_entries g d))
unfolding inode_by_name find_entry
inode_by_name-lookup g d name s = find_loop-lookup g d name 0 (dir_pages d) s

-- Live entries that are not those of an empty directory
abbrev pub only_dots : ℕ → List Entry → Bool
only_dots self [] = true
only_dots self (e ∷ es) = (e.inode == 0 || dot_entry self e) && only_dots self es

only_dots-append :
    (self : ℕ) (xs ys : List Entry)
    → only_dots self (xs ++ ys) ≡ (only_dots self xs && only_dots self ys)
only_dots-append self [] ys = refl
only_dots-append self (x ∷ xs) ys = ground (arith, only_dots-append self xs ys)

empty_page-only_dots :
    (chunk max_inumber limit self offs : ℕ) (es : List Entry)
    → IsPage chunk max_inumber limit offs es
    → empty_page self limit offs es ≡ only_dots self es
unfolding empty_page
empty_page-only_dots chunk max_inumber limit self offs [] p = ground (arith, p.ends)
empty_page-only_dots chunk max_inumber limit self offs (e ∷ es) p =
    let (good, low, rest) = IsPage-cons chunk max_inumber limit offs e es p in
    let later = empty_page-only_dots chunk max_inumber limit self (offs + e.rec_len) es rest in
    ground (arith, low, p.real, later)

empty_loop-only_dots :
    (g : Geometry) (d : Dirfile) (i n : ℕ)
    → GoodFrom g d i n
    → empty_loop g d i n ≡ only_dots d.i_ino (entries_from g d i n)
unfolding empty_loop
empty_loop-only_dots g d i zero s = refl
empty_loop-only_dots g d i (suc n) (p, s) =
    let later = empty_loop-only_dots g d (i + 1) n s in
    let here =
      empty_page-only_dots g.chunk g.max_inumber (last_byte d.i_size i) d.i_ino 0 p.entries
        p.page in
    rw (p.reads, here, later)
      (ground (arith, only_dots-append d.i_ino p.entries (entries_from g d (i + 1) n)))

-- In such a directory `ext2_empty_dir` says whether every live entry is a "." that names the directory
-- itself, or a "..".
pub empty_dir-only_dots :
    (g : Geometry) (d : Dirfile) → IsSound g d → empty_dir g d ≡ only_dots d.i_ino (all_entries g d)
unfolding empty_dir
empty_dir-only_dots g d s = empty_loop-only_dots g d 0 (dir_pages d) s
