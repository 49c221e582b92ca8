-- ===== src/Ext2/Dirfile/Insertion.antt =====
-- Names that `ext2_add_link` of dir.c has put into a directory.
use operating_systems_ntua.Prelude.{
  ℕ, zero, suc, ◌+◌, ◌-◌, ◌*◌, ◌%◌, ◌^◌, ◌≤◌, ◌<◌, ◌≡◌, ◌≢◌, refl, sym, ap, ◌∙◌, true, Option, none,
  some, List, [], ◌∷◌, arith, ltb, ◌==◌, length, get_or, subst, Bool-cases, inl, inr, Errno, Result,
  ok, err,
}
use operating_systems_ntua.Ext2.Dir.{
  page_size, Entry, dir_rec_len, last_byte, Look, found, absent, zero_length, find_in_page, Place,
  placed, refused, no_room, add_in_page,
}
use operating_systems_ntua.Ext2.Dir.Lookup.{
  lookup, inode_of, total, chained, IsPage, find_in_page-lookup,
}
use operating_systems_ntua.Ext2.Dir.Valid.{Kept, add_in_page-Kept}
use operating_systems_ntua.Ext2.Dir.Insert.{add_in_page-lookup}
use operating_systems_ntua.Ext2.Dirfile.{
  Geometry, blank_page, Dirfile, Writes, checked_page, dir_pages, get_page, find_entry,
  inode_by_name, put_page, commit_chunk, add_end, got_it, place_in_page, add_to_page, add_loop,
  add_link,
}
use operating_systems_ntua.Ext2.Dirfile.Names.{Ends, find_in_page-Ends}
use operating_systems_ntua.Ext2.Dirfile.Growth.{reaches, Reaches, add_in_page-Reaches}
use operating_systems_ntua.Ext2.Dirfile.Pages.{
  IsKept, Way, aligned, checked_page-ready, find_loop-Way, further, get_page-Got, here,
  last_byte-end, last_byte-full, last_byte-mod, ok_inj, put_here, put_other, ready_at,
}

total_pos :
    (name : List ℕ) (ino : ℕ) (es : List Entry)
    → lookup name es ≡ some ino
    → chained es ≡ true
    → 0 < total es
total_pos name ino [] h c = ground (arith, h)
total_pos name ino (e ∷ es) h c = ground (arith, c)

absent_from : (l : Look) → Ends l → inode_of l ≡ none → l ≡ absent
absent_from (found offs e) t h = ground (arith, h)
absent_from absent t h = refl
absent_from zero_length t h = absurd t

on_page : (i_size n : ℕ) → last_byte i_size n ≤ page_size
on_page i_size n = ground arith

module _ (g : Geometry) (w : Writes) (d : Dirfile) (name : List ℕ) (ino : ℕ) (k : IsKept g d)
    (fits : dir_rec_len (length name) ≤ g.chunk) (known : ino ≤ g.max_inumber)
    (some_name : 0 < length name) (in_use : 0 < ino) where
  -- A directory with the name in its page `at`, and a way to it from a page on.
  record Added (n : ℕ) (d' : Dirfile) : Type 0 where
    at : ℕ
    end : ℕ
    new_entries : List Entry
    behind : n ≤ at
    in_dir : at ≤ dir_pages d
    writes : d' ≡ commit_chunk true d at end new_entries
    begins : at * page_size ≤ d.i_size
    still_small : d'.i_size < 2 ^ 32
    pages_left : ℕ
    count : n + pages_left ≡ dir_pages d'
    way : Way g d' name ino n pages_left

  other_name : (0 ∷ name) ≢ name
  other_name e = let l = ap length e in ground (arith, l)

  -- The size that a write at an entry's end leaves, and the last byte of its page
  new_size :
      (n end size limit : ℕ)
      → limit ≡ last_byte d.i_size n
      → n * page_size ≤ d.i_size
      → limit % g.chunk ≡ 0
      → reaches g.chunk limit size end ≡ true
      → let i_size' = (commit_chunk true d n end []).i_size in
        (last_byte i_size' n ≡ size) × (n * page_size + size ≤ i_size') × (i_size' < 2 ^ 32)
  unfolding commit_chunk
  new_size n end size limit l begins al r = elim (Bool-cases (size == limit)) [
    | inl same ↦ ground (arith, same, l, begins, r, k.small)
    | inr grown ↦
        let short : limit < page_size = ground (arith, grown, r) in
        let room = aligned g.chunk limit al k.chunks_of_page short in
        let longer : size ≡ limit + g.chunk = ground (arith, grown, r) in
        let ends : end ≡ limit + g.chunk = ground (arith, grown, r) in
        let exact : d.i_size ≡ n * page_size + limit = ground (arith, l, short, begins, k.small) in
        let past : ltb d.i_size (n * page_size + end) ≡ true =
          ground (arith, exact, ends, k.some_chunk) in
        let pos : n * page_size + end < 2 ^ 32 = omega (arith, exact, ends, k.small) in
        rw past (
          last_byte-end (n * page_size + end) n size pos (omega (arith, ends, longer))
              (omega (arith, longer, room)),
          omega (arith, ends, longer),
          pos,
        )
  ]

  placed_here :
      (n : ℕ) (es es' : List Entry)
      → n ≤ dir_pages d
      → get_page g d n ≡ ok es
      → add_in_page g.chunk name ino (last_byte d.i_size n) 0 es ≡ placed es'
      → Added n (commit_chunk true d n (add_end g.chunk name (last_byte d.i_size n) 0 es) es')
  unfolding commit_chunk get_page
  placed_here n es es' h e a =
      let got = get_page-Got g d k n h e in
      let limit = last_byte d.i_size n in
      let end = add_end g.chunk name limit 0 es in
      let d' = commit_chunk true d n end es' in
      let al = last_byte-mod g.chunk d.i_size n k.chunks k.chunks_of_page in
      let kept : IsPage g.chunk g.max_inumber (0 + total es') 0 es' =
        subst (Kept g.chunk g.max_inumber name ino limit k.some_chunk known some_name 0) a (
          add_in_page-Kept g.chunk g.max_inumber name ino limit k.some_chunk known some_name 0 es
            k.words fits al got.page got.has_names) in
      let far : reaches g.chunk limit (0 + total es') end ≡ true =
        subst
          (Reaches g.chunk g.max_inumber limit name ino k.some_chunk (on_page d.i_size n) end 0 es)
          a
          (add_in_page-Reaches g.chunk g.max_inumber limit name ino k.some_chunk
            (on_page d.i_size n) 0 es got.page) in
      let (last, longer, small) = new_size n end (0 + total es') limit refl got.begins al far in
      let found_there : lookup name es' ≡ some ino =
        (add_in_page-lookup g.chunk g.max_inumber limit name (0 ∷ name) ino 0 es in_use other_name
          got.page a).0 in
      let some_bytes = total_pos name ino es' found_there kept.real in
      let (ready, same) = put_here d.pages n es' k.ready in
      let p = get_or (put_page true d.pages n es') n blank_page in
      let reads : get_page g d' n ≡ ok es' =
        checked_page-ready g d'.i_size n p ready ∙ ap ok same in
      let look : inode_of (find_in_page name (0 + total es') 0 es') ≡ some ino =
        find_in_page-lookup g.chunk g.max_inumber (0 + total es') name 0 es' kept ∙ found_there in
      record {
        at = n;
        end = end;
        new_entries = es';
        behind = omega arith;
        in_dir = h;
        writes = refl;
        begins = got.begins;
        still_small = small;
        pages_left = suc (dir_pages d' - n - 1);
        count = omega (arith, longer, some_bytes);
        way = here es' reads (rw last look);
      }

  grows : (n end : ℕ) (es : List Entry) → d.i_size ≤ (commit_chunk true d n end es).i_size
  unfolding commit_chunk
  grows n end es = ground arith

  -- A page before the one that was written is searched as before, without success.
  missed :
      (n : ℕ) (es : List Entry) (d' : Dirfile)
      → get_page g d n ≡ ok es
      → add_in_page g.chunk name ino (last_byte d.i_size n) 0 es ≡ no_room
      → Added (n + 1) d'
      → Added n d'
  unfolding commit_chunk get_page
  missed n es d' e a more =
      let low : n < dir_pages d = omega (arith, more.behind, more.in_dir) in
      let got = get_page-Got g d k n (omega (arith, low)) e in
      let limit = last_byte d.i_size n in
      let none_there : lookup name es ≡ none =
        subst
          (Reaches g.chunk g.max_inumber limit name ino k.some_chunk (on_page d.i_size n)
            (add_end g.chunk name limit 0 es) 0 es)
          a
          (add_in_page-Reaches g.chunk g.max_inumber limit name ino k.some_chunk
            (on_page d.i_size n) 0 es got.page) in
      let look : find_in_page name limit 0 es ≡ absent =
        absent_from (find_in_page name limit 0 es)
          (find_in_page-Ends g.chunk g.max_inumber limit name 0 es got.page)
          (find_in_page-lookup g.chunk g.max_inumber limit name 0 es got.page ∙ none_there) in
      let old = get_or d.pages n blank_page in
      let ready = ready_at d.pages n k.ready (omega (arith, low, k.as_long)) in
      let entries : old.entries ≡ es =
        ok_inj (sym (checked_page-ready g d.i_size n old ready) ∙ e) in
      let page : get_or d'.pages n blank_page ≡ old =
        ap (λ (x : Dirfile). get_or x.pages n blank_page) more.writes
        ∙ put_other d.pages more.at n more.new_entries (omega (arith, more.behind)) in
      let reads : get_page g d' n ≡ ok es =
        ap (λ p. checked_page g d'.i_size n p p.read_error) page
        ∙ checked_page-ready g d'.i_size n old ready
        ∙ ap ok entries in
      let larger : d.i_size ≤ d'.i_size =
        subst (λ (x : Dirfile). d.i_size ≤ x.i_size) (sym more.writes)
          (grows more.at more.end more.new_entries) in
      let below : (n + 1) * page_size ≤ d.i_size = omega (arith, more.behind, more.begins) in
      let full : limit ≡ page_size = last_byte-full d.i_size n (omega (arith, k.small)) below in
      let full' : last_byte d'.i_size n ≡ page_size =
        last_byte-full d'.i_size n more.still_small (omega (arith, below, larger)) in
      record {
        at = more.at;
        end = more.end;
        new_entries = more.new_entries;
        behind = omega (arith, more.behind);
        in_dir = more.in_dir;
        writes = more.writes;
        begins = more.begins;
        still_small = more.still_small;
        pages_left = suc more.pages_left;
        count = omega (arith, more.count);
        way =
            further es reads (ap (λ l. find_in_page name l 0 es) (full' ∙ sym full) ∙ look)
              more.way;
      }

  -- What a call comes to: when it succeeds, the name has been added.
  abbrev AddedBy : ℕ → Dirfile × Result (Unit {0}) → Type 0
  AddedBy n (d', ok u) = Added n d'
  AddedBy n (d', err e) = Unit {0}

  missed-AddedBy :
      (n : ℕ) (es : List Entry) (r : Dirfile × Result (Unit {0}))
      → get_page g d n ≡ ok es
      → add_in_page g.chunk name ino (last_byte d.i_size n) 0 es ≡ no_room
      → AddedBy (n + 1) r
      → AddedBy n r
  missed-AddedBy n es (d', ok u) e a more = missed n es d' e a more
  missed-AddedBy n es (d', err x) e a more = tt

  committed-AddedBy :
      (n : ℕ) (d' : Dirfile) (o : Option Errno)
      → Added n d'
      → AddedBy n (d', elim o as (λ _. Result (Unit {0})) [ none ↦ ok tt | some e ↦ err e ])
  committed-AddedBy n d' none a = a
  committed-AddedBy n d' (some e) a = tt

  got_it-AddedBy :
      (n end : ℕ) (es' : List Entry) (o : Option Errno)
      → Added n (commit_chunk true d n end es')
      → AddedBy n (got_it w d n end es' o)
  got_it-AddedBy n end es' none a =
      committed-AddedBy n (commit_chunk true d n end es') w.commit_error a
  got_it-AddedBy n end es' (some e) a = tt

  place_in_page-AddedBy :
      (n : ℕ) (es : List Entry) (r : Place) (next : Dirfile × Result (Unit {0}))
      → n ≤ dir_pages d
      → get_page g d n ≡ ok es
      → add_in_page g.chunk name ino (last_byte d.i_size n) 0 es ≡ r
      → AddedBy (n + 1) next
      → AddedBy n (place_in_page w d n (add_end g.chunk name (last_byte d.i_size n) 0 es) r next)
  place_in_page-AddedBy n es (placed es') next h e a more =
      got_it-AddedBy n (add_end g.chunk name (last_byte d.i_size n) 0 es) es' w.begin_error
        (placed_here n es es' h e a)
  place_in_page-AddedBy n es (refused x) next h e a more = tt
  place_in_page-AddedBy n es no_room next h e a more = missed-AddedBy n es next e a more

  add_to_page-AddedBy :
      (n : ℕ) (r : Result (List Entry)) (next : Dirfile × Result (Unit {0}))
      → n ≤ dir_pages d
      → get_page g d n ≡ r
      → AddedBy (n + 1) next
      → AddedBy n (add_to_page g w d name ino n r next)
  add_to_page-AddedBy n (err x) next h e more = tt
  add_to_page-AddedBy n (ok es) next h e more =
      place_in_page-AddedBy n es (add_in_page g.chunk name ino (last_byte d.i_size n) 0 es) next h e
        refl more

  add_loop-AddedBy :
      (n left : ℕ) → n + left ≡ dir_pages d + 1 → AddedBy n (add_loop g w d name ino n left)
  unfolding add_loop
  add_loop-AddedBy n zero e = tt
  add_loop-AddedBy n (suc left) e =
      add_to_page-AddedBy n (get_page g d n) (add_loop g w d name ino (n + 1) left)
        (omega (arith, e)) refl (add_loop-AddedBy (n + 1) left (omega (arith, e)))

-- After a call of `ext2_add_link` that succeeds, `ext2_inode_by_name` finds the name in the directory, with
-- the number of the inode that was given, whether the entry went into a free place, was split off another
-- one, or made the directory grow. The pages of the directory have been read and are good, its size is a
-- number of whole chunks and so is a page's, with one more chunk it stays below 2 ^ 32, every entry in use
-- has a name, the new name fits a chunk and is not empty, and the number is positive and in range.
pub inode_by_name-add_link :
    (g : Geometry) (w : Writes) (d : Dirfile) (name : List ℕ) (ino : ℕ) {d' : Dirfile}
    → IsKept g d
    → dir_rec_len (length name) ≤ g.chunk
    → ino ≤ g.max_inumber
    → 0 < length name
    → 0 < ino
    → add_link g w d name ino ≡ (d', ok tt)
    → inode_by_name g d' name ≡ ok ino
unfolding add_link inode_by_name find_entry
inode_by_name-add_link g w d name ino {d' = d'} k fits known some_name in_use h =
    let added = subst (AddedBy g w d name ino k fits known some_name in_use 0) h (
      add_loop-AddedBy g w d name ino k fits known some_name in_use 0 (dir_pages d + 1)
        (omega arith)) in
    let pages : added.pages_left ≡ dir_pages d' = omega (arith, added.count) in
    find_loop-Way g d' name ino (subst (Way g d' name ino 0) pages added.way)
