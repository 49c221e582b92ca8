-- ===== src/Ext2/Dir/Valid.antt =====
-- The check of a page of dir.c, before and after an insertion.
use operating_systems_ntua.Prelude.{
  ℕ, ◌+◌, ◌-◌, ◌*◌, ◌/◌, ◌%◌, ◌≤◌, ◌<◌, ◌≡◌, refl, sym, ap, ◌∙◌, Bool, true, ◌&&◌, ◌||◌, List, [],
  ◌∷◌, arith, leb, ◌==◌, length, if-elim, subst,
}
use native.Mathlib.Nat.{le-div_iff_mul-le, div-mul-le_self, div-add-mod, mul-add-div, div-eq_of_lt}
use operating_systems_ntua.Ext2.Dir.{
  Entry, dir_rec_len, good_entry, check_entries, matches, Place, placed, refused, no_room, before,
  put_entry, add_in_page, page_size,
}
use operating_systems_ntua.Ext2.Dir.Lookup.{total, IsPage, IsPage-cons}

div_mono : (a b c : ℕ) → 0 < c → a ≤ b → a / c ≤ b / c
div_mono a b c p h =
    let low = div-mul-le_self a c in
    let into : a / c * c ≤ b → a / c ≤ b / c = (le-div_iff_mul-le p).1 in into (omega (arith, low))

-- Two parts of what lies in one chunk lie in that chunk.
span-split :
    (offs r k c : ℕ)
    → 0 < c
    → (offs + r - 1) / c ≡ offs / c
    → 0 < k
    → k < r
    → ((offs + k - 1) / c ≡ offs / c) × ((offs + r - 1) / c ≡ (offs + k) / c)
span-split offs r k c pos h p q =
    let a : offs / c ≤ (offs + k - 1) / c = div_mono offs (offs + k - 1) c pos (omega arith) in
    let b : (offs + k - 1) / c ≤ (offs + r - 1) / c =
      div_mono (offs + k - 1) (offs + r - 1) c pos (omega arith) in
    let d : (offs + k) / c ≤ (offs + r - 1) / c =
      div_mono (offs + k) (offs + r - 1) c pos (omega arith) in
    let e : offs / c ≤ (offs + k) / c = div_mono offs (offs + k) c pos (omega arith) in
    (omega (arith, h, a, b), omega (arith, h, d, e))

module _ (chunk max_inumber : ℕ) where
  -- A good entry before a page makes a longer one.
  IsPage-intro :
      (limit offs : ℕ) (e : Entry) (es : List Entry)
      → good_entry chunk max_inumber offs e ≡ true
      → IsPage chunk max_inumber limit (offs + e.rec_len) es
      → IsPage chunk max_inumber limit offs (e ∷ es)
  unfolding check_entries
  IsPage-intro limit offs e es g p = record {
    checked = ground (arith, g, p.checked, p.ends);
    ends = omega (arith, p.ends);
    real = ground (arith, g, p.real);
  }

whole_chunk : (offs c : ℕ) → 0 < c → offs % c ≡ 0 → (offs + c - 1) / c ≡ offs / c
whole_chunk offs c p h =
    let e : offs + c - 1 ≡ c * (offs / c) + (c - 1) = omega (arith, div-add-mod offs c, h, p) in
    ap (λ x. x / c) e
    ∙ mul-add-div p (offs / c) (c - 1)
    ∙ omega (arith, div-eq_of_lt {n = c - 1} {m = c} (omega arith))

-- Every entry in use has a name.
abbrev pub named : List Entry → Bool
named [] = true
named (e ∷ es) = (leb 1 (length e.name) || (e.inode == 0)) && named es

module _ (chunk max_inumber : ℕ) (name : List ℕ) (ino limit : ℕ) (chunk_pos : 0 < chunk)
    (known : ino ≤ max_inumber) (some_name : 0 < length name) where
  -- The parts of a good entry that is split are good.
  split-good :
      (offs : ℕ) (e : Entry)
      → good_entry chunk max_inumber offs e ≡ true
      → 0 < length e.name
      → dir_rec_len (length e.name) + dir_rec_len (length name) ≤ e.rec_len
      → let k = dir_rec_len (length e.name) in
        (good_entry chunk max_inumber offs (record e { rec_len = k }) ≡ true)
        × (good_entry chunk max_inumber
              (offs + k)
              (record { inode = ino; rec_len = e.rec_len - k; name = name })
            ≡ true)
  split-good offs e g n room =
      let k = dir_rec_len (length e.name) in
      let in_chunk : (offs + e.rec_len - 1) / chunk ≡ offs / chunk = ground (arith, g) in
      let joined : offs + k + (e.rec_len - k) - 1 ≡ offs + e.rec_len - 1 = omega (arith, room) in
      let parts =
        span-split offs e.rec_len k chunk chunk_pos in_chunk (omega arith) (omega (arith, room)) in
      (ground (arith, g, parts, room), rw joined (ground (arith, g, parts, room, known)))

  -- What an insertion at an offset leaves: a page that is checked up to its new end.
  abbrev pub Kept : ℕ → Place → Type 0
  Kept offs (placed es') = IsPage chunk max_inumber (offs + total es') offs es'
  Kept offs (refused e) = Unit {0}
  Kept offs no_room = Unit {0}

  put_entry-Kept :
      (offs : ℕ) (e : Entry) (es : List Entry)
      → IsPage chunk max_inumber limit offs (e ∷ es)
      → leb 1 (length e.name) || (e.inode == 0) ≡ true
      → (e.inode == 0 && leb (dir_rec_len (length name)) e.rec_len)
          || leb (dir_rec_len (length e.name) + dir_rec_len (length name)) e.rec_len
        ≡ true
      → Kept offs (put_entry name ino e es)
  put_entry-Kept offs e es p n room =
      let (good, low, rest) = IsPage-cons chunk max_inumber limit offs e es p in
      if-elim (Kept offs) (e.inode == 0)
        (λ free.
          let end : offs + (e.rec_len + total es) ≡ limit = p.ends in
          rw end (
            IsPage-intro chunk max_inumber limit offs
              (record { inode = ino; rec_len = e.rec_len; name = name }) es
              (ground (arith, good, free, room, known)) rest))
        (λ used.
          let k = dir_rec_len (length e.name) in
          let fits : k + dir_rec_len (length name) ≤ e.rec_len = ground (arith, used, room) in
          let (first, second) = split-good offs e good (ground (arith, used, n)) fits in
          let end : offs + (k + (e.rec_len - k + total es)) ≡ limit = omega (arith, p.ends, fits) in
          let next : offs + k + (e.rec_len - k) ≡ offs + e.rec_len = omega (arith, fits) in
          rw end (
            IsPage-intro chunk max_inumber limit offs (record e { rec_len = k }) _ first
              (IsPage-intro chunk max_inumber limit (offs + k)
                (record { inode = ino; rec_len = e.rec_len - k; name = name }) es second
                (subst (λ o. IsPage chunk max_inumber limit o es) (sym next) rest))))

  before-Kept :
      (offs : ℕ) (e : Entry) (r : Place)
      → good_entry chunk max_inumber offs e ≡ true
      → Kept (offs + e.rec_len) r
      → Kept offs (before e r)
  before-Kept offs e (placed es') g i =
      let end : offs + (e.rec_len + total es') ≡ offs + e.rec_len + total es' = omega arith in
      rw end (IsPage-intro chunk max_inumber (offs + e.rec_len + total es') offs e es' g i)
  before-Kept offs e (refused x) g i = tt
  before-Kept offs e no_room g i = tt

  new_chunk-Kept :
      (offs : ℕ)
      → chunk % 4 ≡ 0
      → dir_rec_len (length name) ≤ chunk
      → offs % chunk ≡ 0
      → Kept offs (placed (record { inode = ino; rec_len = chunk; name = name } ∷ []))
  unfolding check_entries
  new_chunk-Kept offs al fits start =
      let e : Entry = record { inode = ino; rec_len = chunk; name = name } in
      let span = whole_chunk offs chunk chunk_pos start in
      let end : offs + (chunk + 0) ≡ offs + chunk = omega arith in
      rw end (
        IsPage-intro chunk max_inumber (offs + chunk) offs e []
          (ground (arith, al, fits, span, known, some_name))
          record { checked = ground arith; ends = omega arith; real = refl })

  pub add_in_page-Kept :
      (offs : ℕ) (es : List Entry)
      → chunk % 4 ≡ 0
      → dir_rec_len (length name) ≤ chunk
      → limit % chunk ≡ 0
      → IsPage chunk max_inumber limit offs es
      → named es ≡ true
      → Kept offs (add_in_page chunk name ino limit offs es)
  unfolding add_in_page
  add_in_page-Kept offs [] al fits start p n =
      let end : offs ≡ limit = omega (arith, p.ends) in
      if-elim (Kept offs) (leb (offs + dir_rec_len (length name)) page_size)
        (λ _.
          if-elim (Kept offs) (offs == limit) (λ _. new_chunk-Kept offs al fits (rw end start))
            (λ _. tt))
        (λ _. tt)
  add_in_page-Kept offs (e ∷ es) al fits start p n =
      let (good, low, rest) = IsPage-cons chunk max_inumber limit offs e es p in
      let here : leb 1 (length e.name) || (e.inode == 0) ≡ true = ground (arith, n) in
      let later : named es ≡ true = ground (arith, n) in
      let P = Kept offs in
      if-elim P (leb (offs + dir_rec_len (length name)) page_size)
        (λ _.
          if-elim P (offs == limit) (λ at_end. absurd (ground (arith, at_end, p.ends, p.real)))
            (λ _.
              if-elim P (e.rec_len == 0) (λ _. tt)
                (λ _.
                  if-elim P (matches name e) (λ _. tt)
                    (λ _.
                      if-elim P (e.inode == 0 && leb (dir_rec_len (length name)) e.rec_len)
                        (λ room. put_entry-Kept offs e es p here (ground (arith, room)))
                        (λ _.
                          if-elim P
                            (leb (dir_rec_len (length e.name) + dir_rec_len (length name))
                              e.rec_len)
                            (λ room. put_entry-Kept offs e es p here (ground (arith, room)))
                            (λ _.
                              before-Kept offs e
                                (add_in_page chunk name ino limit (offs + e.rec_len) es) good
                                (add_in_page-Kept (offs + e.rec_len) es al fits start rest
                                  later)))))))
        (λ _. tt)

-- A checked page passes the check again after an insertion by `ext2_add_link`, up to its end, which is a
-- chunk further where there was no room before. The chunks are a multiple of 4 long, and long enough
-- for the name; the inode's number is in range; every entry in use has a name, and so has the new one.
pub add_in_page-IsPage :
    (chunk max_inumber limit : ℕ) (name : List ℕ) (ino : ℕ) (es : List Entry) {es' : List Entry}
    → chunk % 4 ≡ 0
    → dir_rec_len (length name) ≤ chunk
    → limit % chunk ≡ 0
    → ino ≤ max_inumber
    → 0 < length name
    → IsPage chunk max_inumber limit 0 es
    → named es ≡ true
    → add_in_page chunk name ino limit 0 es ≡ placed es'
    → check_entries chunk max_inumber (total es') 0 es' ≡ true
add_in_page-IsPage chunk max_inumber limit name ino es {es' = es'} al fits start known some_name p n
      h =
    let kept = subst (Kept chunk max_inumber name ino limit (omega arith) known some_name 0) h (
      add_in_page-Kept chunk max_inumber name ino limit (omega arith) known some_name 0 es al fits
        start p n) in
    let end : 0 + total es' ≡ total es' = omega arith in
    subst (λ l. check_entries chunk max_inumber l 0 es' ≡ true) end kept.checked
