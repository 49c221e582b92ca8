-- ===== src/Ext2/Dirfile/Growth.antt =====
-- How far the entries of a page reach after an insertion by `ext2_add_link` of dir.c.
use operating_systems_ntua.Prelude.{
  ℕ, ◌+◌, ◌-◌, ◌≤◌, ◌<◌, ◌≡◌, refl, Bool, true, false, ◌&&◌, ◌||◌, none, List, [], ◌∷◌, arith, ltb,
  leb, ◌==◌, if◌then◌else◌, if-elim, length, Bool-cases, inl, inr,
}
use operating_systems_ntua.Ext2.Dir.{
  page_size, Entry, dir_rec_len, matches, Place, placed, refused, no_room, before, put_entry,
  add_in_page,
}
use operating_systems_ntua.Ext2.Dir.Lookup.{lookup, lookup-near_end, total, IsPage, IsPage-cons}
use operating_systems_ntua.Ext2.Dirfile.{add_end}

-- The bytes up to which a page reaches, and where the entry ends that was taken: the page is as long as
-- before, or one chunk longer, which is the entry's then.
abbrev pub reaches : ℕ → ℕ → ℕ → ℕ → Bool
reaches chunk limit new_limit end =
    if new_limit == limit
    then leb end limit
    else (new_limit == limit + chunk) && ((end == limit + chunk) && ltb limit page_size)

module _ (chunk max_inumber limit : ℕ) (name : List ℕ) (ino : ℕ) (some_chunk : 0 < chunk)
    (on_page : limit ≤ page_size) where
  -- A page that is full does not have the name.
  abbrev pub Reaches : ℕ → ℕ → List Entry → Place → Type 0
  Reaches end offs es (placed es') = reaches chunk limit (offs + total es') end ≡ true
  Reaches end offs es (refused e) = Unit {0}
  Reaches end offs es no_room = lookup name es ≡ none

  put_entry-Reaches :
      (offs : ℕ) (e : Entry) (es : List Entry)
      → offs + (e.rec_len + total es) ≡ limit
      → (e.inode == 0 && leb (dir_rec_len (length name)) e.rec_len)
          || leb (dir_rec_len (length e.name) + dir_rec_len (length name)) e.rec_len
        ≡ true
      → Reaches (offs + e.rec_len) offs (e ∷ es) (put_entry name ino e es)
  put_entry-Reaches offs e es ends room =
      if-elim (Reaches (offs + e.rec_len) offs (e ∷ es)) (e.inode == 0)
        (λ free. ground (arith, ends))
        (λ used.
          let fits : dir_rec_len (length e.name) ≤ e.rec_len = ground (arith, used, room) in
          let same : offs
                + (dir_rec_len (length e.name)
                    + (e.rec_len - dir_rec_len (length e.name) + total es))
              ≡ limit =
            omega (arith, fits, ends) in
          rw same (ground (arith, ends)))

  before-Reaches :
      (end offs : ℕ) (e : Entry) (es : List Entry) (r : Place)
      → matches name e ≡ false
      → Reaches end (offs + e.rec_len) es r
      → Reaches end offs (e ∷ es) (before e r)
  before-Reaches end offs e es (placed es') m h =
      let same : offs + (e.rec_len + total es') ≡ offs + e.rec_len + total es' = omega arith in
      rw same h
  before-Reaches end offs e es (refused x) m h = tt
  before-Reaches end offs e es no_room m h = rw m h

  pub add_in_page-Reaches :
      (offs : ℕ) (es : List Entry)
      → IsPage chunk max_inumber limit offs es
      → Reaches
          (add_end chunk name limit offs es)
          offs
          es
          (add_in_page chunk name ino limit offs es)
  unfolding add_in_page add_end
  add_in_page-Reaches offs [] p =
      elim (Bool-cases (leb (offs + dir_rec_len (length name)) page_size)) [
        | inr near ↦ rw near refl
        | inl far ↦
            let at_end : (offs == limit) ≡ true = ground (arith, p.ends) in
            rw (far, at_end) (ground (arith, p.ends, some_chunk, far))
      ]
  add_in_page-Reaches offs (e ∷ es) p =
      let (good, low, rest) = IsPage-cons chunk max_inumber limit offs e es p in
      let inside : (offs == limit) ≡ false = ground (arith, p.ends, p.real) in
      elim (Bool-cases (leb (offs + dir_rec_len (length name)) page_size)) [
        | inr near ↦ rw near (
            lookup-near_end chunk max_inumber limit name offs (e ∷ es) p
              (ground (arith, near, on_page)))
        | inl far ↦ elim (Bool-cases (e.rec_len == 0)) [
          | inl z ↦ rw (far, inside, z) tt
          | inr long ↦ elim (Bool-cases (matches name e)) [
            | inl m ↦ rw (far, inside, long, m) tt
            | inr m ↦
                elim (Bool-cases (e.inode == 0 && leb (dir_rec_len (length name)) e.rec_len)) [
                  | inl a ↦
                      rw (far, inside, long, m, a)
                        (put_entry-Reaches offs e es p.ends (ground (arith, a)))
                  | inr a ↦
                      elim (Bool-cases
                        (leb (dir_rec_len (length e.name) + dir_rec_len (length name)) e.rec_len)) [
                          | inl b ↦
                              rw (far, inside, long, m, a, b)
                                (put_entry-Reaches offs e es p.ends (ground (arith, b)))
                          | inr b ↦
                              rw (far, inside, long, m, a, b)
                                (before-Reaches (add_end chunk name limit (offs + e.rec_len) es)
                                  offs e es (add_in_page chunk name ino limit (offs + e.rec_len) es)
                                  m (add_in_page-Reaches (offs + e.rec_len) es rest))
                        ]
                ]
          ]
        ]
      ]
