-- ===== src/Ext2/Dir/Insert.antt =====
-- What an insertion by `ext2_add_link` of dir.c does to a page.
use operating_systems_ntua.Prelude.{
  ℕ, ◌+◌, ◌-◌, ◌<◌, ◌≡◌, ◌≢◌, refl, true, false, ◌&&◌, some, List, [], ◌∷◌, arith, leb, ◌==◌,
  length, Bool-cases, inl, inr, if-elim, subst,
}
use operating_systems_ntua.Prelude.{same_bytes}
use operating_systems_ntua.Ext2.Dir.{
  Entry, dir_rec_len, matches, Place, placed, refused, no_room, before, put_entry, add_in_page,
  page_size,
}
use operating_systems_ntua.Ext2.Dir.Lookup.{lookup, IsPage, IsPage-cons}

same_bytes_refl : (xs : List ℕ) → same_bytes xs xs ≡ true
same_bytes_refl [] = refl
same_bytes_refl (x ∷ xs) = ground (arith, same_bytes_refl xs)

same_bytes_eq : (xs ys : List ℕ) → same_bytes xs ys ≡ true → xs ≡ ys
same_bytes_eq [] [] h = refl
same_bytes_eq [] (y ∷ ys) h = ground (arith, h)
same_bytes_eq (x ∷ xs) [] h = ground (arith, h)
same_bytes_eq (x ∷ xs) (y ∷ ys) h = ground (arith, h, same_bytes_eq xs ys)

-- The entry that an insertion writes has the name that was asked for, and no other.
matches-new :
    (name : List ℕ) (ino n : ℕ)
    → 0 < ino
    → matches name (record { inode = ino; rec_len = n; name = name }) ≡ true
matches-new name ino n h = ground (arith, h, same_bytes_refl name)

matches-other :
    (name other : List ℕ) (ino n : ℕ)
    → other ≢ name
    → matches other (record { inode = ino; rec_len = n; name = name }) ≡ false
matches-other name other ino n ne = elim (Bool-cases (same_bytes other name)) [
  | inl e ↦ absurd (ne (same_bytes_eq other name e))
  | inr d ↦ ground (arith, d)
]

module _ (chunk max_inumber limit : ℕ) (name other : List ℕ) (ino : ℕ) (in_use : 0 < ino)
    (ne : other ≢ name) where
  -- What an insertion comes to, for the name and for another one.
  abbrev Inserted : List Entry → Place → Type 0
  Inserted es (placed es') = (lookup name es' ≡ some ino) × (lookup other es' ≡ lookup other es)
  Inserted es (refused e) = Unit {0}
  Inserted es no_room = Unit {0}

  put_entry-Inserted :
      (e : Entry) (es : List Entry)
      → matches name e ≡ false
      → Inserted (e ∷ es) (put_entry name ino e es)
  put_entry-Inserted e es m =
      if-elim (Inserted (e ∷ es)) (e.inode == 0)
        (λ free. ground (
          arith,
          free,
          matches-new name ino e.rec_len in_use,
          matches-other name other ino e.rec_len ne,
        ))
        (λ used. ground (
          arith,
          m,
          matches-new name ino (e.rec_len - dir_rec_len (length e.name)) in_use,
          matches-other name other ino (e.rec_len - dir_rec_len (length e.name)) ne,
        ))

  before-Inserted :
      (e : Entry) (es : List Entry) (r : Place)
      → matches name e ≡ false
      → Inserted es r
      → Inserted (e ∷ es) (before e r)
  before-Inserted e es (placed es') m i = ground (arith, m, i)
  before-Inserted e es (refused x) m i = tt
  before-Inserted e es no_room m i = tt

  new_chunk-Inserted :
      Inserted [] (placed (record { inode = ino; rec_len = chunk; name = name } ∷ []))
  new_chunk-Inserted =
      ground (arith, matches-new name ino chunk in_use, matches-other name other ino chunk ne)

  add_in_page-Inserted :
      (offs : ℕ) (es : List Entry)
      → IsPage chunk max_inumber limit offs es
      → Inserted es (add_in_page chunk name ino limit offs es)
  unfolding add_in_page
  add_in_page-Inserted offs [] p =
      if-elim (Inserted []) (leb (offs + dir_rec_len (length name)) page_size)
        (λ _. if-elim (Inserted []) (offs == limit) (λ _. new_chunk-Inserted) (λ _. tt)) (λ _. tt)
  add_in_page-Inserted offs (e ∷ es) p =
      let P = Inserted (e ∷ es) in
      if-elim P (leb (offs + dir_rec_len (length name)) page_size)
        (λ _.
          if-elim P (offs == limit) (λ at_end. absurd (ground (arith, at_end, p.ends, p.real)))
            (λ inside.
              let (good, low, rest) = IsPage-cons chunk max_inumber limit offs e es p in
              if-elim P (e.rec_len == 0) (λ _. tt)
                (λ _.
                  if-elim P (matches name e) (λ _. tt)
                    (λ m.
                      if-elim P (e.inode == 0 && leb (dir_rec_len (length name)) e.rec_len)
                        (λ _. put_entry-Inserted e es m)
                        (λ _.
                          if-elim P
                            (leb (dir_rec_len (length e.name) + dir_rec_len (length name))
                              e.rec_len)
                            (λ _. put_entry-Inserted e es m)
                            (λ _.
                              before-Inserted e es
                                (add_in_page chunk name ino limit (offs + e.rec_len) es) m
                                (add_in_page-Inserted (offs + e.rec_len) es rest)))))))
        (λ _. tt)

-- Where `ext2_add_link` puts an entry into a checked page, the name is found there with the number that
-- was given, and every other name is found as before.
pub add_in_page-lookup :
    (chunk max_inumber limit : ℕ) (name other : List ℕ) (ino offs : ℕ) (es : List Entry)
    {es' : List Entry}
    → 0 < ino
    → other ≢ name
    → IsPage chunk max_inumber limit offs es
    → add_in_page chunk name ino limit offs es ≡ placed es'
    → (lookup name es' ≡ some ino) × (lookup other es' ≡ lookup other es)
add_in_page-lookup chunk max_inumber limit name other ino offs es in_use ne p h =
    subst (Inserted chunk max_inumber limit name other ino in_use ne es) h
      (add_in_page-Inserted chunk max_inumber limit name other ino in_use ne offs es p)
