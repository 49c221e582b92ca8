-- ===== src/Ext2/Dir/Lookup.antt =====
-- What `ext2_find_entry` of dir.c finds in a page that has been checked.
use operating_systems_ntua.Prelude.{
  ℕ, ◌+◌, ◌≤◌, ◌<◌, ◌≡◌, refl, Bool, true, not, ◌&&◌, Option, none, some, List, [], ◌∷◌, arith, leb,
  ◌==◌, if◌then◌else◌, length, Bool-cases, inl, inr,
}
use operating_systems_ntua.Ext2.Dir.{
  Entry, dir_rec_len, good_entry, check_entries, matches, Look, found, absent, zero_length,
  find_in_page,
}

-- A name's inode number, in the first live entry that has the name.
abbrev pub lookup : List ℕ → List Entry → Option ℕ
lookup name [] = none
lookup name (e ∷ es) = let rest = lookup name es in if matches name e then some e.inode else rest

-- The inode number that a search gives.
abbrev pub inode_of : Look → Option ℕ
inode_of (found offs e) = some e.inode
inode_of absent = none
inode_of zero_length = none

-- Past the limit, no entry of a page with entries that fit is left.
fits-length :
    (name : List ℕ) (chunk max_inumber limit offs : ℕ) (e : Entry)
    → matches name e ≡ true
    → good_entry chunk max_inumber offs e ≡ true
    → dir_rec_len (length name) ≤ e.rec_len
fits-length name chunk max_inumber limit offs e m g = ground (arith, m, g)

-- The lengths of the entries in all.
abbrev pub total : List Entry → ℕ
total [] = 0
total (e ∷ es) = e.rec_len + total es

-- No entry is without length, and so none stands past the end of the page.
abbrev pub chained : List Entry → Bool
chained [] = true
chained (e ∷ es) = not (e.rec_len == 0) && chained es

-- Entries that have been checked, and that end where the page does.
pub record IsPage (chunk max_inumber limit offs : ℕ) (es : List Entry) : Type 0 where
  pub checked : check_entries chunk max_inumber limit offs es ≡ true
  pub ends : offs + total es ≡ limit
  pub real : chained es ≡ true

module _ (chunk max_inumber limit : ℕ) where
  -- The first entry of such a page is good, and so is the rest.
  pub IsPage-cons :
      (offs : ℕ) (e : Entry) (es : List Entry)
      → IsPage chunk max_inumber limit offs (e ∷ es)
      → (good_entry chunk max_inumber offs e ≡ true)
        × (offs + dir_rec_len 1 ≤ limit)
        × IsPage chunk max_inumber limit (offs + e.rec_len) es
  unfolding check_entries
  IsPage-cons offs e es p = ground (arith, p.checked, p.ends, p.real)

  -- No entry with a name can stand so near the end of the page.
  pub lookup-near_end :
      (name : List ℕ) (offs : ℕ) (es : List Entry)
      → IsPage chunk max_inumber limit offs es
      → limit < offs + dir_rec_len (length name)
      → lookup name es ≡ none
  lookup-near_end name offs [] p h = refl
  lookup-near_end name offs (e ∷ es) p h =
      let (good, low, rest) = IsPage-cons offs e es p in
      ground (
        arith,
        good,
        p.ends,
        h,
        fits-length name chunk max_inumber limit offs e,
        lookup-near_end name (offs + e.rec_len) es rest (omega arith),
      )

  -- A search in a checked page finds the first live entry that has the name, if there is one.
  pub find_in_page-lookup :
      (name : List ℕ) (offs : ℕ) (es : List Entry)
      → IsPage chunk max_inumber limit offs es
      → inode_of (find_in_page name limit offs es) ≡ lookup name es
  unfolding find_in_page
  find_in_page-lookup name offs [] p = ground (arith, p.ends)
  find_in_page-lookup name offs (e ∷ es) p =
      elim (Bool-cases (leb (offs + dir_rec_len (length name)) limit)) [
        | inr near ↦ ground (arith, near, lookup-near_end name offs (e ∷ es) p)
        | inl far ↦
            let (good, low, rest) = IsPage-cons offs e es p in
            ground (arith, far, good, find_in_page-lookup name (offs + e.rec_len) es rest)
      ]
