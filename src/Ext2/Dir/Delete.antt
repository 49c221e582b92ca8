-- ===== src/Ext2/Dir/Delete.antt =====
-- What `ext2_delete_entry` of dir.c does to the names of a page.
use operating_systems_ntua.Prelude.{
  ℕ, ◌+◌, ◌≡◌, Option, none, some, List, [], ◌∷◌, ◌==◌, if◌then◌else◌,
}
use operating_systems_ntua.Ext2.Dir.{Entry, matches, Place, placed, refused, no_room}

-- How many live entries have a name.
abbrev pub live : List ℕ → List Entry → ℕ
live name [] = 0
live name (e ∷ es) = (if matches name e then 1 else 0) + live name es

-- The entry that stands at an offset.
abbrev pub entry_at : ℕ → ℕ → List Entry → Option Entry
entry_at target offs [] = none
entry_at target offs (e ∷ es) =
    let rest = entry_at target (offs + e.rec_len) es in if offs == target then some e else rest

module _ (chunk : ℕ) (target : ℕ) (gone : Entry) where
  -- The page holds for every name as many live entries as before, less the one that is gone.
  abbrev Removed : List ℕ → List Entry → Place → Type 0
  Removed name es (placed es') = live name es' + (if matches name gone then 1 else 0) ≡ live name es
  Removed name es (refused e) = Unit {0}
  Removed name es no_room = Unit {0}

abbrev WasPlaced : Place → Type 0
WasPlaced (placed es) = Unit {0}
WasPlaced (refused e) = ⊥
WasPlaced no_room = ⊥
