-- ===== src/Ext2/Groups/Table.antt =====
-- The table of group descriptors: what a write through a descriptor's pointer changes.
use operating_systems_ntua.Prelude.{
  ℕ, ◌≡◌, refl, ap, ◌∙◌, false, Option, none, some, List, arith, leb, get_elem?, set, set-set,
  set-get_elem?, get_elem?_inside, get_elem?-set_self,
}
use operating_systems_ntua.Ext2.Groups.{
  GroupDesc, SbInfo, DescTable, desc_buffer, desc_offset, desc_in, get_group_desc, desc_set,
  set_group_desc,
}

desc_in-eq-some :
    (o : Option (Option (List GroupDesc))) (i : ℕ) {d : GroupDesc}
    → desc_in o i ≡ some d
    → (descs : List GroupDesc) × (o ≡ some (some descs)) × (get_elem? descs i ≡ some d)
desc_in-eq-some none i h = ground (arith, h)
desc_in-eq-some (some none) i h = ground (arith, h)
desc_in-eq-some (some (some descs)) i h = (descs, refl, h)

-- The buffer that a group's descriptor is found in.
found_in :
    (sbi : SbInfo) (table : DescTable) (g : ℕ) {d : GroupDesc}
    → get_group_desc sbi table g ≡ some d
    → (leb sbi.s_groups_count g ≡ false)
      × (desc_in (get_elem? table (desc_buffer sbi g)) (desc_offset sbi g) ≡ some d)
unfolding get_group_desc
found_in sbi table g h = ground (arith, h)

-- A descriptor that was written is read back.
pub get_group_desc-set_group_desc :
    (sbi : SbInfo) (table : DescTable) (g : ℕ) (d' : GroupDesc) {d : GroupDesc}
    → get_group_desc sbi table g ≡ some d
    → get_group_desc sbi (set_group_desc sbi table g d') g ≡ some d'
unfolding get_group_desc set_group_desc
get_group_desc-set_group_desc sbi table g d' h =
    let (low, inner) = found_in sbi table g h in
    let (descs, buf, at) =
      desc_in-eq-some (get_elem? table (desc_buffer sbi g)) (desc_offset sbi g) inner in
    let here : desc_in (some (some (set descs (desc_offset sbi g) d'))) (desc_offset sbi g)
        ≡ some d' =
      get_elem?-set_self descs (desc_offset sbi g) d'
        (get_elem?_inside descs (desc_offset sbi g) at) in
    let written : get_elem?
          (set table (desc_buffer sbi g) (desc_set (some (some descs)) (desc_offset sbi g) d'))
          (desc_buffer sbi g)
        ≡ some (some (set descs (desc_offset sbi g) d')) =
      get_elem?-set_self table (desc_buffer sbi g) (some (set descs (desc_offset sbi g) d'))
        (get_elem?_inside table (desc_buffer sbi g) buf) in
    rw (low, buf, written) here

-- A descriptor that is written back as it was leaves the table as it was.
pub set_group_desc_back :
    (sbi : SbInfo) (table : DescTable) (g : ℕ) (d' : GroupDesc) {d : GroupDesc}
    → get_group_desc sbi table g ≡ some d
    → set_group_desc sbi (set_group_desc sbi table g d') g d ≡ table
unfolding set_group_desc
set_group_desc_back sbi table g d' {d = d} h =
    let (low, inner) = found_in sbi table g h in
    let b = desc_buffer sbi g in
    let o = desc_offset sbi g in
    let (descs, buf, at) = desc_in-eq-some (get_elem? table b) o inner in
    let written : get_elem? (set table b (some (set descs o d'))) b ≡ some (some (set descs o d')) =
      get_elem?-set_self table b (some (set descs o d')) (get_elem?_inside table b buf) in
    let back : set descs o d ≡ descs = set-get_elem? descs o at in
    let value : set (set table b (some (set descs o d'))) b (some (set (set descs o d') o d))
        ≡ table =
      set-set table b (some (set descs o d')) (some (set (set descs o d') o d))
      ∙ ap (λ v. set table b (some v)) (set-set descs o d' d ∙ back)
      ∙ set-get_elem? table b buf in
    rw (buf, written) value
