-- ===== src/Ext2/Dirfile/Listing.antt =====
-- dir.c: the listing of a directory.
use operating_systems_ntua.Prelude.{
  ℕ, zero, suc, ◌+◌, ◌-◌, ◌*◌, ◌/◌, ◌%◌, ◌≤◌, ◌≡◌, refl, sym, ap, ◌∙◌, Bool, true, false, not, ◌&&◌,
  List, [], ◌∷◌, ◌++◌, arith, ltb, leb, ◌==◌, if◌then◌else◌, if-elim, subst, length, length-append,
  Bool-cases, inl, inr, eio, Result, ok, err,
}
use mathlib.Core.List.{append_assoc, append-nil}
use operating_systems_ntua.Ext2.Dir.{page_size, Entry, dir_rec_len, last_byte}
use operating_systems_ntua.Ext2.Dir.Lookup.{IsPage, IsPage-cons}
use operating_systems_ntua.Ext2.Dirfile.{Geometry, Dirfile, dir_pages, get_page}
use operating_systems_ntua.Ext2.Dirfile.Names.{
  GoodFrom, IsSound, readable, entries_from, all_entries,
}

-- `dir_context`: the position, what has been given out, and how many entries still fit.
pub record Ctx : Type 0 where
  pub pos : ℕ
  pub emitted : List (List ℕ × ℕ)
  pub room : ℕ

-- `dir_emit` of an entry that fits
abbrev pub emit : Entry → Ctx → Ctx
emit e c = record c { emitted = c.emitted ++ (e.name, e.inode) ∷ []; room = c.room - 1 }

abbrev pub pass : Entry → Ctx → Ctx
pass e c = let c' = (if e.inode == 0 then c else emit e c) in record c' { pos = c'.pos + e.rec_len }

-- How a page ends: at its last byte, at an entry that does not fit, or at a length of 0.
pub data Listed : Type 0 where
  went full broken : Ctx → Listed

-- The inner loop of `ext2_readdir`
pub list_page : ℕ → ℕ → List Entry → Ctx → Listed
list_page last offs [] c = if leb (offs + dir_rec_len 1) last then broken c else went c
list_page last offs (e ∷ es) c =
    let rest = list_page last (offs + e.rec_len) es (pass e c) in
    if leb (offs + dir_rec_len 1) last
    then (if e.rec_len == 0
        then broken c
        else if not (e.inode == 0) && (c.room == 0)
        then full c
        else rest)
    else went c

-- `ext2_validate_entry`: the first entry at an offset or behind it. The walk of the code starts at the
-- offset's chunk, and no entry crosses into one.
pub validate_entry : ℕ → ℕ → List Entry → ℕ × List Entry
validate_entry target offs [] = (offs, [])
validate_entry target offs (e ∷ es) =
    let rest = validate_entry target (offs + e.rec_len) es in
    if leb target offs then (offs, e ∷ es) else rest

-- `ctx->pos` after the check of an offset, which is made when the directory has changed
abbrev pub revalidated : Bool → ℕ → ℕ → ℕ → Ctx → Ctx
revalidated stale n offset start c =
    if stale && not (offset == 0) then record c { pos = n * page_size + start } else c

abbrev pub list_start : Bool → ℕ → ℕ → ℕ → ℕ × List Entry → Ctx → Listed
list_start stale n last offset (start, es) c =
    list_page last start es (revalidated stale n offset start c)

abbrev pub after_page : (Ctx → Ctx × Result (Unit {0})) → Listed → Ctx × Result (Unit {0})
after_page next (went c) = next c
after_page next (full c) = (c, ok tt)
after_page next (broken c) = (c, err eio)

abbrev pub list_read :
    (Ctx → Ctx × Result (Unit {0}))
    → Bool
    → ℕ
    → ℕ
    → ℕ
    → Result (List Entry)
    → Ctx
    → Ctx × Result (Unit {0})
list_read next stale n last offset (err e) c =
    (record c { pos = c.pos + (page_size - offset) }, err e)
list_read next stale n last offset (ok es) c =
    after_page next (list_start stale n last offset (validate_entry offset 0 es) c)

-- The loop of `ext2_readdir` with `k` pages to go
pub readdir_loop : Geometry → Dirfile → Bool → ℕ → ℕ → ℕ → Ctx → Ctx × Result (Unit {0})
readdir_loop g d stale offset n zero c = (c, ok tt)
readdir_loop g d stale offset n (suc k) c =
    list_read (readdir_loop g d false 0 (n + 1) k) stale n (last_byte d.i_size n) offset
      (get_page g d n) c

-- `ext2_readdir`; `stale` says that the directory has changed since the last call. An offset that was
-- not left by a call, in a directory that has not changed, is taken to be an entry's.
pub readdir : Geometry → Dirfile → Bool → Ctx → Ctx × Result (Unit {0})
readdir g d stale c =
    let n = c.pos / page_size in
    if ltb d.i_size (c.pos + dir_rec_len 1)
    then (c, ok tt)
    else readdir_loop g d stale (c.pos % page_size) n (dir_pages d - n) c

-- The names and numbers of the live entries
abbrev pub live_names : List Entry → List (List ℕ × ℕ)
live_names [] = []
live_names (e ∷ es) = if e.inode == 0 then live_names es else (e.name, e.inode) ∷ live_names es

live_names-append : (xs ys : List Entry) → live_names (xs ++ ys) ≡ live_names xs ++ live_names ys
live_names-append [] ys = refl
live_names-append (x ∷ xs) ys = elim (Bool-cases (x.inode == 0)) [
  | inl free ↦ rw (free, live_names-append xs ys) refl
  | inr used ↦ rw (used, live_names-append xs ys) refl
]

-- What a page with room for its entries comes to.
abbrev Given : Ctx → List Entry → Listed → Type 0
Given c es (went c') =
    (c'.emitted ≡ c.emitted ++ live_names es) × (c'.room ≡ c.room - length (live_names es))
Given c es (full c') = ⊥
Given c es (broken c') = ⊥

pass_free :
    (e : Entry) (c : Ctx) → e.inode == 0 ≡ true → pass e c ≡ record c { pos = c.pos + e.rec_len }
pass_free e c h = rw h refl

pass_used :
    (e : Entry) (c : Ctx)
    → e.inode == 0 ≡ false
    → pass e c ≡ record (emit e c) { pos = c.pos + e.rec_len }
pass_used e c h = rw h refl

Given-pass :
    (c : Ctx) (e : Entry) (es : List Entry) (l : Listed)
    → Given (pass e c) es l
    → Given c (e ∷ es) l
Given-pass c e es (went c') h = elim (Bool-cases (e.inode == 0)) [
  | inl free ↦ rw free (subst (λ x. Given x es (went c')) (pass_free e c free) h)
  | inr used ↦
      let (same, room) = subst (λ x. Given x es (went c')) (pass_used e c used) h in
      rw used (
        same ∙ append_assoc c.emitted ((e.name, e.inode) ∷ []) (live_names es),
        omega (arith, room),
      )
]
Given-pass c e es (full c') h = h
Given-pass c e es (broken c') h = h

list_page-Given :
    (chunk max_inumber limit offs : ℕ) (es : List Entry) (c : Ctx)
    → IsPage chunk max_inumber limit offs es
    → length (live_names es) ≤ c.room
    → Given c es (list_page limit offs es c)
unfolding list_page
list_page-Given chunk max_inumber limit offs [] c p r =
    if-elim (Given c []) (leb (offs + dir_rec_len 1) limit) (λ far. ground (arith, far, p.ends))
      (λ _. (sym (append-nil c.emitted), omega arith))
list_page-Given chunk max_inumber limit offs (e ∷ es) c p r =
    let (good, low, rest) = IsPage-cons chunk max_inumber limit offs e es p in
    let P = Given c (e ∷ es) in
    if-elim P (leb (offs + dir_rec_len 1) limit)
      (λ _.
        if-elim P (e.rec_len == 0) (λ z. ground (arith, z, p.real))
          (λ _.
            if-elim P (not (e.inode == 0) && (c.room == 0)) (λ out. ground (arith, out, r))
              (λ _. Given-pass c e es (list_page limit (offs + e.rec_len) es (pass e c)) (
                list_page-Given chunk max_inumber limit (offs + e.rec_len) es (pass e c) rest
                  (ground (arith, r))))))
      (λ stop. absurd (ground (arith, stop, low)))

-- What a call comes to that gives out entries.
abbrev Whole : Ctx → List Entry → Ctx × Result (Unit {0}) → Type 0
Whole c es (c', r) = (c'.emitted ≡ c.emitted ++ live_names es) × (r ≡ ok tt)

after_page-Whole :
    (next : Ctx → Ctx × Result (Unit {0})) (c : Ctx) (es more : List Entry) (l : Listed)
    → Given c es l
    → length (live_names (es ++ more)) ≤ c.room
    → ((c' : Ctx) → length (live_names more) ≤ c'.room → Whole c' more (next c'))
    → Whole c (es ++ more) (after_page next l)
after_page-Whole next c es more (full c') h r go = absurd h
after_page-Whole next c es more (broken c') h r go = absurd h
after_page-Whole next c es more (went c') (same, room) r go =
    let parts = live_names-append es more in
    let sizes : length (live_names (es ++ more))
        ≡ length (live_names es) + length (live_names more) =
      ap length parts ∙ length-append (live_names es) (live_names more) in
    let (rest, fine) = go c' (omega (arith, room, r, sizes)) in
    (
      rest
          ∙ ap (λ x. x ++ live_names more) same
          ∙ append_assoc c.emitted (live_names es) (live_names more)
          ∙ ap (λ x. c.emitted ++ x) (sym parts),
      fine,
    )

from_start : (es : List Entry) → validate_entry 0 0 es ≡ (0, es)
unfolding validate_entry
from_start [] = refl
from_start (e ∷ es) = refl

revalidated_start : (stale : Bool) (n start : ℕ) (c : Ctx) → revalidated stale n 0 start c ≡ c
revalidated_start true n start c = refl
revalidated_start false n start c = refl

readdir_loop-Whole :
    (g : Geometry) (d : Dirfile) (stale : Bool) (i n : ℕ) (c : Ctx)
    → GoodFrom g d i n
    → length (live_names (entries_from g d i n)) ≤ c.room
    → Whole c (entries_from g d i n) (readdir_loop g d stale 0 i n c)
unfolding readdir_loop
readdir_loop-Whole g d stale i zero c s r = (sym (append-nil c.emitted), refl)
readdir_loop-Whole g d stale i (suc n) c (p, s) r =
    let next = readdir_loop g d false 0 (i + 1) n in
    let last = last_byte d.i_size i in
    let more = entries_from g d (i + 1) n in
    let all : length (live_names (p.entries ++ more)) ≤ c.room =
      subst (λ x. length (live_names (readable x ++ more)) ≤ c.room) p.reads r in
    let sizes : length (live_names (p.entries ++ more))
        ≡ length (live_names p.entries) + length (live_names more) =
      ap length (live_names-append p.entries more)
      ∙ length-append (live_names p.entries) (live_names more) in
    let here : list_start stale i last 0 (validate_entry 0 0 p.entries) c
        ≡ list_page last 0 p.entries c =
      ap (λ v. list_start stale i last 0 v c) (from_start p.entries)
      ∙ ap (list_page last 0 p.entries) (revalidated_start stale i 0 c) in
    rw (p.reads, here)
      (after_page-Whole next c p.entries more (list_page last 0 p.entries c)
        (list_page-Given g.chunk g.max_inumber last 0 p.entries c p.page
          (omega (arith, all, sizes)))
        all (λ c' r'. readdir_loop-Whole g d false (i + 1) n c' s r'))

-- A call of `ext2_readdir` at the start of a directory whose pages are good, with room for every entry,
-- gives out the names and numbers of the live entries of the whole directory, in their order, and
-- succeeds, whether or not the directory has changed since the last call. The directory is not shorter
-- than one entry.
pub readdir-live_names :
    (g : Geometry) (d : Dirfile) (stale : Bool) (room : ℕ)
    → IsSound g d
    → dir_rec_len 1 ≤ d.i_size
    → length (live_names (all_entries g d)) ≤ room
    → let r = readdir g d stale (record { pos = 0; emitted = []; room = room }) in
      (r.0.emitted ≡ live_names (all_entries g d)) × (r.1 ≡ ok tt)
unfolding readdir
readdir-live_names g d stale room s long r =
    let fits : ltb d.i_size (0 + dir_rec_len 1) ≡ false = ground (arith, long) in
    let pages : dir_pages d - 0 ≡ dir_pages d = omega arith in
    rw (fits, pages)
      (readdir_loop-Whole g d stale 0 (dir_pages d) (record { pos = 0; emitted = []; room = room })
        s r)
