-- ===== src/Ext2/Dirfile/Pages.antt =====
-- The pages of a directory of dir.c: what they hold before and after one of them is written.
use operating_systems_ntua.Prelude.{
  ℕ, zero, suc, ◌+◌, ◌-◌, ◌*◌, ◌/◌, ◌%◌, ◌^◌, ◌≤◌, ◌<◌, ◌≡◌, refl, sym, ◌∙◌, Bool, true, false,
  ◌&&◌, ◌||◌, Option, none, some, List, [], ◌∷◌, arith, ltb, leb, ◌==◌, if-elim, length, get_or,
  subst, Bool-cases, inl, inr, Errno, Result, ok,
}
use Prim.Native.Nat.{◌∣◌}
use native.Mathlib.Nat.{
  dvd_trans, dvd-mul_right, dvd-mul_left_of_dvd, dvd-mod_iff, dvd-sub, dvd-add, dvd_iff_mod-eq-zero,
  dvd_of_mod-eq-zero, div-add-mod, mul-le-mul_left,
}
use operating_systems_ntua.Ext2.Dir.{
  page_size, Entry, last_byte, Look, found, absent, zero_length, find_in_page, check_page,
  check_entries,
}
use operating_systems_ntua.Ext2.Dir.Lookup.{inode_of, IsPage}
use operating_systems_ntua.Ext2.Dir.Valid.{named}
use operating_systems_ntua.Ext2.Dirfile.{
  Geometry, Page, blank_page, Dirfile, Position, found_in_page, checked_page, dir_pages, get_page,
  find_loop, number_at, put_page,
}
use operating_systems_ntua.Ext2.Dirfile.Names.{IsGood, GoodFrom, IsSound}

-- A search that passes pages without the name, and finds its number in one of the next `k` pages.
pub data Way (g : Geometry) (d : Dirfile) (name : List ℕ) (ino : ℕ) : ℕ → ℕ → Type 0 where
  here :
      {n k : ℕ} (es : List Entry)
      → get_page g d n ≡ ok es
      → inode_of (find_in_page name (last_byte d.i_size n) 0 es) ≡ some ino
      → Way g d name ino n (suc k)
  further :
      {n k : ℕ} (es : List Entry)
      → get_page g d n ≡ ok es
      → find_in_page name (last_byte d.i_size n) 0 es ≡ absent
      → Way g d name ino (n + 1) k
      → Way g d name ino n (suc k)

number_found :
    (next : Result Position) (n ino : ℕ) (l : Look)
    → inode_of l ≡ some ino
    → number_at (found_in_page next n l) ≡ ok ino
number_found next n ino (found offs e) h = ground (arith, h)
number_found next n ino absent h = ground (arith, h)
number_found next n ino zero_length h = ground (arith, h)

pub find_loop-Way :
    (g : Geometry) (d : Dirfile) (name : List ℕ) (ino : ℕ) {n k : ℕ}
    → Way g d name ino n k
    → number_at (find_loop g d name n k) ≡ ok ino
unfolding find_loop
find_loop-Way g d name ino (here {n = n} {k = k} es e f) = rw e (
    number_found (find_loop g d name (n + 1) k) n ino
      (find_in_page name (last_byte d.i_size n) 0 es) f)
find_loop-Way g d name ino (further es e f w) = rw (e, f) (find_loop-Way g d name ino w)

-- The chunks of a page: what ends before the page ends a chunk before it.
pub aligned :
    (chunk limit : ℕ)
    → limit % chunk ≡ 0
    → page_size % chunk ≡ 0
    → limit < page_size
    → limit + chunk ≤ page_size
aligned chunk limit a b l =
    let x = div-add-mod limit chunk in
    let y = div-add-mod page_size chunk in
    elim (Bool-cases (leb (limit / chunk + 1) (page_size / chunk))) [
      | inl le ↦
          let m : chunk * (limit / chunk + 1) ≤ chunk * (page_size / chunk) =
            mul-le-mul_left chunk (ground (arith, le)) in
          omega (arith, m, x, y, a, b)
      | inr gt ↦
          let m : chunk * (page_size / chunk) ≤ chunk * (limit / chunk) =
            mul-le-mul_left chunk (ground (arith, gt)) in
          absurd (omega (arith, m, x, y, a, b, l))
    ]

-- The last byte of a page that is full, and of one that has grown.
pub last_byte-full :
    (i_size n : ℕ) → i_size < 2 ^ 32 → (n + 1) * page_size ≤ i_size → last_byte i_size n ≡ page_size
last_byte-full i_size n small l = ground (arith, small, l)

pub last_byte-end :
    (i_size n end : ℕ)
    → i_size < 2 ^ 32
    → i_size ≡ n * page_size + end
    → end ≤ page_size
    → last_byte i_size n ≡ end
last_byte-end i_size n end small e l = ground (arith, small, e, l)

-- A page that has passed its check before, and that can be read
abbrev pub is_ready : Page → Bool
is_ready p = elim p.read_error [ none ↦ p.is_checked | some e ↦ false ]

abbrev pub all_ready : List Page → Bool
all_ready [] = true
all_ready (p ∷ ps) = is_ready p && all_ready ps

abbrev pub all_named : List Page → Bool
all_named [] = true
all_named (p ∷ ps) = named p.entries && all_named ps

pub ready_at :
    (ps : List Page) (n : ℕ)
    → all_ready ps ≡ true
    → n < length ps
    → is_ready (get_or ps n blank_page) ≡ true
ready_at [] n a h = absurd (omega (arith, h))
ready_at (p ∷ ps) zero a h = ground (arith, a)
ready_at (p ∷ ps) (suc n) a h = ready_at ps n (ground (arith, a)) (omega (arith, h))

named_at :
    (ps : List Page) (n : ℕ) → all_named ps ≡ true → named (get_or ps n blank_page).entries ≡ true
named_at [] n a = refl
named_at (p ∷ ps) zero a = ground (arith, a)
named_at (p ∷ ps) (suc n) a = named_at ps n (ground (arith, a))

blank_at : (ps : List Page) (n : ℕ) → length ps ≤ n → get_or ps n blank_page ≡ blank_page
blank_at [] n h = refl
blank_at (p ∷ ps) zero h = absurd (omega (arith, h))
blank_at (p ∷ ps) (suc n) h = blank_at ps n (omega (arith, h))

pub checked_page-ready :
    (g : Geometry) (i_size n : ℕ) (p : Page)
    → is_ready p ≡ true
    → checked_page g i_size n p p.read_error ≡ ok p.entries
checked_page-ready g i_size n p h = go p.read_error refl
  where
    go : (o : Option Errno) → p.read_error ≡ o → checked_page g i_size n p o ≡ ok p.entries
    go none e = ground (arith, h, e)
    go (some x) e = ground (arith, h, e)

pub put_other :
    (ps : List Page) (n j : ℕ) (es : List Entry)
    → j < n
    → get_or (put_page true ps n es) j blank_page ≡ get_or ps j blank_page
put_other [] zero j es h = absurd (omega (arith, h))
put_other [] (suc n) zero es h = refl
put_other [] (suc n) (suc j) es h = put_other [] n j es (omega (arith, h))
put_other (p ∷ ps) zero j es h = absurd (omega (arith, h))
put_other (p ∷ ps) (suc n) zero es h = refl
put_other (p ∷ ps) (suc n) (suc j) es h = put_other ps n j es (omega (arith, h))

pub put_here :
    (ps : List Page) (n : ℕ) (es : List Entry)
    → all_ready ps ≡ true
    → (is_ready (get_or (put_page true ps n es) n blank_page) ≡ true)
      × ((get_or (put_page true ps n es) n blank_page).entries ≡ es)
put_here [] zero es a = (refl, refl)
put_here [] (suc n) es a = put_here [] n es refl
put_here (p ∷ ps) zero es a = (ready_marked p es (ground (arith, a)), refl)
  where
    ready_marked :
        (p : Page) (es : List Entry)
        → is_ready p ≡ true
        → is_ready (record p { entries = es; is_checked = p.is_checked || true }) ≡ true
    ready_marked p es h = ground (arith, h)
put_here (p ∷ ps) (suc n) es a = put_here ps n es (ground (arith, a))

pub last_byte-mod :
    (chunk i_size n : ℕ)
    → i_size % chunk ≡ 0
    → page_size % chunk ≡ 0
    → last_byte i_size n % chunk ≡ 0
last_byte-mod chunk i_size n a b =
    let page : chunk ∣ page_size = dvd_of_mod-eq-zero chunk b in
    let whole : chunk ∣ 2 ^ 32 = dvd_trans chunk page (dvd-mul_right page_size (2 ^ 20)) in
    let start : chunk ∣ n * page_size % 2 ^ 32 =
      (dvd-mod_iff chunk whole).1 (dvd-mul_left_of_dvd chunk page n) in
    let rest : chunk ∣ i_size + 2 ^ 32 - n * page_size % 2 ^ 32 =
      dvd-sub chunk (dvd-add chunk (dvd_of_mod-eq-zero chunk a) whole) start in
    let l = (i_size + 2 ^ 32 - n * page_size % 2 ^ 32) % 2 ^ 32 in
    let cut : l % chunk ≡ 0 =
      (dvd_iff_mod-eq-zero chunk {n = l}).0 ((dvd-mod_iff chunk whole).1 rest) in
    if-elim (λ x. x % chunk ≡ 0) (ltb page_size l) (λ _. b) (λ _. cut)

-- What a directory has that is used as it should be.
pub record IsKept (g : Geometry) (d : Dirfile) : Type 0 where
  pub small : d.i_size + g.chunk < 2 ^ 32
  pub as_long : length d.pages ≡ dir_pages d
  pub ready : all_ready d.pages ≡ true
  pub names : all_named d.pages ≡ true
  pub sound : IsSound g d
  pub some_chunk : 0 < g.chunk
  pub words : g.chunk % 4 ≡ 0
  pub chunks_of_page : page_size % g.chunk ≡ 0
  pub chunks : d.i_size % g.chunk ≡ 0

GoodFrom-IsGood :
    (g : Geometry) (d : Dirfile) (i n j : ℕ) → GoodFrom g d i n → i ≤ j → j < i + n → IsGood g d j
GoodFrom-IsGood g d i zero j s p q = absurd (omega (arith, p, q))
GoodFrom-IsGood g d i (suc n) j (first, rest) p q = elim (Bool-cases (i == j)) [
  | inl e ↦ let same : i ≡ j = ground (arith, e) in subst (IsGood g d) same first
  | inr ne ↦ GoodFrom-IsGood g d (i + 1) n j rest (ground (arith, p, ne)) (omega (arith, q))
]

pub ok_inj : {x y : List Entry} → ok x ≡ ok y → x ≡ y
ok_inj h = ground (arith, h)

module _ (g : Geometry) (d : Dirfile) (k : IsKept g d) where
  -- What a page up to the one behind the directory is, when it can be got.
  pub record Got (n : ℕ) (es : List Entry) : Type 0 where
    pub page : IsPage g.chunk g.max_inumber (last_byte d.i_size n) 0 es
    pub has_names : named es ≡ true
    pub begins : n * page_size ≤ d.i_size

  blank_got :
      (n : ℕ) (p : Page) {es : List Entry}
      → p ≡ blank_page
      → checked_page g d.i_size n p p.read_error ≡ ok es
      → (es ≡ []) × (d.i_size / page_size ≡ n)
  unfolding check_page check_entries
  blank_got n p {es = es} b e =
      let f = subst (λ x. checked_page g d.i_size n x x.read_error ≡ ok es) b e in ground (arith, f)

  pub get_page-Got : (n : ℕ) {es : List Entry} → n ≤ dir_pages d → get_page g d n ≡ ok es → Got n es
  unfolding get_page check_entries
  get_page-Got n {es = es} h e = elim (Bool-cases (ltb n (dir_pages d))) [
    | inl inside ↦
        let low : n < dir_pages d = ground (arith, inside) in
        let good =
          GoodFrom-IsGood g d 0 (dir_pages d) n k.sound (omega arith) (omega (arith, low)) in
        let there : n < length d.pages = omega (arith, low, k.as_long) in
        let p = get_or d.pages n blank_page in
        let ready = checked_page-ready g d.i_size n p (ready_at d.pages n k.ready there) in
        let same : p.entries ≡ es = ok_inj (sym ready ∙ e) in
        let own : good.entries ≡ es = ok_inj (sym good.reads ∙ e) in
        record {
          page = subst (IsPage g.chunk g.max_inumber (last_byte d.i_size n) 0) own good.page;
          has_names = subst (λ x. named x ≡ true) same (named_at d.pages n k.names);
          begins = omega (arith, low);
        }
    | inr behind ↦
        let last : dir_pages d ≤ n = ground (arith, behind) in
        let blank = blank_at d.pages n (omega (arith, k.as_long, last)) in
        let (none_there, whole) = blank_got n (get_or d.pages n blank_page) blank e in
        let exact : d.i_size ≡ n * page_size + 0 = omega (arith, last, whole, h) in
        let at_end : last_byte d.i_size n ≡ 0 =
          last_byte-end d.i_size n 0 (omega (arith, k.small)) exact (omega arith) in
        record {
          page = rw (none_there, at_end) record { checked = refl; ends = refl; real = refl };
          has_names = rw none_there refl;
          begins = omega (arith, exact);
        }
  ]
