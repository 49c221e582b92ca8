-- ===== src/Ext2/Ialloc/Hash.antt =====
-- The quadratic search of `find_group` of ialloc.c.
use operating_systems_ntua.Prelude.{
  ℕ, zero, suc, ◌+◌, ◌-◌, ◌*◌, ◌%◌, ◌^◌, ◌≤◌, ◌<◌, ◌≡◌, refl, sym, ap, ◌∙◌, Bool, true, false,
  Option, none, some, arith, ltb, leb, ◌==◌, if◌then◌else◌, if-elim, Bool-cases, inl, inr, subst,
}
use native.Mathlib.Nat.{
  mod-eq_of_lt, add-mod_right, mod-add-mod, two-pow-succ, pow-suc, pow-le-pow_right, mod-lt,
}
use operating_systems_ntua.Ext2.Groups.{SbInfo, DescTable, get_group_desc}
use operating_systems_ntua.Ext2.Ialloc.{has_both, hash_loop}

-- The group of a round, counted from 0: the start plus 1 + 2 + 4 + ..., around the number of groups
abbrev pub probe : ℕ → ℕ → ℕ → ℕ
probe n start k = (start + 2 ^ suc k - 1) % n

wrapped :
    (n group i : ℕ)
    → group < n
    → i < n
    → (if leb n (group + i) then group + i - n else group + i) ≡ (group + i) % n
wrapped n group i h k = elim (Bool-cases (leb n (group + i))) [
  | inl over ↦
      let le : n ≤ group + i = ground (arith, over) in
      let small : group + i - n < n = omega arith in
      let split : group + i - n + n ≡ group + i = omega arith in
      rw over
        (sym (mod-eq_of_lt small) ∙ sym (add-mod_right (group + i - n) n) ∙ ap (λ m. m % n) split)
  | inr inside ↦
      let lt : group + i < n = ground (arith, inside) in rw inside (sym (mod-eq_of_lt lt))
]

next_probe : (n start k : ℕ) → ((start + 2 ^ k - 1) % n + 2 ^ k) % n ≡ probe n start k
next_probe n start k =
    let some_power : 1 ≤ 2 ^ k = pow-le-pow_right (omega arith) {i = 0} {j = k} (omega arith) in
    let more : start + 2 ^ k - 1 + 2 ^ k ≡ start + 2 ^ suc k - 1 =
      omega (arith, two-pow-succ k, some_power) in
    mod-add-mod (start + 2 ^ k - 1) n (2 ^ k) ∙ ap (λ m. m % n) more

module _ (sbi : SbInfo) (table : DescTable) (start : ℕ) where
  -- Whether a round finds a group with a free inode and a free block
  abbrev pub hits : ℕ → Bool
  hits k = has_both (get_group_desc sbi table (probe sbi.s_groups_count start k))

  -- The first group that is found from a round on, or none in any round whose step is in range
  abbrev pub FirstFrom : ℕ → Option ℕ → Type 0
  FirstFrom k none = (j : ℕ) → k ≤ j → 2 ^ j < sbi.s_groups_count → hits j ≡ false
  FirstFrom k (some g) =
      (m : ℕ) × (k ≤ m)
      × (2 ^ m < sbi.s_groups_count)
      × (g ≡ probe sbi.s_groups_count start m)
      × (hits m ≡ true)
      × ((j : ℕ) → k ≤ j → j < m → hits j ≡ false)

  miss-before : (k j : ℕ) → hits k ≡ false → k ≤ j → (suc k ≤ j → hits j ≡ false) → hits j ≡ false
  miss-before k j miss h later = elim (Bool-cases (k == j)) [
    | inl e ↦ let same : k ≡ j = ground (arith, e) in subst (λ i. hits i ≡ false) same miss
    | inr e ↦ later (ground (arith, e))
  ]

  FirstFrom-suc : (k : ℕ) (o : Option ℕ) → hits k ≡ false → FirstFrom (suc k) o → FirstFrom k o
  FirstFrom-suc k none miss f = λ j h l. miss-before k j miss h (λ h'. f j h' l)
  FirstFrom-suc k (some g) miss f =
      let (m, above, small, place, hit, before) = f in
      (
        m,
        omega (arith, above),
        small,
        place,
        hit,
        λ j h l. miss-before k j miss h (λ h'. before j h' l),
      )

  out_of_range : (k : ℕ) → sbi.s_groups_count ≤ 2 ^ k → FirstFrom k none
  out_of_range k h = λ j above small.
      let grows = pow-le-pow_right {n = 2} (omega arith) {i = k} {j = j} above in
      absurd (omega (arith, h, grows, small))

  hash_loop-from :
      (fuel group k : ℕ)
      → start < sbi.s_groups_count
      → sbi.s_groups_count ≤ 2 ^ k + fuel
      → group ≡ (start + 2 ^ k - 1) % sbi.s_groups_count
      → FirstFrom k (hash_loop sbi table fuel group (2 ^ k))
  unfolding hash_loop
  hash_loop-from zero group k s h e = out_of_range k (omega arith)
  hash_loop-from (suc fuel) group k s h e = elim (Bool-cases (ltb (2 ^ k) sbi.s_groups_count)) [
    | inr stop ↦ rw stop (out_of_range k (ground (arith, stop)))
    | inl go ↦
        let n = sbi.s_groups_count in
        let lt : 2 ^ k < n = ground (arith, go) in
        let some_power : 1 ≤ 2 ^ k = pow-le-pow_right (omega arith) {i = 0} {j = k} (omega arith) in
        let inside : group < n =
          subst (λ g. g < n) (sym e) (mod-lt (start + 2 ^ k - 1) (omega arith)) in
        let next =
          wrapped n group (2 ^ k) inside lt ∙ ap (λ g. (g + 2 ^ k) % n) e ∙ next_probe n start k in
        let place = probe n start k in
        let shape : hash_loop sbi table (suc fuel) group (2 ^ k)
            ≡ (if hits k then some place else hash_loop sbi table fuel place (2 ^ suc k)) =
          ap
            (λ b.
              if b
              then (if has_both (
                    get_group_desc sbi table
                      (if leb n (group + 2 ^ k) then group + 2 ^ k - n else group + 2 ^ k))
                  then some (if leb n (group + 2 ^ k) then group + 2 ^ k - n else group + 2 ^ k)
                  else hash_loop sbi table fuel
                      (if leb n (group + 2 ^ k) then group + 2 ^ k - n else group + 2 ^ k)
                      (2 ^ k * 2))
              else none)
            go
          ∙ ap
              (λ m.
                if has_both (get_group_desc sbi table m)
                then some m
                else hash_loop sbi table fuel m (2 ^ k * 2))
              next
          ∙ ap (λ i. if hits k then some place else hash_loop sbi table fuel place i)
              (sym (pow-suc 2 k)) in
        subst (FirstFrom k) (sym shape) (
          if-elim (FirstFrom k) (hits k)
            (λ hit. (k, omega arith, lt, refl, hit, λ j h l. absurd (omega arith)))
            (λ miss. FirstFrom-suc k (hash_loop sbi table fuel place (2 ^ suc k)) miss (
              hash_loop-from fuel place (suc k) s (omega (arith, h, two-pow-succ k, some_power))
                refl)))
  ]

  -- The quadratic search of `find_group`, with as many rounds as there are groups, ends as the unbounded loop
  -- does: round k, counted from 0, looks at the group 2 ^ (k + 1) - 1 places behind the start, around the
  -- number of groups, as long as its step 2 ^ k is less than that number; the search returns the group of the
  -- first round that has both a free inode and a free block, and fails only if no such round finds one. The
  -- start is the number of a group, and there are 2 ^ 30 groups at most, so that no number exceeds an int.
  pub hash_loop-FirstFrom :
      start < sbi.s_groups_count
      → sbi.s_groups_count ≤ 2 ^ 30
      → FirstFrom 0 (hash_loop sbi table sbi.s_groups_count start 1)
  hash_loop-FirstFrom s few =
      let e : start + 2 ^ 0 - 1 ≡ start = omega arith in
      hash_loop-from sbi.s_groups_count start 0 s (omega arith)
        (sym (ap (λ m. m % sbi.s_groups_count) e ∙ mod-eq_of_lt s))
