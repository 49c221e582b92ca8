-- ===== src/Prelude/Lists.antt =====
-- Arrays and byte buffers: lists measured and indexed by native numbers, under the library's names.
use Prim.Native.Nat.{ℕ, zero, suc, ◌+◌, ◌-◌, ◌≤◌, ◌<◌, min}
use mathlib.Core.Path.{◌≡◌, refl, ap, ap₂}
use mathlib.Core.Logic.{◌≢◌}
use mathlib.Core.Bool.{Bool, true, false, ◌&&◌}
use mathlib.Core.List.{List, [], ◌∷◌, ◌++◌, map, reverse, reverse_aux}
use mathlib.Core.Option.{Option, none, some}
use native.Mathlib.Omega.{arith}
use operating_systems_ntua.Prelude.Tests.{◌==◌, ltb, if◌then◌else◌}

module _ {ℓ} {A : Type ℓ} where
  abbrev pub length : List A → ℕ
  length [] = 0
  length (x ∷ xs) = suc (length xs)

  abbrev pub get_elem? : List A → ℕ → Option A
  get_elem? [] i = none
  get_elem? (x ∷ xs) zero = some x
  get_elem? (x ∷ xs) (suc i) = get_elem? xs i

  -- A write out of bounds changes nothing.
  abbrev pub set : List A → ℕ → A → List A
  set [] i v = []
  set (x ∷ xs) zero v = v ∷ xs
  set (x ∷ xs) (suc i) v = x ∷ set xs i v

  pub length-append : (xs ys : List A) → length (xs ++ ys) ≡ length xs + length ys
  length-append [] ys = omega arith
  length-append (x ∷ xs) ys = omega (arith, length-append xs ys)

module _ {ℓ} {A : Type ℓ} where
  pub length-set : (xs : List A) (i : ℕ) (v : A) → length (set xs i v) ≡ length xs
  length-set [] i v = refl
  length-set (x ∷ xs) zero v = refl
  length-set (x ∷ xs) (suc i) v = ap suc (length-set xs i v)

  pub get_elem?-set_self :
      (xs : List A) (i : ℕ) (v : A) → i < length xs → get_elem? (set xs i v) i ≡ some v
  get_elem?-set_self [] i v h = elim h [ ]
  get_elem?-set_self (x ∷ xs) zero v h = refl
  get_elem?-set_self (x ∷ xs) (suc i) v h = get_elem?-set_self xs i v (omega arith)

  pub get_elem?-set_ne :
      (xs : List A) {i j : ℕ} (v : A) → i ≢ j → get_elem? (set xs i v) j ≡ get_elem? xs j
  get_elem?-set_ne [] v h = refl
  get_elem?-set_ne (x ∷ xs) {i = zero} {j = zero} v h = absurd (h refl)
  get_elem?-set_ne (x ∷ xs) {i = zero} {j = suc j} v h = refl
  get_elem?-set_ne (x ∷ xs) {i = suc i} {j = zero} v h = refl
  get_elem?-set_ne (x ∷ xs) {i = suc i} {j = suc j} v h = get_elem?-set_ne xs v (λ e. h (ap suc e))

module _ {ℓ} {A : Type ℓ} where
  abbrev pub get_or : List A → ℕ → A → A
  get_or [] i d = d
  get_or (x ∷ xs) zero d = x
  get_or (x ∷ xs) (suc i) d = get_or xs i d

  abbrev pub take : ℕ → List A → List A
  take zero xs = []
  take (suc n) [] = []
  take (suc n) (x ∷ xs) = x ∷ take n xs

  abbrev pub drop : ℕ → List A → List A
  drop zero xs = xs
  drop (suc n) [] = []
  drop (suc n) (x ∷ xs) = drop n xs

  abbrev pub replicate : ℕ → A → List A
  replicate zero a = []
  replicate (suc n) a = a ∷ replicate n a

  pub take-append-drop : (n : ℕ) (xs : List A) → take n xs ++ drop n xs ≡ xs
  take-append-drop zero xs = refl
  take-append-drop (suc n) [] = refl
  take-append-drop (suc n) (x ∷ xs) = rw (take-append-drop n xs)

  pub length-take : (n : ℕ) (xs : List A) → length (take n xs) ≡ min n (length xs)
  length-take zero xs = omega arith
  length-take (suc n) [] = omega arith
  length-take (suc n) (x ∷ xs) = omega (arith, length-take n xs)

  pub length-drop : (n : ℕ) (xs : List A) → length (drop n xs) ≡ length xs - n
  length-drop zero xs = omega arith
  length-drop (suc n) [] = omega arith
  length-drop (suc n) (x ∷ xs) = omega (arith, length-drop n xs)

  pub length-replicate : (n : ℕ) (a : A) → length (replicate n a) ≡ n
  length-replicate zero a = refl
  length-replicate (suc n) a = ap suc (length-replicate n a)

  pub length-map {κ} : {B : Type κ} (xs : List A) (f : A → B) → length (map f xs) ≡ length xs
  length-map [] f = refl
  length-map (x ∷ xs) f = ap suc (length-map xs f)

module _ {ℓ} {A : Type ℓ} where
  pub get_or-set :
      (xs : List A) (i j : ℕ) (v d : A)
      → get_or (set xs i v) j d
        ≡ (if i == j then (if ltb i (length xs) then v else get_or xs j d) else get_or xs j d)
  get_or-set [] i j v d = ground arith
  get_or-set (x ∷ xs) zero zero v d = ground arith
  get_or-set (x ∷ xs) zero (suc j) v d = ground arith
  get_or-set (x ∷ xs) (suc i) zero v d = ground arith
  get_or-set (x ∷ xs) (suc i) (suc j) v d = ground (arith, get_or-set xs i j v d)

module _ {ℓ} {A : Type ℓ} where
  pub get_or-append :
      (xs ys : List A) (k : ℕ) (d : A) → k < length xs → get_or (xs ++ ys) k d ≡ get_or xs k d
  get_or-append [] ys k d h = absurd (omega arith)
  get_or-append (x ∷ xs) ys zero d h = refl
  get_or-append (x ∷ xs) ys (suc k) d h = get_or-append xs ys k d (omega arith)

  pub get_elem?-eq-some :
      (xs : List A) (i : ℕ) → i < length xs → (x : A) × (get_elem? xs i ≡ some x)
  get_elem?-eq-some [] i h = absurd (omega arith)
  get_elem?-eq-some (x ∷ xs) zero h = (x, refl)
  get_elem?-eq-some (x ∷ xs) (suc i) h = get_elem?-eq-some xs i (omega arith)

module _ {ℓ} {A : Type ℓ} where
  length-reverse_aux : (xs ys : List A) → length (reverse_aux xs ys) ≡ length xs + length ys
  length-reverse_aux [] ys = omega arith
  length-reverse_aux (x ∷ xs) ys = omega (arith, length-reverse_aux xs (x ∷ ys))

  pub length-reverse : (xs : List A) → length (reverse xs) ≡ length xs
  length-reverse xs = omega (arith, length-reverse_aux xs [])

module _ {ℓ} {A : Type ℓ} where
  pub take-append-take :
      (a b n : ℕ) (xs : List A) → n ≡ a + b → take a xs ++ take b (drop a xs) ≡ take n xs
  take-append-take zero b n xs e = ap (λ k. take k xs) (omega arith)
  take-append-take (suc a) b zero xs e = absurd (omega arith)
  take-append-take (suc a) zero (suc n) [] e = refl
  take-append-take (suc a) (suc b) (suc n) [] e = refl
  take-append-take (suc a) b (suc n) (x ∷ xs) e = rw (take-append-take a b n xs (omega arith))

  pub drop-drop : (a p n : ℕ) (xs : List A) → n ≡ p + a → drop a (drop p xs) ≡ drop n xs
  drop-drop a zero n xs e = ap (λ k. drop k xs) (omega arith)
  drop-drop a (suc p) zero xs e = absurd (omega arith)
  drop-drop zero (suc p) (suc n) [] e = refl
  drop-drop (suc a) (suc p) (suc n) [] e = refl
  drop-drop a (suc p) (suc n) (x ∷ xs) e = drop-drop a p n xs (omega arith)

  pub take-append_short : (n : ℕ) (xs ys : List A) → n ≤ length xs → take n (xs ++ ys) ≡ take n xs
  take-append_short zero xs ys h = refl
  take-append_short (suc n) [] ys h = absurd (omega arith)
  take-append_short (suc n) (x ∷ xs) ys h =
      ap (λ r. x ∷ r) (take-append_short n xs ys (omega arith))

  pub take_whole : (n : ℕ) (xs : List A) → length xs ≤ n → take n xs ≡ xs
  take_whole zero [] h = refl
  take_whole (suc n) [] h = refl
  take_whole zero (x ∷ xs) h = absurd (omega arith)
  take_whole (suc n) (x ∷ xs) h = rw (take_whole n xs (omega arith))

  pub take_clipped : (n : ℕ) (xs : List A) → take (min n (length xs)) xs ≡ take n xs
  take_clipped zero xs = let e : min 0 (length xs) ≡ 0 = omega arith in ap (λ k. take k xs) e
  take_clipped (suc n) [] = let e : min (suc n) 0 ≡ 0 = omega arith in ap (λ k. take k []) e
  take_clipped (suc n) (x ∷ xs) =
      let e : min (suc n) (length (x ∷ xs)) ≡ suc (min n (length xs)) = omega arith in
      rw e (ap (λ r. x ∷ r) (take_clipped n xs))

  pub take-append_whole : (xs ys : List A) → take (length xs) (xs ++ ys) ≡ xs
  take-append_whole [] ys = refl
  take-append_whole (x ∷ xs) ys = rw (take-append_whole xs ys)

module _ {ℓ} {A : Type ℓ} where
  pub set_same : (xs : List A) (i : ℕ) (d : A) → i < length xs → set xs i (get_or xs i d) ≡ xs
  set_same [] i d h = refl
  set_same (x ∷ xs) zero d h = refl
  set_same (x ∷ xs) (suc i) d h = ap (λ t. x ∷ t) (set_same xs i d (omega arith))

  -- Lists of one length that agree at every index are equal.
  pub eq_of_get_or :
      (xs ys : List A) (d : A)
      → length xs ≡ length ys
      → ((j : ℕ) → get_or xs j d ≡ get_or ys j d)
      → xs ≡ ys
  eq_of_get_or [] [] d l h = refl
  eq_of_get_or [] (y ∷ ys) d l h = absurd (omega arith)
  eq_of_get_or (x ∷ xs) [] d l h = absurd (omega arith)
  eq_of_get_or (x ∷ xs) (y ∷ ys) d l h =
      ap₂ ◌∷◌ (h 0) (eq_of_get_or xs ys d (omega arith) (λ j. h (suc j)))

module _ {ℓ} {A : Type ℓ} where
  pub set-set : (xs : List A) (i : ℕ) (v w : A) → set (set xs i v) i w ≡ set xs i w
  set-set [] i v w = refl
  set-set (x ∷ xs) zero v w = refl
  set-set (x ∷ xs) (suc i) v w = ap (λ t. x ∷ t) (set-set xs i v w)

  pub set-get_elem? : (xs : List A) (i : ℕ) {v : A} → get_elem? xs i ≡ some v → set xs i v ≡ xs
  set-get_elem? [] i h = refl
  set-get_elem? (x ∷ xs) zero h = ap (λ y. y ∷ xs) (ground (arith, h))
  set-get_elem? (x ∷ xs) (suc i) h = ap (λ t. x ∷ t) (set-get_elem? xs i h)

  pub get_elem?_inside : (xs : List A) (i : ℕ) {v : A} → get_elem? xs i ≡ some v → i < length xs
  get_elem?_inside [] i h = ground (arith, h)
  get_elem?_inside (x ∷ xs) zero h = omega arith
  get_elem?_inside (x ∷ xs) (suc i) h = omega (arith, get_elem?_inside xs i h)

-- Two byte strings are equal, as memcmp and strcmp tell.
abbrev pub same_bytes : List ℕ → List ℕ → Bool
same_bytes [] [] = true
same_bytes (x ∷ xs) (y ∷ ys) = (x == y) && same_bytes xs ys
same_bytes _ _ = false
