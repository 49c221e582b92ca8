-- ===== src/Lunix/Chrdev/Text.antt =====
-- The text that lunix-chrdev.c makes of a measurement: how it is read back, how long it is, and
-- what it says as a decimal fraction.
use operating_systems_ntua.Prelude.{
  ℕ, zero, suc, ◌+◌, ◌-◌, ◌*◌, ◌/◌, ◌%◌, ◌^◌, ◌≤◌, ◌<◌, ◌≡◌, refl, ap, ◌∙◌, Bool, true, ◌&&◌,
  Option, none, some, List, [], ◌∷◌, ◌++◌, arith, ltb, leb, ◌==◌, if◌then◌else◌, length,
  length-append, Bool-cases, inl, inr, all_below, all_below_lem,
}
use mathlib.Core.Bool.{◌||◌}
use native.Mathlib.Nat.{pow-suc}
use operating_systems_ntua.Prelude.Int.{ℤ, pos, negsuc, nat_abs}
use operating_systems_ntua.Lunix.Chrdev.{digits, decimal, sign, text}

abbrev pub is_digit : ℕ → Bool
is_digit c = leb 48 c && ltb c 58

-- The number that a text begins with, on top of `acc`, and the rest of the text.
abbrev pub read_number : ℕ → List ℕ → ℕ × List ℕ
read_number acc [] = (acc, [])
read_number acc (c ∷ cs) =
    let more = read_number (acc * 10 + (c - 48)) cs in if is_digit c then more else (acc, c ∷ cs)

-- One digit read.
read_number-cons :
    (acc d : ℕ) (rest : List ℕ)
    → d < 10
    → read_number acc ((48 + d) ∷ rest) ≡ read_number (acc * 10 + d) rest
read_number-cons acc d rest h =
    let e : 48 + d - 48 ≡ d = omega arith in
    let digit : is_digit (48 + d) ≡ true = ground arith in rw (digit, e)

read_number-digits :
    (f n : ℕ) (rest : List ℕ) → n < f → read_number 0 (digits f n rest) ≡ read_number n rest
unfolding digits
read_number-digits zero n rest h = elim h [ ]
read_number-digits (suc f) n rest h = elim (Bool-cases (ltb n 10)) [
  | inl small ↦
      let same : 0 * 10 + n ≡ n = omega arith in
      rw small (read_number-cons 0 n rest (ground arith) ∙ ap (λ t. read_number t rest) same)
  | inr large ↦
      let joined : n / 10 * 10 + n % 10 ≡ n = omega arith in
      rw large (
        read_number-digits f (n / 10) ((48 + n % 10) ∷ rest) (ground arith)
        ∙ read_number-cons (n / 10) (n % 10) rest (omega arith)
        ∙ ap (λ t. read_number t rest) joined)
]

-- A text of the driver read as a number of thousandths with its sign.
abbrev pub signed : ℕ → ℕ → ℤ
signed c n = if c == b'-' then negsuc (n - 1) else pos n

abbrev pub join_parts : ℕ → ℕ × List ℕ → Option ℤ
join_parts c (whole, []) = none
join_parts c (whole, comma ∷ rest) = some (signed c (whole * 1000 + (read_number 0 rest).0))

abbrev pub parse : List ℕ → Option ℤ
parse [] = none
parse (c ∷ cs) = join_parts c (read_number 0 cs)

signed-sign : (v : ℤ) → signed (sign v) (nat_abs v) ≡ v
signed-sign (pos n) = refl
signed-sign (negsuc n) = ground arith

digits-append : (f n : ℕ) (rest tail : List ℕ) → digits f n rest ++ tail ≡ digits f n (rest ++ tail)
unfolding digits
digits-append zero n rest tail = refl
digits-append (suc f) n rest tail =
    ground (arith, digits-append f (n / 10) ((48 + n % 10) ∷ rest) tail)

read_number-text :
    (n : ℕ) (tail : List ℕ) → read_number 0 (decimal n ++ (b',' ∷ tail)) ≡ (n, b',' ∷ tail)
read_number-text n tail =
    rw (digits-append (n + 1) n [] (b',' ∷ tail))
      (read_number-digits (n + 1) n (b',' ∷ tail) (omega arith))

-- The text determines the measurement: reading the two numbers beside the comma gives it back.
pub parse-text : (v : ℤ) → parse (text v) ≡ some v
parse-text v =
    let n = nat_abs v in
    let joined : n / 1000 * 1000 + n % 1000 ≡ n = omega arith in
    let rest = read_number-digits (n % 1000 + 1) (n % 1000) [] (omega arith) in
    ap (join_parts (sign v)) (read_number-text (n / 1000) (decimal (n % 1000)))
    ∙ ap (λ t. some (signed (sign v) (n / 1000 * 1000 + t.0))) rest
    ∙ ap (λ t. some (signed (sign v) t)) joined
    ∙ ap some (signed-sign v)

length-digits :
    (f n k : ℕ) (rest : List ℕ) → n < 10 ^ suc k → length (digits f n rest) ≤ suc k + length rest
unfolding digits
length-digits zero n k rest h = omega arith
length-digits (suc f) n zero rest h = ground arith
length-digits (suc f) n (suc k) rest h =
    ground (arith, pow-suc 10 (suc k), length-digits f (n / 10) k ((48 + n % 10) ∷ rest))

-- A measurement below 10 ^ 12 in size, such as every entry of the driver's tables, is never cut: its
-- text has at most 14 bytes, less than the 20 of the buffer.
pub length-text : (v : ℤ) → nat_abs v < 10 ^ 12 → length (text v) ≤ 14
length-text v h = omega (
  arith,
  length-append (decimal (nat_abs v / 1000)) (b',' ∷ decimal (nat_abs v % 1000)),
  length-digits (nat_abs v / 1000 + 1) (nat_abs v / 1000) 8 [] (omega arith),
  length-digits (nat_abs v % 1000 + 1) (nat_abs v % 1000) 2 [] (omega arith),
)

-- The thousandths that the digits behind a decimal comma stand for.
abbrev pub fraction : List ℕ → ℕ
fraction [] = 0
fraction (a ∷ []) = (a - 48) * 100
fraction (a ∷ b ∷ []) = (a - 48) * 100 + (b - 48) * 10
fraction (a ∷ b ∷ c ∷ _) = (a - 48) * 100 + (b - 48) * 10 + (c - 48)

misread_table :
    all_below 1000 (λ m.
      if ltb m 100 then (m == 0 || ltb m (fraction (decimal m))) else fraction (decimal m) == m)
    ≡ true
unfolding all_below digits
misread_table = refl

abbrev join_decimal : ℕ × List ℕ → ℕ
join_decimal (whole, []) = whole * 1000
join_decimal (whole, comma ∷ rest) = whole * 1000 + fraction rest

-- The thousandths that a text stands for, if its comma is a decimal comma.
abbrev pub as_decimal : List ℕ → ℕ
as_decimal [] = 0
as_decimal (c ∷ cs) = join_decimal (read_number 0 cs)

lt-fraction-decimal : (m : ℕ) → 0 < m → m < 100 → m < fraction (decimal m)
lt-fraction-decimal m low high = ground (
  arith,
  all_below_lem 1000
      (λ (m : ℕ).
        if ltb m 100 then (m == 0 || ltb m (fraction (decimal m))) else fraction (decimal m) == m)
      m misread_table,
)

-- Taken for a decimal fraction, the text of a measurement whose thousandths are below 100, but not 0,
-- says more than was measured: the zeros behind the comma are not printed.
pub text_misread :
    (v : ℤ) → 0 < nat_abs v % 1000 → nat_abs v % 1000 < 100 → nat_abs v < as_decimal (text v)
text_misread v low high =
    let n = nat_abs v in
    let parts = read_number-text (n / 1000) (decimal (n % 1000)) in
    let whole : as_decimal (text v) ≡ n / 1000 * 1000 + fraction (decimal (n % 1000)) =
      ap join_decimal parts in
    omega (arith, whole, lt-fraction-decimal (n % 1000) low high)
