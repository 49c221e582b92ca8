-- ===== src/Projects/Client.antt =====
-- projects/project4/tcp_client.c: the arguments of the client. An argument is the list of its bytes.
pub mod Written
use operating_systems_ntua.Prelude.{
  ℕ, zero, suc, ◌+◌, ◌*◌, ◌≤◌, ◌≡◌, refl, sym, ap, ◌∙◌, Bool, true, false, not, ◌&&◌, ◌||◌, Option,
  none, some, List, [], ◌∷◌, ◌++◌, arith, ltb, leb, ◌==◌, if◌then◌else◌, if-elim, length, take,
  Bool-cases, inl, inr,
}
use operating_systems_ntua.Prelude.Int.{ℤ}
use operating_systems_ntua.Prelude.{same_bytes}

-- HOST, PORT and DEBUG
pub record Settings : Type 0 where
  pub host : List ℕ
  pub port : ℤ
  pub debug : Bool

-- "--"
abbrev pub dashes : List ℕ
dashes = b'-' ∷ b'-' ∷ []

abbrev pub word_host : List ℕ
word_host = b'-' ∷ b'-' ∷ b'h' ∷ b'o' ∷ b's' ∷ b't' ∷ []

abbrev pub word_port : List ℕ
word_port = b'-' ∷ b'-' ∷ b'p' ∷ b'o' ∷ b'r' ∷ b't' ∷ []

abbrev pub word_debug : List ℕ
word_debug = b'-' ∷ b'-' ∷ b'd' ∷ b'e' ∷ b'b' ∷ b'u' ∷ b'g' ∷ []

-- `!strncmp(v, word, 6)`
abbrev pub starts_with : List ℕ → List ℕ → Bool
starts_with word v = same_bytes (take 6 v) (take 6 word)

-- What the loops over the arguments keep.
pub record Scan : Type 0 where
  pub settings : Settings
  pub count : ℕ
  pub arg_flag : Bool

-- How the loops for the numbers of arguments differ: in that a missing or wrong value is passed over, that
-- only one value may come, and that "--debug" is looked for.
pub record Mode : Type 0 where
  pub lenient : Bool
  pub single : Bool
  pub with_debug : Bool

module _ (atoi : List ℕ → ℤ) where
  abbrev pub counted : Mode → Settings → Scan → Scan
  counted m s c = record { settings = s; count = c.count + 1; arg_flag = true }

  -- A value for "--host" or "--port" in the argument behind it, which must not be one of the other options.
  abbrev pub take_value : Mode → List ℕ → (List ℕ → Settings) → List (List ℕ) → Scan → Option Scan
  take_value m other f [] c = if m.lenient then some c else none
  take_value m other f (v ∷ vs) c =
      if starts_with other v || starts_with word_debug v
      then (if m.lenient then some c else none)
      else if m.single && c.arg_flag
      then none
      else some (counted m (f v) c)

  abbrev pub take_host : Mode → List ℕ → List (List ℕ) → Scan → Option Scan
  take_host m a next c =
      if same_bytes a word_host
      then take_value m word_port (λ v. record c.settings { host = v }) next c
      else some c

  abbrev pub take_port : Mode → List ℕ → List (List ℕ) → Scan → Option Scan
  take_port m a next c =
      if same_bytes a word_port
      then take_value m word_host (λ v. record c.settings { port = atoi v }) next c
      else some c

  abbrev pub take_debug : Mode → List ℕ → Scan → Scan
  take_debug m a c =
      if m.with_debug && same_bytes a word_debug
      then record c { settings = record c.settings { debug = true }; count = c.count + 1 }
      else c

  abbrev pub then_scan : Option Scan → (Scan → Option Scan) → Option Scan
  then_scan none f = none
  then_scan (some c) f = f c

  -- The loops `for (int i = 0; i < argc; i++)`
  unfoldable pub scan : Mode → List (List ℕ) → Scan → Option Scan
  scan m [] c = some c
  scan m (a ∷ rest) c =
      then_scan (take_host m a rest c)
        (λ c1. then_scan (take_port m a rest c1) (λ c2. scan m rest (take_debug m a c2)))

  abbrev pub with_count : ℕ → Option Scan → Option Settings
  with_count n none = none
  with_count n (some c) = if c.count == n then some c.settings else none

  abbrev pub start_scan : Settings → Scan
  start_scan s = record { settings = s; count = 0; arg_flag = false }

  -- The code for each number of arguments, the program's name among them
  abbrev pub six : List (List ℕ) → Settings → Option Settings
  six args s =
      with_count 3
        (scan (record { lenient = false; single = false; with_debug = true }) args (start_scan s))

  abbrev pub five : List (List ℕ) → Settings → Option Settings
  five args s =
      with_count 2
        (scan (record { lenient = false; single = false; with_debug = false }) args (start_scan s))

  abbrev pub four : List (List ℕ) → Settings → Option Settings
  four args s =
      with_count 2
        (scan (record { lenient = true; single = true; with_debug = true }) args (start_scan s))

  abbrev pub three : List (List ℕ) → Settings → Option Settings
  three args s =
      with_count 1
        (scan (record { lenient = false; single = true; with_debug = false }) args (start_scan s))

  abbrev pub two : List (List ℕ) → Settings → Option Settings
  two (name ∷ a ∷ rest) s =
      if same_bytes a word_debug then some (record s { debug = true }) else none
  two _ s = none

  -- The first part of `main`: `none` when the client exits over its arguments.
  unfoldable pub parse_args : List (List ℕ) → Settings → Option Settings
  parse_args args s =
      let argc = length args in
      if ltb 6 argc
      then none
      else if argc == 6
      then six args s
      else if argc == 5
      then five args s
      else if argc == 4
      then four args s
      else if argc == 3
      then three args s
      else if argc == 2
      then two args s
      else some s
