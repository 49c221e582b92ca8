-- ===== src/Ext2/Super/Options.antt =====
-- super.c: the options of a mount.
use operating_systems_ntua.Prelude.{
  ℕ, ◌≡◌, refl, Bool, true, false, not, ◌&&◌, ◌||◌, Option, none, some, List, [], ◌∷◌, ◌++◌, arith,
  ◌==◌, if◌then◌else◌, if-elim, subst,
}
use operating_systems_ntua.Prelude.{same_bytes}

-- The bits of `s_mount_opt`
pub record MountOpt : Type 0 where
  pub errors_cont : Bool
  pub errors_ro : Bool
  pub errors_panic : Bool
  pub debug : Bool

-- `tokens`, with what stands behind them
pub data Token : Type 0 where
  opt_err_cont opt_err_panic opt_err_ro opt_debug opt_unknown : Token

-- "errors="
abbrev pub errors_is : List ℕ
errors_is = b'e' ∷ b'r' ∷ b'r' ∷ b'o' ∷ b'r' ∷ b's' ∷ b'=' ∷ []

abbrev pub word_continue : List ℕ
word_continue = b'c' ∷ b'o' ∷ b'n' ∷ b't' ∷ b'i' ∷ b'n' ∷ b'u' ∷ b'e' ∷ []

abbrev pub word_panic : List ℕ
word_panic = b'p' ∷ b'a' ∷ b'n' ∷ b'i' ∷ b'c' ∷ []

abbrev pub word_remount_ro : List ℕ
word_remount_ro = b'r' ∷ b'e' ∷ b'm' ∷ b'o' ∷ b'u' ∷ b'n' ∷ b't' ∷ b'-' ∷ b'r' ∷ b'o' ∷ []

abbrev pub word_debug : List ℕ
word_debug = b'd' ∷ b'e' ∷ b'b' ∷ b'u' ∷ b'g' ∷ []

-- match_token on `tokens`, in their order; no pattern has a wildcard. The table has no last entry
-- without a pattern, so that the search goes on behind it for other words; it is taken to find none.
abbrev pub token_of : List ℕ → Token
token_of p =
    if same_bytes p (errors_is ++ word_continue)
    then opt_err_cont
    else if same_bytes p (errors_is ++ word_panic)
    then opt_err_panic
    else if same_bytes p (errors_is ++ word_remount_ro)
    then opt_err_ro
    else if same_bytes p word_debug
    then opt_debug
    else opt_unknown

-- The switch of `parse_options`
abbrev pub set_token : Token → MountOpt → Option MountOpt
set_token opt_err_panic o =
    some (record o { errors_cont = false; errors_ro = false; errors_panic = true })
set_token opt_err_ro o =
    some (record o { errors_cont = false; errors_panic = false; errors_ro = true })
set_token opt_err_cont o =
    some (record o { errors_ro = false; errors_panic = false; errors_cont = true })
set_token opt_debug o = some (record o { debug = true })
set_token opt_unknown o = none

-- `if (!*p) continue;`
abbrev pub set_word : List ℕ → MountOpt → Option MountOpt
set_word [] o = some o
set_word (c ∷ cs) o = set_token (token_of (c ∷ cs)) o

abbrev pub and_then : Option MountOpt → (MountOpt → Option MountOpt) → Option MountOpt
and_then none f = none
and_then (some o) f = f o

-- The loop over what strsep splits at commas; `word` is the part of a word that has been read, last byte
-- first.
unfoldable pub parse_words : List ℕ → List ℕ → MountOpt → Option MountOpt
parse_words [] word o = set_word word o
parse_words (c ∷ cs) word o =
    let split = and_then (set_word word o) (parse_words cs []) in
    let more = parse_words cs (word ++ c ∷ []) o in if c == b',' then split else more

-- `parse_options`: `none` for 0; no options at all change nothing.
unfoldable pub parse_options : Option (List ℕ) → MountOpt → Option MountOpt
parse_options none o = some o
parse_options (some options) o = parse_words options [] o

-- EXT2_ERRORS_CONTINUE and EXT2_ERRORS_PANIC
abbrev pub errors_continue : ℕ
errors_continue = 1

abbrev pub errors_panics : ℕ
errors_panics = 3

-- The options that `ext2_fill_super` starts from
abbrev pub default_options : ℕ → MountOpt
default_options s_errors =
    let clear : MountOpt = record {
      errors_cont = false;
      errors_ro = false;
      errors_panic = false;
      debug = false;
    } in
    if s_errors == errors_panics
    then record clear { errors_panic = true }
    else if s_errors == errors_continue
    then record clear { errors_cont = true }
    else record clear { errors_ro = true }

abbrev pub shown : Bool → List ℕ → List ℕ → List ℕ
shown b word more = if b then b',' ∷ (word ++ more) else more

-- `ext2_show_options`
pub show_options : ℕ → MountOpt → List ℕ
show_options s_errors o =
    shown (o.errors_ro && (s_errors == errors_panics || (s_errors == errors_continue)))
      (errors_is ++ word_remount_ro)
      (shown o.errors_cont (errors_is ++ word_continue)
        (shown o.errors_panic (errors_is ++ word_panic) (shown o.debug word_debug [])))

-- Exactly one way to behave on errors is chosen.
abbrev pub one_behaviour : MountOpt → Bool
one_behaviour o =
    if o.errors_cont
    then not o.errors_ro && not o.errors_panic
    else if o.errors_ro
    then not o.errors_panic
    else o.errors_panic

abbrev defaults : Bool → Bool → MountOpt
defaults a b =
    let clear : MountOpt = record {
      errors_cont = false;
      errors_ro = false;
      errors_panic = false;
      debug = false;
    } in
    if a
    then record clear { errors_panic = true }
    else if b
    then record clear { errors_cont = true }
    else record clear { errors_ro = true }

abbrev printed : Bool → Bool → MountOpt → List ℕ
printed a b o = shown (o.errors_ro && (a || b)) (errors_is ++ word_remount_ro) (
    shown o.errors_cont (errors_is ++ word_continue)
      (shown o.errors_panic (errors_is ++ word_panic) (shown o.debug word_debug [])))

abbrev option_bits : Bool → Bool → Bool → Bool → MountOpt
option_bits c r p d = record { errors_cont = c; errors_ro = r; errors_panic = p; debug = d }

read_back :
    (a b c r p d : Bool)
    → one_behaviour (option_bits c r p d) ≡ true
    → parse_words (printed a b (option_bits c r p d)) [] (defaults a b) ≡ some (option_bits c r p d)
unfolding parse_words
read_back a b true true true d h = ground (arith, h)
read_back a b true true false d h = ground (arith, h)
read_back a b true false true d h = ground (arith, h)
read_back true true true false false true h = refl
read_back true false true false false true h = refl
read_back true true true false false false h = refl
read_back true false true false false false h = refl
read_back false true true false false true h = refl
read_back false true true false false false h = refl
read_back false false true false false true h = refl
read_back false false true false false false h = refl
read_back a b false true true d h = ground (arith, h)
read_back true true false true false true h = refl
read_back true false false true false true h = refl
read_back true true false true false false h = refl
read_back true false false true false false h = refl
read_back false true false true false true h = refl
read_back false true false true false false h = refl
read_back false false false true false true h = refl
read_back false false false true false false h = refl
read_back true true false false true true h = refl
read_back true false false false true true h = refl
read_back true true false false true false h = refl
read_back true false false false true false h = refl
read_back false true false false true true h = refl
read_back false true false false true false h = refl
read_back false false false false true true h = refl
read_back false false false false true false h = refl
read_back a b false false false d h = ground (arith, h)

-- The options that `ext2_show_options` prints are read back by `parse_options`, from the super block's
-- own choice on, as the same options, when exactly one behaviour on errors is chosen.
pub parse_options-show_options :
    (s_errors : ℕ) (o : MountOpt)
    → one_behaviour o ≡ true
    → parse_options (some (show_options s_errors o)) (default_options s_errors) ≡ some o
unfolding parse_options show_options
parse_options-show_options s_errors o h =
    read_back (s_errors == errors_panics) (s_errors == errors_continue) o.errors_cont o.errors_ro
      o.errors_panic o.debug h

-- A word that a mount passes leaves one behaviour chosen.
abbrev Keeps : Option MountOpt → Type 0
Keeps none = Unit {0}
Keeps (some o) = one_behaviour o ≡ true

set_token-Keeps : (t : Token) (o : MountOpt) → one_behaviour o ≡ true → Keeps (set_token t o)
set_token-Keeps opt_err_panic o h = refl
set_token-Keeps opt_err_ro o h = refl
set_token-Keeps opt_err_cont o h = refl
set_token-Keeps opt_debug o h = h
set_token-Keeps opt_unknown o h = tt

set_word-Keeps : (w : List ℕ) (o : MountOpt) → one_behaviour o ≡ true → Keeps (set_word w o)
set_word-Keeps [] o h = h
set_word-Keeps (c ∷ cs) o h = set_token-Keeps (token_of (c ∷ cs)) o h

and_then-Keeps :
    (r : Option MountOpt) (f : MountOpt → Option MountOpt)
    → Keeps r
    → ((o : MountOpt) → one_behaviour o ≡ true → Keeps (f o))
    → Keeps (and_then r f)
and_then-Keeps none f k g = tt
and_then-Keeps (some o) f k g = g o k

parse_words-Keeps :
    (cs word : List ℕ) (o : MountOpt) → one_behaviour o ≡ true → Keeps (parse_words cs word o)
unfolding parse_words
parse_words-Keeps [] word o h = set_word-Keeps word o h
parse_words-Keeps (c ∷ cs) word o h =
    if-elim Keeps (c == b',')
      (λ _.
        and_then-Keeps (set_word word o) (parse_words cs []) (set_word-Keeps word o h)
          (λ o' h'. parse_words-Keeps cs [] o' h'))
      (λ _. parse_words-Keeps cs (word ++ c ∷ []) o h)

parse_options-Keeps :
    (options : Option (List ℕ)) (o : MountOpt)
    → one_behaviour o ≡ true
    → Keeps (parse_options options o)
unfolding parse_options
parse_options-Keeps none o h = h
parse_options-Keeps (some options) o h = parse_words-Keeps options [] o h

-- Options that `parse_options` accepts, whatever they are, choose exactly one behaviour on errors, when
-- the options before did.
pub parse_options-one_behaviour :
    (options : Option (List ℕ)) (o : MountOpt) {o' : MountOpt}
    → one_behaviour o ≡ true
    → parse_options options o ≡ some o'
    → one_behaviour o' ≡ true
parse_options-one_behaviour options o h e = subst Keeps e (parse_options-Keeps options o h)
