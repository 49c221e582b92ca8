-- ===== src/Projects/Gates/Table.antt =====
-- The kernel's table of the children of projects/project2, and which of them are on which post.
use operating_systems_ntua.Prelude.{
  ℕ, ◌+◌, ◌≡◌, refl, sym, ap, ◌∙◌, Bool, true, false, ◌&&◌, ◌||◌, Option, none, some, List, [], ◌∷◌,
  arith, ◌==◌, if◌then◌else◌, Bool-cases, inl, inr,
}
use operating_systems_ntua.Projects.Gates.Child.{Signal}
use operating_systems_ntua.Projects.Gates.Keeper.{
  Process, Parent, Outcome, runs, exits, overrun, kill, kill_all, pass_second, without, Children,
  made, fork_failed, too_many, behind, with_fork, after_make,
}

-- The process of a pid in the kernel's table
unfoldable pub seek : ℕ → List Process → Option Process
seek pid [] = none
seek pid (p ∷ ps) = if p.pid == pid then some p else seek pid ps

-- Whether it was started for the gate of a letter and a number
abbrev pub holds : ℕ → ℕ → Option Process → Bool
holds letter i none = false
holds letter i (some p) = (p.letter == letter) && (p.number == i)

-- Whether the pids are those of children for the letters, with numbers from i on
abbrev pub manned : List ℕ → List ℕ → ℕ → List Process → Bool
manned [] [] i t = true
manned (letter ∷ letters) (pid ∷ pids) i t =
    holds letter i (seek pid t) && manned letters pids (i + 1) t
manned _ _ i t = false

-- The same but for one pid
abbrev pub manned_but : ℕ → List ℕ → List ℕ → ℕ → List Process → Bool
manned_but wp [] [] i t = true
manned_but wp (letter ∷ letters) (pid ∷ pids) i t =
    ((wp == pid) || holds letter i (seek pid t)) && manned_but wp letters pids (i + 1) t
manned_but wp _ _ i t = false

abbrev pub is_manned : Outcome → Bool
is_manned (runs s) = manned s.prompt s.pid_array 0 s.table
is_manned (exits n s) = true
is_manned overrun = true

pub holds-kill :
    (l i q pid : ℕ) (s : Signal) (t : List Process)
    → holds l i (seek q (kill pid s t)) ≡ holds l i (seek q t)
unfolding kill seek
holds-kill l i q pid s [] = refl
holds-kill l i q pid s (p ∷ t) = elim (Bool-cases (p.pid == q)) [
  | inl e ↦ rw e refl
  | inr e ↦ rw e (holds-kill l i q pid s t)
]

pub holds-kill_all :
    (l i q : ℕ) (pids : List ℕ) (s : Signal) (t : List Process)
    → holds l i (seek q (kill_all pids s t)) ≡ holds l i (seek q t)
unfolding kill_all
holds-kill_all l i q [] s t = refl
holds-kill_all l i q (pid ∷ pids) s t =
    holds-kill_all l i q pids s (kill pid s t) ∙ holds-kill l i q pid s t

pub holds-pass_second :
    (l i q : ℕ) (t : List Process) → holds l i (seek q (pass_second t)) ≡ holds l i (seek q t)
unfolding pass_second seek
holds-pass_second l i q [] = refl
holds-pass_second l i q (p ∷ t) = elim (Bool-cases (p.pid == q)) [
  | inl e ↦ rw e refl
  | inr e ↦ rw e (holds-pass_second l i q t)
]

pub seek-without :
    (q wp : ℕ) (t : List Process) → (wp == q) ≡ false → seek q (without wp t) ≡ seek q t
unfolding without seek
seek-without q wp [] h = refl
seek-without q wp (p ∷ t) h = elim (Bool-cases (p.pid == wp)) [
  | inl e ↦ let n : (p.pid == q) ≡ false = ground (arith, e, h) in rw (e, n) (seek-without q wp t h)
  | inr e ↦ rw e (ap (λ r. if p.pid == q then some p else r) (seek-without q wp t h))
]

pub manned-same :
    (ls ps : List ℕ) (i : ℕ) (t t' : List Process)
    → ((l j q : ℕ) → holds l j (seek q t') ≡ holds l j (seek q t))
    → manned ls ps i t ≡ true
    → manned ls ps i t' ≡ true
manned-same [] [] i t t' f h = refl
manned-same (l ∷ ls) (p ∷ ps) i t t' f h =
    rw (f l i p) (rw (manned-same ls ps (i + 1) t t' f (ground (arith, h))) (ground (arith, h)))
manned-same [] (p ∷ ps) i t t' f h = ground (arith, h)
manned-same (l ∷ ls) [] i t t' f h = ground (arith, h)

pub manned_but-without :
    (wp : ℕ) (ls ps : List ℕ) (i : ℕ) (t : List Process)
    → manned ls ps i t ≡ true
    → manned_but wp ls ps i (without wp t) ≡ true
manned_but-without wp [] [] i t h = refl
manned_but-without wp (l ∷ ls) (p ∷ ps) i t h =
    let rest = manned_but-without wp ls ps (i + 1) t (ground (arith, h)) in
    elim (Bool-cases (wp == p)) [
      | inl e ↦ rw (e, rest) refl
      | inr e ↦ rw (e, rest, seek-without p wp t e) (ground (arith, h))
    ]
manned_but-without wp [] (p ∷ ps) i t h = ground (arith, h)
manned_but-without wp (l ∷ ls) [] i t h = ground (arith, h)

-- A new process with a pid that is not in the table
pub holds-new :
    (l i q : ℕ) (p : Process) (t : List Process)
    → seek p.pid t ≡ none
    → holds l i (seek q t) ≡ true
    → holds l i (seek q (p ∷ t)) ≡ true
unfolding seek
holds-new l i q p t n h = elim (Bool-cases (p.pid == q)) [
  | inl e ↦
      let same : p.pid ≡ q = ground (arith, e) in
      let gone : holds l i (seek q t) ≡ false =
        ap (λ x. holds l i (seek x t)) (sym same) ∙ ap (holds l i) n in
      ground (arith, sym gone ∙ h)
  | inr e ↦ rw e h
]

pub manned_but-new :
    (wp : ℕ) (ls ps : List ℕ) (i : ℕ) (p : Process) (t : List Process)
    → seek p.pid t ≡ none
    → manned_but wp ls ps i t ≡ true
    → manned_but wp ls ps i (p ∷ t) ≡ true
manned_but-new wp [] [] i p t n h = refl
manned_but-new wp (l ∷ ls) (q ∷ ps) i p t n h =
    let rest = manned_but-new wp ls ps (i + 1) p t n (ground (arith, h)) in
    elim (Bool-cases (wp == q)) [
      | inl e ↦ rw (e, rest) refl
      | inr e ↦ rw (e, rest, holds-new l i q p t n (ground (arith, e, h))) refl
    ]
manned_but-new wp [] (q ∷ ps) i p t n h = ground (arith, h)
manned_but-new wp (l ∷ ls) [] i p t n h = ground (arith, h)

abbrev pub made_holds : ℕ → ℕ → ℕ → Children → Bool
made_holds l i q (made ps t) = holds l i (seek q t)
made_holds l i q (fork_failed ps t) = true
made_holds l i q too_many = true

abbrev pub made_manned : List ℕ → ℕ → Children → Bool
made_manned ls i (made ps t) = manned ls ps i t
made_manned ls i (fork_failed ps t) = true
made_manned ls i too_many = true

pub made_holds-behind :
    (l i q pid : ℕ) (m : Children) → made_holds l i q (behind pid m) ≡ made_holds l i q m
made_holds-behind l i q pid (made ps t) = refl
made_holds-behind l i q pid (fork_failed ps t) = refl
made_holds-behind l i q pid too_many = refl

pub made_manned-behind :
    (l : ℕ) (ls : List ℕ) (i pid : ℕ) (m : Children)
    → made_holds l i pid m ≡ true
    → made_manned ls (i + 1) m ≡ true
    → made_manned (l ∷ ls) i (behind pid m) ≡ true
made_manned-behind l ls i pid (made ps t) h r = rw (h, r) refl
made_manned-behind l ls i pid (fork_failed ps t) h r = refl
made_manned-behind l ls i pid too_many h r = refl

pub made_manned-after :
    (fresh : List Process → Option ℕ) (s : Parent) (m : Children)
    → made_manned s.prompt 0 m ≡ true
    → is_manned (after_make fresh s m) ≡ true
made_manned-after fresh s (made ps t) h = h
made_manned-after fresh s (fork_failed ps t) h = refl
made_manned-after fresh s too_many h = refl

pub with_fork-holds :
    (P : Children → Bool) (o : Option ℕ) (pids : List ℕ) (t : List Process) (f : ℕ → Children)
    → P (fork_failed pids t) ≡ true
    → ((pid : ℕ) → o ≡ some pid → P (f pid) ≡ true)
    → P (with_fork o pids t f) ≡ true
with_fork-holds P none pids t f none_holds some_holds = none_holds
with_fork-holds P (some pid) pids t f none_holds some_holds = some_holds pid refl
