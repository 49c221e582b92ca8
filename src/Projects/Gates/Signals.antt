-- ===== src/Projects/Gates/Signals.antt =====
-- What signals and time do to a child of projects/project2.
use operating_systems_ntua.Prelude.{
  ℕ, zero, suc, ◌+◌, ◌*◌, ◌<◌, ◌≡◌, refl, ap, ◌∙◌, Bool, true, false, not, ◌||◌, Option, none, some,
  List, [], ◌∷◌, arith, ltb, ◌==◌, if◌then◌else◌, Bool-cases, inl, inr,
}
use operating_systems_ntua.Projects.Gates.Child.{
  Signal, sigterm, sigusr1, sigusr2, sigalrm, sigcont, Child, Life, running, exited, print_gate,
  handle, child_main, second, when_running, signals, seconds, flipped, no_term,
}

-- The state of the gate of a child that has not ended
abbrev pub gate_of : Life → Option Bool
gate_of (running c) = some c.gate
gate_of (exited n) = none

-- Whether the first signal that a handler returns from comes after a SIGALRM
abbrev pub outlives : List Signal → Bool
outlives [] = true
outlives (sigcont ∷ ss) = outlives ss
outlives (sigalrm ∷ ss) = true
outlives (s ∷ ss) = false

signals-exited : (ss : List Signal) (n : ℕ) → signals ss (exited n) ≡ exited n
unfolding signals
signals-exited [] n = refl
signals-exited (s ∷ ss) n = signals-exited ss n

signals-settled :
    (ss : List Signal) (c : Child)
    → no_term ss ≡ true
    → 0 < c.depth
    → gate_of (signals ss (running c)) ≡ some (flipped ss c.gate)
unfolding signals handle
signals-settled [] c h d = refl
signals-settled (sigterm ∷ ss) c h d = ground (arith, h)
signals-settled (sigusr1 ∷ ss) c h d =
    let e : (c.depth == 0) ≡ false = ground (arith, d) in
    rw e (signals-settled ss (print_gate (record c { gate = not c.gate })) h d)
signals-settled (sigusr2 ∷ ss) c h d =
    let e : (c.depth == 0) ≡ false = ground (arith, d) in
    rw e (signals-settled ss (print_gate c) h d)
signals-settled (sigalrm ∷ ss) c h d =
    signals-settled ss (print_gate (record c { alarm = 15; depth = c.depth + 1 })) h (omega arith)
signals-settled (sigcont ∷ ss) c h d = signals-settled ss c h d

signals-young :
    (ss : List Signal) (c : Child)
    → no_term ss ≡ true
    → (c.depth == 0) ≡ true
    → gate_of (signals ss (running c)) ≡ (if outlives ss then some (flipped ss c.gate) else none)
unfolding signals handle
signals-young [] c h d = refl
signals-young (sigterm ∷ ss) c h d = ground (arith, h)
signals-young (sigusr1 ∷ ss) c h d = rw d (ap gate_of (signals-exited ss 0))
signals-young (sigusr2 ∷ ss) c h d = rw d (ap gate_of (signals-exited ss 0))
signals-young (sigalrm ∷ ss) c h d =
    signals-settled ss (print_gate (record c { alarm = 15; depth = c.depth + 1 })) h (omega arith)
signals-young (sigcont ∷ ss) c h d = signals-young ss c h d

-- After signals without SIGTERM a child runs just when an alarm has come to it before them, or comes before
-- the first SIGUSR1 and SIGUSR2 among them, or neither of these two is among them, and then every SIGUSR1
-- has changed its gate once. A child that gets SIGUSR1 or SIGUSR2 before its first alarm has ended.
pub gate_of-signals :
    (ss : List Signal) (c : Child)
    → no_term ss ≡ true
    → gate_of (signals ss (running c))
      ≡ (if ltb 0 c.depth || outlives ss then some (flipped ss c.gate) else none)
gate_of-signals ss c h = elim (Bool-cases (ltb 0 c.depth)) [
  | inl d ↦ rw d (signals-settled ss c h (ground (arith, d)))
  | inr d ↦ rw d (signals-young ss c h (ground (arith, d)))
]

abbrev pub copies : ℕ → Bool → List Bool
copies zero b = []
copies (suc n) b = b ∷ copies n b

seconds-add : (m n : ℕ) (l : Life) → seconds (m + n) l ≡ seconds n (seconds m l)
unfolding seconds
seconds-add zero n l = let e : zero + n ≡ n = omega arith in rw e refl
seconds-add (suc m) n l =
    let e : suc m + n ≡ suc (m + n) = omega arith in rw e (seconds-add m n (when_running second l))

fifteen :
    (g : Bool) (d : ℕ) (p : List Bool)
    → seconds 15 (running (record { gate = g; alarm = 15; depth = d; printed = p }))
      ≡ running (record { gate = g; alarm = 15; depth = d + 1; printed = g ∷ p })
unfolding seconds second
fifteen g d p = refl

-- A child that nobody signals prints the state of its gate, the one of its letter, at its start and then
-- every 15 seconds for ever, with one more handler on its stack each time.
pub seconds-child_main :
    (letter k : ℕ)
    → seconds (15 * k) (running (child_main letter))
      ≡ running (record {
        gate = letter == b't';
        alarm = 15;
        depth = k;
        printed = copies (suc k) (letter == b't');
      })
unfolding seconds
seconds-child_main letter zero = refl
seconds-child_main letter (suc k) =
    let e : 15 * suc k ≡ 15 * k + 15 = omega arith in
    let b = letter == b't' in
    rw e (
      seconds-add (15 * k) 15 (running (child_main letter))
      ∙ ap (seconds 15) (seconds-child_main letter k)
      ∙ fifteen b k (copies (suc k) b)
      ∙ ap
          (λ d.
            running (record { gate = b; alarm = 15; depth = d; printed = copies (suc (suc k)) b }))
          (omega arith))
