-- ===== src/Projects/Gates/Child.antt =====
-- projects/project2/child.c: the process of one gate.
use operating_systems_ntua.Prelude.{
  ℕ, zero, suc, ◌+◌, ◌-◌, Bool, true, false, not, List, [], ◌∷◌, leb, ◌==◌, if◌then◌else◌,
}

-- The signals that parent.c and child.c send and handle. SIGCONT is not handled, and does nothing to a
-- process that runs.
pub data Signal : Type 0 where
  sigterm sigusr1 sigusr2 sigalrm sigcont : Signal

-- A child at one of its calls of pause: GATE, the seconds until the alarm comes, the handlers of SIGALRM that
-- are on its stack, none of which ever returns, and the states it has printed, the newest first.
pub record Child : Type 0 where
  pub gate : Bool
  pub alarm : ℕ
  pub depth : ℕ
  pub printed : List Bool

pub data Life : Type 0 where
  running : Child → Life
  exited : ℕ → Life

abbrev pub print_gate : Child → Child
print_gate c = record c { printed = c.gate ∷ c.printed }

-- A handler has returned, and with it the call of pause: `main` has no loop around its own.
abbrev pub resume : Child → Life
resume c = if c.depth == 0 then exited 0 else running c

abbrev pub handle_sigusr1 : Child → Life
handle_sigusr1 c = resume (print_gate (record c { gate = not c.gate }))

abbrev pub handle_sigusr2 : Child → Life
handle_sigusr2 c = resume (print_gate c)

-- The handler calls pause in a loop without an end, and a further SIGALRM is taken inside of it.
abbrev pub handle_sigalarm : Child → Life
handle_sigalarm c = running (print_gate (record c { alarm = 15; depth = c.depth + 1 }))

unfoldable pub handle : Signal → Child → Life
handle sigterm c = exited 1
handle sigusr1 c = handle_sigusr1 c
handle sigusr2 c = handle_sigusr2 c
handle sigalrm c = handle_sigalarm c
handle sigcont c = running c

-- The start of `main`, up to its pause
abbrev pub child_main : ℕ → Child
child_main letter =
    print_gate (record { gate = letter == b't'; alarm = 15; depth = 0; printed = [] })

-- One second goes by.
unfoldable pub second : Child → Life
second c = if leb c.alarm 1 then handle_sigalarm c else running (record c { alarm = c.alarm - 1 })

abbrev pub when_running : (Child → Life) → Life → Life
when_running f (running c) = f c
when_running f (exited n) = exited n

unfoldable pub signals : List Signal → Life → Life
signals [] l = l
signals (s ∷ ss) l = signals ss (when_running (handle s) l)

unfoldable pub seconds : ℕ → Life → Life
seconds zero l = l
seconds (suc n) l = seconds n (when_running second l)

-- The state of the gate after the signals
abbrev pub flipped : List Signal → Bool → Bool
flipped [] b = b
flipped (sigusr1 ∷ ss) b = flipped ss (not b)
flipped (s ∷ ss) b = flipped ss b

abbrev pub no_term : List Signal → Bool
no_term [] = true
no_term (sigterm ∷ ss) = false
no_term (s ∷ ss) = no_term ss
