-- ===== src/Projects/Gates/Keeper.antt =====
-- projects/project2/parent.c: the process that keeps the gates.
use operating_systems_ntua.Prelude.{
  ℕ, ◌+◌, Bool, true, ◌&&◌, ◌||◌, Option, none, some, List, [], ◌∷◌, leb, ◌==◌, if◌then◌else◌,
}
use operating_systems_ntua.Projects.Gates.Child.{
  Signal, sigterm, sigusr1, sigusr2, sigcont, Life, running, handle, child_main, second,
  when_running,
}

-- A child in the kernel's table: its pid, the arguments that it was started with, and its life.
pub record Process : Type 0 where
  pub pid : ℕ
  pub letter : ℕ
  pub number : ℕ
  pub life : Life

pub record Parent : Type 0 where
  pub prompt : List ℕ
  pub pid_array : List ℕ
  pub table : List Process

-- The parent runs, or has ended with a status, or has written behind pid_array, which has 50 elements.
pub data Outcome : Type 0 where
  runs : Parent → Outcome
  exits : ℕ → Parent → Outcome
  overrun : Outcome

pub data Wait : Type 0 where
  no_change wait_failed : Wait
  ended stopped : ℕ → Wait

pub data Event : Type 0 where
  get_sigterm get_sigusr1 get_sigusr2 a_second : Event
  to_child : ℕ → Signal → Event
  waitpid : Wait → Event

abbrev pub signalled : ℕ → Signal → Process → Process
signalled pid s p = record p {
  life = if p.pid == pid then when_running (handle s) p.life else p.life;
}

unfoldable pub kill : ℕ → Signal → List Process → List Process
kill pid s [] = []
kill pid s (p ∷ ps) = signalled pid s p ∷ kill pid s ps

-- The loops of the handlers over the children
unfoldable pub kill_all : List ℕ → Signal → List Process → List Process
kill_all [] s t = t
kill_all (pid ∷ pids) s t = kill_all pids s (kill pid s t)

unfoldable pub pass_second : List Process → List Process
pass_second [] = []
pass_second (p ∷ ps) = record p { life = when_running second p.life } ∷ pass_second ps

-- What waitpid gives back is no longer in the table.
unfoldable pub without : ℕ → List Process → List Process
without pid [] = []
without pid (p ∷ ps) = if p.pid == pid then without pid ps else p ∷ without pid ps

pub data Children : Type 0 where
  made : List ℕ → List Process → Children
  fork_failed : List ℕ → List Process → Children
  too_many : Children

abbrev pub behind : ℕ → Children → Children
behind pid (made pids t) = made (pid ∷ pids) t
behind pid (fork_failed pids t) = fork_failed (pid ∷ pids) t
behind pid too_many = too_many

-- `create_child`, which ends the parent where fork fails; the execv of the child is taken to succeed
abbrev pub with_fork : Option ℕ → List ℕ → List Process → (ℕ → Children) → Children
with_fork none pids t f = fork_failed pids t
with_fork (some pid) pids t f = f pid

module _ (fresh : List Process → Option ℕ) where
  abbrev pub new_process : ℕ → ℕ → ℕ → Process
  new_process pid letter i = record {
    pid = pid;
    letter = letter;
    number = i;
    life = running (child_main letter);
  }

  -- The loop of `main` that makes the children, from the index i on
  unfoldable pub create_loop : List ℕ → ℕ → List Process → Children
  create_loop [] i t = made [] t
  create_loop (letter ∷ letters) i t = with_fork (fresh t) [] t (λ pid.
      if leb 50 i
      then too_many
      else behind pid (create_loop letters (i + 1) (new_process pid letter i ∷ t)))

  -- The loop of `main` that replaces a child that has ended
  unfoldable pub replace_loop : ℕ → List ℕ → List ℕ → ℕ → List Process → Children
  replace_loop wp (letter ∷ letters) (pid ∷ pids) i t =
      if wp == pid
      then with_fork (fresh t) (pid ∷ pids) t
          (λ q. behind q (replace_loop wp letters pids (i + 1) (new_process q letter i ∷ t)))
      else behind pid (replace_loop wp letters pids (i + 1) t)
  replace_loop wp _ pids i t = made pids t

  abbrev pub after_make : Parent → Children → Outcome
  after_make s (made pids t) = runs (record s { pid_array = pids; table = t })
  after_make s (fork_failed pids t) = exits 1 (record s { pid_array = pids; table = t })
  after_make s too_many = overrun

  abbrev pub proper : List ℕ → Bool
  proper [] = true
  proper (x ∷ xs) = ((x == b't') || (x == b'f')) && proper xs

  abbrev pub blank_parent : List ℕ → Parent
  blank_parent prompt = record { prompt = prompt; pid_array = []; table = [] }

  -- `main` up to its loop
  unfoldable pub parent_main : List (List ℕ) → Outcome
  parent_main (name ∷ prompt ∷ []) =
      if proper prompt
      then after_make (blank_parent prompt) (create_loop prompt 0 [])
      else exits 1 (blank_parent prompt)
  parent_main _ = exits 1 (blank_parent [])

  -- One round of the loop of `main`, by what waitpid returns
  unfoldable pub round : Wait → Parent → Outcome
  round no_change s = runs s
  round wait_failed s = exits 1 s
  round (ended wp) s = after_make s (replace_loop wp s.prompt s.pid_array 0 (without wp s.table))
  round (stopped wp) s = runs (record s { table = kill wp sigcont s.table })

  unfoldable pub step : Event → Parent → Outcome
  step get_sigterm s = exits 0 (record s { table = kill_all s.pid_array sigterm s.table })
  step get_sigusr1 s = runs (record s { table = kill_all s.pid_array sigusr1 s.table })
  step get_sigusr2 s = runs (record s { table = kill_all s.pid_array sigusr2 s.table })
  step a_second s = runs (record s { table = pass_second s.table })
  step (to_child pid sig) s = runs (record s { table = kill pid sig s.table })
  step (waitpid w) s = round w s

  abbrev pub then_run : (Parent → Outcome) → Outcome → Outcome
  then_run f (runs s) = f s
  then_run f (exits n s) = exits n s
  then_run f overrun = overrun

  unfoldable pub run : List Event → Outcome → Outcome
  run [] o = o
  run (e ∷ es) o = run es (then_run (step e) o)
