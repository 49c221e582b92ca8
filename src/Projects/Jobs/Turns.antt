-- ===== src/Projects/Jobs/Turns.antt =====
-- The children of project3.c that take turns, and what they answer.
use operating_systems_ntua.Prelude.{
  ℕ, suc, map, ◌+◌, ◌%◌, ◌^◌, ◌<◌, ◌≡◌, refl, sym, ap, ◌∙◌, Bool, true, false, ◌&&◌, ltb, ◌-◌,
  subst, List, [], ◌∷◌, arith, length,
}
use native.Mathlib.Nat.{mod-eq_of_lt}
use operating_systems_ntua.Projects.Jobs.{
  next, idle, round_robin, Worker, Parent, Checked, told, leave, job, without_newline, check_input,
  write_loop, pid_at, at, take_job, give_answer, read_answer, Event, line, takes, gives, answered,
  Outcome, runs, left, after_check, step, run, jobs,
}
use operating_systems_ntua.Projects.Jobs.Flow.{
  append_at, assign, all_small, distinct, pids, flows, flow-take_job, flow-give_answer,
  flow-read_answer, flows-at, pids-at, pids-write_loop, flows-write_loop, length-flows, length-pids,
  pid-take_job, pid-give_answer, pid-read_answer,
}

abbrev pub turning : List Worker → ℕ → Parent
turning ws k = record { workers = ws; iterator = k; policy = round_robin }

abbrev is_left : Outcome → Bool
is_left (runs s) = false
is_left left = true

module _ (atoi : List ℕ → ℕ) (s' : Parent) where
  run-left : (es : List Event) → is_left (run atoi es left) ≡ true
  unfolding run
  run-left [] = refl
  run-left (e ∷ es) = run-left es

  -- What is shown of the events to come
  abbrev Turns : List Event → Type 0
  Turns es =
      (ws : List Worker) (k : ℕ)
      → distinct (pids ws) ≡ true
      → 0 < length ws
      → all_small (jobs atoi es) ≡ true
      → k + length (jobs atoi es) < 2 ^ 31
      → run atoi es (runs (turning ws k)) ≡ runs s'
      → flows s'.workers ≡ assign k (jobs atoi es) (flows ws)

  abbrev asked : Checked → List ℕ → List Event → List ℕ
  asked told input es = jobs atoi es
  asked leave input es = []
  asked job input es = atoi (without_newline input) ∷ jobs atoi es

  jobs-line :
      (c : Checked) (input : List ℕ) (es : List Event)
      → (elim c [
        | told ↦ jobs atoi es
        | leave ↦ []
        | job ↦ atoi (without_newline input) ∷ jobs atoi es
      ])
        ≡ asked c input es
  jobs-line told input es = refl
  jobs-line leave input es = refl
  jobs-line job input es = refl

  still-Turns :
      (es : List Event) (ws ws' : List Worker) (k : ℕ)
      → Turns es
      → pids ws' ≡ pids ws
      → flows ws' ≡ flows ws
      → distinct (pids ws) ≡ true
      → 0 < length ws
      → all_small (jobs atoi es) ≡ true
      → k + length (jobs atoi es) < 2 ^ 31
      → run atoi es (runs (turning ws' k)) ≡ runs s'
      → flows s'.workers ≡ assign k (jobs atoi es) (flows ws)
  still-Turns es ws ws' k more same still d n small few h =
      more ws' k (rw same d) (omega (arith, n, length-pids ws' ws same)) small few h
      ∙ ap (assign k (jobs atoi es)) still

  after_line-Turns :
      (c : Checked) (input : List ℕ) (rand : ℕ) (es : List Event) (ws : List Worker) (k : ℕ)
      → Turns es
      → distinct (pids ws) ≡ true
      → 0 < length ws
      → all_small (asked c input es) ≡ true
      → k + length (asked c input es) < 2 ^ 31
      → run atoi es (after_check atoi c input rand (turning ws k)) ≡ runs s'
      → flows s'.workers ≡ assign k (asked c input es) (flows ws)
  after_line-Turns told input rand es ws k more d n small few h = more ws k d n small few h
  after_line-Turns leave input rand es ws k more d n small few h =
      ground (arith, sym (run-left es) ∙ ap is_left h)
  after_line-Turns job input rand es ws k more d n small few h =
      let v = atoi (without_newline input) in
      let i = k % length ws in
      let ws' = write_loop (pid_at ws i) v ws in
      let same = pids-write_loop (pid_at ws i) v ws in
      let small' : ltb v (2 ^ 31 - 1) && all_small (jobs atoi es) ≡ true = small in
      let few' : k + suc (length (jobs atoi es)) < 2 ^ 31 = few in
      let turn : (k + 1) % 2 ^ 32 ≡ k + 1 = mod-eq_of_lt (omega (arith, few')) in
      let answer : next v ≡ v + 1 = mod-eq_of_lt (ground (arith, small')) in
      more ws' (k + 1) (rw same d) (omega (arith, n, length-pids ws' ws same))
        (ground (arith, small')) (omega (arith, few'))
        (ap (λ k'. run atoi es (runs (turning ws' k'))) (sym turn) ∙ h)
      ∙ ap (assign (k + 1) (jobs atoi es)) (
          flows-write_loop v ws i d (omega (arith, n))
          ∙ ap (λ a. append_at i a (flows ws)) answer
          ∙ ap (λ m. append_at (k % m) (v + 1) (flows ws)) (sym (length-flows ws)))

  all-Turns : (es : List Event) → Turns es
  unfolding run step jobs
  all-Turns [] ws k d n small few h = ap (λ o. flows (parent_of o).workers) (sym h)
    where
      parent_of : Outcome → Parent
      parent_of (runs s) = s
      parent_of left = s'
  all-Turns (line input rand ∷ es) ws k d n small few h =
      let c = check_input input in
      let same = jobs-line c input es in
      after_line-Turns c input rand es ws k (all-Turns es) d n (ap all_small (sym same) ∙ small)
        (subst (λ js. k + length js < 2 ^ 31) same few) h
      ∙ ap (λ js. assign k js (flows ws)) (sym same)
  all-Turns (takes i ∷ es) ws k d n small few h =
      still-Turns es ws (at take_job i ws) k (all-Turns es) (pids-at take_job i ws pid-take_job)
        (flows-at take_job i ws flow-take_job) d n small few h
  all-Turns (gives i ∷ es) ws k d n small few h =
      still-Turns es ws (at give_answer i ws) k (all-Turns es)
        (pids-at give_answer i ws pid-give_answer) (flows-at give_answer i ws flow-give_answer) d n
        small few h
  all-Turns (answered i ∷ es) ws k d n small few h =
      still-Turns es ws (at read_answer i ws) k (all-Turns es)
        (pids-at read_answer i ws pid-read_answer) (flows-at read_answer i ws flow-read_answer) d n
        small few h

  pids-idle : (ps : List ℕ) → pids (map idle ps) ≡ ps
  pids-idle [] = refl
  pids-idle (p ∷ ps) = ap (λ r. p ∷ r) (pids-idle ps)

  flows-idle : (ps : List ℕ) → flows (map idle ps) ≡ map (λ p. []) ps
  flows-idle [] = refl
  flows-idle (p ∷ ps) = ap (λ r. [] ∷ r) (flows-idle ps)

  length-idle : (ps : List ℕ) → length (map idle ps) ≡ length ps
  length-idle [] = refl
  length-idle (p ∷ ps) = ap suc (length-idle ps)

  -- In turns, the children that the parent has made answer every job of the input by its successor, job
  -- number k, counted from 0, by the child k modulo their number, each child in the order of its jobs, however
  -- the steps on the pipes fall: the answers that the parent has read of a child, those in its pipe, and those
  -- to what it has still to do are together those of its turns. There is a child, the pids differ, the jobs are
  -- ints of 0 to 2 ^ 31 - 2 as atoi reads them, and less than 2 ^ 31 in number, and the program has not ended.
  pub flows-run :
      (es : List Event) (ps : List ℕ)
      → distinct ps ≡ true
      → 0 < length ps
      → all_small (jobs atoi es) ≡ true
      → length (jobs atoi es) < 2 ^ 31
      → run atoi es (runs (turning (map idle ps) 0)) ≡ runs s'
      → flows s'.workers ≡ assign 0 (jobs atoi es) (map (λ p. []) ps)
  flows-run es ps d n small few h =
      all-Turns es (map idle ps) 0 (ap distinct (pids-idle ps) ∙ d)
        (omega (arith, n, length-idle ps)) small (omega (arith, few)) h
      ∙ ap (assign 0 (jobs atoi es)) (flows-idle ps)
