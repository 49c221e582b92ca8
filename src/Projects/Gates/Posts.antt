-- ===== src/Projects/Gates/Posts.antt =====
-- The children that parent.c of projects/project2 keeps, one for every gate.
use operating_systems_ntua.Prelude.{
  ℕ, ◌+◌, ◌≡◌, refl, ◌∙◌, true, Option, none, some, List, [], ◌∷◌, arith, leb, ◌==◌, if-elim,
  Bool-cases, inl, inr,
}
use operating_systems_ntua.Projects.Gates.Child.{sigusr1, sigusr2, sigcont}
use operating_systems_ntua.Projects.Gates.Keeper.{
  Process, Parent, Outcome, runs, exits, overrun, no_change, wait_failed, ended, stopped, Event,
  get_sigterm, get_sigusr1, get_sigusr2, a_second, to_child, waitpid, kill, kill_all, pass_second,
  without, new_process, create_loop, replace_loop, proper, blank_parent, parent_main, round, step,
  then_run, run,
}
use operating_systems_ntua.Projects.Gates.Table.{
  seek, holds, manned, manned_but, is_manned, holds-kill, holds-kill_all, holds-pass_second,
  manned-same, manned_but-without, holds-new, manned_but-new, made_holds, made_manned,
  made_holds-behind, made_manned-behind, made_manned-after, with_fork-holds,
}

-- The pid of a new process is not in the kernel's table.
module _ (fresh : List Process → Option ℕ)
    (is_new : (t : List Process) (pid : ℕ) → fresh t ≡ some pid → seek pid t ≡ none) where
  holds-replace_loop :
      (l j q wp : ℕ) (ls ps : List ℕ) (i : ℕ) (t : List Process)
      → holds l j (seek q t) ≡ true
      → made_holds l j q (replace_loop fresh wp ls ps i t) ≡ true
  unfolding replace_loop
  holds-replace_loop l j q wp [] ps i t h = h
  holds-replace_loop l j q wp (x ∷ ls) [] i t h = h
  holds-replace_loop l j q wp (x ∷ ls) (p ∷ ps) i t h = elim (Bool-cases (wp == p)) [
    | inl e ↦ rw e (
        with_fork-holds (made_holds l j q) (fresh t) (p ∷ ps) t _ refl (λ r f.
          made_holds-behind l j q r _
          ∙ holds-replace_loop l j q wp ls ps (i + 1) (new_process fresh r x i ∷ t)
              (holds-new l j q (new_process fresh r x i) t (is_new t r f) h)))
    | inr e ↦ rw e (made_holds-behind l j q p _ ∙ holds-replace_loop l j q wp ls ps (i + 1) t h)
  ]

  new-holds :
      (l i q : ℕ) (t : List Process) → holds l i (seek q (new_process fresh q l i ∷ t)) ≡ true
  unfolding seek
  new-holds l i q t = ground arith

  manned-replace_loop :
      (wp : ℕ) (ls ps : List ℕ) (i : ℕ) (t : List Process)
      → manned_but wp ls ps i t ≡ true
      → made_manned ls i (replace_loop fresh wp ls ps i t) ≡ true
  unfolding replace_loop
  manned-replace_loop wp [] [] i t h = refl
  manned-replace_loop wp (x ∷ ls) (p ∷ ps) i t h = elim (Bool-cases (wp == p)) [
    | inl e ↦ rw e (
        with_fork-holds (made_manned (x ∷ ls) i) (fresh t) (p ∷ ps) t _ refl (λ r f.
          let t' = new_process fresh r x i ∷ t in
          made_manned-behind x ls i r (replace_loop fresh wp ls ps (i + 1) t')
            (holds-replace_loop x i r wp ls ps (i + 1) t' (new-holds x i r t))
            (manned-replace_loop wp ls ps (i + 1) t' (
              manned_but-new wp ls ps (i + 1) (new_process fresh r x i) t (is_new t r f)
                (ground (arith, h))))))
    | inr e ↦ rw e (
        made_manned-behind x ls i p (replace_loop fresh wp ls ps (i + 1) t)
          (holds-replace_loop x i p wp ls ps (i + 1) t (ground (arith, h, e)))
          (manned-replace_loop wp ls ps (i + 1) t (ground (arith, h))))
  ]
  manned-replace_loop wp [] (p ∷ ps) i t h = ground (arith, h)
  manned-replace_loop wp (x ∷ ls) [] i t h = ground (arith, h)

  holds-create_loop :
      (l j q : ℕ) (ls : List ℕ) (i : ℕ) (t : List Process)
      → holds l j (seek q t) ≡ true
      → made_holds l j q (create_loop fresh ls i t) ≡ true
  unfolding create_loop
  holds-create_loop l j q [] i t h = h
  holds-create_loop l j q (x ∷ ls) i t h =
      with_fork-holds (made_holds l j q) (fresh t) [] t _ refl (λ r f.
        if-elim (λ m. made_holds l j q m ≡ true) (leb 50 i) (λ _. refl)
          (λ _.
            made_holds-behind l j q r _
            ∙ holds-create_loop l j q ls (i + 1) (new_process fresh r x i ∷ t)
                (holds-new l j q (new_process fresh r x i) t (is_new t r f) h)))

  manned-create_loop :
      (ls : List ℕ) (i : ℕ) (t : List Process) → made_manned ls i (create_loop fresh ls i t) ≡ true
  unfolding create_loop
  manned-create_loop [] i t = refl
  manned-create_loop (x ∷ ls) i t =
      with_fork-holds (made_manned (x ∷ ls) i) (fresh t) [] t _ refl (λ r f.
        if-elim (λ m. made_manned (x ∷ ls) i m ≡ true) (leb 50 i) (λ _. refl)
          (λ _.
            let t' = new_process fresh r x i ∷ t in
            made_manned-behind x ls i r (create_loop fresh ls (i + 1) t')
              (holds-create_loop x i r ls (i + 1) t' (new-holds x i r t))
              (manned-create_loop ls (i + 1) t')))

  manned-parent_main : (args : List (List ℕ)) → is_manned (parent_main fresh args) ≡ true
  unfolding parent_main
  manned-parent_main [] = refl
  manned-parent_main (name ∷ []) = refl
  manned-parent_main (name ∷ prompt ∷ []) =
      if-elim (λ o. is_manned o ≡ true) (proper fresh prompt)
        (λ _.
          made_manned-after fresh (blank_parent fresh prompt) (create_loop fresh prompt 0 [])
            (manned-create_loop prompt 0 []))
        (λ _. refl)
  manned-parent_main (name ∷ prompt ∷ x ∷ args) = refl

  manned-step :
      (e : Event) (s : Parent)
      → manned s.prompt s.pid_array 0 s.table ≡ true
      → is_manned (step fresh e s) ≡ true
  unfolding step round
  manned-step get_sigterm s h = refl
  manned-step get_sigusr1 s h =
      manned-same s.prompt s.pid_array 0 s.table (kill_all s.pid_array sigusr1 s.table)
        (λ l j q. holds-kill_all l j q s.pid_array sigusr1 s.table) h
  manned-step get_sigusr2 s h =
      manned-same s.prompt s.pid_array 0 s.table (kill_all s.pid_array sigusr2 s.table)
        (λ l j q. holds-kill_all l j q s.pid_array sigusr2 s.table) h
  manned-step a_second s h =
      manned-same s.prompt s.pid_array 0 s.table (pass_second s.table)
        (λ l j q. holds-pass_second l j q s.table) h
  manned-step (to_child pid sig) s h =
      manned-same s.prompt s.pid_array 0 s.table (kill pid sig s.table)
        (λ l j q. holds-kill l j q pid sig s.table) h
  manned-step (waitpid no_change) s h = h
  manned-step (waitpid wait_failed) s h = refl
  manned-step (waitpid (ended wp)) s h =
      made_manned-after fresh s (replace_loop fresh wp s.prompt s.pid_array 0 (without wp s.table))
        (manned-replace_loop wp s.prompt s.pid_array 0 (without wp s.table)
          (manned_but-without wp s.prompt s.pid_array 0 s.table h))
  manned-step (waitpid (stopped wp)) s h =
      manned-same s.prompt s.pid_array 0 s.table (kill wp sigcont s.table)
        (λ l j q. holds-kill l j q wp sigcont s.table) h

  manned-then_run :
      (e : Event) (o : Outcome)
      → is_manned o ≡ true
      → is_manned (then_run fresh (step fresh e) o) ≡ true
  manned-then_run e (runs s) h = manned-step e s h
  manned-then_run e (exits n s) h = refl
  manned-then_run e overrun h = refl

  manned-run :
      (es : List Event) (o : Outcome) → is_manned o ≡ true → is_manned (run fresh es o) ≡ true
  unfolding run
  manned-run [] o h = h
  manned-run (e ∷ es) o h = manned-run es (then_run fresh (step fresh e) o) (manned-then_run e o h)

  -- As long as the parent runs, every pid that it keeps is, in the kernel's table, that of a child for its
  -- gate, started with the gate's letter and number, and there is one for every letter of the prompt, in
  -- whatever order signals come, seconds go by and children end and are replaced. fork gives pids that are
  -- not in the table.
  pub is_manned-run :
      (args : List (List ℕ)) (es : List Event)
      → is_manned (run fresh es (parent_main fresh args)) ≡ true
  is_manned-run args es = manned-run es (parent_main fresh args) (manned-parent_main args)
