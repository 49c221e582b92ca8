-- ===== src/Projects/Tests.antt =====
-- Runs of the arguments of project4/tcp_client.c, of the gates of project2, and of the
-- jobs of project3.
use operating_systems_ntua.Prelude.{
  ℕ, ◌+◌, ◌-◌, ◌≤◌, ◌≡◌, refl, Option, some, none, true, false, List, [], ◌∷◌, arith, leb, ◌==◌,
  if◌then◌else◌, map, length, ◌<◌, ◌^◌,
}
use operating_systems_ntua.Prelude.Int.{ℤ, pos}
use operating_systems_ntua.Projects.Client.{Settings, scan, parse_args, word_host, word_port}
use operating_systems_ntua.Projects.Client.Written.{
  Opt, host_is, port_is, debug_on, write_args, parse_args-write_args,
}
use operating_systems_ntua.Projects.Gates.Child.{
  sigusr1, sigusr2, sigalrm, running, child_main, signals, seconds,
}
use operating_systems_ntua.Projects.Gates.Keeper
use operating_systems_ntua.Projects.Gates.Keeper.{
  Process, Event, a_second, to_child, waitpid, ended, get_sigusr2, parent_main, run,
}
use operating_systems_ntua.Projects.Gates.Signals.{gate_of, gate_of-signals, seconds-child_main}
use operating_systems_ntua.Projects.Gates.Table.{seek, is_manned}
use operating_systems_ntua.Projects.Gates.Posts.{is_manned-run}
use operating_systems_ntua.Projects.Jobs
use operating_systems_ntua.Projects.Jobs.{
  idle, Worker, Parent, round_robin, line, takes, gives, answered, runs, job, check_input,
  write_loop, jobs,
}
use operating_systems_ntua.Projects.Jobs.Flow.{flows, assign, all_small}
use operating_systems_ntua.Projects.Jobs.Turns.{turning, flows-run}

-- The value of a byte in place of `atoi`
abbrev first_byte : List ℕ → ℤ
first_byte [] = pos 0
first_byte (c ∷ _) = pos c

abbrev defaults : Settings
defaults = record { host = b'i' ∷ b'o' ∷ b't' ∷ []; port = pos 18080; debug = false }

abbrev program : List ℕ
program = b'.' ∷ b'/' ∷ b'c' ∷ []

abbrev options : List Opt
options = port_is (b'7' ∷ []) ∷ debug_on ∷ host_is (b'h' ∷ []) ∷ []

parse_args-write_args_example :
    parse_args first_byte (program ∷ write_args options) defaults
    ≡ some (record { host = b'h' ∷ []; port = pos 55; debug = true })
parse_args-write_args_example =
    parse_args-write_args first_byte options program defaults refl refl (omega arith) (omega arith)

-- A lone option without its value is an error,
lone_host : parse_args first_byte (program ∷ word_host ∷ []) defaults ≡ none
unfolding parse_args
lone_host = refl

-- and so is a value that is an option.
host_is_port : parse_args first_byte (program ∷ word_host ∷ word_port ∷ []) defaults ≡ none
unfolding parse_args scan
host_is_port = refl

-- The pid behind all those of a table
abbrev next_pid : List Process → ℕ
next_pid [] = 1
next_pid (p ∷ t) = if leb (next_pid t) p.pid then p.pid + 1 else next_pid t

abbrev fork_next : List Process → Option ℕ
fork_next t = some (next_pid t)

seek-next_pid : (t : List Process) (q : ℕ) → next_pid t ≤ q → seek q t ≡ none
unfolding seek
seek-next_pid [] q h = refl
seek-next_pid (p ∷ t) q h =
    let other : (p.pid == q) ≡ false = ground (arith, h) in
    rw other (seek-next_pid t q (ground (arith, h)))

seek-fork_next : (t : List Process) (q : ℕ) → fork_next t ≡ some q → seek q t ≡ none
seek-fork_next t q h = seek-next_pid t q (ground (arith, h))

-- Two gates of which the second ends when it is told to turn over, and is replaced.
abbrev events : List Keeper.Event
events = a_second ∷ to_child 2 sigusr1 ∷ waitpid (ended 2) ∷ get_sigusr2 ∷ []

is_manned-run_example :
    is_manned (run fork_next events (parent_main fork_next (program ∷ (b't' ∷ b'f' ∷ []) ∷ [])))
    ≡ true
is_manned-run_example =
    is_manned-run fork_next seek-fork_next (program ∷ (b't' ∷ b'f' ∷ []) ∷ []) events

gate_of-signals_example :
    gate_of (signals (sigalrm ∷ sigusr1 ∷ sigusr2 ∷ []) (running (child_main b't'))) ≡ some false
gate_of-signals_example = gate_of-signals (sigalrm ∷ sigusr1 ∷ sigusr2 ∷ []) (child_main b't') refl

seconds-child_main_example :
    seconds 30 (running (child_main b'f'))
    ≡ running (record { gate = false; alarm = 15; depth = 2; printed = false ∷ false ∷ false ∷ [] })
seconds-child_main_example = seconds-child_main b'f' 2

-- A number of one digit in place of `atoi`
abbrev digit : List ℕ → ℕ
digit [] = 0
digit (c ∷ _) = c - b'0'

abbrev after_three : Worker → Worker → Parent
after_three a b = record { workers = a ∷ b ∷ []; iterator = 3; policy = round_robin }

-- Three jobs for two children
abbrev three_jobs : List Jobs.Event
three_jobs =
    line (b'5' ∷ b'\n' ∷ []) 0
    ∷ takes 0
    ∷ line (b'7' ∷ b'\n' ∷ []) 0
    ∷ line (b'x' ∷ b'\n' ∷ []) 0
    ∷ line (b'1' ∷ b'\n' ∷ []) 0
    ∷ gives 0
    ∷ answered 0
    ∷ []

abbrev first_child : Worker
first_child = record { pid = 11; inbox = 1 ∷ []; held = none; outbox = []; answers = 6 ∷ [] }

abbrev second_child : Worker
second_child = record { pid = 12; inbox = 7 ∷ []; held = none; outbox = []; answers = [] }

three_jobs-run :
    Jobs.run digit three_jobs (runs (turning (map idle (11 ∷ 12 ∷ [])) 0))
    ≡ runs (after_three first_child second_child)
unfolding Jobs.run Jobs.step check_input write_loop
three_jobs-run = refl

small_jobs : all_small (jobs digit three_jobs) ≡ true
unfolding jobs check_input
small_jobs = refl

few_jobs : length (jobs digit three_jobs) < 2 ^ 31
unfolding jobs check_input
few_jobs = omega arith

-- The greatest int has no successor, and is left out.
not_small : all_small (2147483647 ∷ []) ≡ false
not_small = refl

flows-run_example :
    flows (first_child ∷ second_child ∷ []) ≡ assign 0 (jobs digit three_jobs) ([] ∷ [] ∷ [])
flows-run_example =
    flows-run digit (after_three first_child second_child) three_jobs (11 ∷ 12 ∷ []) refl
      (omega arith) small_jobs few_jobs three_jobs-run

-- Only the first character of a number is looked at.
half_a_number : check_input (b'1' ∷ b'x' ∷ b'\n' ∷ []) ≡ job
unfolding check_input
half_a_number = refl
