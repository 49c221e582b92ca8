-- ===== src/Projects/Jobs.antt =====
-- projects/project3/project3.c: jobs, which are numbers, for children behind pipes. Pipes do not fail, and do
-- not fill up; what is printed is left out, but for the answers. A line of input is the list of its bytes,
-- and an int is its word of 32 bits in two's complement.
pub mod Flow
pub mod Turns
use operating_systems_ntua.Prelude.{
  ℕ, zero, suc, ◌+◌, ◌%◌, ◌^◌, ◌≤◌, ◌<◌, ◌≡◌, refl, Bool, true, false, not, ◌&&◌, ◌||◌, Option,
  none, some, List, [], ◌∷◌, ◌++◌, map, arith, ltb, leb, ◌==◌, if◌then◌else◌, length, get_or, take,
  drop, same_bytes, replicate,
}

-- `prompt`: how the child for a job is chosen
pub data Policy : Type 0 where
  round_robin random : Policy

abbrev pub is_digit : ℕ → Bool
is_digit c = leb b'0' c && leb c b'9'

abbrev pub all_digits : List ℕ → Bool
all_digits [] = true
all_digits (c ∷ cs) = is_digit c && all_digits cs

-- "--round-robin"
abbrev pub word_round_robin : List ℕ
word_round_robin =
    b'-' ∷ b'-' ∷ b'r' ∷ b'o' ∷ b'u' ∷ b'n' ∷ b'd' ∷ b'-' ∷ b'r' ∷ b'o' ∷ b'b' ∷ b'i' ∷ b'n' ∷ []

-- "--random"
abbrev pub word_random : List ℕ
word_random = b'-' ∷ b'-' ∷ b'r' ∷ b'a' ∷ b'n' ∷ b'd' ∷ b'o' ∷ b'm' ∷ []

-- `none` when the arguments are refused.
unfoldable pub check_argument_errors : List (List ℕ) → Option Policy
check_argument_errors (name ∷ count ∷ []) = if all_digits count then some round_robin else none
check_argument_errors (name ∷ count ∷ policy ∷ []) =
    if not (all_digits count)
    then none
    else if same_bytes policy word_round_robin
    then some round_robin
    else if same_bytes policy word_random
    then some random
    else none
check_argument_errors _ = none

-- The child reads a job from its pipe, and writes the next number to the other one. What the parent has read
-- of it comes first.
pub record Worker : Type 0 where
  pub pid : ℕ
  pub inbox : List ℕ
  pub held : Option ℕ
  pub outbox : List ℕ
  pub answers : List ℕ

pub record Parent : Type 0 where
  pub workers : List Worker
  pub iterator : ℕ
  pub policy : Policy

pub data Checked : Type 0 where
  told leave job : Checked

-- A newline at the end is taken off.
abbrev pub without_newline : List ℕ → List ℕ
without_newline [] = []
without_newline (c ∷ []) = if c == b'\n' then [] else c ∷ []
without_newline (c ∷ d ∷ cs) = c ∷ without_newline (d ∷ cs)

abbrev pub check_first : List ℕ → Checked
check_first [] = told
check_first (c ∷ cs) = if is_digit c then job else told

-- The result 1 is `told`, 0 is `job`, and `leave` is the call of exit.
unfoldable pub check_input : List ℕ → Checked
check_input input =
    let short = leb (length input) 5 in
    let text = without_newline input in
    if short && same_bytes (take 4 text) (b'h' ∷ b'e' ∷ b'l' ∷ b'p' ∷ [])
    then told
    else if short && same_bytes (take 4 text) (b'e' ∷ b'x' ∷ b'i' ∷ b't' ∷ [])
    then leave
    else check_first text

-- The loop that writes to the child with the pid
unfoldable pub write_loop : ℕ → ℕ → List Worker → List Worker
write_loop send_to v [] = []
write_loop send_to v (w ∷ ws) =
    record w { inbox = if send_to == w.pid then w.inbox ++ (v ∷ []) else w.inbox }
    ∷ write_loop send_to v ws

abbrev pub pid_at : List Worker → ℕ → ℕ
pid_at [] i = 0
pid_at (w ∷ ws) zero = w.pid
pid_at (w ∷ ws) (suc i) = pid_at ws i

-- The index of `send_to`, with what rand returns
abbrev pub chosen : Policy → ℕ → Parent → ℕ
chosen round_robin rand s = s.iterator % length s.workers
chosen random rand s = rand % length s.workers

-- The number of turns, `iterator++`
abbrev pub advance : Policy → ℕ → ℕ
advance round_robin k = (k + 1) % 2 ^ 32
advance random k = k

abbrev pub dispatch : ℕ → ℕ → Parent → Parent
dispatch rand v s = record s {
  workers = write_loop (pid_at s.workers (chosen s.policy rand s)) v s.workers;
  iterator = advance s.policy s.iterator;
}

abbrev pub at : (Worker → Worker) → ℕ → List Worker → List Worker
at f i [] = []
at f zero (w ∷ ws) = f w ∷ ws
at f (suc i) (w ∷ ws) = w ∷ at f i ws

-- `buffer++` of an int: the greatest one, 2 ^ 31 - 1, has no successor in C, and wraps around here.
abbrev pub next : ℕ → ℕ
next v = (v + 1) % 2 ^ 32

-- A child reads, when it is not at work and there is a job, and adds 1.
abbrev pub take_job : Worker → Worker
take_job w = elim w.held [
  | none ↦ elim w.inbox [ [] ↦ w | v ∷ vs ↦ record w { inbox = vs; held = some (next v) } ]
  | some v ↦ w
]

-- A child writes its answer.
abbrev pub give_answer : Worker → Worker
give_answer w = elim w.held [
  | none ↦ w
  | some v ↦ record w { held = none; outbox = w.outbox ++ (v ∷ []) }
]

-- The parent reads an answer, where select has found one.
abbrev pub read_answer : Worker → Worker
read_answer w = elim w.outbox [
  | [] ↦ w
  | v ∷ vs ↦ record w { outbox = vs; answers = w.answers ++ (v ∷ []) }
]

-- A child that has been made, with both pipes empty
abbrev pub idle : ℕ → Worker
idle pid = record { pid = pid; inbox = []; held = none; outbox = []; answers = [] }

-- What may happen next: a line of input, with what rand returns, and a step of a child or of the parent on
-- the pipes of the child with an index.
pub data Event : Type 0 where
  line : List ℕ → ℕ → Event
  takes gives answered : ℕ → Event

-- The program goes on, or has ended.
pub data Outcome : Type 0 where
  runs : Parent → Outcome
  left : Outcome

-- What atoi returns is a word, too.
module _ (atoi : List ℕ → ℕ) where
  abbrev pub after_check : Checked → List ℕ → ℕ → Parent → Outcome
  after_check told input rand s = runs s
  after_check leave input rand s = left
  after_check job input rand s = runs (dispatch rand (atoi (without_newline input)) s)

  unfoldable pub step : Event → Parent → Outcome
  step (line input rand) s = after_check (check_input input) input rand s
  step (takes i) s = runs (record s { workers = at take_job i s.workers })
  step (gives i) s = runs (record s { workers = at give_answer i s.workers })
  step (answered i) s = runs (record s { workers = at read_answer i s.workers })

  abbrev pub then_step : Event → Outcome → Outcome
  then_step e (runs s) = step e s
  then_step e left = left

  unfoldable pub run : List Event → Outcome → Outcome
  run [] o = o
  run (e ∷ es) o = run es (then_step e o)

  -- The jobs that lines of input ask for, up to the first that ends the program
  unfoldable pub jobs : List Event → List ℕ
  jobs [] = []
  jobs (line input rand ∷ es) =
      let rest = jobs es in
      elim (check_input input) [
        | told ↦ rest
        | leave ↦ []
        | job ↦ atoi (without_newline input) ∷ rest
      ]
  jobs (_ ∷ es) = jobs es
