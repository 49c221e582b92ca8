-- ===== src/Projects/Jobs/Flow.antt =====
-- The answers of the children of project3.c, on their way through the pipes.
use operating_systems_ntua.Prelude.{
  ℕ, zero, suc, ◌+◌, ◌%◌, ◌<◌, ◌≡◌, refl, sym, ap, ◌∙◌, Bool, true, false, not, ◌&&◌, ◌||◌, Option,
  none, some, List, [], ◌∷◌, ◌++◌, map, arith, ◌==◌, ltb, ◌-◌, ◌^◌, length, Bool-cases, inl, inr,
}
use mathlib.Core.List.{append_assoc}
use operating_systems_ntua.Projects.Jobs.{
  next, Worker, write_loop, pid_at, at, take_job, give_answer, read_answer,
}

abbrev pub held_list : Option ℕ → List ℕ
held_list none = []
held_list (some v) = v ∷ []

-- All answers to the jobs of a child: those that the parent has, those on the way, and those to come.
abbrev pub flow : Worker → List ℕ
flow w = w.answers ++ (w.outbox ++ (held_list w.held ++ map next w.inbox))

abbrev pub append_at : ℕ → ℕ → List (List ℕ) → List (List ℕ)
append_at i v [] = []
append_at zero v (f ∷ fs) = (f ++ (v ∷ [])) ∷ fs
append_at (suc i) v (f ∷ fs) = f ∷ append_at i v fs

-- Turns from a number on: every job is answered at once, by its successor, by the child whose turn it is.
abbrev pub assign : ℕ → List ℕ → List (List ℕ) → List (List ℕ)
assign k [] fs = fs
assign k (v ∷ vs) fs = assign (k + 1) vs (append_at (k % length fs) (v + 1) fs)

-- Jobs of at most 2 ^ 31 - 2, which have a successor among the ints
abbrev pub all_small : List ℕ → Bool
all_small [] = true
all_small (v ∷ vs) = ltb v (2 ^ 31 - 1) && all_small vs

abbrev pub has : ℕ → List ℕ → Bool
has x [] = false
has x (y ∷ ys) = (x == y) || has x ys

abbrev pub distinct : List ℕ → Bool
distinct [] = true
distinct (x ∷ xs) = not (has x xs) && distinct xs

abbrev pub pids : List Worker → List ℕ
pids ws = map (λ w. w.pid) ws

abbrev pub flows : List Worker → List (List ℕ)
flows ws = map flow ws

pub flow-take_job : (w : Worker) → flow (take_job w) ≡ flow w
flow-take_job w = took w.pid w.inbox w.held w.outbox w.answers
  where
    took :
        (p : ℕ) (i : List ℕ) (h : Option ℕ) (o a : List ℕ)
        → flow (take_job (record { pid = p; inbox = i; held = h; outbox = o; answers = a }))
          ≡ flow (record { pid = p; inbox = i; held = h; outbox = o; answers = a })
    took p [] none o a = refl
    took p (v ∷ vs) none o a = refl
    took p i (some v) o a = refl

pub flow-give_answer : (w : Worker) → flow (give_answer w) ≡ flow w
flow-give_answer w = given w.pid w.inbox w.held w.outbox w.answers
  where
    given :
        (p : ℕ) (i : List ℕ) (h : Option ℕ) (o a : List ℕ)
        → flow (give_answer (record { pid = p; inbox = i; held = h; outbox = o; answers = a }))
          ≡ flow (record { pid = p; inbox = i; held = h; outbox = o; answers = a })
    given p i none o a = refl
    given p i (some v) o a = ap (λ r. a ++ r) (append_assoc o (v ∷ []) (map next i))

pub flow-read_answer : (w : Worker) → flow (read_answer w) ≡ flow w
flow-read_answer w = read_one w.pid w.inbox w.held w.outbox w.answers
  where
    read_one :
        (p : ℕ) (i : List ℕ) (h : Option ℕ) (o a : List ℕ)
        → flow (read_answer (record { pid = p; inbox = i; held = h; outbox = o; answers = a }))
          ≡ flow (record { pid = p; inbox = i; held = h; outbox = o; answers = a })
    read_one p i h [] a = refl
    read_one p i h (v ∷ vs) a = append_assoc a (v ∷ []) (vs ++ (held_list h ++ map next i))

pub map-snoc : (v : ℕ) (i : List ℕ) → map next (i ++ (v ∷ [])) ≡ map next i ++ (next v ∷ [])
map-snoc v [] = refl
map-snoc v (x ∷ i) = ap (λ r. next x ∷ r) (map-snoc v i)

pub flow-write :
    (w : Worker) (v : ℕ) → flow (record w { inbox = w.inbox ++ (v ∷ []) }) ≡ flow w ++ (next v ∷ [])
flow-write w v =
    let m = map next w.inbox in
    let e = next v ∷ [] in
    ap (λ r. w.answers ++ (w.outbox ++ (held_list w.held ++ r))) (map-snoc v w.inbox)
    ∙ ap (λ r. w.answers ++ (w.outbox ++ r)) (sym (append_assoc (held_list w.held) m e))
    ∙ ap (λ r. w.answers ++ r) (sym (append_assoc w.outbox (held_list w.held ++ m) e))
    ∙ sym (append_assoc w.answers (w.outbox ++ (held_list w.held ++ m)) e)

pub flows-at :
    (f : Worker → Worker) (i : ℕ) (ws : List Worker)
    → ((w : Worker) → flow (f w) ≡ flow w)
    → flows (at f i ws) ≡ flows ws
flows-at f i [] h = refl
flows-at f zero (w ∷ ws) h = ap (λ r. r ∷ flows ws) (h w)
flows-at f (suc i) (w ∷ ws) h = ap (λ r. flow w ∷ r) (flows-at f i ws h)

pub pids-at :
    (f : Worker → Worker) (i : ℕ) (ws : List Worker)
    → ((w : Worker) → (f w).pid ≡ w.pid)
    → pids (at f i ws) ≡ pids ws
pids-at f i [] h = refl
pids-at f zero (w ∷ ws) h = ap (λ r. r ∷ pids ws) (h w)
pids-at f (suc i) (w ∷ ws) h = ap (λ r. w.pid ∷ r) (pids-at f i ws h)

pub pids-write_loop : (x v : ℕ) (ws : List Worker) → pids (write_loop x v ws) ≡ pids ws
unfolding write_loop
pids-write_loop x v [] = refl
pids-write_loop x v (w ∷ ws) = ap (λ r. w.pid ∷ r) (pids-write_loop x v ws)

pub flows-write_absent :
    (x v : ℕ) (ws : List Worker) → has x (pids ws) ≡ false → flows (write_loop x v ws) ≡ flows ws
unfolding write_loop
flows-write_absent x v [] h = refl
flows-write_absent x v (w ∷ ws) h =
    let e : (x == w.pid) ≡ false = ground (arith, h) in
    rw (e, flows-write_absent x v ws (ground (arith, h))) refl

pub has-pid_at : (ws : List Worker) (i : ℕ) → i < length ws → has (pid_at ws i) (pids ws) ≡ true
has-pid_at [] i h = ground (arith, h)
has-pid_at (w ∷ ws) zero h = ground arith
has-pid_at (w ∷ ws) (suc i) h = rw (has-pid_at ws i (omega (arith, h))) (ground arith)

pub has-differs : (x y : ℕ) (zs : List ℕ) → has x zs ≡ true → has y zs ≡ false → (x == y) ≡ false
has-differs x y zs h g = elim (Bool-cases (x == y)) [
  | inl e ↦
      let same : x ≡ y = ground (arith, e) in ground (arith, sym h ∙ ap (λ z. has z zs) same ∙ g)
  | inr e ↦ e
]

pub flows-write_loop :
    (v : ℕ) (ws : List Worker) (i : ℕ)
    → distinct (pids ws) ≡ true
    → i < length ws
    → flows (write_loop (pid_at ws i) v ws) ≡ append_at i (next v) (flows ws)
unfolding write_loop
flows-write_loop v [] i d h = refl
flows-write_loop v (w ∷ ws) zero d h =
    let e : (w.pid == w.pid) ≡ true = ground arith in
    rw (e, flow-write w v, flows-write_absent w.pid v ws (ground (arith, d))) refl
flows-write_loop v (w ∷ ws) (suc i) d h =
    let there = has-pid_at ws i (omega (arith, h)) in
    let e = has-differs (pid_at ws i) w.pid (pids ws) there (ground (arith, d)) in
    rw e (ap (λ r. flow w ∷ r) (flows-write_loop v ws i (ground (arith, d)) (omega (arith, h))))

pub length-flows : (ws : List Worker) → length (flows ws) ≡ length ws
length-flows [] = refl
length-flows (w ∷ ws) = ap suc (length-flows ws)

pub length-pids : (ws ws' : List Worker) → pids ws ≡ pids ws' → length ws ≡ length ws'
length-pids ws ws' h = sym (count ws) ∙ ap length h ∙ count ws'
  where
    count : (ws : List Worker) → length (pids ws) ≡ length ws
    count [] = refl
    count (w ∷ ws) = ap suc (count ws)

pub pid-take_job : (w : Worker) → (take_job w).pid ≡ w.pid
pid-take_job w = took w.pid w.inbox w.held w.outbox w.answers
  where
    took :
        (p : ℕ) (i : List ℕ) (h : Option ℕ) (o a : List ℕ)
        → (take_job (record { pid = p; inbox = i; held = h; outbox = o; answers = a })).pid ≡ p
    took p [] none o a = refl
    took p (v ∷ vs) none o a = refl
    took p i (some v) o a = refl

pub pid-give_answer : (w : Worker) → (give_answer w).pid ≡ w.pid
pid-give_answer w = given w.pid w.inbox w.held w.outbox w.answers
  where
    given :
        (p : ℕ) (i : List ℕ) (h : Option ℕ) (o a : List ℕ)
        → (give_answer (record { pid = p; inbox = i; held = h; outbox = o; answers = a })).pid ≡ p
    given p i none o a = refl
    given p i (some v) o a = refl

pub pid-read_answer : (w : Worker) → (read_answer w).pid ≡ w.pid
pid-read_answer w = read_one w.pid w.inbox w.held w.outbox w.answers
  where
    read_one :
        (p : ℕ) (i : List ℕ) (h : Option ℕ) (o a : List ℕ)
        → (read_answer (record { pid = p; inbox = i; held = h; outbox = o; answers = a })).pid ≡ p
    read_one p i h [] a = refl
    read_one p i h (v ∷ vs) a = refl
