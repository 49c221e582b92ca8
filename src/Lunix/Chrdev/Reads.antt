-- ===== src/Lunix/Chrdev/Reads.antt =====
-- What a process gets from lunix-chrdev.c: of which page, which bytes, and what becomes of the
-- lock.
use operating_systems_ntua.Prelude.{
  ℕ, ◌+◌, ◌-◌, ◌^◌, ◌≤◌, ◌<◌, ◌≡◌, ◌⊎◌, refl, sym, ap, ◌∙◌, subst, min, Bool, true, false, Option,
  none, some, List, [], ◌∷◌, arith, ◌==◌, if◌then◌else◌, length, take, drop, Bool-cases,
  Option-cases, inl, inr, ok, ◌++◌, err, Result, take_whole, take-append_short, take_clipped,
}
use operating_systems_ntua.Prelude.Int.{ℤ, nat_abs}
use operating_systems_ntua.Lunix.Sensors.{MsrData}
use operating_systems_ntua.Lunix.Chrdev.Text.{length-text}
use operating_systems_ntua.Lunix.Chrdev.{
  State, Tables, needs_refresh, text, snprintf, bufsz, lookup, Update, fault, again, updated, cache,
  state_update, Round, Waited, ready, stopped, crashed, asleep, down, up, wait_fresh, after_update,
  finish_read, clip, Reply, copy_out, Read, returned, failed, sleeping, read,
}

-- Some round of the loop reads this page behind a check that found a new time stamp.
abbrev pub SeenIn : State → MsrData → List Round → Type 0
SeenIn st page [] = ⊥
SeenIn st page (r ∷ rs) =
    ((r.page ≡ some page)
      × ((old : MsrData) × (r.checked ≡ some old) × (needs_refresh st old ≡ true)))
    ⊎ SeenIn st page rs

-- The device's cache is the text of one page, stamped with that page's time.
pub record CachedFrom (tables : Tables) (st : State) (page : MsrData) (v : ℤ) (st' : State)
    : Type 0 where
  pub value : lookup tables st.type page.value ≡ some v
  pub stamp : st'.buf_timestamp ≡ page.last_update
  pub limit : st'.buf_lim ≡ length (text v)
  pub bytes : st'.buf_data ≡ snprintf st.buf_data bufsz (text v)
  pub same_lock : st'.lock ≡ st.lock

state_update-updated :
    (tables : Tables) (st : State) (checked page : Option MsrData) {st' : State}
    → state_update tables st checked page ≡ updated st'
    → (old : MsrData) × (p : MsrData) × (v : ℤ) × (checked ≡ some old)
      × (page ≡ some p)
      × (needs_refresh st old ≡ true)
      × (lookup tables st.type p.value ≡ some v)
      × (st' ≡ cache st p v)
unfolding state_update
state_update-updated tables st none page h = ground arith
state_update-updated tables st (some old) none h = ground arith
state_update-updated tables st (some old) (some p) h =
    elim (Option-cases (lookup tables st.type p.value)) [
      | inl missing ↦ absurd (ground (arith, missing))
      | inr (v, e) ↦ (old, p, v, refl, refl, ground (arith, e), e, ground (arith, e))
    ]

down-up : (st : State) → down (up st) ≡ st
down-up st = ground arith

wait_fresh-again :
    (tables : Tables) (st : State) (r : Round) (rs : List Round) {st' : State}
    → state_update tables st r.checked r.page ≡ again
    → wait_fresh tables st (r ∷ rs) ≡ ready st'
    → wait_fresh tables st rs ≡ ready st'
unfolding wait_fresh
wait_fresh-again tables st r rs {st' = st'} e h =
    let next : wait_fresh tables (down (up st)) rs ≡ ready st' = ground (arith, e, h) in
    ap (λ s. wait_fresh tables s rs) (sym (down-up st)) ∙ next

-- The cache of `st'` holds the text of a page that some round read behind a new time stamp.
abbrev pub IsFresh : Tables → State → List Round → State → Type 0
IsFresh tables st rounds st' =
    (page : MsrData) × (v : ℤ) × SeenIn st page rounds × CachedFrom tables st page v st'

by_update :
    (tables : Tables) (st : State) (r : Round) (rs : List Round) (st' : State)
    → (wait_fresh tables st rs ≡ ready st' → IsFresh tables st rs st')
    → wait_fresh tables st (r ∷ rs) ≡ ready st'
    → (u : Update) → state_update tables st r.checked r.page ≡ u
    → IsFresh tables st (r ∷ rs) st'
unfolding cache
by_update tables st r rs st' later h fault e = absurd (unfold wait_fresh in ground (arith, e, h))
by_update tables st r rs st' later h again e =
    let (page, v, seen, cached) = later (wait_fresh-again tables st r rs e h) in
    (page, v, inr seen, cached)
by_update tables st r rs st' later h (updated st'') e =
    let same : st'' ≡ st' = unfold wait_fresh in ground (arith, e, h) in
    let (old, page, v, c, p, new, value, made) =
      state_update-updated tables st r.checked r.page (e ∙ ap updated same) in
    (page, v, inl (p, (old, c, new)), ground (arith, value, made))

wait_fresh-IsFresh :
    (tables : Tables) (st : State) (rounds : List Round) {st' : State}
    → wait_fresh tables st rounds ≡ ready st'
    → IsFresh tables st rounds st'
wait_fresh-IsFresh tables st [] h = absurd (unfold wait_fresh in ground arith)
wait_fresh-IsFresh tables st (r ∷ rs) {st' = st'} h =
    by_update tables st r rs st' (wait_fresh-IsFresh tables st rs) h
      (state_update tables st r.checked r.page) refl

-- The lock of a wait that ends.
abbrev LockAfter : State → Waited → Type 0
LockAfter st (ready st') = st'.lock ≡ st.lock
LockAfter st (stopped _ st') = st'.lock ≡ st.lock + 1
LockAfter st crashed = Unit {0}
LockAfter st (asleep st') = st'.lock ≡ st.lock + 1

state_update-lock :
    (tables : Tables) (st : State) (checked page : Option MsrData) {st' : State}
    → state_update tables st checked page ≡ updated st'
    → st'.lock ≡ st.lock
unfolding state_update cache
state_update-lock tables st none page h = ground arith
state_update-lock tables st (some old) none h = ground arith
state_update-lock tables st (some old) (some p) h = ground arith

after_update-lock :
    (st : State) (r : Round) (next : Waited) (u : Update)
    → ((st' : State) → u ≡ updated st' → st'.lock ≡ st.lock)
    → LockAfter st next
    → LockAfter st (after_update st r next u)
after_update-lock st r next fault keeps l = tt
after_update-lock st r next (updated st') keeps l = keeps st' refl
after_update-lock st r next again keeps l = elim (Bool-cases r.wait_ok) [
  | inl w ↦ elim (Bool-cases r.down_ok) [ inl d ↦ rw (w, d) l | inr d ↦ rw (w, d) refl ]
  | inr w ↦ rw w refl
]

wait_fresh-lock :
    (tables : Tables) (st : State) (rounds : List Round)
    → LockAfter st (wait_fresh tables st rounds)
unfolding wait_fresh
wait_fresh-lock tables st [] = refl
wait_fresh-lock tables st (r ∷ rs) =
    after_update-lock st r (wait_fresh tables (down (up st)) rs)
      (state_update tables st r.checked r.page)
      (λ st' e. state_update-lock tables st r.checked r.page e)
      (rw (down-up st) (wait_fresh-lock tables st rs))

-- The lock when a read has come back, or while it still sleeps.
abbrev pub LockIs : ℕ → Read → Type 0
LockIs n (returned rep) = rep.state.lock ≡ n
LockIs n failed = Unit {0}
LockIs n (sleeping st) = st.lock ≡ n

finish_read-lock :
    (st : State) (cnt f_pos : ℕ) (copy_ok : Bool) (w : Waited)
    → LockAfter st w
    → LockIs (st.lock + 1) (finish_read cnt f_pos copy_ok w)
unfolding copy_out
finish_read-lock st cnt f_pos copy_ok (ready st') l = ground arith
finish_read-lock st cnt f_pos copy_ok (stopped e st') l = l
finish_read-lock st cnt f_pos copy_ok crashed l = tt
finish_read-lock st cnt f_pos copy_ok (asleep st') l = l

-- A read leaves the device's lock as it found it on every path: bytes, a failed copy, a signal at any
-- of the three places, and it does not hold the lock while it sleeps. A fault returns nothing.
pub read-lock :
    (tables : Tables) (st : State) (cnt f_pos : ℕ) (down_ok copy_ok : Bool) (rounds : List Round)
    → 0 < st.lock
    → LockIs st.lock (read tables st cnt f_pos down_ok copy_ok rounds)
unfolding read
read-lock tables st cnt f_pos false copy_ok rounds h = refl
read-lock tables st cnt f_pos true copy_ok rounds h =
    let back : (down st).lock + 1 ≡ st.lock = omega arith in
    subst
      (λ n. LockIs n (
        finish_read cnt f_pos copy_ok
          (if f_pos == 0 then wait_fresh tables (down st) rounds else ready (down st))))
      back
      (elim (Bool-cases (f_pos == 0)) [
        | inl start ↦ rw start (
            finish_read-lock (down st) cnt f_pos copy_ok _
              (wait_fresh-lock tables (down st) rounds))
        | inr later ↦ rw later (finish_read-lock (down st) cnt f_pos copy_ok (ready (down st)) refl)
      ])

clip-min :
    (st : State) (cnt f_pos : ℕ)
    → f_pos ≤ st.buf_lim
    → st.buf_lim < 2 ^ 31
    → cnt < 2 ^ 63
    → clip st cnt f_pos ≡ min cnt (st.buf_lim - f_pos)
clip-min st cnt f_pos h k l = ground arith

-- With the position inside the text, a read copies as many bytes as are asked for and left, from the start
-- of the text, and moves the position on by their number, or back to the start at the end of the text.
pub copy_out_lem :
    (st : State) (cnt f_pos : ℕ)
    → f_pos ≤ st.buf_lim
    → st.buf_lim < 2 ^ 31
    → cnt < 2 ^ 63
    → let n = min cnt (st.buf_lim - f_pos) in
      copy_out st cnt f_pos true ≡ record {
        result = ok (take n st.buf_data);
        f_pos = if f_pos + n == st.buf_lim then 0 else f_pos + n;
        state = up st;
      }
unfolding copy_out
copy_out_lem st cnt f_pos h k l = rw (clip-min st cnt f_pos h k l)

-- The tables give numbers of less than 10 ^ 12 in absolute value.
abbrev pub IsSmall : Tables → Type 0
IsSmall tables = (type raw : ℕ) (v : ℤ) → lookup tables type raw ≡ some v → nat_abs v < 10 ^ 12

-- Bytes that are the beginning of the text of a page that some round saw, with the stamp of that page.
abbrev pub FreshBytes : Tables → State → ℕ → List Round → Reply → List ℕ → Type 0
FreshBytes tables st cnt rounds rep bs =
    (page : MsrData) × (v : ℤ) × SeenIn (down st) page rounds
    × (lookup tables st.type page.value ≡ some v)
    × (rep.state.buf_timestamp ≡ page.last_update)
    × (bs ≡ take cnt (text v))

pub snprintf-append :
    (old t : List ℕ)
    → length t ≤ 19
    → snprintf old bufsz t ≡ t ++ (0 ∷ drop (min 19 (length t) + 1) old)
unfolding snprintf
snprintf-append old t h = rw (take_whole 19 t h) refl

abbrev rep_of : Reply → Read → Reply
rep_of other (returned rep) = rep
rep_of other failed = other
rep_of other (sleeping st) = other

abbrev bytes_of : Result (List ℕ) → List ℕ
bytes_of (ok bs) = bs
bytes_of (err e) = []

finish_read-FreshBytes :
    (tables : Tables) (small : IsSmall tables) (st : State) (cnt : ℕ) (copy_ok : Bool)
    (rounds : List Round) (rep : Reply) (bs : List ℕ) (w : Waited)
    → cnt < 2 ^ 63
    → wait_fresh tables (down st) rounds ≡ w
    → finish_read cnt 0 copy_ok w ≡ returned rep
    → rep.result ≡ ok bs
    → FreshBytes tables st cnt rounds rep bs
finish_read-FreshBytes tables small st cnt copy_ok rounds rep bs (stopped e st') c f h r =
    ground (arith, h, r)
finish_read-FreshBytes tables small st cnt copy_ok rounds rep bs crashed c f h r = ground (arith, h)
finish_read-FreshBytes tables small st cnt copy_ok rounds rep bs (asleep st') c f h r =
    ground (arith, h)
finish_read-FreshBytes tables small st cnt false rounds rep bs (ready st') c f h r =
    unfold copy_out in ground (arith, h, r)
finish_read-FreshBytes tables small st cnt true rounds rep bs (ready st') c f h r =
    let (page, v, seen, cached) = wait_fresh-IsFresh tables (down st) rounds f in
    let fits = length-text v (small st.type page.value v cached.value) in
    let t = text v in
    let n = min cnt (st'.buf_lim - 0) in
    let same =
      ap (rep_of rep) (sym h)
      ∙ copy_out_lem st' cnt 0 (omega arith) (omega (arith, cached.limit, fits)) c in
    let count : n ≡ min cnt (length t) = omega (arith, cached.limit) in
    (
      page,
      v,
      seen,
      cached.value,
      ap (λ p. p.state.buf_timestamp) same ∙ cached.stamp,
      ap bytes_of (sym r)
          ∙ ap (λ p. bytes_of p.result) same
          ∙ ap (λ b. take n b)
              (cached.bytes ∙ snprintf-append (down st).buf_data t (omega (arith, fits)))
          ∙ ap (λ m. take m (t ++ (0 ∷ drop (min 19 (length t) + 1) (down st).buf_data))) count
          ∙ take-append_short (min cnt (length t)) t _ (omega arith)
          ∙ take_clipped cnt t,
    )

-- A read at the start of the device that returns bytes gives the beginning, as long as is asked for, of the
-- text of a page that one of its rounds read under the lock, after an unlocked check had seen a new time
-- stamp, and leaves the device with that page's stamp, whatever was in the cache before. The tables give
-- numbers of less than 10 ^ 12 in absolute value, and less than 2 ^ 63 bytes are asked for.
pub read-FreshBytes :
    (tables : Tables) (st : State) (cnt : ℕ) (down_ok copy_ok : Bool) (rounds : List Round)
    (rep : Reply) (bs : List ℕ)
    → IsSmall tables
    → cnt < 2 ^ 63
    → read tables st cnt 0 down_ok copy_ok rounds ≡ returned rep
    → rep.result ≡ ok bs
    → FreshBytes tables st cnt rounds rep bs
unfolding read
read-FreshBytes tables st cnt false copy_ok rounds rep bs small c h r = ground (arith, h, r)
read-FreshBytes tables st cnt true copy_ok rounds rep bs small c h r =
    finish_read-FreshBytes tables small st cnt copy_ok rounds rep bs
      (wait_fresh tables (down st) rounds) c refl h r
