-- ===== src/Lunix/Chrdev/Drain.antt =====
-- Reading a device of lunix-chrdev.c piece by piece.
use operating_systems_ntua.Prelude.{
  ℕ, ◌+◌, ◌-◌, ◌^◌, ◌≤◌, ◌<◌, ◌≡◌, refl, sym, ap, ◌∙◌, min, true, false, List, [], ◌∷◌, ◌++◌, arith,
  ltb, ◌==◌, if◌then◌else◌, length, length-append, length-take, take, drop, subst, Bool-cases, inl,
  inr, ok, err, take-append_short,
}
use operating_systems_ntua.Prelude.Int.{ℤ, nat_abs}
use operating_systems_ntua.Lunix.Sensors.{MsrData}
use operating_systems_ntua.Lunix.Chrdev.{State, text, snprintf, bufsz, cache, Reply, copy_out}
use operating_systems_ntua.Lunix.Chrdev.Text.{length-text}
use operating_systems_ntua.Lunix.Chrdev.Reads.{snprintf-append, copy_out_lem}

abbrev pub bytes : Reply → List ℕ
bytes rep = elim rep.result [ ok bs ↦ bs | err e ↦ [] ]

-- A process asks for the numbers of bytes in turn, up to the end of the text.
pub drain : State → List ℕ → ℕ → List ℕ
drain st [] f_pos = []
drain st (cnt ∷ cnts) f_pos =
    let rep = copy_out st cnt f_pos true in
    let rest = drain st cnts rep.f_pos in bytes rep ++ (if rep.f_pos == 0 then [] else rest)

-- What is asked for is at least one byte each time, and enough in all.
abbrev pub AsksFor : ℕ → List ℕ → Type 0
AsksFor n [] = n ≡ 0
AsksFor n (cnt ∷ cnts) = (0 < cnt) × ((cnt < 2 ^ 63) × AsksFor (n - cnt) cnts)

-- Beginnings of a text, as long as what is asked for, until as many bytes as there are left are given.
abbrev pub beginnings : List ℕ → ℕ → List ℕ → List ℕ
beginnings t left [] = []
beginnings t left (cnt ∷ cnts) =
    take (min cnt left) t ++ (if ltb cnt left then beginnings t (left - cnt) cnts else [])

module _ (st : State) (cnt f_pos : ℕ) (limit : st.buf_lim < 2 ^ 31) (small : cnt < 2 ^ 63) where
  copy_out_inside :
      0 < cnt
      → f_pos + cnt < st.buf_lim
      → let rep = copy_out st cnt f_pos true in
        (bytes rep ≡ take (min cnt (st.buf_lim - f_pos)) st.buf_data)
        × (rep.f_pos ≡ f_pos + cnt)
        × ((rep.f_pos == 0) ≡ false)
  copy_out_inside some_bytes h =
      let n : min cnt (st.buf_lim - f_pos) ≡ cnt = omega arith in
      rw (copy_out_lem st cnt f_pos (omega arith) limit small, n) (ground arith)

  copy_out_at_end :
      f_pos ≤ st.buf_lim
      → st.buf_lim ≤ f_pos + cnt
      → let rep = copy_out st cnt f_pos true in
        (bytes rep ≡ take (min cnt (st.buf_lim - f_pos)) st.buf_data) × ((rep.f_pos == 0) ≡ true)
  copy_out_at_end h k =
      let n : min cnt (st.buf_lim - f_pos) ≡ st.buf_lim - f_pos = omega arith in
      rw (copy_out_lem st cnt f_pos h limit small, n) (ground arith)

drain-from :
    (st : State) (cnts : List ℕ) (f_pos : ℕ)
    → f_pos < st.buf_lim
    → st.buf_lim < 2 ^ 31
    → AsksFor (st.buf_lim - f_pos) cnts
    → drain st cnts f_pos ≡ beginnings st.buf_data (st.buf_lim - f_pos) cnts
unfolding drain
drain-from st [] f_pos h k a = absurd (omega arith)
drain-from st (cnt ∷ cnts) f_pos h k a = elim (Bool-cases (ltb cnt (st.buf_lim - f_pos))) [
  | inl inside ↦
      let lt : f_pos + cnt < st.buf_lim = ground (arith, inside) in
      let (got, moved, more) = copy_out_inside st cnt f_pos k a.1.0 a.0 lt in
      let left : st.buf_lim - f_pos - cnt ≡ st.buf_lim - (f_pos + cnt) = omega arith in
      let asks = subst (λ n. AsksFor n cnts) left a.1.1 in
      rw (got, more, moved, inside, left)
        (ap (λ r. take (min cnt (st.buf_lim - f_pos)) st.buf_data ++ r)
          (drain-from st cnts (f_pos + cnt) lt k asks))
  | inr at_end ↦
      let (got, done) = copy_out_at_end st cnt f_pos k a.1.0 (omega arith) (ground arith) in
      rw (got, done, at_end) refl
]

beginnings-append :
    (t r : List ℕ) (left : ℕ) (cnts : List ℕ)
    → left ≤ length t
    → beginnings (t ++ r) left cnts ≡ beginnings t left cnts
beginnings-append t r left [] h = refl
beginnings-append t r left (cnt ∷ cnts) h =
    let here = take-append_short (min cnt left) t r (omega arith) in
    rw (here, beginnings-append t r (left - cnt) cnts (omega arith)) refl

length-beginnings :
    (t : List ℕ) (left : ℕ) (cnts : List ℕ)
    → left ≤ length t
    → AsksFor left cnts
    → length (beginnings t left cnts) ≡ left
length-beginnings t left [] h a = sym a
length-beginnings t left (cnt ∷ cnts) h a =
    let rest = length-beginnings t (left - cnt) cnts (omega arith) a.1.1 in
    let here = length-take (min cnt left) t in
    elim (Bool-cases (ltb cnt left)) [
      | inl inside ↦
          let lt : cnt < left = ground (arith, inside) in
          rw (inside, length-append (take (min cnt left) t) (beginnings t (left - cnt) cnts))
            (omega arith)
      | inr at_end ↦
          let le : left ≤ cnt = ground (arith, at_end) in
          rw (at_end, length-append (take (min cnt left) t) []) (omega arith)
    ]

-- A process reads piece by piece, at least one byte each time, less than 2 ^ 63, and enough in all, a cached
-- measurement of less than 10 ^ 12 in absolute value. Every read gives a beginning of the text, not what
-- comes next: as many bytes as are asked for and left. In all they are as many as the
-- text has.
pub drain-beginnings :
    (st : State) (page : MsrData) (v : ℤ) (cnts : List ℕ)
    → nat_abs v < 10 ^ 12
    → AsksFor (length (text v)) cnts
    → (drain (cache st page v) cnts 0 ≡ beginnings (text v) (length (text v)) cnts)
      × (length (drain (cache st page v) cnts 0) ≡ length (text v))
unfolding cache
drain-beginnings st page v cnts h a =
    let fits = length-text v h in
    let all : length (text v) - 0 ≡ length (text v) = omega arith in
    let rest = 0 ∷ drop (min 19 (length (text v)) + 1) st.buf_data in
    let asks = subst (λ n. AsksFor n cnts) (sym all) a in
    let whole : drain (cache st page v) cnts 0 ≡ beginnings (text v) (length (text v)) cnts =
      drain-from (cache st page v) cnts 0 (omega arith) (omega arith) asks
      ∙ ap (λ n. beginnings (snprintf st.buf_data bufsz (text v)) n cnts) all
      ∙ ap (λ b. beginnings b (length (text v)) cnts)
          (snprintf-append st.buf_data (text v) (omega arith))
      ∙ beginnings-append (text v) rest (length (text v)) cnts (omega arith) in
    (whole, ap length whole ∙ length-beginnings (text v) (length (text v)) cnts (omega arith) a)
