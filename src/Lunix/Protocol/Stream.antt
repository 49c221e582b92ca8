-- ===== src/Lunix/Protocol/Stream.antt =====
-- What a stream of buffers does to the receiver of lunix-protocol.c.
use operating_systems_ntua.Prelude.{
  ℕ, ◌<◌, ◌≡◌, ◌≢◌, sym, ◌∙◌, Bool, false, ◌&&◌, some, List, [], ◌∷◌, ◌++◌, arith, ◌==◌, length,
  Bool-cases, ◌⊎◌, inl, inr,
}
use operating_systems_ntua.Lunix.Sensors.{Sensor}
use operating_systems_ntua.Lunix.Protocol.{
  start_byte, number, State, init, parse_byte, received_buf,
}
use operating_systems_ntua.Lunix.Protocol.Bounds.{
  announced, IsPlaced, IsValid, AreBytes, parse_byte-IsPlaced,
}
use operating_systems_ntua.Lunix.Protocol.Feed.{
  specials, is_full, settle, after_byte, deliver, feed_all, settle-IsValid,
}
use operating_systems_ntua.Lunix.Protocol.Refine.{received_buf-feed_all}

AreBytes-append : (xs ys : List ℕ) → AreBytes xs → AreBytes ys → AreBytes (xs ++ ys)
AreBytes-append [] ys hx hy = hy
AreBytes-append (x ∷ xs) ys hx hy = (hx.0, AreBytes-append xs ys hx.1 hy)

-- The end of the packet has come with this state.
abbrev ends : State → Bool
ends st = number st.phase == 9 && is_full st

abbrev next_state : State → ℕ → State
next_state st c = settle (after_byte st c)

deliver-start_byte :
    (now : ℕ) (st : State) (sensors : List Sensor) {st' : State} {sensors' : List Sensor}
    → deliver now st sensors ≡ some (st', sensors')
    → st'.phase ≡ start_byte
unfolding init
deliver-start_byte now st sensors h = ground arith

after_byte-IsPlaced : (st : State) (c : ℕ) → c < 256 → IsValid st → IsPlaced (after_byte st c)
after_byte-IsPlaced st c h v = parse_byte-IsPlaced (specials st.phase) st c h v

init-IsValid : (st : State) → announced st < 256 → length st.packet ≡ 300 → IsValid (init st)
unfolding init
init-IsValid st h k = ground arith

deliver-IsValid :
    (now : ℕ) (st : State) (sensors : List Sensor) {st' : State} {sensors' : List Sensor}
    → IsPlaced st
    → deliver now st sensors ≡ some (st', sensors')
    → IsValid st'
unfolding init
deliver-IsValid now st sensors p h = ground arith

feed_all-IsValid :
    (now : ℕ) (sensors : List Sensor) (st : State) (bytes : List ℕ) {st' : State}
    {sensors' : List Sensor}
    → AreBytes bytes
    → IsValid st
    → feed_all now sensors st bytes ≡ some (st', sensors')
    → IsValid st'
unfolding feed_all
feed_all-IsValid now sensors st [] b v h = ground arith
feed_all-IsValid now sensors st (c ∷ cs) b v h =
    let placed = after_byte-IsPlaced st c b.0 v in
    elim (Bool-cases (ends (after_byte st c))) [
      | inl last ↦ deliver-IsValid now (after_byte st c) sensors placed (rw last at h)
      | inr more ↦
          feed_all-IsValid now sensors (next_state st c) cs b.1
            (settle-IsValid (after_byte st c) placed more) (rw more at h)
    ]

next_state-ne-start_byte : (st : State) (c : ℕ) → IsValid st → (next_state st c).phase ≢ start_byte
unfolding parse_byte
next_state-ne-start_byte st c v = ground arith

next_state-IsValid :
    (st : State) (c : ℕ)
    → c < 256
    → IsValid st
    → ends (after_byte st c) ≡ false
    → IsValid (next_state st c)
next_state-IsValid st c h v more =
    settle-IsValid (after_byte st c) (after_byte-IsPlaced st c h v) more

module _ (now : ℕ) where
  feed_all-append :
      (sensors : List Sensor) (st : State) (xs ys : List ℕ) {st' : State} {sensors' : List Sensor}
      → feed_all now sensors st xs ≡ some (st', sensors')
      → st'.phase ≢ start_byte
      → feed_all now sensors st (xs ++ ys) ≡ feed_all now sensors' st' ys
  unfolding feed_all
  feed_all-append sensors st [] ys h k = ground arith
  feed_all-append sensors st (c ∷ cs) ys h k = elim (Bool-cases (ends (after_byte st c))) [
    | inl last ↦ absurd (k (deliver-start_byte now (after_byte st c) sensors (rw last at h)))
    | inr more ↦ rw more (feed_all-append sensors (next_state st c) cs ys (rw more at h) k)
  ]

  feed_all-drop :
      (sensors : List Sensor) (st : State) (xs ys : List ℕ) {st' : State} {sensors' : List Sensor}
      → AreBytes xs
      → IsValid st
      → feed_all now sensors st xs ≡ some (st', sensors')
      → (xs ≢ []) ⊎ (st.phase ≢ start_byte)
      → st'.phase ≡ start_byte
      → feed_all now sensors st (xs ++ ys) ≡ some (st', sensors')
  unfolding feed_all
  feed_all-drop sensors st [] ys b v h ne k = ground arith
  feed_all-drop sensors st (c ∷ cs) ys b v h ne k = elim (Bool-cases (ends (after_byte st c))) [
    | inl last ↦ rw last (rw last at h)
    | inr more ↦ rw more (
        feed_all-drop sensors (next_state st c) cs ys b.1 (next_state-IsValid st c b.0 v more)
          (rw more at h) (inr (next_state-ne-start_byte st c v)) k)
  ]

  -- With LUNIX_DEBUG unset, a buffer of bytes that faults nowhere keeps the receiver's invariant:
  -- the counters agree with the phase, the phase is not finished, and so the packet buffer is
  -- written inside its bounds.
  pub received_buf-IsValid :
      (sensors : List Sensor) (st : State) (bytes : List ℕ) {st' : State} {sensors' : List Sensor}
      → AreBytes bytes
      → IsValid st
      → received_buf false now sensors st bytes ≡ some (st', sensors')
      → IsValid st'
  received_buf-IsValid sensors st bytes b v h =
      feed_all-IsValid now sensors st bytes b v
        (sym (received_buf-feed_all now sensors st bytes b v) ∙ h)

  -- With LUNIX_DEBUG unset, from a valid state, where a buffer `xs` of bytes ends inside a packet,
  -- handing over `xs ++ ys` at once is handing over `xs` and then `ys`: the driver does not depend
  -- on how the line cuts a packet.
  pub received_buf-append :
      (sensors : List Sensor) (st : State) (xs ys : List ℕ) {st' : State} {sensors' : List Sensor}
      → AreBytes xs
      → AreBytes ys
      → IsValid st
      → received_buf false now sensors st xs ≡ some (st', sensors')
      → st'.phase ≢ start_byte
      → received_buf false now sensors st (xs ++ ys) ≡ received_buf false now sensors' st' ys
  received_buf-append sensors st xs ys bx by_ v h k =
      let first = sym (received_buf-feed_all now sensors st xs bx v) ∙ h in
      received_buf-feed_all now sensors st (xs ++ ys) (AreBytes-append xs ys bx by_) v
      ∙ feed_all-append sensors st xs ys first k
      ∙ sym (received_buf-feed_all now _ _ ys by_ (feed_all-IsValid now sensors st xs bx v first))

  -- With LUNIX_DEBUG unset, from a valid state, where a buffer `xs` of bytes, not empty, completes
  -- a packet, the bytes `ys` that follow it in the same buffer have no effect: a packet that starts
  -- there is lost.
  pub received_buf_drops :
      (sensors : List Sensor) (st : State) (xs ys : List ℕ) {st' : State} {sensors' : List Sensor}
      → AreBytes xs
      → AreBytes ys
      → IsValid st
      → xs ≢ []
      → received_buf false now sensors st xs ≡ some (st', sensors')
      → st'.phase ≡ start_byte
      → received_buf false now sensors st (xs ++ ys) ≡ some (st', sensors')
  received_buf_drops sensors st xs ys bx by_ v ne h k =
      received_buf-feed_all now sensors st (xs ++ ys) (AreBytes-append xs ys bx by_) v
      ∙ feed_all-drop sensors st xs ys bx v (sym (received_buf-feed_all now sensors st xs bx v) ∙ h)
          (inl ne) k
