-- ===== src/Lunix/Protocol/Refine.antt =====
-- `lunix_protocol_received_buf` of lunix-protocol.c beside the byte machine of Feed, stage by
-- stage.
use operating_systems_ntua.Prelude.{
  ℕ, ◌≡◌, refl, ◌∙◌, Bool, true, false, some, List, [], ◌∷◌, arith, ◌==◌, get_or, Bool-cases, inl,
  inr,
}
use operating_systems_ntua.Lunix.Sensors.{Sensor}
use operating_systems_ntua.Lunix.Protocol.{
  Phase, start_byte, packet_type, destination_address, am_type, am_group, payload_length, payload,
  crc, end_byte, number, State, parse_byte, parse_loop, parse_state, stage, start_phase,
  start_payload, end_stage, from_crc, from_payload, from_payload_length, from_am_group,
  from_am_type, from_destination, from_packet_type, received_buf,
}
use operating_systems_ntua.Lunix.Protocol.Bounds.{IsPlaced, IsValid, AreBytes}
use operating_systems_ntua.Lunix.Protocol.Feed.{
  specials, is_full, settle, feed_all, resume-stage, loop-eq-feed_all, Rest, settle-IsValid,
  parse_loop-full,
}

module _ (now : ℕ) (sensors : List Sensor) where
  -- From the stage `p` on, the code `K` behaves as the machine.
  abbrev Refines : Phase → Rest → Type 0
  Refines p K =
      (st : State) (bytes : List ℕ)
      → AreBytes bytes
      → IsValid st
      → st.phase ≡ p
      → K (st, bytes) ≡ feed_all now sensors st bytes

  end_stage-Refines : Refines end_byte (end_stage false now sensors)
  unfolding end_stage parse_state parse_loop parse_byte feed_all
  end_stage-Refines st [] b v e = ground arith
  end_stage-Refines st (c ∷ cs) b v e =
      ground (arith, parse_loop-full false 1 (parse_byte false st c) cs)

  -- A stage in front of code that refines the next phase.
  stage-Refines :
      (p : Phase) (next : State → State) (K : Rest)
      → (number p == 9) ≡ false
      → ((st : State) → st.phase ≡ p → K (st, []) ≡ some (st, sensors))
      → ((st : State) (cs : List ℕ)
          → AreBytes cs
          → IsValid (settle st)
          → IsPlaced st
          → st.phase ≡ p
          → is_full st ≡ true
          → K (next st, cs) ≡ feed_all now sensors (settle st) cs)
      → Refines p (λ x. K (stage false p (specials p) next x))
  stage-Refines p next K inside skip go st bytes b v e =
      resume-stage K p (specials p) next st bytes e
      ∙ loop-eq-feed_all now sensors p next K inside skip
          (λ st' cs b' pl e' full.
            go st' cs b' (settle-IsValid st' pl (rw (e', inside))) pl e' full)
          0 st bytes b v e

  stage-skip :
      (p : Phase) (s : Bool) (next : State → State) (st : State) (bytes : List ℕ)
      → (number st.phase == number p) ≡ false
      → stage false p s next (st, bytes) ≡ (st, bytes)
  unfolding stage
  stage-skip p s next st bytes h = rw h

  from_crc-Refines : Refines crc (from_crc false now sensors)
  unfolding from_crc
  from_crc-Refines =
      stage-Refines crc (start_phase end_byte 1) (end_stage false now sensors) refl
        (λ st e. unfold stage end_stage in ground arith)
        (λ st cs b v pl e full. ground (arith, end_stage-Refines (settle st) cs b v))

  from_payload-Refines : Refines payload (from_payload false now sensors)
  unfolding from_payload
  from_payload-Refines =
      stage-Refines payload (start_phase crc 2) (from_crc false now sensors) refl
        (λ st e. unfold stage end_stage from_crc in ground arith)
        (λ st cs b v pl e full. ground (arith, from_crc-Refines (settle st) cs b v))

  -- A payload of length 0 is complete at once.
  payload_skipped :
      (st : State) (cs : List ℕ)
      → AreBytes cs
      → IsValid (settle st)
      → IsPlaced st
      → st.phase ≡ payload_length
      → is_full st ≡ true
      → (get_or st.packet 6 0 == 0) ≡ true
      → from_payload false now sensors (start_payload st, cs) ≡ feed_all now sensors (settle st) cs
  unfolding from_payload stage parse_state
  payload_skipped st cs b v pl e full empty =
      ground
        (arith, parse_loop-full true 0 (start_payload st) cs, from_crc-Refines (settle st) cs b v)

  from_payload_length-Refines : Refines payload_length (from_payload_length false now sensors)
  unfolding from_payload_length
  from_payload_length-Refines =
      stage-Refines payload_length (start_payload) (from_payload false now sensors) refl
        (λ st e. unfold stage end_stage from_crc from_payload in ground arith)
        (λ st cs b v pl e full. elim (Bool-cases (get_or st.packet 6 0 == 0)) [
          | inl empty ↦ payload_skipped st cs b v pl e full empty
          | inr some_bytes ↦ ground (arith, from_payload-Refines (settle st) cs b v)
        ])

  from_am_group-Refines : Refines am_group (from_am_group false now sensors)
  unfolding from_am_group
  from_am_group-Refines =
      stage-Refines am_group (start_phase payload_length 1) (from_payload_length false now sensors)
        refl
        (λ st e. unfold stage end_stage from_crc from_payload from_payload_length in ground arith)
        (λ st cs b v pl e full. ground (arith, from_payload_length-Refines (settle st) cs b v))

  from_am_type-Refines : Refines am_type (from_am_type false now sensors)
  unfolding from_am_type
  from_am_type-Refines =
      stage-Refines am_type (start_phase am_group 1) (from_am_group false now sensors) refl
        (λ st e.
          unfold stage end_stage from_crc from_payload from_payload_length from_am_group in
          ground arith)
        (λ st cs b v pl e full. ground (arith, from_am_group-Refines (settle st) cs b v))

  from_destination-Refines : Refines destination_address (from_destination false now sensors)
  unfolding from_destination
  from_destination-Refines =
      stage-Refines destination_address (start_phase am_type 1) (from_am_type false now sensors)
        refl
        (λ st e.
          unfold stage end_stage from_crc from_payload from_payload_length from_am_group
            from_am_type in
          ground arith)
        (λ st cs b v pl e full. ground (arith, from_am_type-Refines (settle st) cs b v))

  from_packet_type-Refines : Refines packet_type (from_packet_type false now sensors)
  unfolding from_packet_type
  from_packet_type-Refines =
      stage-Refines packet_type (start_phase destination_address 2)
        (from_destination false now sensors) refl
        (λ st e.
          unfold stage end_stage from_crc from_payload from_payload_length from_am_group
            from_am_type from_destination in
          ground arith)
        (λ st cs b v pl e full. ground (arith, from_destination-Refines (settle st) cs b v))

  -- Every stage before the state's phase is passed over.
  received_buf-at :
      (p : Phase) (st : State) (bytes : List ℕ)
      → AreBytes bytes
      → IsValid st
      → st.phase ≡ p
      → received_buf false now sensors st bytes ≡ feed_all now sensors st bytes
  unfolding received_buf
  received_buf-at start_byte st bytes b v e =
      stage-Refines start_byte (start_phase packet_type 1) (from_packet_type false now sensors) refl
        (λ st e.
          unfold from_packet_type from_destination from_am_type from_am_group from_payload_length
            from_payload from_crc stage end_stage in
          ground arith)
        (λ st cs b v pl e full. ground (arith, from_packet_type-Refines (settle st) cs b v)) st
        bytes b v e
  received_buf-at packet_type st bytes b v e =
      unfold stage in ground (arith, from_packet_type-Refines st bytes b v e)
  received_buf-at destination_address st bytes b v e =
      unfold from_packet_type stage in ground (arith, from_destination-Refines st bytes b v e)
  received_buf-at am_type st bytes b v e =
      unfold from_packet_type from_destination stage in
      ground (arith, from_am_type-Refines st bytes b v e)
  received_buf-at am_group st bytes b v e =
      unfold from_packet_type from_destination from_am_type stage in
      ground (arith, from_am_group-Refines st bytes b v e)
  received_buf-at payload_length st bytes b v e =
      unfold from_packet_type from_destination from_am_type from_am_group stage in
      ground (arith, from_payload_length-Refines st bytes b v e)
  received_buf-at payload st bytes b v e =
      unfold from_packet_type from_destination from_am_type from_am_group from_payload_length
        stage in
      ground (arith, from_payload-Refines st bytes b v e)
  received_buf-at crc st bytes b v e =
      unfold from_packet_type from_destination from_am_type from_am_group from_payload_length
        from_payload stage in
      ground (arith, from_crc-Refines st bytes b v e)
  received_buf-at end_byte st bytes b v e =
      unfold from_packet_type from_destination from_am_type from_am_group from_payload_length
        from_payload from_crc stage in
      ground (arith, end_stage-Refines st bytes b v e)

  -- With LUNIX_DEBUG unset, from a valid state and on any buffer of bytes, the staged code of the
  -- driver does what the machine that takes one byte at a time does: same final state, same
  -- sensors.
  pub received_buf-feed_all :
      (st : State) (bytes : List ℕ)
      → AreBytes bytes
      → IsValid st
      → received_buf false now sensors st bytes ≡ feed_all now sensors st bytes
  received_buf-feed_all st bytes b v = received_buf-at st.phase st bytes b v refl
