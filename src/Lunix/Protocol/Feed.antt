-- ===== src/Lunix/Protocol/Feed.antt =====
-- lunix-protocol.c again, as a machine that takes one byte at a time: the specification of
-- `lunix_protocol_received_buf`.
use operating_systems_ntua.Prelude.{
  ℕ, ◌+◌, ◌<◌, ◌≡◌, refl, sym, ap, ◌∙◌, Bool, true, false, ◌&&◌, Option, none, some, List, [], ◌∷◌,
  inl, inr, arith, ◌==◌, if◌then◌else◌, Bool-cases, ==_iff, get_or,
}
use operating_systems_ntua.Lunix.Sensors.{Sensor}
use operating_systems_ntua.Lunix.Protocol.{
  Phase, start_byte, packet_type, destination_address, am_type, am_group, payload_length, payload,
  crc, end_byte, number, State, set_state, init, update_sensors, parse_byte, Parsed, complete,
  parse_loop, parse_state, stage, start_payload,
}
use operating_systems_ntua.Lunix.Protocol.Bounds.{IsPlaced, IsValid, AreBytes, parse_byte-IsPlaced}

-- The phases whose bytes may be escaped.
abbrev pub specials : Phase → Bool
specials start_byte = false
specials packet_type = false
specials end_byte = false
specials _ = true

-- A phase whose bytes are all read gives way to the next; a payload of no bytes is passed over.
abbrev pub advance : Phase → State → State
advance start_byte st = set_state st packet_type 1 0
advance packet_type st = set_state st destination_address 2 0
advance destination_address st = set_state st am_type 1 0
advance am_type st = set_state st am_group 1 0
advance am_group st = set_state st payload_length 1 0
advance payload_length st =
    if get_or st.packet 6 0 == 0 then set_state st crc 2 0 else start_payload st
advance payload st = set_state st crc 2 0
advance crc st = set_state st end_byte 1 0
advance end_byte st = st

abbrev pub is_full : State → Bool
is_full st = st.bytes_read == st.bytes_to_read

abbrev pub settle : State → State
settle st = if is_full st then advance st.phase st else st

-- The state behind one byte that does not end the packet.
abbrev pub after_byte : State → ℕ → State
after_byte st c = parse_byte (specials st.phase) st c

-- The end byte hands the packet to the sensors.
abbrev pub deliver : ℕ → State → List Sensor → Option (State × List Sensor)
deliver now st sensors = elim (update_sensors now st sensors) [
  | none ↦ none
  | some sensors' ↦ some (init st, sensors')
]

-- The machine reads byte by byte, and drops what follows the end of a packet.
unfoldable pub feed_all : ℕ → List Sensor → State → List ℕ → Option (State × List Sensor)
feed_all now sensors st [] = some (st, sensors)
feed_all now sensors st (c ∷ cs) =
    let st' = after_byte st c in
    let rest = feed_all now sensors (settle st') cs in
    if number st'.phase == 9 && is_full st' then deliver now st' sensors else rest

-- A byte read by a valid state leaves one, unless it ends the packet.
pub settle-IsValid :
    (st : State) → IsPlaced st → (number st.phase == 9 && is_full st) ≡ false → IsValid (settle st)
settle-IsValid st p h = ground arith

pub phase-parse_byte : (s : Bool) (st : State) (c : ℕ) → (parse_byte s st c).phase ≡ st.phase
unfolding parse_byte
phase-parse_byte false st c = refl
phase-parse_byte true st c = ground arith

pub parse_loop-full :
    (s : Bool) (iter : ℕ) (st : State) (cs : List ℕ)
    → st.bytes_read ≡ st.bytes_to_read
    → parse_loop false s iter st cs ≡ (complete, st, cs)
unfolding parse_loop
parse_loop-full s iter st [] h = ground arith
parse_loop-full s iter st (c ∷ cs) h = ground arith

-- A valid state reads its next byte in the loop.
parse_loop-more :
    (s : Bool) (iter : ℕ) (st : State) (c : ℕ) (cs : List ℕ)
    → IsValid st
    → parse_loop false s iter st (c ∷ cs) ≡ parse_loop false s (iter + 1) (parse_byte s st c) cs
unfolding parse_loop
parse_loop-more s iter st c cs v = ground arith

abbrev pub Rest : Type 0
Rest = State × List ℕ → Option (State × List Sensor)

-- What the code does with the result of `lunix_protocol_parse_state`, and then on.
abbrev pub resume : Rest → (State → State) → Parsed × State × List ℕ → Option (State × List Sensor)
resume K next (complete, st, rest) = K (next st, rest)
resume K next (_, st, rest) = K (st, rest)

pub resume-stage :
    (K : Rest) (p : Phase) (s : Bool) (next : State → State) (st : State) (bytes : List ℕ)
    → st.phase ≡ p
    → K (stage false p s next (st, bytes)) ≡ resume K next (parse_loop false s 0 st bytes)
unfolding stage parse_state
resume-stage K p s next st bytes e = rw e (ground arith)

pub feed_all-more :
    (now : ℕ) (sensors : List Sensor) (s : Bool) (st : State) (c : ℕ) (cs : List ℕ)
    → specials st.phase ≡ s
    → is_full (parse_byte s st c) ≡ false
    → feed_all now sensors st (c ∷ cs) ≡ feed_all now sensors (parse_byte s st c) cs
unfolding feed_all
feed_all-more now sensors s st c cs e h = rw e (rw h (ground arith))

pub feed_all-full :
    (now : ℕ) (sensors : List Sensor) (s : Bool) (st : State) (c : ℕ) (cs : List ℕ)
    → specials st.phase ≡ s
    → is_full (parse_byte s st c) ≡ true
    → (number (parse_byte s st c).phase == 9) ≡ false
    → feed_all now sensors st (c ∷ cs) ≡ feed_all now sensors (settle (parse_byte s st c)) cs
unfolding feed_all
feed_all-full now sensors s st c cs e h k = rw e (rw k refl)

lt_of_not_full : (st : State) → IsPlaced st → is_full st ≡ false → st.bytes_read < st.bytes_to_read
lt_of_not_full st p h = ground arith

-- One stage of the code and what follows it is the machine, if what follows it is.
module _ (now : ℕ) (sensors : List Sensor) (p : Phase) (next : State → State) (K : Rest)
    (inside : (number p == 9) ≡ false)
    (skip : (st : State) → st.phase ≡ p → K (st, []) ≡ some (st, sensors))
    (go : (st : State) (cs : List ℕ)
      → AreBytes cs
      → IsPlaced st
      → st.phase ≡ p
      → is_full st ≡ true
      → K (next st, cs) ≡ feed_all now sensors (settle st) cs) where
  pub loop-eq-feed_all :
      (iter : ℕ) (st : State) (bytes : List ℕ)
      → AreBytes bytes
      → IsValid st
      → st.phase ≡ p
      → resume K next (parse_loop false (specials p) iter st bytes) ≡ feed_all now sensors st bytes
  loop-eq-feed_all iter st [] b v e = unfold parse_loop feed_all in ground (arith, skip st e)
  loop-eq-feed_all iter st (c ∷ cs) b v e =
      let flag : specials st.phase ≡ specials p = ap specials e in
      let st' = parse_byte (specials p) st c in
      let placed = parse_byte-IsPlaced (specials p) st c b.0 v in
      let same : st'.phase ≡ p = phase-parse_byte (specials p) st c ∙ e in
      rw (parse_loop-more (specials p) iter st c cs v) (elim (Bool-cases (is_full st')) [
        | inl full ↦ rw (parse_loop-full (specials p) (iter + 1) st' cs ((==_iff _ _).0 full)) (
            go st' cs b.1 placed same full
            ∙ sym (feed_all-full now sensors (specials p) st c cs flag full (rw same inside)))
        | inr more ↦
            loop-eq-feed_all (iter + 1) st' cs b.1
              (record { placed = placed; unfinished = lt_of_not_full st' placed more }) same
            ∙ sym (feed_all-more now sensors (specials p) st c cs flag more)
      ])
