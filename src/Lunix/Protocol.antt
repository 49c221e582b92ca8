-- ===== src/Lunix/Protocol.antt =====
-- lunix-protocol.c and lunix-protocol.h: the state machine that takes XMesh packets off the serial
-- line and hands their measurements to the sensors. The unread bytes `data[*i .. length)` of a
-- buffer are a list. `debug` is the compile-time switch LUNIX_DEBUG, and `now` is what get_seconds
-- returns. The `int` counters stay far below 2 ^ 31 and are plain numbers.
pub mod Bounds
pub mod Feed
pub mod Frames
pub mod Decode
pub mod Packets
pub mod Delivery
pub mod Refine
pub mod Stream
pub mod Debug
mod Tests
use operating_systems_ntua.Prelude.{
  ℕ, ◌+◌, ◌-◌, ◌*◌, bit_xor, Bool, true, false, ◌&&◌, Option, none, some, List, [], ◌∷◌, ltb, leb,
  ◌==◌, if◌then◌else◌, length, get_elem?, get_or, set,
}
use operating_systems_ntua.Lunix.Sensors.{Sensor, sensor_update}

abbrev pub max_packet_len : ℕ
max_packet_len = 300

abbrev pub packet_signature_offset : ℕ
packet_signature_offset = 4

abbrev pub node_offset : ℕ
node_offset = 9

abbrev pub vref_offset : ℕ
vref_offset = 18

abbrev pub temperature_offset : ℕ
temperature_offset = 20

abbrev pub light_offset : ℕ
light_offset = 22

-- The SEEKING_* states.
pub data Phase : Type 0 where
  start_byte packet_type destination_address am_type am_group : Phase
  payload_length payload crc end_byte : Phase

-- `a == b` on the numbers of the states.
abbrev pub number : Phase → ℕ
number start_byte = 1
number packet_type = 2
number destination_address = 3
number am_type = 4
number am_group = 5
number payload_length = 6
number payload = 7
number crc = 8
number end_byte = 9

-- `struct lunix_protocol_state_struct`, less the field `payload_length`, which no code uses.
pub record State : Type 0 where
  pub phase : Phase
  pub bytes_read : ℕ
  pub bytes_to_read : ℕ
  pub pos : ℕ
  pub next_is_special : ℕ
  pub packet : List ℕ

-- `uint16_from_packet` at an offset: two bytes, little-endian.
abbrev pub uint16_from_packet : List ℕ → ℕ → ℕ
uint16_from_packet p i = get_or p i 0 + 256 * get_or p (i + 1) 0

-- `lunix_sensors[i]` replaced; `none` where the update faults.
abbrev pub store_sensor : List Sensor → ℕ → Option Sensor → Option (List Sensor)
store_sensor sensors i none = none
store_sensor sensors i (some s) = some (set sensors i s)

-- `lunix_sensor_update(&lunix_sensors[i], ...)`; a sensor out of range would be a wild write.
pub update_at : ℕ → List Sensor → ℕ → ℕ → ℕ → ℕ → Option (List Sensor)
update_at now sensors i b t l = elim (get_elem? sensors i) [
  | none ↦ none
  | some s ↦ store_sensor sensors i (sensor_update now s b t l)
]

-- `lunix_protocol_update_sensors`; `lunix_sensor_cnt` is the length of the array.
pub update_sensors : ℕ → State → List Sensor → Option (List Sensor)
update_sensors now st sensors =
    let nodeid = uint16_from_packet st.packet node_offset in
    let batt = uint16_from_packet st.packet vref_offset in
    let temp = uint16_from_packet st.packet temperature_offset in
    let light = uint16_from_packet st.packet light_offset in
    if 0x0B == get_or st.packet packet_signature_offset 0
    then (if ltb 0 nodeid && leb nodeid (length sensors)
        then update_at now sensors (nodeid - 1) batt temp light
        else some sensors)
    else some sensors

abbrev pub set_state : State → Phase → ℕ → ℕ → State
set_state st phase btr br = record st { phase = phase; bytes_to_read = btr; bytes_read = br }

-- `lunix_protocol_init`; the packet buffer keeps what it holds.
pub init : State → State
init st = set_state (record st { pos = 0; next_is_special = 0 }) start_byte 1 0

-- `state->packet[state->pos] = b; ++state->pos; ++state->bytes_read;`
abbrev pub put : State → ℕ → State
put st b = record st {
  packet = set st.packet st.pos b;
  pos = st.pos + 1;
  bytes_read = st.bytes_read + 1;
}

-- The byte that follows a special one. The mark is 0x7E or 0x7D; at another nothing is written.
pub put_special : State → ℕ → State
put_special st c =
    let st' =
      if 0x7E == st.next_is_special
      then put st c
      else if 0x7D == st.next_is_special
      then put st (bit_xor c 0x20)
      else record st { pos = st.pos + 1; bytes_read = st.bytes_read + 1 } in
    record st' { next_is_special = 0 }

-- The body of the loop of `lunix_protocol_parse_state` behind its two guards.
pub parse_byte : Bool → State → ℕ → State
unfolding put_special
parse_byte false st c = put st c
parse_byte true st c =
    if st.next_is_special == 0
    then (if 0x7E == c
        then record st { next_is_special = c }
        else if 0x7D == c
        then record st { next_is_special = c }
        else put st c)
    else put_special st c

-- What `lunix_protocol_parse_state` returns: 1, 0 and -1.
pub data Parsed : Type 0 where
  complete partial failed : Parsed

abbrev pub verdict : State → Parsed
verdict st = if st.bytes_read == st.bytes_to_read then complete else partial

-- The loop, with `iter` rounds made. It reads a byte in every round that it does not leave.
pub parse_loop : Bool → Bool → ℕ → State → List ℕ → Parsed × State × List ℕ
parse_loop debug specials iter st [] = (verdict st, st, [])
parse_loop debug specials iter st (c ∷ cs) =
    let next = parse_loop debug specials (iter + 1) (parse_byte specials st c) cs in
    if ltb st.bytes_read st.bytes_to_read
    then (if debug && (iter + 1 == 50)
        then (failed, st, c ∷ cs)
        else if st.pos == max_packet_len
        then (failed, record st { pos = 0 }, c ∷ cs)
        else next)
    else (verdict st, st, c ∷ cs)

-- `lunix_protocol_parse_state`
pub parse_state : Bool → Bool → State → List ℕ → Parsed × State × List ℕ
parse_state debug specials st bytes = parse_loop debug specials 0 st bytes

-- `if (state->state == p) if (parse_state(...) == 1) next`, on the state and the unread bytes.
pub stage : Bool → Phase → Bool → (State → State) → State × List ℕ → State × List ℕ
stage debug p specials next (st, bytes) =
    if number st.phase == number p
    then (let (r, st', rest) = parse_state debug specials st bytes in
        elim r [ complete ↦ (next st', rest) | _ ↦ (st', rest) ])
    else (st, bytes)

abbrev pub start_phase : Phase → ℕ → State → State
start_phase p btr st = set_state st p btr 0

-- The length byte is the last one read.
abbrev pub start_payload : State → State
start_payload st = set_state st payload (get_or st.packet (st.pos - 1) 0) 0

-- The last stage, at the end byte: `none` where the update of the sensors faults.
pub end_stage : Bool → ℕ → List Sensor → State × List ℕ → Option (State × List Sensor)
unfolding init
end_stage debug now sensors (st, bytes) =
    if number st.phase == number end_byte
    then (let (r, st', rest) = parse_state debug false st bytes in
        elim r [
          | complete ↦ elim (update_sensors now st' sensors) [
            | none ↦ none
            | some sensors' ↦ some (init st', sensors')
          ]
          | _ ↦ some (st', sensors)
        ])
    else some (st, sensors)

-- `lunix_protocol_received_buf`, read from its end: each function is the code from one stage on.
module _ (debug : Bool) (now : ℕ) (sensors : List Sensor) where
  pub from_crc : State × List ℕ → Option (State × List Sensor)
  from_crc x = end_stage debug now sensors (stage debug crc true (start_phase end_byte 1) x)

  pub from_payload : State × List ℕ → Option (State × List Sensor)
  from_payload x = from_crc (stage debug payload true (start_phase crc 2) x)

  pub from_payload_length : State × List ℕ → Option (State × List Sensor)
  from_payload_length x = from_payload (stage debug payload_length true start_payload x)

  pub from_am_group : State × List ℕ → Option (State × List Sensor)
  from_am_group x = from_payload_length (stage debug am_group true (start_phase payload_length 1) x)

  pub from_am_type : State × List ℕ → Option (State × List Sensor)
  from_am_type x = from_am_group (stage debug am_type true (start_phase am_group 1) x)

  pub from_destination : State × List ℕ → Option (State × List Sensor)
  from_destination x = from_am_type (stage debug destination_address true (start_phase am_type 1) x)

  pub from_packet_type : State × List ℕ → Option (State × List Sensor)
  from_packet_type x =
      from_destination (stage debug packet_type false (start_phase destination_address 2) x)

  pub received_buf : State → List ℕ → Option (State × List Sensor)
  received_buf st buf =
      from_packet_type (stage debug start_byte false (start_phase packet_type 1) (st, buf))
