-- ===== src/Lunix/Protocol/Tests.antt =====
-- The receiver of lunix-protocol.c on concrete packets.
use operating_systems_ntua.Prelude.{
  true, ℕ, ◌≡◌, ◌≢◌, refl, false, some, List, [], ◌∷◌, ◌++◌, arith, inl, replicate,
}
use operating_systems_ntua.Lunix.Sensors.{Sensor, measured}
use operating_systems_ntua.Lunix.Protocol.{
  start_byte, destination_address, State, parse_byte, parse_loop, parse_state, stage, init,
  end_stage, from_crc, from_payload, from_payload_length, from_am_group, from_am_type,
  from_destination, from_packet_type, received_buf,
}
use operating_systems_ntua.Lunix.Protocol.{failed}
use operating_systems_ntua.Lunix.Protocol.Bounds.{IsValid}
use operating_systems_ntua.Lunix.Protocol.Feed.{feed_all}
use operating_systems_ntua.Lunix.Protocol.Frames.{Frame, line_bytes, write_at}
use operating_systems_ntua.Lunix.Protocol.Packets.{IsFrame, received, AreBytes-line_bytes}
use operating_systems_ntua.Lunix.Protocol.Delivery.{
  received_buf_ignores, refreshed, received_buf_refreshes, received_buf_ignores,
}
use operating_systems_ntua.Lunix.Protocol.Refine.{received_buf-feed_all}
use operating_systems_ntua.Lunix.Protocol.Stream.{
  received_buf-IsValid, received_buf-append, received_buf_drops,
}

abbrev idle : State
idle = record {
  phase = start_byte;
  bytes_read = 0;
  bytes_to_read = 1;
  pos = 0;
  next_is_special = 0;
  packet = replicate 300 0;
}

idle-IsValid : IsValid idle
idle-IsValid = ground arith

-- Two sensors with their pages.
abbrev a_sensor : Sensor
a_sensor = record {
  batt_data = some (measured 0 0);
  temp_data = some (measured 0 0);
  light_data = some (measured 0 0);
  wake_ups = 0;
}

abbrev two_sensors : List Sensor
two_sensors = a_sensor ∷ a_sensor ∷ []

-- The start of a packet, and where it leaves the receiver.
abbrev beginning : List ℕ
beginning = 0x7E ∷ 0x42 ∷ []

abbrev begun : State
begun = record {
  phase = destination_address;
  bytes_read = 0;
  bytes_to_read = 2;
  pos = 2;
  next_is_special = 0;
  packet = write_at (replicate 300 0) 0 beginning;
}

begins : received_buf false 5 two_sensors idle beginning ≡ some (begun, two_sensors)
unfolding received_buf from_packet_type from_destination from_am_type from_am_group
    from_payload_length from_payload from_crc end_stage stage parse_state parse_loop parse_byte
begins = refl

-- A packet for the second sensor; its battery value has a byte that must be escaped.
abbrev a_packet : Frame
a_packet = record {
  start = 0x7E;
  kind = 0x42;
  dest_low = 0;
  dest_high = 0;
  am = 0x0B;
  group = 0x7D;
  content = 0 ∷ 0 ∷ 2 ∷ 0 ∷ 0 ∷ 0 ∷ 0 ∷ 0 ∷ 0 ∷ 0 ∷ 0 ∷ 0x7E ∷ 1 ∷ 9 ∷ 0 ∷ 4 ∷ 3 ∷ [];
  crc_low = 1;
  crc_high = 2;
  finish = 0x7E;
}

a_packet-IsFrame : IsFrame a_packet
a_packet-IsFrame = ground arith

-- A packet of another type.
abbrev other_packet : Frame
other_packet = record a_packet { am = 0x0C; content = 7 ∷ 0 ∷ 0 ∷ 0 ∷ [] }

other_packet-IsFrame : IsFrame other_packet
other_packet-IsFrame = ground arith

received_buf-feed_all_example :
    received_buf false 5 two_sensors idle (line_bytes a_packet)
    ≡ feed_all 5 two_sensors idle (line_bytes a_packet)
received_buf-feed_all_example =
    received_buf-feed_all 5 two_sensors idle (line_bytes a_packet)
      (AreBytes-line_bytes a_packet a_packet-IsFrame) idle-IsValid

received_buf_refreshes_example :
    received_buf false 5 two_sensors idle (line_bytes a_packet)
    ≡ some (init (received idle a_packet), a_sensor ∷ refreshed 5 a_packet a_sensor ∷ [])
received_buf_refreshes_example =
    received_buf_refreshes 5 two_sensors idle a_packet a_sensor a_packet-IsFrame idle-IsValid refl
      refl refl (omega arith) (omega arith) (omega arith) refl (ground arith)

received_buf-IsValid_example : IsValid begun
received_buf-IsValid_example =
    received_buf-IsValid 5 two_sensors idle beginning (ground arith) idle-IsValid begins

begun-inside : begun.phase ≢ start_byte
begun-inside e = ground (arith, e)

received_buf-append_example :
    received_buf false 5 two_sensors idle (beginning ++ (0x7D ∷ 0x5E ∷ []))
    ≡ received_buf false 5 two_sensors begun (0x7D ∷ 0x5E ∷ [])
received_buf-append_example =
    received_buf-append 5 two_sensors idle beginning (0x7D ∷ 0x5E ∷ []) (ground arith)
      (ground arith) idle-IsValid begins begun-inside

not_empty : line_bytes other_packet ≢ []
not_empty e = ground (arith, e)

init-phase : (st : State) → (init st).phase ≡ start_byte
unfolding init
init-phase st = refl

ignores_other :
    received_buf false 5 two_sensors idle (line_bytes other_packet)
    ≡ some (init (received idle other_packet), two_sensors)
ignores_other =
    received_buf_ignores 5 two_sensors idle other_packet other_packet-IsFrame idle-IsValid refl refl
      (omega arith) (inl (omega arith))

received_buf_drops_example :
    received_buf false 5 two_sensors idle (line_bytes other_packet ++ beginning)
    ≡ some (init (received idle other_packet), two_sensors)
received_buf_drops_example =
    received_buf_drops 5 two_sensors idle (line_bytes other_packet) beginning
      (AreBytes-line_bytes other_packet other_packet-IsFrame) (ground arith) idle-IsValid not_empty
      ignores_other (init-phase (received idle other_packet))

-- A payload of 60 bytes is given up at its 50th.
debug_gives_up :
    (parse_state true true (record begun { bytes_to_read = 60 }) (replicate 60 1)).0 ≡ failed
unfolding parse_state parse_loop parse_byte
debug_gives_up = refl
