-- ===== src/Lunix/Protocol/Delivery.antt =====
-- The end of lunix-protocol.c's work: which sensor a packet updates, and with which values.
use operating_systems_ntua.Prelude.{
  ℕ, suc, ◌+◌, ◌*◌, ◌-◌, ◌≤◌, ◌<◌, ◌≡◌, ◌≢◌, ◌∙◌, false, none, some, List, [], ◌∷◌, ◌⊎◌, arith,
  length, get_or, get_elem?, set, get_or-append,
}
use operating_systems_ntua.Lunix.Sensors.{Sensor, sensor_update, measured}
use operating_systems_ntua.Lunix.Protocol.{
  start_byte, State, received_buf, update_sensors, update_at, init, uint16_from_packet,
}
use operating_systems_ntua.Lunix.Protocol.Bounds.{IsValid}
use operating_systems_ntua.Lunix.Protocol.Frames.{Frame, packet_bytes, line_bytes}
use operating_systems_ntua.Lunix.Protocol.Packets.{
  IsFrame, received, received_buf-line_bytes, length-packet_bytes,
}

-- A sensor whose three pages have been allocated.
pub record IsReady (s : Sensor) : Type 0 where
  pub batt_ready : s.batt_data ≢ none
  pub temp_ready : s.temp_data ≢ none
  pub light_ready : s.light_data ≢ none

-- Two bytes of a packet's content, little-endian.
abbrev pub word : Frame → ℕ → ℕ
word f k = get_or f.content k 0 + 256 * get_or f.content (k + 1) 0

-- The sensor that has taken the three measurements of a packet.
abbrev pub refreshed : ℕ → Frame → Sensor → Sensor
refreshed now f s = record {
  batt_data = some (measured now (word f 11));
  temp_data = some (measured now (word f 13));
  light_data = some (measured now (word f 15));
  wake_ups = s.wake_ups + 1;
}

sensor_update-IsReady :
    (now : ℕ) (s : Sensor) (b t l : ℕ)
    → IsReady s
    → sensor_update now s b t l
      ≡ some (record {
        batt_data = some (measured now b);
        temp_data = some (measured now t);
        light_data = some (measured now l);
        wake_ups = s.wake_ups + 1;
      })
unfolding sensor_update
sensor_update-IsReady now s b t l r = ground arith

-- The content of a packet stands from index 7 on.
get_or-content :
    (f : Frame) (k : ℕ)
    → k < length f.content
    → get_or (packet_bytes f) (7 + k) 0 ≡ get_or f.content k 0
get_or-content f k h =
    let e : 7 + k ≡ suc (suc (suc (suc (suc (suc (suc k)))))) = omega arith in
    rw e (get_or-append f.content (f.crc_low ∷ f.crc_high ∷ f.finish ∷ []) k 0 h)

module _ (now : ℕ) (sensors : List Sensor) (q : State) where
  update_sensors-known :
      (s : Sensor) (node : ℕ) (f : Frame)
      → get_or q.packet 4 0 ≡ 0x0B
      → uint16_from_packet q.packet 9 ≡ node
      → uint16_from_packet q.packet 18 ≡ word f 11
      → uint16_from_packet q.packet 20 ≡ word f 13
      → uint16_from_packet q.packet 22 ≡ word f 15
      → 0 < node
      → node ≤ length sensors
      → get_elem? sensors (node - 1) ≡ some s
      → IsReady s
      → update_sensors now q sensors ≡ some (set sensors (node - 1) (refreshed now f s))
  unfolding update_sensors update_at
  update_sensors-known s node f sig n b t l low high here ready =
      rw (sig, n, b, t, l)
        (ground
          (arith, here, sensor_update-IsReady now s (word f 11) (word f 13) (word f 15) ready))

  update_sensors-unknown :
      (node : ℕ)
      → uint16_from_packet q.packet 9 ≡ node
      → (get_or q.packet 4 0 ≢ 0x0B) ⊎ (node ≡ 0) ⊎ (length sensors < node)
      → update_sensors now q sensors ≡ some sensors
  unfolding update_sensors
  update_sensors-unknown node n h = rw n (ground arith)

-- The words of the content, where the driver looks for them.
word-packet :
    (f : Frame) (p : List ℕ) (k : ℕ)
    → ((j : ℕ) → j < length (packet_bytes f) → get_or p j 0 ≡ get_or (packet_bytes f) j 0)
    → suc k < length f.content
    → uint16_from_packet p (7 + k) ≡ word f k
word-packet f p k same h =
    let at = λ (i : ℕ) (e : i < length f.content).
      same (7 + i) (omega (arith, length-packet_bytes f)) ∙ get_or-content f i e in
    let next : 7 + k + 1 ≡ 7 + (k + 1) = omega arith in
    rw next (omega (arith, at k (omega arith), at (k + 1) (omega arith)))

-- With LUNIX_DEBUG unset, a sensor packet of bytes that comes whole and escaped to an idle
-- receiver, with at least 17 bytes of content, and naming one of the sensors, leaves exactly that
-- sensor refreshed with the three little-endian words of its content, and the receiver idle; the
-- pages of the sensor must have been allocated.
pub received_buf_refreshes :
    (now : ℕ) (sensors : List Sensor) (st : State) (f : Frame) (s : Sensor)
    → IsFrame f
    → IsValid st
    → st.phase ≡ start_byte
    → st.next_is_special ≡ 0
    → f.am ≡ 0x0B
    → 17 ≤ length f.content
    → 0 < word f 2
    → word f 2 ≤ length sensors
    → get_elem? sensors (word f 2 - 1) ≡ some s
    → IsReady s
    → received_buf false now sensors st (line_bytes f)
      ≡ some (init (received st f), set sensors (word f 2 - 1) (refreshed now f s))
received_buf_refreshes now sensors st f s fr v p z am long low high here ready =
    let (delivered, same) = received_buf-line_bytes now sensors st f fr v p z in
    let q = received st f in
    let w = λ (k : ℕ) (e : suc k < length f.content). word-packet f q.packet k same e in
    let known =
      update_sensors-known now sensors q s (word f 2) f
        (same 4 (omega (arith, length-packet_bytes f)) ∙ am) (w 2 (omega arith))
        (w 11 (omega arith)) (w 13 (omega arith)) (w 15 (omega arith)) low high here ready in
    delivered ∙ ground (arith, known)

-- With LUNIX_DEBUG unset, a whole packet of bytes that comes escaped to an idle receiver, with at
-- least 4 bytes of content, and that is of another type or names no sensor, leaves every sensor
-- alone and the receiver idle.
pub received_buf_ignores :
    (now : ℕ) (sensors : List Sensor) (st : State) (f : Frame)
    → IsFrame f
    → IsValid st
    → st.phase ≡ start_byte
    → st.next_is_special ≡ 0
    → 4 ≤ length f.content
    → (f.am ≢ 0x0B) ⊎ (word f 2 ≡ 0) ⊎ (length sensors < word f 2)
    → received_buf false now sensors st (line_bytes f) ≡ some (init (received st f), sensors)
received_buf_ignores now sensors st f fr v p z long other =
    let (delivered, same) = received_buf-line_bytes now sensors st f fr v p z in
    let q = received st f in
    let am : get_or q.packet 4 0 ≡ f.am = same 4 (omega (arith, length-packet_bytes f)) in
    let unknown =
      update_sensors-unknown now sensors q (word f 2) (word-packet f q.packet 2 same (omega arith))
        (rw am other) in
    delivered ∙ ground (arith, unknown)
