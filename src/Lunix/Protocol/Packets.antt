-- ===== src/Lunix/Protocol/Packets.antt =====
-- A whole XMesh packet through lunix-protocol.c, phase by phase, up to the sensor that it updates.
use operating_systems_ntua.Prelude.{
  ℕ, ◌+◌, ◌<◌, ◌≡◌, refl, sym, ap, ◌∙◌, subst, true, false, List, [], ◌∷◌, ◌++◌, arith, ◌==◌,
  if◌then◌else◌, length, get_or, length-append,
}
use mathlib.Core.List.{append_assoc, append-nil}
use operating_systems_ntua.Lunix.Sensors.{Sensor}
use operating_systems_ntua.Lunix.Protocol.{
  start_byte, packet_type, destination_address, am_type, am_group, payload_length, payload, crc,
  end_byte, State, put, parse_byte, received_buf,
}
use operating_systems_ntua.Lunix.Protocol.Bounds.{IsValid, AreBytes}
use operating_systems_ntua.Lunix.Protocol.Feed.{advance, deliver, feed_all}
use operating_systems_ntua.Lunix.Protocol.Refine.{received_buf-feed_all}
use operating_systems_ntua.Lunix.Protocol.Frames.{
  Frame, escape, coded, packet_bytes, line_bytes, write_at, write_at-append_front, length-write_at,
  get_or-write_at, write,
}
use operating_systems_ntua.Lunix.Protocol.Decode.{
  at_phase, feed_all-coded, feed_phase, feed_plain, set_state-write,
}

-- A frame of bytes whose length fits the length byte.
pub record IsFrame (f : Frame) : Type 0 where
  pub bytes : AreBytes (packet_bytes f)
  pub fits : length f.content < 256

AreBytes-escape : (b : ℕ) (rest : List ℕ) → b < 256 → AreBytes rest → AreBytes (escape b ++ rest)
AreBytes-escape b rest h r = ground arith

AreBytes-coded : (bs rest : List ℕ) → AreBytes bs → AreBytes rest → AreBytes (coded true bs ++ rest)
unfolding coded
AreBytes-coded [] rest h r = r
AreBytes-coded (b ∷ bs) rest h r =
    rw (append_assoc (escape b)) (AreBytes-escape b _ h.0 (AreBytes-coded bs rest h.1 r))

AreBytes-split : (xs ys : List ℕ) → AreBytes (xs ++ ys) → AreBytes xs × AreBytes ys
AreBytes-split [] ys h = (tt, h)
AreBytes-split (x ∷ xs) ys h = let r = AreBytes-split xs ys h.1 in ((h.0, r.0), r.1)

pub AreBytes-line_bytes : (f : Frame) → IsFrame f → AreBytes (line_bytes f)
AreBytes-line_bytes f v =
    let b = v.bytes in
    let tail = AreBytes-split f.content (f.crc_low ∷ f.crc_high ∷ f.finish ∷ []) b.1.1.1.1.1.1.1 in
    (
      b.0,
      (
        b.1.0,
        AreBytes-coded (f.dest_low ∷ f.dest_high ∷ []) _ (b.1.1.0, (b.1.1.1.0, tt))
            (AreBytes-coded (f.am ∷ []) _ (b.1.1.1.1.0, tt)
              (AreBytes-coded (f.group ∷ []) _ (b.1.1.1.1.1.0, tt)
                (AreBytes-coded (length f.content ∷ []) _ (b.1.1.1.1.1.1.0, tt)
                  (AreBytes-coded f.content _ tail.0 (
                    AreBytes-coded (f.crc_low ∷ f.crc_high ∷ []) _ (tail.1.0, (tail.1.1.0, tt))
                      (tail.1.1.1.0, tt)))))),
      ),
    )

-- Where the length byte was written, it is read back.
get_or-length_byte :
    (st : State) (raw : List ℕ) (n : ℕ)
    → length raw < length st.packet
    → get_or (write_at (write_at st.packet 0 raw) (length raw) (n ∷ [])) (length raw) 0 ≡ n
get_or-length_byte st raw n h =
    let at : length raw + 0 ≡ length raw = omega arith in
    rw at at (
      get_or-write_at (n ∷ []) (write_at st.packet 0 raw) (length raw) 0
        (omega (arith, length-write_at raw st.packet 0)) (omega arith))

advance-payload_length :
    (st : State) (raw : List ℕ) (n : ℕ)
    → length raw ≡ 6
    → length st.packet ≡ 300
    → advance payload_length (write (at_phase st payload_length 1 raw) (n ∷ [])) ≡ (
        if n == 0
        then at_phase st crc 2 (raw ++ (n ∷ []))
        else at_phase st payload n (raw ++ (n ∷ [])))
advance-payload_length st raw n h k =
    let w = write_at (write_at st.packet 0 raw) (length raw) (n ∷ []) in
    let here : get_or w 6 0 ≡ n =
      subst (λ t. get_or w t 0 ≡ n) h (get_or-length_byte st raw n (omega arith)) in
    ground (
      arith,
      here,
      set_state-write st payload_length crc 1 2 raw (n ∷ []),
      set_state-write st payload_length payload 1 n raw (n ∷ []),
    )

abbrev before_content : Frame → List ℕ
before_content f =
    f.start ∷ f.kind ∷ f.dest_low ∷ f.dest_high ∷ f.am ∷ f.group ∷ length f.content ∷ []

abbrev crc_bytes : Frame → List ℕ
crc_bytes f = f.crc_low ∷ f.crc_high ∷ []

module _ (now : ℕ) (sensors : List Sensor) where
  feed_length :
      (st : State) (raw : List ℕ) (n : ℕ) (rest : List ℕ)
      → length raw ≡ 6
      → length st.packet ≡ 300
      → feed_all now sensors (at_phase st payload_length 1 raw) (coded true (n ∷ []) ++ rest)
        ≡ feed_all now sensors
            (if n == 0
              then at_phase st crc 2 (raw ++ (n ∷ []))
              else at_phase st payload n (raw ++ (n ∷ [])))
            rest
  feed_length st raw n rest h k =
      feed_all-coded now sensors [] n (at_phase st payload_length 1 raw) rest refl refl
        (omega arith)
      ∙ ap (λ t. feed_all now sensors t rest) (advance-payload_length st raw n h k)

  feed_length_pos :
      (st : State) (raw : List ℕ) (n : ℕ) (rest : List ℕ)
      → length raw ≡ 6
      → length st.packet ≡ 300
      → (n == 0) ≡ false
      → feed_all now sensors (at_phase st payload_length 1 raw) (coded true (n ∷ []) ++ rest)
        ≡ feed_all now sensors (at_phase st payload n (raw ++ (n ∷ []))) rest
  feed_length_pos st raw n rest h k e = rw e at (feed_length st raw n rest h k)

  -- The length byte opens the payload, or the checksum where it is 0; the payload is read.
  feed_content :
      (st : State) (raw content rest : List ℕ)
      → length raw ≡ 6
      → length st.packet ≡ 300
      → feed_all now sensors
          (at_phase st payload_length 1 raw)
          (coded true (length content ∷ []) ++ (coded true content ++ rest))
        ≡ feed_all now sensors (at_phase st crc 2 ((raw ++ (length content ∷ [])) ++ content)) rest
  feed_content st raw [] rest h k =
      rw (append-nil (raw ++ (length {A = ℕ} [] ∷ [])))
        (feed_length st raw 0 (coded true [] ++ rest) h k ∙ unfold coded in refl)
  feed_content st raw (x ∷ xs) rest h k =
      feed_length_pos st raw (length (x ∷ xs)) (coded true (x ∷ xs) ++ rest) h k (ground arith)
      ∙ feed_phase now sensors st payload crc 2 (raw ++ (length (x ∷ xs) ∷ [])) x xs rest refl
          (λ s. refl)

  -- Every phase of a packet, from the start byte to the one before the end byte.
  feed_line_bytes :
      (st : State) (f : Frame)
      → length st.packet ≡ 300
      → feed_all now sensors (at_phase st start_byte 1 []) (line_bytes f)
        ≡ feed_all now sensors
            (at_phase st end_byte 1 ((before_content f ++ f.content) ++ crc_bytes f))
            (f.finish ∷ [])
  feed_line_bytes st f k =
      feed_plain now sensors st start_byte packet_type 1 [] f.start _ refl refl (λ s. refl)
      ∙ feed_plain now sensors st packet_type destination_address 2 (f.start ∷ []) f.kind _ refl
          refl (λ s. refl)
      ∙ feed_phase now sensors st destination_address am_type 1 (f.start ∷ f.kind ∷ []) f.dest_low
          (f.dest_high ∷ []) _ refl (λ s. refl)
      ∙ feed_phase now sensors st am_type am_group 1
          (f.start ∷ f.kind ∷ f.dest_low ∷ f.dest_high ∷ []) f.am [] _ refl (λ s. refl)
      ∙ feed_phase now sensors st am_group payload_length 1
          (f.start ∷ f.kind ∷ f.dest_low ∷ f.dest_high ∷ f.am ∷ []) f.group [] _ refl (λ s. refl)
      ∙ feed_content st (f.start ∷ f.kind ∷ f.dest_low ∷ f.dest_high ∷ f.am ∷ f.group ∷ [])
          f.content _ refl k
      ∙ feed_phase now sensors st crc end_byte 1 (before_content f ++ f.content) f.crc_low
          (f.crc_high ∷ []) (f.finish ∷ []) refl (λ s. refl)

  feed_end :
      (st : State) (raw : List ℕ) (b : ℕ)
      → feed_all now sensors (at_phase st end_byte 1 raw) (b ∷ [])
        ≡ deliver now (put (at_phase st end_byte 1 raw) b) sensors
  unfolding feed_all parse_byte
  feed_end st raw b = ground arith

-- The packet buffer when the frame has been read: the frame's bytes, with no escapes.
abbrev pub received : State → Frame → State
received st f =
    put (at_phase st end_byte 1 ((before_content f ++ f.content) ++ crc_bytes f)) f.finish

packet-received :
    (st : State) (f : Frame) → (received st f).packet ≡ write_at st.packet 0 (packet_bytes f)
packet-received st f =
    let raw = before_content f ++ f.content in
    sym (write_at-append_front (raw ++ crc_bytes f) (f.finish ∷ []) st.packet)
    ∙ ap (write_at st.packet 0) (
        append_assoc raw (crc_bytes f) (f.finish ∷ [])
        ∙ append_assoc (before_content f) f.content (f.crc_low ∷ f.crc_high ∷ f.finish ∷ []))

idle-at_phase :
    (st : State)
    → IsValid st
    → st.phase ≡ start_byte
    → st.next_is_special ≡ 0
    → st ≡ at_phase st start_byte 1 []
idle-at_phase st v p z = ground arith

pub length-packet_bytes : (f : Frame) → length (packet_bytes f) ≡ length f.content + 10
length-packet_bytes f =
    omega (arith, length-append f.content (f.crc_low ∷ f.crc_high ∷ f.finish ∷ []))

-- A frame that comes whole, escaped as on the line, to an idle receiver is delivered to the sensors
-- from a packet buffer that holds the frame's own bytes, one after the other from index 0.
pub received_buf-line_bytes :
    (now : ℕ) (sensors : List Sensor) (st : State) (f : Frame)
    → IsFrame f
    → IsValid st
    → st.phase ≡ start_byte
    → st.next_is_special ≡ 0
    → (received_buf false now sensors st (line_bytes f) ≡ deliver now (received st f) sensors)
      × ((j : ℕ)
          → j < length (packet_bytes f)
          → get_or (received st f).packet j 0 ≡ get_or (packet_bytes f) j 0)
received_buf-line_bytes now sensors st f fr v p z = (
  received_buf-feed_all now sensors st (line_bytes f) (AreBytes-line_bytes f fr) v
      ∙ ap (λ s. feed_all now sensors s (line_bytes f)) (idle-at_phase st v p z)
      ∙ feed_line_bytes now sensors st f v.placed.buffer
      ∙ feed_end now sensors st ((before_content f ++ f.content) ++ crc_bytes f) f.finish,
  λ j h.
      ap (λ q. get_or q j 0) (packet-received st f)
      ∙ subst
          (λ t. get_or (write_at st.packet 0 (packet_bytes f)) t 0 ≡ get_or (packet_bytes f) j 0)
          (let e : 0 + j ≡ j = omega arith in e)
          (get_or-write_at (packet_bytes f) st.packet 0 j
            (omega (arith, length-packet_bytes f, v.placed.buffer)) h),
)
