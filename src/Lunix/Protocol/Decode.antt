-- ===== src/Lunix/Protocol/Decode.antt =====
-- What the driver makes of a whole packet: the bytes on the line come to stand in the packet buffer
-- without their escapes, and the sensors are updated from them.
use operating_systems_ntua.Prelude.{
  ℕ, ◌+◌, ◌<◌, ◌≡◌, refl, ap, ◌∙◌, bit_xor, Bool, true, false, List, [], ◌∷◌, ◌++◌, arith, ◌==◌,
  ==_iff, length, length-append, Bool-cases, inl, inr,
}
use mathlib.Core.List.{append_assoc, append-nil}
use operating_systems_ntua.Lunix.Sensors.{Sensor}
use operating_systems_ntua.Lunix.Protocol.{Phase, number, State, put, parse_byte, set_state}
use operating_systems_ntua.Lunix.Protocol.Feed.{
  specials, advance, is_full, settle, feed_all, feed_all-more, feed_all-full, phase-parse_byte,
}
use operating_systems_ntua.Lunix.Protocol.Frames.{
  escape, coded, write_at, write_at-append, write, parse_byte-marked, parse_byte-mark,
  parse_byte-plain, inside_of_specials,
}

module _ (now : ℕ) (sensors : List Sensor) where
  feed_all-step :
      (s : Bool) (st : State) (c : ℕ) (cs : List ℕ)
      → specials st.phase ≡ s
      → (number st.phase == 9) ≡ false
      → feed_all now sensors st (c ∷ cs) ≡ feed_all now sensors (settle (parse_byte s st c)) cs
  feed_all-step s st c cs e k = elim (Bool-cases (is_full (parse_byte s st c))) [
    | inl full ↦ feed_all-full now sensors s st c cs e full (rw (phase-parse_byte s st c) k)
    | inr more ↦ rw more (feed_all-more now sensors s st c cs e more)
  ]

  feed_all-pair :
      (st : State) (c : ℕ) (rest : List ℕ)
      → specials st.phase ≡ true
      → st.next_is_special ≡ 0
      → st.bytes_read < st.bytes_to_read
      → feed_all now sensors st (0x7D ∷ c ∷ rest)
        ≡ feed_all now sensors (settle (put st (bit_xor c 0x20))) rest
  feed_all-pair st c rest s z l =
      let k = inside_of_specials st.phase s in
      rw (feed_all-step true st 0x7D (c ∷ rest) s k, parse_byte-mark st z l)
        (feed_all-step true (record st { next_is_special = 0x7D }) c rest s k
          ∙ ap (λ t. feed_all now sensors (settle t) rest) (parse_byte-marked st c z))

  -- One byte, escaped as it is sent, is one write.
  feed_all-escape :
      (st : State) (b : ℕ) (rest : List ℕ)
      → specials st.phase ≡ true
      → st.next_is_special ≡ 0
      → st.bytes_read < st.bytes_to_read
      → feed_all now sensors st (escape b ++ rest) ≡ feed_all now sensors (settle (put st b)) rest
  feed_all-escape st b rest s z l = elim (Bool-cases (0x7E == b)) [
    | inl e ↦ rw e (
        feed_all-pair st 0x5E rest s z l
        ∙ ap (λ t. feed_all now sensors (settle (put st t)) rest) ((==_iff 0x7E b).0 e))
    | inr n ↦ elim (Bool-cases (0x7D == b)) [
      | inl e ↦
          rw (n, e)
            (feed_all-pair st 0x5D rest s z l
              ∙ ap (λ t. feed_all now sensors (settle (put st t)) rest) ((==_iff 0x7D b).0 e))
      | inr m ↦
          rw (n, m)
            (feed_all-step true st b rest s (inside_of_specials st.phase s)
              ∙ ap (λ t. feed_all now sensors (settle t) rest) (parse_byte-plain st b z n m))
    ]
  ]

-- The state at the start of a phase that reads `btr` bytes, with the bytes `raw` of the packet read.
abbrev pub at_phase : State → Phase → ℕ → List ℕ → State
at_phase st p btr raw = record st {
  phase = p;
  bytes_read = 0;
  bytes_to_read = btr;
  pos = length raw;
  next_is_special = 0;
  packet = write_at st.packet 0 raw;
}

write-put : (st : State) (b : ℕ) (bs : List ℕ) → write (put st b) bs ≡ write st (b ∷ bs)
write-put st b bs = ground arith

pub set_state-write :
    (st : State) (p p' : Phase) (btr btr' : ℕ) (raw bs : List ℕ)
    → set_state (write (at_phase st p btr raw) bs) p' btr' 0 ≡ at_phase st p' btr' (raw ++ bs)
set_state-write st p p' btr btr' raw bs =
    ground (arith, write_at-append raw bs st.packet 0, length-append raw bs)

settle-put :
    (st : State) (b : ℕ) → st.bytes_read + 1 < st.bytes_to_read → settle (put st b) ≡ put st b
settle-put st b h = ground arith

settle-parse_byte :
    (st : State) (p : Phase) (raw : List ℕ) (b : ℕ)
    → settle (parse_byte false (at_phase st p 1 raw) b)
      ≡ advance p (write (at_phase st p 1 raw) (b ∷ []))
unfolding parse_byte
settle-parse_byte st p raw b = ground arith

module _ (now : ℕ) (sensors : List Sensor) where
  -- The escaped bytes of a phase, all of them, are one write that ends the phase.
  pub feed_all-coded :
      (bs : List ℕ) (b : ℕ) (st : State) (rest : List ℕ)
      → specials st.phase ≡ true
      → st.next_is_special ≡ 0
      → st.bytes_read + length (b ∷ bs) ≡ st.bytes_to_read
      → feed_all now sensors st (coded true (b ∷ bs) ++ rest)
        ≡ feed_all now sensors (advance st.phase (write st (b ∷ bs))) rest
  unfolding coded
  feed_all-coded [] b st rest s z l =
      rw (append-nil (escape b))
        (feed_all-escape now sensors st b rest s z (omega arith) ∙ ground arith)
  feed_all-coded (b' ∷ bs) b st rest s z l = rw (append_assoc (escape b)) (
      feed_all-escape now sensors st b _ s z (omega arith)
      ∙ rw (settle-put st b (omega arith)) (
          feed_all-coded bs b' (put st b) rest s z (omega arith)
          ∙ ap (λ t. feed_all now sensors (advance st.phase t) rest) (write-put st b (b' ∷ bs))))

  -- A phase in the middle of a packet.
  pub feed_phase :
      (st : State) (p p' : Phase) (btr' : ℕ) (raw : List ℕ) (b : ℕ) (bs rest : List ℕ)
      → specials p ≡ true
      → ((s : State) → advance p s ≡ set_state s p' btr' 0)
      → feed_all now sensors (at_phase st p (length (b ∷ bs)) raw) (coded true (b ∷ bs) ++ rest)
        ≡ feed_all now sensors (at_phase st p' btr' (raw ++ (b ∷ bs))) rest
  feed_phase st p p' btr' raw b bs rest s next =
      feed_all-coded bs b (at_phase st p (length (b ∷ bs)) raw) rest s refl (omega arith)
      ∙ ap (λ t. feed_all now sensors t rest)
          (next _ ∙ set_state-write st p p' (length (b ∷ bs)) btr' raw (b ∷ bs))

  -- A byte of a phase with no escapes.
  pub feed_plain :
      (st : State) (p p' : Phase) (btr' : ℕ) (raw : List ℕ) (b : ℕ) (rest : List ℕ)
      → specials p ≡ false
      → (number p == 9) ≡ false
      → ((s : State) → advance p s ≡ set_state s p' btr' 0)
      → feed_all now sensors (at_phase st p 1 raw) (b ∷ rest)
        ≡ feed_all now sensors (at_phase st p' btr' (raw ++ (b ∷ []))) rest
  feed_plain st p p' btr' raw b rest s k next =
      feed_all-step now sensors false (at_phase st p 1 raw) b rest s k
      ∙ ap (λ t. feed_all now sensors t rest)
          (settle-parse_byte st p raw b ∙ next _ ∙ set_state-write st p p' 1 btr' raw (b ∷ []))
