-- ===== src/Lunix/Protocol/Bounds.antt =====
-- The invariant of the receiver's state in lunix-protocol.c: where in the packet and in its buffer
-- it stands.
use operating_systems_ntua.Prelude.{
  ℕ, ◌+◌, ◌≤◌, ◌<◌, ◌≡◌, refl, bit_xor, Bool, true, false, List, [], ◌∷◌, arith, ltb, all_below,
  all_below_lem, length, length-set, get_or, get_or-set,
}
use operating_systems_ntua.Lunix.Protocol.{
  Phase, start_byte, packet_type, destination_address, am_type, am_group, payload_length, payload,
  crc, end_byte, State, put, parse_byte, max_packet_len,
}

-- How many bytes of the packet stand before a phase, if the payload has `n`.
abbrev pub base : Phase → ℕ → ℕ
base start_byte n = 0
base packet_type n = 1
base destination_address n = 2
base am_type n = 4
base am_group n = 5
base payload_length n = 6
base payload n = 7
base crc n = 7 + n
base end_byte n = 9 + n

-- How many bytes a phase reads.
abbrev pub width : Phase → ℕ → ℕ
width destination_address n = 2
width payload n = n
width crc n = 2
width _ n = 1

-- The payload length of the packet being read, once it has been read.
abbrev pub announced : State → ℕ
announced st = get_or st.packet 6 0

-- The counters agree with the phase, with the phase's bytes perhaps all read.
pub record IsPlaced (st : State) : Type 0 where
  pub at_pos : st.pos ≡ base st.phase (announced st) + st.bytes_read
  pub wanted : st.bytes_to_read ≡ width st.phase (announced st)
  pub within : st.bytes_read ≤ st.bytes_to_read
  pub short : announced st < 256
  pub buffer : length st.packet ≡ max_packet_len

-- The state between two bytes: the phase still wants some.
pub record IsValid (st : State) : Type 0 where
  pub placed : IsPlaced st
  pub unfinished : st.bytes_read < st.bytes_to_read

abbrev pub AreBytes : List ℕ → Type 0
AreBytes [] = Unit {0}
AreBytes (c ∷ cs) = (c < 256) × AreBytes cs

toggle_table : all_below 256 (λ x. ltb (bit_xor x 0x20) 256) ≡ true
unfolding all_below
toggle_table = refl

-- A byte stays one under `^ 0x20`.
pub toggle-lt : (x : ℕ) → x < 256 → bit_xor x 0x20 < 256
toggle-lt x h =
    ground (arith, all_below_lem 256 (λ (y : ℕ). ltb (bit_xor y 0x20) 256) x toggle_table h)

pub put-IsPlaced : (st : State) (b : ℕ) → b < 256 → IsValid st → IsPlaced (put st b)
put-IsPlaced st b hb v =
    ground (arith, get_or-set st.packet st.pos 6 b 0, length-set st.packet st.pos b)

pub parse_byte-IsPlaced :
    (specials : Bool) (st : State) (c : ℕ)
    → c < 256
    → IsValid st
    → IsPlaced (parse_byte specials st c)
unfolding parse_byte
parse_byte-IsPlaced false st c h v = put-IsPlaced st c h v
parse_byte-IsPlaced true st c h v =
    ground (arith, put-IsPlaced st c h v, put-IsPlaced st (bit_xor c 0x20) (toggle-lt c h) v)
