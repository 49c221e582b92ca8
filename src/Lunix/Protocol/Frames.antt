-- ===== src/Lunix/Protocol/Frames.antt =====
-- XMesh packets as lunix-protocol.c describes them, their bytes on the line, and what the driver
-- makes of a whole packet.
use operating_systems_ntua.Prelude.{
  ℕ, zero, suc, ◌+◌, ◌≤◌, ◌<◌, ◌≡◌, refl, ap, ◌∙◌, bit_xor, Bool, true, false, List, [], ◌∷◌, ◌++◌,
  arith, ◌==◌, if◌then◌else◌, length, get_or, set, get_or-set, length-set,
}
use operating_systems_ntua.Lunix.Protocol.{Phase, number, State, put, parse_byte}
use operating_systems_ntua.Lunix.Protocol.Feed.{specials, settle}

-- The packet of the comment in lunix-protocol.c, field by field.
pub record Frame : Type 0 where
  pub start : ℕ
  pub kind : ℕ
  pub dest_low : ℕ
  pub dest_high : ℕ
  pub am : ℕ
  pub group : ℕ
  pub content : List ℕ
  pub crc_low : ℕ
  pub crc_high : ℕ
  pub finish : ℕ

-- 0x7E and 0x7D are sent as 0x7D and the byte with bit 5 toggled.
abbrev pub escape : ℕ → List ℕ
escape b = if 0x7E == b then 0x7D ∷ 0x5E ∷ [] else if 0x7D == b then 0x7D ∷ 0x5D ∷ [] else b ∷ []

-- A list of bytes as it is sent in a phase that knows escapes, or not.
unfoldable pub coded : Bool → List ℕ → List ℕ
coded s [] = []
coded false (b ∷ bs) = b ∷ coded false bs
coded true (b ∷ bs) = escape b ++ coded true bs

-- The bytes of a packet, and the bytes that are sent for them.
abbrev pub packet_bytes : Frame → List ℕ
packet_bytes f =
    f.start
    ∷ f.kind
    ∷ f.dest_low
    ∷ f.dest_high
    ∷ f.am
    ∷ f.group
    ∷ length f.content
    ∷ (f.content ++ (f.crc_low ∷ f.crc_high ∷ f.finish ∷ []))

abbrev pub line_bytes : Frame → List ℕ
line_bytes f =
    f.start
    ∷ f.kind
    ∷ (coded true (f.dest_low ∷ f.dest_high ∷ [])
        ++ (coded true (f.am ∷ [])
            ++ (coded true (f.group ∷ [])
                ++ (coded true (length f.content ∷ [])
                    ++ (coded true f.content
                        ++ (coded true (f.crc_low ∷ f.crc_high ∷ []) ++ (f.finish ∷ [])))))))

-- Bytes written one after the other from an index on.
abbrev pub write_at : List ℕ → ℕ → List ℕ → List ℕ
write_at p i [] = p
write_at p i (b ∷ bs) = write_at (set p i b) (i + 1) bs

pub write_at-append :
    (xs ys p : List ℕ) (i : ℕ)
    → write_at p i (xs ++ ys) ≡ write_at (write_at p i xs) (i + length xs) ys
write_at-append [] ys p i = ap (λ j. write_at p j ys) (omega arith)
write_at-append (x ∷ xs) ys p i =
    write_at-append xs ys (set p i x) (i + 1)
    ∙ ap (λ j. write_at (write_at (set p i x) (i + 1) xs) j ys) (omega arith)

pub write_at-append_front :
    (xs ys p : List ℕ) → write_at p 0 (xs ++ ys) ≡ write_at (write_at p 0 xs) (length xs) ys
write_at-append_front xs ys p =
    write_at-append xs ys p 0 ∙ ap (λ j. write_at (write_at p 0 xs) j ys) (omega arith)

pub length-write_at : (bs p : List ℕ) (i : ℕ) → length (write_at p i bs) ≡ length p
length-write_at [] p i = refl
length-write_at (b ∷ bs) p i = length-write_at bs (set p i b) (i + 1) ∙ length-set p i b

get_or-write_at-before :
    (bs p : List ℕ) (i j : ℕ) → j < i → get_or (write_at p i bs) j 0 ≡ get_or p j 0
get_or-write_at-before [] p i j h = refl
get_or-write_at-before (b ∷ bs) p i j h =
    get_or-write_at-before bs (set p i b) (i + 1) j (omega arith)
    ∙ ground (arith, get_or-set p i j b 0)

pub get_or-write_at :
    (bs p : List ℕ) (i j : ℕ)
    → i + length bs ≤ length p
    → j < length bs
    → get_or (write_at p i bs) (i + j) 0 ≡ get_or bs j 0
get_or-write_at [] p i j h k = absurd (omega arith)
get_or-write_at (b ∷ bs) p i zero h k =
    let here : i + 0 ≡ i = omega arith in
    rw here (
      get_or-write_at-before bs (set p i b) (i + 1) i (omega arith)
      ∙ ground (arith, get_or-set p i i b 0))
get_or-write_at (b ∷ bs) p i (suc j) h k =
    let there : i + suc j ≡ i + 1 + j = omega arith in
    rw there
      (get_or-write_at bs (set p i b) (i + 1) j (omega (arith, length-set p i b)) (omega arith))

-- The state with more bytes of its phase read and written.
abbrev pub write : State → List ℕ → State
write st bs = record st {
  packet = write_at st.packet st.pos bs;
  pos = st.pos + length bs;
  bytes_read = st.bytes_read + length bs;
}

-- After a mark, a byte is written with its bit 5 toggled.
pub parse_byte-marked :
    (st : State) (c : ℕ)
    → st.next_is_special ≡ 0
    → parse_byte true (record st { next_is_special = 0x7D }) c ≡ put st (bit_xor c 0x20)
unfolding parse_byte
parse_byte-marked st c z = ground arith

pub parse_byte-mark :
    (st : State)
    → st.next_is_special ≡ 0
    → st.bytes_read < st.bytes_to_read
    → settle (parse_byte true st 0x7D) ≡ record st { next_is_special = 0x7D }
unfolding parse_byte
parse_byte-mark st z l = ground arith

pub parse_byte-plain :
    (st : State) (c : ℕ)
    → st.next_is_special ≡ 0
    → (0x7E == c) ≡ false
    → (0x7D == c) ≡ false
    → parse_byte true st c ≡ put st c
unfolding parse_byte
parse_byte-plain st c z h k = ground arith

pub inside_of_specials : (p : Phase) → specials p ≡ true → (number p == 9) ≡ false
inside_of_specials p h = ground arith
