-- ===== src/Ext2/Balloc/Allocate.antt =====
-- `ext2_allocate_in_bg` of balloc.c: what it takes from a bitmap.
use operating_systems_ntua.Prelude.{
  ℕ, zero, suc, ◌+◌, ◌-◌, ◌≤◌, ◌<◌, ◌≡◌, refl, ap, ◌∙◌, true, false, ◌&&◌, ◌||◌, some, arith, ltb,
  leb, ◌==◌, ==_iff, length, length-set, subst, ltb→lt, lt→ltb, Bool-cases, inl, inr,
}
use operating_systems_ntua.Ext2.Bitmap.{
  within, Bits, test_bit, find_next_zero_bit, set_bit, count_zero,
}
use operating_systems_ntua.Ext2.Bitmap.Scan.{test_bit-set, count_zero-set_bit}
use operating_systems_ntua.Ext2.Groups.{SbInfo, group_first_block_no}
use operating_systems_ntua.Ext2.Balloc.{nblocks, take_loop, taken, allocate_in_bg}

-- `new` is `old` with the clear bits `start .. start + num - 1` set, and no other changed.
pub record IsTaken (old : Bits) (start num : ℕ) (new : Bits) : Type 0 where
  pub was_clear : (j : ℕ) → (within start num j && test_bit j old) ≡ false
  pub set_there : (j : ℕ) → test_bit j new ≡ (within start num j || test_bit j old)

-- One more bit at the end of the range.
IsTaken-suc :
    (old new : Bits) (start num : ℕ)
    → start + num < length new
    → test_bit (start + num) new ≡ false
    → IsTaken old start num new
    → IsTaken old start (num + 1) (set_bit (start + num) new)
IsTaken-suc old new start num h free t = record {
  was_clear = λ j. ground (arith, t.was_clear j, t.set_there j, t.set_there (start + num), free);
  set_there = λ j. ground (arith, test_bit-set new (start + num) j true h, t.set_there j);
}

module _ (old : Bits) (size first count : ℕ) where
  -- The loop has taken the `num` bits from `start` on and stands behind them.
  pub record Holds (bit num : ℕ) (bits : Bits) : Type 0 where
    pub start : ℕ
    pub placed : start + num ≡ bit
    pub low : first ≤ start
    pub high : bit ≤ size
    pub most : num ≤ count
    pub took : IsTaken old start num bits
    pub counted : count_zero bits size + num ≡ count_zero old size
    pub room : size ≤ length bits
    pub same_length : length bits ≡ length old

  Holds-skip :
      (bit num : ℕ) (bits : Bits)
      → num ≡ 0
      → bit < size
      → Holds bit num bits
      → Holds (bit + 1) num bits
  Holds-skip bit num bits z h v = record {
    start = bit + 1;
    placed = omega arith;
    low = omega (arith, v.placed, v.low);
    high = omega arith;
    most = v.most;
    took = record {
      was_clear = λ j. ground arith;
      set_there = λ j. ground (arith, z, v.took.set_there j);
    };
    counted = v.counted;
    room = v.room;
    same_length = v.same_length;
  }

  Holds-take :
      (bit num : ℕ) (bits : Bits)
      → bit < size
      → num < count
      → test_bit bit bits ≡ false
      → Holds bit num bits
      → Holds (bit + 1) (num + 1) (set_bit bit bits)
  Holds-take bit num bits h l free v = record {
    start = v.start;
    placed = omega (arith, v.placed);
    low = v.low;
    high = omega arith;
    most = omega arith;
    took =
        subst (λ b. IsTaken old v.start (num + 1) (set_bit b bits)) v.placed
          (IsTaken-suc old bits v.start num (omega (arith, v.room, v.placed))
            (ap (λ b. test_bit b bits) v.placed ∙ free) v.took);
    counted =
        omega (arith, v.counted, count_zero-set_bit bits bit size h (omega (arith, v.room)) free);
    room = omega (arith, v.room, length-set bits bit true);
    same_length = length-set bits bit true ∙ v.same_length;
  }

  take_loop-Holds :
      (n bit num : ℕ) (bits : Bits)
      → bit + n ≡ size
      → Holds bit num bits
      → let (bit', num', bits') = take_loop bits bit n num count in
        (num ≤ num') × Holds bit' num' bits'
  unfolding take_loop
  take_loop-Holds zero bit num bits e v = (omega arith, v)
  take_loop-Holds (suc n) bit num bits e v = elim (Bool-cases (ltb num count)) [
    | inl more ↦ elim (Bool-cases (test_bit bit bits)) [
      | inl used ↦ elim (Bool-cases (num == 0)) [
        | inl none_yet ↦
            let z = (==_iff num 0).0 none_yet in
            rw (more, used, none_yet)
              (take_loop-Holds n (bit + 1) num bits (omega arith)
                (Holds-skip bit num bits z (omega arith) v))
        | inr some_taken ↦ rw (more, used, some_taken) (omega arith, v)
      ]
      | inr free ↦
          let (grew, rest) =
            take_loop-Holds n (bit + 1) (num + 1) (set_bit bit bits) (omega arith)
              (Holds-take bit num bits (omega arith) (ltb→lt _ _ more) free v) in
          rw (more, free) (omega (arith, grew), rest)
    ]
    | inr enough ↦ rw enough (omega arith, v)
  ]

  -- At a clear bit, with something asked for, the loop takes at least that bit.
  pub take_loop-pos :
      (n bit : ℕ) (bits : Bits)
      → bit + suc n ≡ size
      → 0 < count
      → test_bit bit bits ≡ false
      → Holds bit 0 bits
      → 0 < (take_loop bits bit (suc n) 0 count).1
  unfolding take_loop
  take_loop-pos n bit bits e c free v =
      let (grew, _) =
        take_loop-Holds n (bit + 1) (0 + 1) (set_bit bit bits) (omega arith)
          (Holds-take bit 0 bits (omega arith) c free v) in
      let more : ltb 0 count ≡ true = lt→ltb 0 count c in rw (more, free) (omega (arith, grew))

pub start-Holds :
    (bits : Bits) (size first bit count : ℕ)
    → first ≤ bit
    → bit ≤ size
    → size ≤ length bits
    → Holds bits size first count bit 0 bits
start-Holds bits size first bit count h k l = record {
  start = bit;
  placed = omega arith;
  low = h;
  high = k;
  most = omega arith;
  took = record { was_clear = λ j. ground arith; set_there = λ j. ground arith };
  counted = omega arith;
  room = l;
  same_length = refl;
}

-- What `ext2_allocate_in_bg` returns, if its counter `num` starts at 0 and the bitmap covers the group.
pub record Allocated (sbi : SbInfo) (group : ℕ) (bits : Bits) (count start num : ℕ) (bits' : Bits)
    : Type 0 where
  pub some_bits : 0 < num
  pub most : num ≤ count
  pub inside : start + num ≤ nblocks sbi group
  pub took : IsTaken bits start num bits'
  pub same_length : length bits' ≡ length bits
  pub counted : count_zero bits' (nblocks sbi group) + num ≡ count_zero bits (nblocks sbi group)

taken-eq-some :
    (r : ℕ × ℕ × Bits) {start num : ℕ} {bits' : Bits}
    → taken r ≡ some (start, num, bits')
    → (0 < r.1) × (start ≡ r.0 - r.1) × (num ≡ r.1) × (bits' ≡ r.2)
taken-eq-some (b, n, bits) h = ground arith

Holds-Allocated :
    (sbi : SbInfo) (group : ℕ) (bits : Bits) (count first : ℕ) (r : ℕ × ℕ × Bits)
    → 0 < r.1
    → Holds bits (nblocks sbi group) first count r.0 r.1 r.2
    → Allocated sbi group bits count (r.0 - r.1) r.1 r.2
Holds-Allocated sbi group bits count first r p v =
    let e : v.start ≡ r.0 - r.1 = omega (arith, v.placed) in
    record {
      some_bits = p;
      most = v.most;
      inside = omega (arith, v.placed, v.high);
      took = subst (λ s. IsTaken bits s r.1 r.2) e v.took;
      counted = v.counted;
      same_length = v.same_length;
    }

-- A success of the allocator has taken between one and `count` consecutive blocks of the group that
-- were free, has changed no other bit, and has left that many free bits fewer.
pub allocate_in_bg-Allocated :
    (sbi : SbInfo) (group : ℕ) (bits : Bits) (count : ℕ) {start num : ℕ} {bits' : Bits}
    → nblocks sbi group ≤ length bits
    → allocate_in_bg sbi group bits count ≡ some (start, num, bits')
    → Allocated sbi group bits count start num bits'
unfolding allocate_in_bg
allocate_in_bg-Allocated sbi group bits count {start = start} {num = num} {bits' = bits'} l h =
    let size = nblocks sbi group in
    let first = find_next_zero_bit bits size (group_first_block_no sbi group) in
    let r = take_loop bits first (size - first) 0 count in
    let found : leb size first ≡ false = ground (arith, h) in
    let got : taken r ≡ some (start, num, bits') = ground (arith, h) in
    let (p, s, n, b) = taken-eq-some r got in
    let lt : first < size = ground (arith, found) in
    let (_, v) =
      take_loop-Holds bits size first count (size - first) first 0 bits (omega arith)
        (start-Holds bits size first first count (omega arith) (omega arith) l) in
    rw (s, n, b) (Holds-Allocated sbi group bits count first r p v)
