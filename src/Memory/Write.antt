-- ===== src/Memory/Write.antt =====
-- mm_t::write, byte by byte.
use native.Mathlib.Nat.{mod-lt, pow-le-pow_right, two-pow-succ, one-le-pow}
use native.Mathlib.Decide.{ℕ_discrete}
use thermal_placement.Base.{
  ℕ, zero, suc, ◌+◌, ◌-◌, ◌*◌, ◌/◌, ◌%◌, ◌^◌, ◌≤◌, ◌<◌, ◌≡◌, refl, ap, ◌∙◌, Bool, true, false, ◌&&◌,
  ◌||◌, List, Option, some, ok, err, assertion, ◌⊎◌, lt→ltb, le→leb, word_fits, ltb, leb, ◌==◌,
  if◌then◌else◌, length, get_elem?, set, length-set, get_elem?-set_self, get_elem?-set_ne,
  get_elem?-eq-get_or, get_or, sub64, arith,
}
use thermal_placement.Base.Bits.{bit_at, and64, bit_at-and64, bit_at-mod, bit_at_ones, bit_at_shl}
use thermal_placement.Memory.{Mm, lane_mask, put_lane, write_lanes, write, IsWellFormed}

-- Whether a write at offset `addr` stores into lane `i` of its word.
abbrev pub stores_lane : Mm → (addr strb size i : ℕ) → Bool
stores_lane m addr strb size i =
    bit_at strb i
    && (size == 64
        || (leb (addr % m.word_size) i && (ltb (i - addr % m.word_size) size && ltb i 64)))

-- What a write of the lanes `i`, …, `i + n - 1` makes of the byte at `j`.
abbrev lane_byte : (n i strb : ℕ) → List ℕ → (base : ℕ) → List ℕ → ℕ → Option ℕ
lane_byte n i strb dat base mem j =
    if leb (base + i) j && (ltb j (base + i + n) && bit_at strb (j - (base + i)))
    then get_elem? dat (j - base)
    else get_elem? mem j

put_lane_lem :
    (b : Bool) (dat : List ℕ) (i base : ℕ) (mem : List ℕ)
    → i < length dat
    → base + i < length mem
    → put_lane b dat i base mem ≡ ok (if b then set mem (base + i) (get_or dat i 0) else mem)
unfolding put_lane
put_lane_lem false dat i base mem h k = refl
put_lane_lem true dat i base mem h k = ground (arith, get_elem?-eq-get_or dat i 0)

get_elem?_put :
    (b : Bool) (mem : List ℕ) (k v j : ℕ)
    → k < length mem
    → get_elem? (if b then set mem k v else mem) j
      ≡ (if b && (k == j) then some v else get_elem? mem j)
get_elem?_put false mem k v j h = refl
get_elem?_put true mem k v j h = elim (ℕ_discrete k j) [
  | yes e ↦ rw (← e) (get_elem?-set_self mem k v h ∙ ground arith)
  | no ne ↦ get_elem?-set_ne mem k j v ne ∙ ground arith
]

length-put :
    (b : Bool) (mem : List ℕ) (k v : ℕ) → length (if b then set mem k v else mem) ≡ length mem
length-put false mem k v = refl
length-put true mem k v = length-set mem k v

bit_at_shift : (strb k j : ℕ) → k < j → bit_at (strb / 2) (j - suc k) ≡ bit_at strb (j - k)
bit_at_shift strb k j h = let next : suc (j - suc k) ≡ j - k = omega arith in ap (bit_at strb) next

-- The first lane, then the others.
lane_byte-suc :
    (n i strb : ℕ) (dat : List ℕ) (base : ℕ) (mem : List ℕ) (j : ℕ)
    → i < length dat
    → base + i < length mem
    → lane_byte n
        (suc i)
        (strb / 2)
        dat
        base
        (if strb % 2 == 1 then set mem (base + i) (get_or dat i 0) else mem)
        j
      ≡ lane_byte (suc n) i strb dat base mem j
lane_byte-suc n i strb dat base mem j h k =
    let put = get_elem?_put (strb % 2 == 1) mem (base + i) (get_or dat i 0) j k in
    elim (ℕ_discrete (base + i) j) [
      | yes e ↦
          let here : j - base ≡ i = omega arith in
          let lowest : j - (base + i) ≡ 0 = omega arith in
          ground (
            arith,
            put,
            ap (get_elem? dat) here,
            get_elem?-eq-get_or dat i 0,
            ap (bit_at strb) lowest,
          )
      | no ne ↦ ground (arith, put, bit_at_shift strb (base + i) j)
    ]

write_lanes_lem :
    (n i strb : ℕ) (dat : List ℕ) (base : ℕ) (mem : List ℕ)
    → i + n ≤ length dat
    → base + (i + n) ≤ length mem
    → (mem' : List ℕ) × (write_lanes n i strb dat base mem ≡ ok mem')
      × (length mem' ≡ length mem)
      × ((j : ℕ) → get_elem? mem' j ≡ lane_byte n i strb dat base mem j)
unfolding write_lanes
write_lanes_lem zero i strb dat base mem h k = (mem, refl, refl, λ j. ground arith)
write_lanes_lem (suc n) i strb dat base mem h k =
    let odd = strb % 2 == 1 in
    let put = if odd then set mem (base + i) (get_or dat i 0) else mem in
    let same : length put ≡ length mem = length-put odd mem (base + i) (get_or dat i 0) in
    let (mem', e, l, at) =
      write_lanes_lem n (suc i) (strb / 2) dat base put (omega arith) (omega arith) in
    (
      mem',
      rw (put_lane_lem odd dat i base mem (omega arith) (omega arith)) e,
      l ∙ same,
      λ j. at j ∙ lane_byte-suc n i strb dat base mem j (omega arith) (omega arith),
    )

pow-lt-u64 : (s : ℕ) → s < 64 → 2 ^ s < 2 ^ 64
pow-lt-u64 s h =
    let mono : 2 ^ suc s ≤ 2 ^ 64 = pow-le-pow_right {n = 2} (omega arith) h in
    omega (arith, two-pow-succ s, one-le-pow s 2 (omega arith))

-- The bits of the field of `s` ones from bit `k` on, in 64 bits.
bit_at_field :
    (s k i : ℕ) → bit_at ((2 ^ s - 1) * 2 ^ k % 2 ^ 64) i ≡ (leb k i && (ltb (i - k) s && ltb i 64))
bit_at_field s k i =
    bit_at-mod 64 i ((2 ^ s - 1) * 2 ^ k)
    ∙ rw (bit_at_shl k i (2 ^ s - 1), bit_at_ones s (i - k)) (ground arith)

-- The mask that `write` computes has the bit of every lane that the strobes and the size select.
lane_mask_lem :
    (m : Mm) (addr strb size : ℕ)
    → size ≤ 64
    → addr % m.word_size < 64
    → (lanes : ℕ) × (lane_mask m addr strb size ≡ ok lanes)
      × ((i : ℕ) → bit_at lanes i ≡ stores_lane m addr strb size i)
unfolding lane_mask
lane_mask_lem m addr strb size h k = elim (ℕ_discrete size 64) [
  | yes e ↦ (strb, ground arith, λ i. ground arith)
  | no ne ↦
      let field = (2 ^ size - 1) * 2 ^ (addr % m.word_size) % 2 ^ 64 in
      let small = pow-lt-u64 size (omega arith) in
      let some_bit = one-le-pow size 2 (omega arith) in
      let one : sub64 (1 * 2 ^ size % 2 ^ 64) 1 ≡ 2 ^ size - 1 = omega arith in
      (
        and64 strb field,
        ground (arith, one),
        λ i.
            bit_at-and64 i strb field
            ∙ rw (bit_at_field size (addr % m.word_size) i) (ground arith),
      )
]

lane_byte_word :
    (w lanes : ℕ) (dat : List ℕ) (base : ℕ) (mem : List ℕ) (j : ℕ) (b : Bool)
    → bit_at lanes (j - base) ≡ b
    → lane_byte w 0 lanes dat base mem j ≡ (
        if leb base j && (ltb j (base + w) && b) then get_elem? dat (j - base) else get_elem? mem j)
lane_byte_word w lanes dat base mem j b e =
    let start : base + 0 ≡ base = omega arith in rw (start, e)

-- A write in range never faults. It stores the lanes that the strobes and the size select, and
-- leaves every other byte.
pub write_lem :
    (m : Mm) (mem : List ℕ) (faddr : ℕ) (dat : List ℕ) (strb size : ℕ)
    → IsWellFormed m mem
    → sub64 faddr m.mem_base < m.mem_size
    → size ≤ 64
    → m.word_size ≤ length dat
    → let addr = sub64 faddr m.mem_base in
      let base = addr / m.word_size * m.word_size in
      (mem' : List ℕ) × (write m mem faddr dat strb size ≡ ok mem')
      × (length mem' ≡ length mem)
      × ((j : ℕ)
          → get_elem? mem' j ≡ (
              if leb base j
                && (ltb j (base + m.word_size) && stores_lane m addr strb size (j - base))
              then get_elem? dat (j - base)
              else get_elem? mem j))
unfolding write
write_lem m mem faddr dat strb size v h s d =
    let addr = sub64 faddr m.mem_base in
    let base = addr / m.word_size * m.word_size in
    let fits : base + m.word_size ≤ m.mem_size =
      word_fits addr m.mem_size m.word_size v.word_pos v.whole_words h in
    let lane = mod-lt addr v.word_pos in
    let (lanes, masked, bits) = lane_mask_lem m addr strb size s (omega arith) in
    let (mem', e, l, at) =
      write_lanes_lem m.word_size 0 lanes dat base mem (omega arith) (omega arith) in
    (
      mem',
      rw (lt→ltb _ _ h, le→leb _ _ s, lt→ltb _ _ v.word_pos, masked) e,
      l,
      λ j. at j ∙ lane_byte_word m.word_size lanes dat base mem j _ (bits (j - base)),
    )

-- A write that starts outside the memory, or moves more than 64 bytes, fails its assertion.
write_rejects :
    (m : Mm) (mem : List ℕ) (faddr : ℕ) (dat : List ℕ) (strb size : ℕ)
    → (m.mem_size ≤ sub64 faddr m.mem_base) ⊎ (64 < size)
    → write m mem faddr dat strb size ≡ err assertion
unfolding write
write_rejects m mem faddr dat strb size h = ground arith
