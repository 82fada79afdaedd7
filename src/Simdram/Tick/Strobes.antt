-- ===== src/Simdram/Tick/Strobes.antt =====
-- The strobes that memory_tick hands on.
use thermal_placement.Base.{
  ℕ, ◌-◌, ◌%◌, ◌^◌, ◌≤◌, ◌<◌, ◌≡◌, sym, ap, ◌∙◌, true, false, not, List, ltb, lt→ltb, if◌then◌else◌,
  arith,
}
use native.Mathlib.Decide.{dec_lt}
use thermal_placement.Base.Bits.{bit_at, bit_at-mod, bit_at_complement}
use thermal_placement.Base.Ints.{ℤ, pos, negsuc, IsInt, to_u64}
use thermal_placement.Simdram.Tick.{Call, inputs}

bit_at_above : (n i : ℕ) → n < 2 ^ 31 → 31 ≤ i → bit_at n i ≡ false
bit_at_above n i h k =
    let same : n ≡ n % 2 ^ 31 = omega arith in
    ap (λ (t : ℕ). bit_at t i) same ∙ bit_at-mod 31 i n ∙ ground arith

-- From bit 31 on, all bits of an int are its sign.
sign_bits : (z : ℤ) (i : ℕ) → IsInt z → 31 ≤ i → i < 64 → bit_at (to_u64 z) i ≡ bit_at (to_u64 z) 31
unfolding to_u64
sign_bits (pos n) i h k l =
    let same : n % 2 ^ 64 ≡ n = omega arith in
    rw same (bit_at_above n i h k ∙ sym (bit_at_above n 31 h (omega arith)))
sign_bits (negsuc n) i h k l =
    let same : n % 2 ^ 64 ≡ n = omega arith in
    let flips : (j : ℕ) → 31 ≤ j → j < 64 → bit_at (2 ^ 64 - 1 - n) j ≡ true =
      λ j up down. bit_at_complement 64 n j (omega arith) down ∙ ap not (bit_at_above n j h up) in
    rw same (flips i k l ∙ sym (flips 31 (omega arith) (omega arith)))

-- Of the 64 strobes that `tick` gets, those of the lanes below 32 are the bits of the int that comes
-- from the simulator, and all those above are its bit 31.
pub inputs-strobes :
    (c : Call) (w_data_arr : List ℕ) (i : ℕ)
    → IsInt c.w_strb
    → i < 64
    → bit_at (inputs c w_data_arr).w_strb i
      ≡ bit_at (to_u64 c.w_strb % 2 ^ 32) (if ltb i 32 then i else 31)
inputs-strobes c dat i int l = elim (dec_lt i 32) [
  | yes low ↦
      let at : ltb i 32 ≡ true = lt→ltb i 32 low in
      rw at (sym (bit_at-mod 32 i (to_u64 c.w_strb) ∙ ground (arith, at)))
  | no high ↦
      let at : ltb i 32 ≡ false = ground arith in
      rw at (
        sign_bits c.w_strb i int (omega arith) l
        ∙ sym (bit_at-mod 32 31 (to_u64 c.w_strb) ∙ ground arith))
]
