-- ===== src/Base/Bits.antt =====
-- Single bits of a number, and the bits of a conjunction, of a field of ones and of a truncated word.
use Prim.Native.Nat.{ℕ, zero, suc, ◌+◌, ◌-◌, ◌*◌, ◌/◌, ◌%◌, ◌^◌, ◌<◌}
use mathlib.Core.Logic.{◌⊎◌, inl, inr}
use mathlib.Core.Path.{◌≡◌, refl, ap, ◌∙◌, sym}
use mathlib.Core.Bool.{Bool, true, false, not, ◌&&◌}
use native.Mathlib.Omega.{arith}
use native.Mathlib.Nat.{
  two-pow-succ, div-add-mod', mod-lt, mod-one, mod-eq_of_lt, mul-add-mod_self_right,
}
use thermal_placement.Base.Tests.{ltb, leb, ◌==◌}

-- Whether bit `i` of `n` is set.
abbrev pub bit_at : ℕ → ℕ → Bool
bit_at n zero = n % 2 == 1
bit_at n (suc i) = bit_at (n / 2) i

-- The conjunction of the low `w` bits, from the lowest bit up.
pub and_bits : (w a b : ℕ) → ℕ
and_bits zero a b = 0
and_bits (suc w) a b = and_bits w (a / 2) (b / 2) * 2 + a % 2 * (b % 2)

-- `a & b` of two uint64_t.
unfoldable pub and64 : ℕ → ℕ → ℕ
unfolding and_bits
and64 a b = and_bits 64 a b

half-mod : (n p : ℕ) → 0 < p → n % (2 * p) / 2 ≡ n / 2 % p
half-mod n p h =
    let split : n / (2 * p) * (2 * p) + n % (2 * p) ≡ n = div-add-mod' n (2 * p) in
    let small : n % (2 * p) < 2 * p = mod-lt n (omega arith) in
    let halves : n / 2 ≡ n / (2 * p) * p + n % (2 * p) / 2 = omega arith in
    rw (halves, mul-add-mod_self_right) (sym (mod-eq_of_lt (omega arith)))

parity-mod : (n p : ℕ) → n % (2 * p) % 2 ≡ n % 2
parity-mod n p =
    let split : n / (2 * p) * (2 * p) + n % (2 * p) ≡ n = div-add-mod' n (2 * p) in omega arith

parity : (a : ℕ) → (a % 2 ≡ 0) ⊎ (a % 2 ≡ 1)
parity a = omega arith

bit_at_zero : (i : ℕ) → bit_at 0 i ≡ false
bit_at_zero zero = refl
bit_at_zero (suc i) = bit_at_zero i

lowest_bit : (h a b : ℕ) → ((h * 2 + a % 2 * (b % 2)) % 2 == 1) ≡ ((a % 2 == 1) && (b % 2 == 1))
lowest_bit h a b = elim (parity a) [ inl e ↦ rw e (ground arith) | inr e ↦ rw e (ground arith) ]

higher_bits : (h a b : ℕ) → (h * 2 + a % 2 * (b % 2)) / 2 ≡ h
higher_bits h a b = elim (parity a) [ inl e ↦ rw e (omega arith) | inr e ↦ rw e (omega arith) ]

bit_at-and_bits :
    (w i a b : ℕ) → bit_at (and_bits w a b) i ≡ (ltb i w && (bit_at a i && bit_at b i))
unfolding and_bits
bit_at-and_bits zero i a b = bit_at_zero i ∙ ground arith
bit_at-and_bits (suc w) zero a b = lowest_bit (and_bits w (a / 2) (b / 2)) a b ∙ ground arith
bit_at-and_bits (suc w) (suc i) a b =
    ap (λ n. bit_at n i) (higher_bits (and_bits w (a / 2) (b / 2)) a b)
    ∙ bit_at-and_bits w i (a / 2) (b / 2)
    ∙ ground arith

pub bit_at-and64 : (i a b : ℕ) → bit_at (and64 a b) i ≡ (ltb i 64 && (bit_at a i && bit_at b i))
unfolding and64
bit_at-and64 i a b = bit_at-and_bits 64 i a b

&&-false : (b : Bool) → (b && false) ≡ false
&&-false true = refl
&&-false false = refl

pow-pos : (w : ℕ) → 0 < 2 ^ w
pow-pos zero = omega arith
pow-pos (suc w) = omega (arith, two-pow-succ w, pow-pos w)

two-pow : (w : ℕ) → 2 ^ suc w ≡ 2 * 2 ^ w
two-pow w = omega (arith, two-pow-succ w)

-- Truncation to `w` bits keeps the bits below `w` and clears the others.
pub bit_at-mod : (w i n : ℕ) → bit_at (n % 2 ^ w) i ≡ (bit_at n i && ltb i w)
bit_at-mod zero i n = rw (mod-one, bit_at_zero) (ground (arith, &&-false (bit_at n i)))
bit_at-mod (suc w) zero n = rw two-pow (ground (arith, parity-mod n (2 ^ w)))
bit_at-mod (suc w) (suc i) n =
    rw (two-pow, half-mod n (2 ^ w) (pow-pos w), bit_at-mod w i (n / 2)) (ground arith)

-- The low `s` bits set.
pub bit_at_ones : (s i : ℕ) → bit_at (2 ^ s - 1) i ≡ ltb i s
bit_at_ones zero i = bit_at_zero i ∙ ground arith
bit_at_ones (suc s) zero = ground (arith, two-pow s, pow-pos s)
bit_at_ones (suc s) (suc i) =
    let half : (2 ^ suc s - 1) / 2 ≡ 2 ^ s - 1 = omega (arith, two-pow s, pow-pos s) in
    rw (half, bit_at_ones s i) (ground arith)

pub bit_at_shl : (k i n : ℕ) → bit_at (n * 2 ^ k) i ≡ (leb k i && bit_at n (i - k))
bit_at_shl zero i n =
    let same : n * 1 ≡ n = omega arith in
    let back : i - 0 ≡ i = omega arith in rw (same, back) (ground arith)
bit_at_shl (suc k) zero n = ground (arith, ap (λ (t : ℕ). n * t) (two-pow k))
bit_at_shl (suc k) (suc i) n =
    let half : n * 2 ^ suc k / 2 ≡ n * 2 ^ k = omega (arith, ap (λ (t : ℕ). n * t) (two-pow k)) in
    let back : suc i - suc k ≡ i - k = omega arith in
    rw (half, back, bit_at_shl k i n) (ground arith)

complement_half : (w n : ℕ) → n < 2 ^ suc w → (2 ^ suc w - 1 - n) / 2 ≡ 2 ^ w - 1 - n / 2
complement_half w n h = omega (arith, two-pow w, h, pow-pos w)

-- The bits of the complement.
pub bit_at_complement :
    (w n i : ℕ) → n < 2 ^ w → i < w → bit_at (2 ^ w - 1 - n) i ≡ not (bit_at n i)
bit_at_complement zero n i h k = absurd (omega arith)
bit_at_complement (suc w) n zero h k = ground (arith, two-pow w, h, pow-pos w)
bit_at_complement (suc w) n (suc i) h k =
    rw (complement_half w n h)
      (bit_at_complement w (n / 2) i (omega (arith, two-pow w, h)) (omega (arith, k)))
