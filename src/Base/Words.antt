-- ===== src/Base/Words.antt =====
-- Machine integers as native numbers, with their wrap-around and the faults of signed arithmetic.
use Prim.Native.Nat.{ℕ, ◌+◌, ◌-◌, ◌*◌, ◌/◌, ◌%◌, ◌^◌, ◌≤◌, ◌<◌}
use native.Mathlib.Decide.{dec_lt}
use native.Mathlib.Nat.{div-add-mod'}
use native.Mathlib.Omega.{arith}
use mathlib.Core.Path.{◌≡◌}
use thermal_placement.Base.Tests.{ltb, ◌==◌, if◌then◌else◌}
use thermal_placement.Base.Outcome.{overflow, bad_shift, Result, ok, err}

abbrev pub u64_mod : ℕ
u64_mod = 2 ^ 64

-- `INT_MAX`
abbrev pub int_max : ℕ
int_max = 2 ^ 31 - 1

-- uint64_t arithmetic. `-` on ℕ is truncated, so the modulus is added first.
abbrev pub add64 : ℕ → ℕ → ℕ
add64 a b = (a + b) % u64_mod

abbrev pub sub64 : ℕ → ℕ → ℕ
sub64 a b = (a + u64_mod - b) % u64_mod

-- `uint64_t a << k`
abbrev pub shl64 : ℕ → ℕ → Result ℕ
shl64 a k = if ltb k 64 then ok (a * 2 ^ k % u64_mod) else err bad_shift

-- `1 << k` at type int, then converted to uint64_t: at 31 the sign bit is extended.
abbrev pub one_shl_int : ℕ → Result ℕ
one_shl_int k =
    if ltb k 31 then ok (2 ^ k) else if k == 31 then ok (u64_mod - 2 ^ 31) else err bad_shift

-- The product of two non-negative ints.
abbrev pub mul_int : ℕ → ℕ → Result ℕ
mul_int a b = if ltb int_max (a * b) then err overflow else ok (a * b)

-- The word of an offset lies inside a buffer of whole words.
pub word_fits : (a n w : ℕ) → 0 < w → n % w ≡ 0 → a < n → a / w * w + w ≤ n
word_fits a n w pos whole h = elim (dec_lt (a / w) (n / w)) [
  | yes p ↦ grind (arith, div-add-mod' n w)
  | no p ↦ absurd (grind (arith, div-add-mod' n w, div-add-mod' a w))
]
