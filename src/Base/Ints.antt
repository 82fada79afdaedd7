-- ===== src/Base/Ints.antt =====
-- Signed integers, and their conversions to and from unsigned words.
use Prim.Native.Nat.{ℕ, ◌-◌, ◌%◌, ◌^◌, ◌<◌}
use native.Mathlib.Omega.{arith}
use mathlib.Core.Path.{◌≡◌, refl, ap}
use mathlib.Core.Bool.{false}
use thermal_placement.Base.Tests.{ltb, if◌then◌else◌, lt→ltb}
use thermal_placement.Base.Words.{u64_mod}

-- `negsuc n` is -1 - n.
pub data ℤ : Type 0 where
  pos : ℕ → ℤ
  negsuc : ℕ → ℤ

-- The conversion to uint64_t.
unfoldable pub to_u64 : ℤ → ℕ
to_u64 (pos n) = n % u64_mod
to_u64 (negsuc n) = u64_mod - 1 - n % u64_mod

-- The conversion of a uint64_t to int keeps the low 32 bits.
unfoldable pub to_int : ℕ → ℤ
to_int n = let low = n % 2 ^ 32 in if ltb low (2 ^ 31) then pos low else negsuc (2 ^ 32 - 1 - low)

-- The values of type int.
abbrev pub IsInt : ℤ → Type 0
IsInt (pos n) = n < 2 ^ 31
IsInt (negsuc n) = n < 2 ^ 31

-- An int comes back from the conversion to uint64_t.
pub to_int-to_u64 : (i : ℤ) → IsInt i → to_int (to_u64 i) ≡ i
unfolding to_int to_u64
to_int-to_u64 (pos n) h =
    let low : n % u64_mod % 2 ^ 32 ≡ n = omega arith in rw (low, lt→ltb n (2 ^ 31) h) refl
to_int-to_u64 (negsuc n) h =
    let low : (u64_mod - 1 - n % u64_mod) % 2 ^ 32 ≡ 2 ^ 32 - 1 - n = omega arith in
    let high : ltb (2 ^ 32 - 1 - n) (2 ^ 31) ≡ false = ground arith in
    let back : 2 ^ 32 - 1 - (2 ^ 32 - 1 - n) ≡ n = omega arith in rw (low, high) (ap negsuc back)
