-- ===== src/Base/Text/Hex.antt =====
-- Numbers printed in hexadecimal and read back by strtoull, and the search behind digits.
use native.Mathlib.Nat.{pow-suc}
use Prim.Native.Nat.{ℕ, zero, suc, ◌+◌, ◌-◌, ◌*◌, ◌/◌, ◌%◌, ◌^◌, ◌<◌}
use native.Mathlib.Omega.{arith}
use mathlib.Core.Path.{◌≡◌, refl, ap, ◌∙◌}
use mathlib.Core.Bool.{true, false}
use mathlib.Core.Option.{some}
use mathlib.Core.List.{List, [], ◌∷◌, ◌++◌}
use thermal_placement.Base.Tests.{ltb, ◌==◌, if◌then◌else◌}
use thermal_placement.Base.Lists.{All, All-append, length}
use thermal_placement.Base.Text.{
  starts_with, find, hex_digit, hex_value, skip_prefix, skip_spaces, signed_hex, saturated,
  is_space, strtoull16,
}

abbrev hex_char : ℕ → ℕ
hex_char d = if ltb d 10 then d + b'0' else d - 10 + b'a'

-- The last `k` hexadecimal digits of a number, as by %0kx.
pub hex_text : (k n : ℕ) → List ℕ
hex_text zero n = []
hex_text (suc k) n = hex_text k (n / 16) ++ hex_char (n % 16) ∷ []

abbrev pub IsHex : ℕ → Type 0
IsHex c = (d : ℕ) × (hex_digit c ≡ some d)

hex_digit-hex_char : (d : ℕ) → d < 16 → hex_digit (hex_char d) ≡ some d
unfolding hex_digit
hex_digit-hex_char d h = ground arith

pub hex_text-IsHex : (k n : ℕ) → All IsHex (hex_text k n)
unfolding hex_text
hex_text-IsHex zero n = tt
hex_text-IsHex (suc k) n =
    All-append IsHex (hex_text k (n / 16)) (hex_char (n % 16) ∷ []) (hex_text-IsHex k (n / 16))
      ((n % 16, hex_digit-hex_char (n % 16) (omega arith)), tt)

hex_value-snoc :
    (cs : List ℕ) (c d n : ℕ)
    → All IsHex cs
    → hex_digit c ≡ some d
    → hex_value (cs ++ c ∷ []) n ≡ hex_value cs n * 16 + d
unfolding hex_value
hex_value-snoc [] c d n all e = rw (hex_value, e) refl
hex_value-snoc (b ∷ cs) c d n ((v, at), all) e =
    rw (hex_value, at) (hex_value-snoc cs c d (n * 16 + v) all e)

pub hex_value-hex_text : (k n : ℕ) → n < 16 ^ k → hex_value (hex_text k n) 0 ≡ n
unfolding hex_text hex_value
hex_value-hex_text zero n h = omega arith
hex_value-hex_text (suc k) n h =
    let last =
      hex_value-snoc (hex_text k (n / 16)) (hex_char (n % 16)) (n % 16) 0
        (hex_text-IsHex k (n / 16)) (hex_digit-hex_char (n % 16) (omega arith)) in
    let front = hex_value-hex_text k (n / 16) (omega (arith, pow-suc 16 k)) in
    omega (arith, last, front)

-- A digit is none of the characters that strtoull and the arguments give another meaning.
record IsPlain (c : ℕ) : Type 0 where
  space : is_space c ≡ false
  minus : (c == b'-') ≡ false
  plus : (c == b'+') ≡ false
  small_x : (c == b'x') ≡ false
  large_x : (c == b'X') ≡ false
  colon : (b':' == c) ≡ false

IsHex-IsPlain : (c : ℕ) → IsHex c → IsPlain c
unfolding hex_digit
IsHex-IsPlain c (d, at) = record {
  space = ground arith;
  minus = ground arith;
  plus = ground arith;
  small_x = ground arith;
  large_x = ground arith;
  colon = ground arith;
}

skip_prefix-hex : (cs : List ℕ) → All IsHex cs → skip_prefix cs ≡ cs
unfolding skip_prefix
skip_prefix-hex [] all = refl
skip_prefix-hex (c ∷ []) all = refl
skip_prefix-hex (c ∷ d ∷ cs) (h, (k, all)) =
    let p = IsHex-IsPlain d k in rw (skip_prefix, p.small_x, p.large_x) (ground arith)

signed_hex-plain :
    (c : ℕ) (cs : List ℕ)
    → IsPlain c
    → signed_hex (c ∷ cs) ≡ saturated false (hex_value (skip_prefix (c ∷ cs)) 0)
unfolding signed_hex hex_value
signed_hex-plain c cs p = rw (signed_hex, p.minus, p.plus) refl

skip_spaces-plain : (c : ℕ) (cs : List ℕ) → IsPlain c → skip_spaces (c ∷ cs) ≡ c ∷ cs
unfolding skip_spaces
skip_spaces-plain c cs p = rw (skip_spaces, p.space) refl

-- Digits alone are read as their value, as far as it fits.
pub strtoull16-hex : (cs : List ℕ) → All IsHex cs → strtoull16 cs ≡ saturated false (hex_value cs 0)
unfolding strtoull16
strtoull16-hex [] all = refl
strtoull16-hex (c ∷ cs) (h, all) =
    let p = IsHex-IsPlain c h in
    ap signed_hex (skip_spaces-plain c cs p)
    ∙ signed_hex-plain c cs p
    ∙ ap (λ l. saturated false (hex_value l 0)) (skip_prefix-hex (c ∷ cs) (h, all))

pub starts_with-append : (word rest : List ℕ) → starts_with word (word ++ rest) ≡ true
starts_with-append [] rest = refl
starts_with-append (c ∷ word) rest =
    let same : (c == c) ≡ true = ground arith in rw same (starts_with-append word rest)

abbrev pub NoColon : ℕ → Type 0
NoColon c = (b':' == c) ≡ false

pub IsHex-NoColon : (c : ℕ) → IsHex c → NoColon c
IsHex-NoColon c h = let p = IsHex-IsPlain c h in p.colon

-- The first colon is found.
pub find-NoColon :
    (cs word rest : List ℕ)
    → All NoColon cs
    → find (b':' ∷ word) (cs ++ (b':' ∷ (word ++ rest))) ≡ some (length cs)
unfolding find
find-NoColon [] word rest all = rw (starts_with-append word rest) refl
find-NoColon (c ∷ cs) word rest (h, all) = rw (find, h, find-NoColon cs word rest all) refl
