-- ===== src/Base/Text.antt =====
-- Text as lists of character codes: what the sources use of std::string and of strtoull.
pub mod Hex
pub mod Search
use Prim.Native.Char.{code}
use Prim.Native.String.{String}
use mathlib.Core.Path.{◌≡◌, refl}
use native.Mathlib.Omega.{arith}
use Prim.Native.Nat.{◌<◌, ℕ, zero, suc, ◌+◌, ◌-◌, ◌*◌, ◌%◌, ◌^◌}
use mathlib.Core.Bool.{Bool, true, false, ◌&&◌, ◌||◌}
use mathlib.Core.Option.{Option, none, some}
use mathlib.Core.List.{List, [], ◌∷◌}
use thermal_placement.Base.Tests.{ltb, leb, ◌==◌, if◌then◌else◌}

abbrev pub codes : String → List ℕ
codes String.[] = []
codes (String.◌∷◌ c s) = code c ∷ codes s

-- `text.find(prefix) == 0`
abbrev pub starts_with : (prefix text : List ℕ) → Bool
starts_with [] text = true
starts_with (p ∷ ps) [] = false
starts_with (p ∷ ps) (c ∷ cs) = (p == c) && starts_with ps cs

-- `a == b`
abbrev pub same_text : List ℕ → List ℕ → Bool
same_text [] [] = true
same_text (x ∷ xs) (y ∷ ys) = (x == y) && same_text xs ys
same_text _ _ = false

abbrev pub one_later : Option ℕ → Option ℕ
one_later none = none
one_later (some i) = some (suc i)

-- `text.find(word)`; `none` is npos.
unfoldable pub find : (word text : List ℕ) → Option ℕ
find word [] = if starts_with word [] then some 0 else none
find word (c ∷ cs) = if starts_with word (c ∷ cs) then some 0 else one_later (find word cs)

abbrev pub is_space : ℕ → Bool
is_space c = (c == b' ') || (leb 9 c && leb c 13)

-- The value of a hexadecimal digit.
unfoldable pub hex_digit : ℕ → Option ℕ
hex_digit c =
    if leb b'0' c && leb c b'9'
    then some (c - b'0')
    else if leb b'a' c && leb c b'f'
    then some (c - b'a' + 10)
    else if leb b'A' c && leb c b'F'
    then some (c - b'A' + 10)
    else none

-- The digits up to the first character that is none, behind the value `n`.
unfoldable pub hex_value : List ℕ → (n : ℕ) → ℕ
unfolding hex_digit
hex_value [] n = n
hex_value (c ∷ cs) n = elim (hex_digit c) [ none ↦ n | some d ↦ hex_value cs (n * 16 + d) ]

-- An optional 0x. Where no digit follows it the value is 0 with and without it.
skip_prefix : List ℕ → List ℕ
skip_prefix (z ∷ x ∷ cs) = if (z == b'0') && ((x == b'x') || (x == b'X')) then cs else z ∷ x ∷ cs
skip_prefix cs = cs

skip_spaces : List ℕ → List ℕ
skip_spaces [] = []
skip_spaces (c ∷ cs) = if is_space c then skip_spaces cs else c ∷ cs

-- A value out of range gives the largest number, also behind a minus.
abbrev pub saturated : (negative : Bool) → (v : ℕ) → ℕ
saturated negative v =
    if ltb (2 ^ 64 - 1) v then 2 ^ 64 - 1 else if negative then (2 ^ 64 - v) % 2 ^ 64 else v

signed_hex : List ℕ → ℕ
signed_hex [] = 0
signed_hex (c ∷ cs) =
    if c == b'-'
    then saturated true (hex_value (skip_prefix cs) 0)
    else if c == b'+'
    then saturated false (hex_value (skip_prefix cs) 0)
    else saturated false (hex_value (skip_prefix (c ∷ cs)) 0)

saturated-lt : (negative : Bool) (v : ℕ) → saturated negative v < 2 ^ 64
saturated-lt negative v = ground arith

signed_hex-lt : (text : List ℕ) → signed_hex text < 2 ^ 64
unfolding signed_hex
signed_hex-lt [] = omega arith
signed_hex-lt (c ∷ cs) = ground (
  arith,
  saturated-lt true (hex_value (skip_prefix cs) 0),
  saturated-lt false (hex_value (skip_prefix cs) 0),
  saturated-lt false (hex_value (skip_prefix (c ∷ cs)) 0),
)

-- `strtoull(text, 0, 16)`
unfoldable pub strtoull16 : List ℕ → ℕ
unfolding hex_value skip_prefix skip_spaces signed_hex
strtoull16 text = signed_hex (skip_spaces text)

-- The result is an unsigned long long.
pub strtoull16-lt : (text : List ℕ) → strtoull16 text < 2 ^ 64
unfolding strtoull16
strtoull16-lt text = signed_hex-lt (skip_spaces text)

reads_hex : strtoull16 (codes " -0xF0:1") ≡ 2 ^ 64 - 240
unfolding strtoull16
reads_hex = refl
