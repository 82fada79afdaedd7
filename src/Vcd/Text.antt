-- ===== src/Vcd/Text.antt =====
-- What extract_vcd_activity.py uses of str and int, on texts of ASCII codes.
use thermal_placement.Base.{
  ℕ, zero, suc, ◌+◌, ◌-◌, ◌*◌, ◌≡◌, refl, Bool, true, false, ◌&&◌, ◌||◌, List, [], ◌∷◌, ◌++◌, map,
  Option, none, some, leb, ◌==◌, if◌then◌else◌,
}
use thermal_placement.Base.Ints.{ℤ, pos, negsuc}
use thermal_placement.Base.Text.{codes, is_space}

-- `str.isspace`
abbrev pub is_white : ℕ → Bool
is_white c = (c == b' ') || ((leb 9 c && leb c 13) || (leb 28 c && leb c 31))

unfoldable pub lstrip : (ℕ → Bool) → List ℕ → List ℕ
lstrip white [] = []
lstrip white (c ∷ cs) = if white c then lstrip white cs else c ∷ cs

-- A character behind which `rest` is left.
unfoldable pub keep : (ℕ → Bool) → ℕ → List ℕ → List ℕ
keep white c [] = if white c then [] else c ∷ []
keep white c (r ∷ rest) = c ∷ r ∷ rest

unfoldable pub rstrip : (ℕ → Bool) → List ℕ → List ℕ
unfolding keep
rstrip white [] = []
rstrip white (c ∷ cs) = keep white c (rstrip white cs)

-- `text.strip()`
abbrev pub strip : List ℕ → List ℕ
strip text = rstrip is_white (lstrip is_white text)

-- `text.split()`, behind the part `word` of a word.
push_word : List ℕ → List (List ℕ) → List (List ℕ)
push_word [] words = words
push_word (c ∷ cs) words = (c ∷ cs) ∷ words

unfoldable pub split_from : (word text : List ℕ) → List (List ℕ)
unfolding push_word
split_from word [] = push_word word []
split_from word (c ∷ cs) = elim (is_white c) [
  | true ↦ push_word word (split_from [] cs)
  | false ↦ split_from (word ++ c ∷ []) cs
]

abbrev pub split : List ℕ → List (List ℕ)
split text = split_from [] text

-- `text.lower()`
abbrev pub lower_char : ℕ → ℕ
lower_char c = if leb b'A' c && leb c b'Z' then c + 32 else c

abbrev pub lower : List ℕ → List ℕ
lower text = map lower_char text

-- `separator.join(texts)`
unfoldable pub join : (separator : List ℕ) → List (List ℕ) → List ℕ
join sep [] = []
join sep (t ∷ []) = t
join sep (t ∷ u ∷ ts) = t ++ (sep ++ join sep (u ∷ ts))

-- `text.replace(" ", "")`
unfoldable pub without_spaces : List ℕ → List ℕ
without_spaces [] = []
without_spaces (c ∷ cs) = if c == b' ' then without_spaces cs else c ∷ without_spaces cs

abbrev pub is_digit : ℕ → Bool
is_digit c = leb b'0' c && leb c b'9'

-- Digits, between which single underscores may stand.
digits : (may_end : Bool) → (v : ℕ) → List ℕ → Option ℕ
digits may_end v [] = if may_end then some v else none
digits may_end v (c ∷ cs) =
    let rest = digits (is_digit c) (if is_digit c then v * 10 + (c - b'0') else v) cs in
    if is_digit c || ((c == b'_') && may_end) then rest else none

signed : Bool → Option ℕ → Option ℤ
signed negative none = none
signed true (some (suc n)) = some (negsuc n)
signed true (some zero) = some (pos 0)
signed false (some n) = some (pos n)

signed_digits : List ℕ → Option ℤ
signed_digits [] = none
signed_digits (c ∷ cs) =
    if c == b'-'
    then signed true (digits false 0 cs)
    else if c == b'+'
    then signed false (digits false 0 cs)
    else signed false (digits false 0 (c ∷ cs))

-- `int(text)`; `none` is a ValueError.
unfoldable pub parse_int : List ℕ → Option ℤ
unfolding digits signed signed_digits lstrip rstrip
parse_int text = signed_digits (rstrip is_space (lstrip is_space text))

reads_int : parse_int (codes " -1_20\n") ≡ some (negsuc 119)
unfolding parse_int
reads_int = refl

reads_no_int : parse_int (codes "1__2") ≡ none
unfolding parse_int
reads_no_int = refl

splits :
    split (codes " $var wire  1 a[ x $end")
    ≡ map codes ("$var" ∷ "wire" ∷ "1" ∷ "a[" ∷ "x" ∷ "$end" ∷ [])
unfolding split_from
splits = refl

strips : strip (codes " \t a b\r") ≡ codes "a b"
unfolding lstrip rstrip
strips = refl
