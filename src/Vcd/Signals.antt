-- ===== src/Vcd/Signals.antt =====
-- scripts/extract_vcd_activity.py: a signal, the dict of signals, and what a new value counts for.
use thermal_placement.Base.{
  ℕ, ◌+◌, ◌-◌, Bool, true, ◌&&◌, ◌||◌, List, [], ◌∷◌, ◌++◌, Option, none, some, ltb, ◌==◌,
  if◌then◌else◌, length, replicate,
}
use thermal_placement.Base.Ints.{ℤ, pos, negsuc}
use thermal_placement.Base.Text.{same_text}

pub record Signal : Type 0 where
  pub path : List ℕ
  pub width : ℤ
  pub last : Option (List ℕ)
  pub toggles : ℕ
  pub changes : ℕ

-- A dict in the order of insertion.
module _ {ℓ} {V : Type ℓ} where
  unfoldable pub lookup : (key : List ℕ) → List (List ℕ × V) → Option V
  lookup key [] = none
  lookup key ((k, v) ∷ rest) = if same_text k key then some v else lookup key rest

  unfoldable pub setdefault : (key : List ℕ) → V → List (List ℕ × V) → List (List ℕ × V)
  setdefault key v [] = (key, v) ∷ []
  setdefault key v ((k, w) ∷ rest) =
      if same_text k key then (k, w) ∷ rest else (k, w) ∷ setdefault key v rest

  -- A change of the object that a key has.
  unfoldable pub modify : (key : List ℕ) → (V → V) → List (List ℕ × V) → List (List ℕ × V)
  modify key f [] = []
  modify key f ((k, v) ∷ rest) =
      if same_text k key then (k, f v) ∷ rest else (k, v) ∷ modify key f rest

-- `set(text) <= {"0", "1"}`
abbrev pub is_binary : List ℕ → Bool
is_binary [] = true
is_binary (c ∷ cs) = ((c == b'0') || (c == b'1')) && is_binary cs

-- `text.zfill(n)` of a text without a sign.
abbrev pub zfill : ℕ → List ℕ → List ℕ
zfill n text = replicate (n - length text) b'0' ++ text

-- `sum(1 for a, b in zip(old, new) if a != b)`
unfoldable pub count_differ : List ℕ → List ℕ → ℕ
count_differ (x ∷ xs) (y ∷ ys) = (if x == y then 0 else 1) + count_differ xs ys
count_differ _ _ = 0

abbrev pub max : ℕ → ℕ → ℕ
max a b = if ltb a b then b else a

-- A width below 0 is smaller than any length, and is smaller than 1.
abbrev pub at_least_zero : ℤ → ℕ
at_least_zero (pos n) = n
at_least_zero (negsuc n) = 0

-- `max(1, min(width, 1))`
abbrev pub one_of : ℤ → ℕ
one_of width = let w = at_least_zero width in max 1 (if ltb 1 w then 1 else w)

abbrev pub padded_length : (old new : List ℕ) → (width : ℤ) → ℕ
padded_length old new width = max (max (length old) (length new)) (at_least_zero width)

unfoldable pub value_toggle_delta : (old new : List ℕ) → (width : ℤ) → ℕ
unfolding count_differ
value_toggle_delta old new width =
    if same_text old new
    then 0
    else if is_binary old && is_binary new
    then (let max_len = padded_length old new width in
        count_differ (zfill max_len old) (zfill max_len new))
    else one_of width

-- The three `if`s for a new value of a signal.
abbrev pub counted : Signal → (value : List ℕ) → (delta : ℕ) → Signal
counted s value delta =
    if delta == 0
    then record s { last = some value }
    else record s { last = some value; toggles = s.toggles + delta; changes = s.changes + 1 }

after_value : Option (List ℕ) → Signal → (value : List ℕ) → Signal
after_value none s value = record s { last = some value }
after_value (some old) s value = counted s value (value_toggle_delta old value s.width)

unfoldable pub take_value : Signal → (value : List ℕ) → Signal
unfolding after_value value_toggle_delta
take_value s value = after_value s.last s value
