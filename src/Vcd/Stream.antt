-- ===== src/Vcd/Stream.antt =====
-- The reader's one pass over the changes, beside all values of a signal taken together.
use thermal_placement.Base.{
  ℕ, ◌+◌, ◌≡◌, refl, sym, ap, ap₂, ◌∙◌, subst, Bool, List, [], ◌∷◌, Option, none, some, ◌==◌,
  if◌then◌else◌, Bool-cases, inl, inr, arith,
}
use mathlib.Core.Option
use thermal_placement.Base.Ints.{ℤ}
use thermal_placement.Base.Text.{codes, starts_with, same_text}
use thermal_placement.Vcd.Signals.{Signal, lookup, value_toggle_delta, take_value, counted}
use thermal_placement.Vcd.Dict.{lookup-modify}
use thermal_placement.Vcd.{Reader, change_of, apply_change, read_body}

-- The value that a change gives to the signal with a code.
abbrev value_of : (key : List ℕ) → Option (List ℕ × List ℕ) → Option (List ℕ)
value_of key none = none
value_of key (some (code, value)) = if same_text key code then some value else none

abbrev pub is_time : List ℕ → Bool
is_time line = starts_with (codes "#") line

abbrev pub value_in : (key line : List ℕ) → Option (List ℕ)
value_in key line = if is_time line then none else value_of key (change_of line)

abbrev pub cons_some {ℓ} : {A : Type ℓ} → Option A → List A → List A
cons_some none xs = xs
cons_some (some x) xs = x ∷ xs

-- All values that the lines give to a code, in order.
unfoldable pub values_of : (key : List ℕ) → (body : List (List ℕ)) → List (List ℕ)
values_of key [] = []
values_of key (l ∷ ls) = cons_some (value_in key l) (values_of key ls)

unfoldable pub times : (body : List (List ℕ)) → ℕ
times [] = 0
times (l ∷ ls) = (if is_time l then 1 else 0) + times ls

-- The toggles from each value to the next, and the steps that have any.
unfoldable pub sum_deltas : ℤ → (old : List ℕ) → List (List ℕ) → ℕ
sum_deltas width old [] = 0
sum_deltas width old (v ∷ vs) = value_toggle_delta old v width + sum_deltas width v vs

unfoldable pub count_deltas : ℤ → (old : List ℕ) → List (List ℕ) → ℕ
count_deltas width old [] = 0
count_deltas width old (v ∷ vs) =
    (if value_toggle_delta old v width == 0 then 0 else 1) + count_deltas width v vs

abbrev pub from_first {ℓ} : {A : Type ℓ} → A → (List ℕ → List (List ℕ) → A) → List (List ℕ) → A
from_first d f [] = d
from_first d f (v ∷ vs) = f v vs

abbrev pub last_value : List ℕ → List (List ℕ) → List ℕ
last_value v [] = v
last_value v (w ∷ ws) = last_value w ws

abbrev pub last_of : List (List ℕ) → Option (List ℕ)
last_of [] = none
last_of (v ∷ vs) = some (last_value v vs)

-- The values one after the other.
unfoldable pub feed : Signal → List (List ℕ) → Signal
feed s [] = s
feed s (v ∷ vs) = feed (take_value s v) vs

-- What a signal with these values has counted, when its last value was `old` at the start.
pub record IsCounted (s s' : Signal) (old : List ℕ) (vs : List (List ℕ)) : Type 0 where
  pub path : s'.path ≡ s.path
  pub width : s'.width ≡ s.width
  pub toggles : s'.toggles ≡ s.toggles + sum_deltas s.width old vs
  pub changes : s'.changes ≡ s.changes + count_deltas s.width old vs
  pub last : s'.last ≡ some (last_value old vs)

pub take_value-counted :
    (s : Signal) (old v : List ℕ)
    → s.last ≡ some old
    → take_value s v ≡ counted s v (value_toggle_delta old v s.width)
unfolding take_value
take_value-counted s old v h = rw h refl

counted-IsCounted :
    (s : Signal) (old v : List ℕ)
    → IsCounted s (counted s v (value_toggle_delta old v s.width)) old (v ∷ [])
unfolding sum_deltas count_deltas
counted-IsCounted s old v = elim (Bool-cases (value_toggle_delta old v s.width == 0)) [
  | inl none_new ↦ record {
    path = rw none_new refl;
    width = rw none_new refl;
    toggles = rw none_new (ground arith);
    changes = rw none_new (ground arith);
    last = rw none_new refl;
  }
  | inr some_new ↦ record {
    path = rw some_new refl;
    width = rw some_new refl;
    toggles = rw some_new (ground arith);
    changes = rw some_new (ground arith);
    last = rw some_new refl;
  }
]

pub feed-IsCounted :
    (s : Signal) (old : List ℕ) (vs : List (List ℕ))
    → s.last ≡ some old
    → IsCounted s (feed s vs) old vs
unfolding feed sum_deltas count_deltas
feed-IsCounted s old [] h = record {
  path = refl;
  width = refl;
  toggles = omega arith;
  changes = omega arith;
  last = h;
}
feed-IsCounted s old (v ∷ vs) h =
    let first =
      subst (λ (t : Signal). IsCounted s t old (v ∷ [])) (sym (take_value-counted s old v h))
        (counted-IsCounted s old v) in
    let rest = feed-IsCounted (take_value s v) v vs first.last in
    record {
      path = rest.path ∙ first.path;
      width = rest.width ∙ first.width;
      toggles =
          rest.toggles
          ∙ ap₂ (λ (t : ℕ) (w : ℤ). t + sum_deltas w v vs) first.toggles first.width
          ∙ omega arith;
      changes =
          rest.changes
          ∙ ap₂ (λ (t : ℕ) (w : ℤ). t + count_deltas w v vs) first.changes first.width
          ∙ omega arith;
      last = rest.last;
    }

-- What a signal without a value has counted after all values of a file.
pub record IsCountedFirst (s : Signal) (vs : List (List ℕ)) : Type 0 where
  pub toggles : s.toggles ≡ from_first 0 (sum_deltas s.width) vs
  pub changes : s.changes ≡ from_first 0 (count_deltas s.width) vs
  pub last : s.last ≡ last_of vs

pub feed-first :
    (s : Signal) (vs : List (List ℕ))
    → s.last ≡ none
    → s.toggles ≡ 0
    → s.changes ≡ 0
    → IsCountedFirst (feed s vs) vs
unfolding feed take_value
feed-first s [] l t c = record { toggles = t; changes = c; last = l }
feed-first s (v ∷ vs) l t c =
    let first : take_value s v ≡ record s { last = some v } = rw l refl in
    let rest = feed-IsCounted (record s { last = some v }) v vs refl in
    subst (λ (u : Signal). IsCountedFirst (feed u vs) (v ∷ vs)) (sym first)
      (record {
        toggles = rw rest.width (rest.toggles ∙ omega (arith, t));
        changes = rw rest.width (rest.changes ∙ omega (arith, c));
        last = rest.last;
      })

pub map_same :
    (f : Signal → Signal) → ((s : Signal) → f s ≡ s) → (o : Option Signal) → Option.map f o ≡ o
map_same f h none = refl
map_same f h (some s) = ap some (h s)

lookup-apply_change :
    (key : List ℕ) (change : Option (List ℕ × List ℕ)) (r : Reader)
    → lookup key (apply_change change r).signals
      ≡ Option.map (λ s. feed s (cons_some (value_of key change) [])) (lookup key r.signals)
unfolding apply_change feed
lookup-apply_change key none r = sym (map_same (λ s. s) (λ s. refl) (lookup key r.signals))
lookup-apply_change key (some (code, value)) r = elim (Bool-cases (same_text key code)) [
  | inl same ↦ rw (lookup-modify, same) refl
  | inr other ↦
      rw (lookup-modify, other) (sym (map_same (λ s. s) (λ s. refl) (lookup key r.signals)))
]

pub lookup-read_body :
    (key line : List ℕ) (r : Reader)
    → lookup key (read_body r line).signals
      ≡ Option.map (λ s. feed s (cons_some (value_in key line) [])) (lookup key r.signals)
unfolding read_body feed
lookup-read_body key line r = elim (Bool-cases (is_time line)) [
  | inl time ↦ rw time (sym (map_same (λ s. s) (λ s. refl) (lookup key r.signals)))
  | inr change ↦ rw change (lookup-apply_change key (change_of line) r)
]
