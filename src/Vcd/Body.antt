-- ===== src/Vcd/Body.antt =====
-- The reader's loop on the lines behind the header.
use thermal_placement.Base.{
  ℕ, ◌+◌, ◌≡◌, refl, sym, ap, ◌∙◌, Bool, false, List, [], ◌∷◌, map, Option, none, some, ok,
  if◌then◌else◌, Bool-cases, inl, inr, arith,
}
use mathlib.Core.Option
use thermal_placement.Base.Text.{codes, starts_with}
use thermal_placement.Vcd.Text.{strip}
use thermal_placement.Vcd.Signals.{Signal, lookup, take_value}
use thermal_placement.Vcd.Keys.{IsDict, modify-IsDict}
use thermal_placement.Vcd.Stream.{
  value_in, is_time, values_of, times, cons_some, feed, map_same, lookup-read_body,
}
use thermal_placement.Vcd.{
  Reader, apply_change, change_of, read_body, read_stripped, read_line, read_lines,
}

-- The header's last line.
abbrev pub ends_header : List ℕ → Bool
ends_header line = starts_with (codes "$enddefinitions") line

-- The lines behind the header, stripped.
unfoldable pub body_of : (file : List (List ℕ)) → List (List ℕ)
body_of [] = []
body_of (l ∷ ls) = if ends_header (strip l) then map strip ls else body_of ls

unfoldable pub read_all : Reader → (body : List (List ℕ)) → Reader
read_all r [] = r
read_all r (l ∷ ls) = read_all (read_body r l) ls

apply_change-in_header :
    (change : Option (List ℕ × List ℕ)) (r : Reader)
    → (apply_change change r).in_header ≡ r.in_header
unfolding apply_change
apply_change-in_header none r = refl
apply_change-in_header (some (code, value)) r = refl

apply_change-time_steps :
    (change : Option (List ℕ × List ℕ)) (r : Reader)
    → (apply_change change r).time_steps ≡ r.time_steps
unfolding apply_change
apply_change-time_steps none r = refl
apply_change-time_steps (some (code, value)) r = refl

read_body-in_header : (r : Reader) (line : List ℕ) → (read_body r line).in_header ≡ r.in_header
unfolding read_body
read_body-in_header r line = elim (Bool-cases (is_time line)) [
  | inl time ↦ rw time refl
  | inr change ↦ rw change (apply_change-in_header (change_of line) r)
]

read_stripped-body :
    (r : Reader) (line : List ℕ)
    → r.in_header ≡ false
    → read_stripped r line ≡ ok (read_body r line)
unfolding read_stripped read_body apply_change change_of
read_stripped-body r [] h = refl
read_stripped-body r (c ∷ cs) h = rw h refl

read_line-body :
    (r : Reader) (raw : List ℕ)
    → r.in_header ≡ false
    → read_line r raw ≡ ok (read_body r (strip raw))
unfolding read_line
read_line-body r raw h = read_stripped-body r (strip raw) h

pub read_lines-body :
    (file : List (List ℕ)) (r : Reader)
    → r.in_header ≡ false
    → read_lines r file ≡ ok (read_all r (map strip file))
unfolding read_lines read_all
read_lines-body [] r h = refl
read_lines-body (l ∷ ls) r h =
    rw (read_line-body r l h)
      (read_lines-body ls (read_body r (strip l)) (read_body-in_header r (strip l) ∙ h))

map-feed :
    (value : Option (List ℕ)) (vs : List (List ℕ)) (o : Option Signal)
    → Option.map (λ s. feed s vs) (Option.map (λ s. feed s (cons_some value [])) o)
      ≡ Option.map (λ s. feed s (cons_some value vs)) o
unfolding feed
map-feed value vs none = refl
map-feed none vs (some s) = refl
map-feed (some v) vs (some s) = refl

pub lookup-read_all :
    (key : List ℕ) (body : List (List ℕ)) (r : Reader)
    → lookup key (read_all r body).signals
      ≡ Option.map (λ s. feed s (values_of key body)) (lookup key r.signals)
unfolding read_all values_of feed
lookup-read_all key [] r = sym (map_same (λ s. s) (λ s. refl) (lookup key r.signals))
lookup-read_all key (l ∷ ls) r =
    lookup-read_all key ls (read_body r l)
    ∙ ap (Option.map (λ s. feed s (values_of key ls))) (lookup-read_body key l r)
    ∙ map-feed (value_in key l) (values_of key ls) (lookup key r.signals)

read_body-time_steps :
    (r : Reader) (line : List ℕ)
    → (read_body r line).time_steps ≡ r.time_steps + (if is_time line then 1 else 0)
unfolding read_body apply_change
read_body-time_steps r line = elim (Bool-cases (is_time line)) [
  | inl time ↦ rw time refl
  | inr change ↦ rw change (apply_change-time_steps (change_of line) r ∙ omega arith)
]

pub read_all-time_steps :
    (body : List (List ℕ)) (r : Reader) → (read_all r body).time_steps ≡ r.time_steps + times body
unfolding read_all times
read_all-time_steps [] r = omega arith
read_all-time_steps (l ∷ ls) r =
    read_all-time_steps ls (read_body r l)
    ∙ ap (λ (t : ℕ). t + times ls) (read_body-time_steps r l)
    ∙ omega arith

apply_change-IsDict :
    (change : Option (List ℕ × List ℕ)) (r : Reader)
    → IsDict r.signals
    → IsDict (apply_change change r).signals
unfolding apply_change
apply_change-IsDict none r d = d
apply_change-IsDict (some (code, value)) r d =
    modify-IsDict code (λ s. take_value s value) r.signals d

read_body-IsDict :
    (r : Reader) (line : List ℕ) → IsDict r.signals → IsDict (read_body r line).signals
unfolding read_body
read_body-IsDict r line d = elim (Bool-cases (is_time line)) [
  | inl time ↦ rw time d
  | inr change ↦ rw change (apply_change-IsDict (change_of line) r d)
]

pub read_all-IsDict :
    (body : List (List ℕ)) (r : Reader) → IsDict r.signals → IsDict (read_all r body).signals
unfolding read_all
read_all-IsDict [] r d = d
read_all-IsDict (l ∷ ls) r d = read_all-IsDict ls (read_body r l) (read_body-IsDict r l d)
