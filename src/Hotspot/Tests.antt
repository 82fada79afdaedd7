-- ===== src/Hotspot/Tests.antt =====
-- Exports of small region tables, with fractions for floating-point numbers: an activity is read as
-- its first digit.
use mathlib.Core.List.{Pairwise}
use thermal_placement.Base.{
  ℕ, ◌+◌, ◌-◌, ◌*◌, ◌≡◌, refl, List, [], ◌∷◌, map, Option, none, some, ok, true, length, get_elem?,
}
use thermal_placement.Base.Ints.{pos}
use thermal_placement.Base.Text.{codes}
use thermal_placement.Vcd.Signals.{Signal}
use thermal_placement.Activity.Tables.{Floats, RegionRow, Options, region_rows}
use thermal_placement.Activity.Names.{text_lt}
use thermal_placement.Hotspot.{Numbers, Region, Block, Files, read_regions, power_of, export}
use thermal_placement.Hotspot.Stripes.{stripe, export-rows}
use thermal_placement.Hotspot.Inputs.{export-region_rows}

abbrev Fraction : Type 0
Fraction = ℕ × ℕ

abbrev first_digit : List ℕ → Option Fraction
first_digit [] = none
first_digit (c ∷ cs) = some (c - b'0', 1)

abbrev numbers : Numbers Fraction
numbers = record {
  parse = first_digit;
  chip = (4, 1000);
  over = λ a n. (a.0, a.1 * n);
  scaled = λ n a. (n * a.0, a.1);
  plus = λ a b. (a.0 * b.1 + b.0 * a.1, a.1 * b.1);
  times = λ a b. (a.0 * b.0, a.1 * b.1);
}

abbrev row : (name : List ℕ) → (activity : List ℕ) → Region
row name activity = record { region = name; avg_normalized_activity = activity }

abbrev rows : List Region
rows = row (codes "pe_array") (codes "3") ∷ row (codes "other") (codes "5") ∷ []

abbrev files : Files Fraction
files = record {
  floorplan =
      record { name = codes "other"; width = (4, 2000); height = (4, 1000); left = (0, 2000) }
      ∷ record { name = codes "pe_array"; width = (4, 2000); height = (4, 1000); left = (4, 2000) }
      ∷ [];
  names = codes "other" ∷ codes "pe_array" ∷ [];
  powers = (205, 20) ∷ (125, 20) ∷ [];
}

exports : export numbers (5, 20) (2, 1) rows ≡ ok files
unfolding export
exports = refl

export-rows_example :
    (activity : Fraction) × (some (3, 1) ≡ some activity)
    × (some (125, 20) ≡ some (power_of numbers (5, 20) (2, 1) activity))
    × (get_elem? files.floorplan 1
        ≡ some (stripe numbers (5, 20) (2, 1) (4, 2000) 1 (row (codes "pe_array") (codes "3"))))
    × (map (λ (b : Block Fraction). b.name) files.floorplan ≡ files.names)
    × (files.names ≡ map (λ (r : Region). r.region) (read_regions rows))
    × (length files.powers ≡ 2)
unfolding export read_regions
export-rows_example =
    export-rows numbers (5, 20) (2, 1) rows files refl 1 (row (codes "pe_array") (codes "3")) refl

abbrev fractions : Floats Fraction
fractions = record {
  ratio = λ a b. (a, b);
  nothing = (0, 1);
  plus = λ a b. (a.0 + b.0, b.1);
  over = λ a n. (a.0, a.1 * n);
}

abbrev signals : List Signal
signals =
    record { path = codes "top.mesh"; width = pos 2; last = none; toggles = 6; changes = 3 }
    ∷ record { path = codes "top.x"; width = pos 1; last = none; toggles = 2; changes = 2 }
    ∷ []

abbrev options : Options
options = record {
  time_steps = 10;
  last_time = pos 100;
  workload = codes "thermal_smoke";
  terms = (codes "pe_array", codes "mesh" ∷ []) ∷ [];
  top_signals = pos 2;
  exclude_clocks = true;
}

abbrev print : Fraction → List ℕ
print a = (a.0 + b'0') ∷ []

abbrev summary_files : Files Fraction
summary_files = record {
  floorplan =
      record { name = codes "other"; width = (4, 2000); height = (4, 1000); left = (0, 2000) }
      ∷ record { name = codes "pe_array"; width = (4, 2000); height = (4, 1000); left = (4, 2000) }
      ∷ [];
  names = codes "other" ∷ codes "pe_array" ∷ [];
  powers = (85, 20) ∷ (245, 20) ∷ [];
}

export-region_rows_example :
    (map (λ (b : Block Fraction). b.name) summary_files.floorplan
      ≡ map (λ (row : RegionRow Fraction). row.region) (region_rows fractions options signals))
    × Pairwise
        (λ a b. text_lt a b ≡ true)
        (map (λ (b : Block Fraction). b.name) summary_files.floorplan)
unfolding export region_rows
export-region_rows_example =
    export-region_rows numbers (5, 20) (2, 1) fractions options print signals summary_files refl
