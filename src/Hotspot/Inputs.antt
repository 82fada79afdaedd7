-- ===== src/Hotspot/Inputs.antt =====
-- Which region tables can be exported, and the table that the activity summary writes.
use mathlib.Core.List.{Pairwise, map-map}
use mathlib.Core.List.Pairwise
use mathlib.Core.Bool.{Bool-set}
use thermal_placement.Base.{
  ℕ, ◌≡◌, refl, sym, ap, ap₂, ◌∙◌, subst, List, [], ◌∷◌, map, none, some, Result, ok, err, ◌>>=◌,
  fault_of, is_none, thrown, exited, Bool, true, false, ◌&&◌, if◌then◌else◌, Option-cases, inl, inr,
}
use thermal_placement.Base.Sort.{any, any-sort, is_empty, is_empty-sort, sort-same}
use thermal_placement.Vcd.Signals.{Signal}
use thermal_placement.Activity.Tables.{Floats, Options, RegionRow, text_le, region_rows}
use thermal_placement.Activity.Names.{text_lt, region_rows-ascending, Pairwise-map}
use thermal_placement.Hotspot.{
  Numbers, Region, Block, Files, region_le, read_regions, powers_of, export_sorted, export,
}
use thermal_placement.Hotspot.Stripes.{export_sorted-IsWritten}

and_left : (a b : Bool) → (a && b) ≡ true → a ≡ true
and_left true b h = refl
and_left false b h = cc

module _ {F : Type 0} (numbers : Numbers F) (base_power dynamic_scale : F) where
  -- The activity of a row is no number.
  abbrev pub refused : Region → Bool
  refused row = is_none (numbers.parse row.avg_normalized_activity)

  fault_of-ok {ℓ κ} :
      {A : Type ℓ} {B : Type κ} (o : Result A) (f : A → B)
      → fault_of (o >>= (λ a. ok (f a))) ≡ fault_of o
  fault_of-ok (err e) f = refl
  fault_of-ok (ok a) f = refl

  powers_of-fault :
      (rows : List Region)
      → fault_of (powers_of numbers base_power dynamic_scale rows)
        ≡ (if any refused rows then some thrown else none)
  unfolding powers_of any
  powers_of-fault [] = refl
  powers_of-fault (r ∷ rows) = elim (Option-cases (numbers.parse r.avg_normalized_activity)) [
    | inl bad ↦ rw bad refl
    | inr (activity, read) ↦
        rw read
          (fault_of-ok (powers_of numbers base_power dynamic_scale rows) _ ∙ powers_of-fault rows)
  ]

  export_sorted-fault :
      (rows : List Region)
      → fault_of (export_sorted numbers base_power dynamic_scale rows)
        ≡ (if is_empty rows then some exited else if any refused rows then some thrown else none)
  unfolding export_sorted
  export_sorted-fault [] = refl
  export_sorted-fault (r ∷ rows) =
      fault_of-ok (powers_of numbers base_power dynamic_scale (r ∷ rows)) _
      ∙ powers_of-fault (r ∷ rows)

  -- An export ends without a trace exactly if the region table has no rows, by an exit, or if the
  -- activity of any row is no number, by an exception.
  pub export-fault :
      (rows : List Region)
      → fault_of (export numbers base_power dynamic_scale rows)
        ≡ (if is_empty rows then some exited else if any refused rows then some thrown else none)
  unfolding export read_regions
  export-fault rows =
      export_sorted-fault (read_regions rows)
      ∙ ap₂ (λ (e b : Bool). if e then some exited else if b then some thrown else none)
          (is_empty-sort region_le rows) (any-sort region_le refused rows)

  -- The rows of a table of regions, as they are read back.
  abbrev pub read_back : (print : F → List ℕ) → RegionRow F → Region
  read_back print row = record {
    region = row.region;
    avg_normalized_activity = print row.avg_normalized_activity;
  }

  read_regions-same :
      (floats : Floats F) (options : Options) (print : F → List ℕ) (signals : List Signal)
      → read_regions (map (read_back print) (region_rows floats options signals))
        ≡ map (read_back print) (region_rows floats options signals)
  unfolding read_regions
  read_regions-same floats options print signals = sort-same region_le (
      Pairwise-map (read_back print) (λ a b. Bool-set (region_le a b) true)
        (Pairwise.imp (λ a b. and_left (text_le a.region b.region) _)
          (region_rows-ascending floats options signals)))

  -- Exported from the table that the summary of the activity writes, the floorplan has a stripe for
  -- each region of the table, in the table's order, and no two stripes have the same name.
  pub export-region_rows :
      (floats : Floats F) (options : Options) (print : F → List ℕ) (signals : List Signal)
      (files : Files F)
      → export numbers base_power dynamic_scale
          (map (read_back print) (region_rows floats options signals))
        ≡ ok files
      → (map (λ (b : Block F). b.name) files.floorplan
          ≡ map (λ (row : RegionRow F). row.region) (region_rows floats options signals))
        × Pairwise (λ a b. text_lt a b ≡ true) (map (λ (b : Block F). b.name) files.floorplan)
  unfolding export
  export-region_rows floats options print signals files h =
      let table = map (read_back print) (region_rows floats options signals) in
      let ascending = region_rows-ascending floats options signals in
      let in_order : read_regions table ≡ table = read_regions-same floats options print signals in
      let written =
        export_sorted-IsWritten numbers base_power dynamic_scale (read_regions table) files h in
      let names : map (λ (b : Block F). b.name) files.floorplan
          ≡ map (λ (row : RegionRow F). row.region) (region_rows floats options signals) =
        written.blocks
        ∙ written.names
        ∙ ap (map (λ (r : Region). r.region)) in_order
        ∙ map-map (λ (r : Region). r.region) (read_back print)
            (region_rows floats options signals) in
      (
        names,
        subst (Pairwise (λ a b. text_lt a b ≡ true)) (sym names) (
            Pairwise-map (λ (row : RegionRow F). row.region) (λ a b. Bool-set (text_lt a b) true)
              ascending),
      )
