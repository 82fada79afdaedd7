-- ===== src/Hotspot.antt =====
-- scripts/export_smoke_hotspot_inputs.py: the floorplan and the power trace of a region table.
-- Floating-point numbers are a parameter; how they are printed is left out. So is the floorplan that
-- is left behind when a number of a later step is refused.
pub mod Stripes
pub mod Inputs
mod Tests
use thermal_placement.Base.{
  ℕ, zero, suc, ◌+◌, List, [], ◌∷◌, map, Option, none, some, Result, ok, err, ◌>>=◌, or_fault,
  thrown, exited, length, Bool, true, false, ◌==◌, if◌then◌else◌,
}
use thermal_placement.Base.Sort.{sort}
use thermal_placement.Activity.Tables.{text_le}

-- What is used of floating-point numbers: `float(text)`, which may refuse, 0.004, `a / n`, `n * a`,
-- `a + b` and `a * b`.
pub record Numbers (F : Type 0) : Type 0 where
  pub parse : List ℕ → Option F
  pub chip : F
  pub over : F → ℕ → F
  pub scaled : ℕ → F → F
  pub plus : F → F → F
  pub times : F → F → F

-- The columns of the region table that are read.
pub record Region : Type 0 where
  pub region : List ℕ
  pub avg_normalized_activity : List ℕ

pub record Block (F : Type 0) : Type 0 where
  pub name : List ℕ
  pub width : F
  pub height : F
  pub left : F

-- The files that have been written: the blocks, then the names and the powers.
pub record Files (F : Type 0) : Type 0 where
  pub floorplan : List (Block F)
  pub names : List (List ℕ)
  pub powers : List F

abbrev pub region_le : Region → Region → Bool
region_le a b = text_le a.region b.region

-- `rows.sort`
unfoldable pub read_regions : (rows : List Region) → List Region
unfolding sort text_le
read_regions rows = sort region_le rows

module _ {F : Type 0} (numbers : Numbers F) (base_power dynamic_scale : F) where
  -- The stripes from number `idx` on.
  unfoldable pub blocks_from : (block_w : F) → (idx : ℕ) → List Region → List (Block F)
  blocks_from block_w idx [] = []
  blocks_from block_w idx (row ∷ rows) =
      record {
        name = row.region;
        width = block_w;
        height = numbers.chip;
        left = numbers.scaled idx block_w;
      }
      ∷ blocks_from block_w (suc idx) rows

  abbrev pub power_of : (activity : F) → F
  power_of activity = numbers.plus base_power (numbers.times dynamic_scale activity)

  unfoldable pub powers_of : List Region → Result (List F)
  powers_of [] = ok []
  powers_of (row ∷ rows) = do
    activity ← or_fault (numbers.parse row.avg_normalized_activity) thrown
    powers ← powers_of rows
    ok (power_of activity ∷ powers)

  -- `main` behind the sort.
  unfoldable pub export_sorted : List Region → Result (Files F)
  unfolding blocks_from powers_of
  export_sorted [] = err exited
  export_sorted (row ∷ rows) = do
    powers ← powers_of (row ∷ rows)
    ok (record {
      floorplan = blocks_from (numbers.over numbers.chip (length (row ∷ rows))) 0 (row ∷ rows);
      names = map (λ (r : Region). r.region) (row ∷ rows);
      powers = powers;
    })

  unfoldable pub export : (rows : List Region) → Result (Files F)
  unfolding export_sorted read_regions
  export rows = export_sorted (read_regions rows)
