-- ===== src/Activity/Tables.antt =====
-- scripts/extract_vcd_activity.py, `write_outputs`: the rows of the two tables.
use thermal_placement.Base.{
  ℕ, zero, suc, ◌+◌, ◌*◌, Bool, true, false, ◌&&◌, List, [], ◌∷◌, ◌++◌, map, ltb, leb, ◌==◌,
  if◌then◌else◌, take,
}
use thermal_placement.Base.Ints.{ℤ, pos, negsuc}
use thermal_placement.Base.Sort.{sort}
use thermal_placement.Vcd.Signals.{Signal, setdefault, modify, max, at_least_zero}
use thermal_placement.Activity.{Terms, classify, is_clock}

-- What is used of floating-point numbers: `a / float(b)`, `0.0`, `a + b` and `a / b`.
pub record Floats (F : Type 0) : Type 0 where
  pub ratio : ℕ → ℕ → F
  pub nothing : F
  pub plus : F → F → F
  pub over : F → ℕ → F

pub record Row (F : Type 0) : Type 0 where
  pub workload : List ℕ
  pub signal_path : List ℕ
  pub region : List ℕ
  pub width : ℤ
  pub toggle_count : ℕ
  pub value_change_count : ℕ
  pub time_steps : ℕ
  pub last_time_ps : ℤ
  pub normalized_activity : F

pub record Item (F : Type 0) : Type 0 where
  pub signals : ℕ
  pub toggles : ℕ
  pub activity_sum : F

pub record RegionRow (F : Type 0) : Type 0 where
  pub workload : List ℕ
  pub region : List ℕ
  pub signal_count : ℕ
  pub toggle_count : ℕ
  pub avg_normalized_activity : F
  pub time_steps : ℕ
  pub last_time_ps : ℤ

-- `a <= b` of texts.
unfoldable pub text_le : List ℕ → List ℕ → Bool
text_le [] b = true
text_le (x ∷ xs) [] = false
text_le (x ∷ xs) (y ∷ ys) = if x == y then text_le xs ys else ltb x y

-- `rows[:top_signals]` if it is positive.
abbrev pub first_rows {ℓ} : {A : Type ℓ} → (top_signals : ℤ) → List A → List A
first_rows (pos (suc n)) rows = take (suc n) rows
first_rows (pos zero) rows = rows
first_rows (negsuc n) rows = rows

-- The arguments of `write_outputs` but for the signals and the files.
pub record Options : Type 0 where
  pub time_steps : ℕ
  pub last_time : ℤ
  pub workload : List ℕ
  pub terms : Terms
  pub top_signals : ℤ
  pub exclude_clocks : Bool

module _ {F : Type 0} (floats : Floats F) where
  abbrev pub no_signals : Item F
  no_signals = record { signals = 0; toggles = 0; activity_sum = floats.nothing }

  -- `rows` and `region`
  pub record Report : Type 0 where
    pub rows : List (Row F)
    pub region : List (List ℕ × Item F)

  -- Each category gets its item.
  unfoldable pub regions_of : Terms → List (List ℕ × Item F) → List (List ℕ × Item F)
  unfolding setdefault
  regions_of [] region = region
  regions_of ((category, terms) ∷ rest) region =
      regions_of rest (setdefault category no_signals region)

  module _ (options : Options) where
    abbrev pub row_of : Signal → Row F
    row_of s =
        let denom = max 1 options.time_steps in
        record {
          workload = options.workload;
          signal_path = s.path;
          region = classify s.path options.terms;
          width = s.width;
          toggle_count = s.toggles;
          value_change_count = s.changes;
          time_steps = options.time_steps;
          last_time_ps = options.last_time;
          normalized_activity = floats.ratio s.toggles (denom * max 1 (at_least_zero s.width));
        }

    abbrev pub add_row : Row F → Item F → Item F
    add_row row item = record {
      signals = item.signals + 1;
      toggles = item.toggles + row.toggle_count;
      activity_sum = floats.plus item.activity_sum row.normalized_activity;
    }

    abbrev pub left_out : Signal → Bool
    left_out s = options.exclude_clocks && is_clock s.path

    -- The row of a signal, and its share of its region.
    unfoldable pub count_in : Report → Signal → Report
    unfolding classify modify setdefault
    count_in r s =
        let row = row_of s in
        record {
          rows = r.rows ++ row ∷ [];
          region = modify row.region (add_row row) (setdefault row.region no_signals r.region);
        }

    -- One round of the loop over the signals.
    unfoldable pub add_signal : Report → Signal → Report
    unfolding count_in is_clock
    add_signal r s = if left_out s then r else count_in r s

    unfoldable pub add_signals : Report → List Signal → Report
    unfolding add_signal
    add_signals r [] = r
    add_signals r (s ∷ ss) = add_signals (add_signal r s) ss

    unfoldable pub report_of : (signals : List Signal) → Report
    unfolding add_signals regions_of
    report_of signals =
        add_signals (record { rows = []; region = regions_of options.terms [] }) signals

    abbrev pub more_toggles : Row F → Row F → Bool
    more_toggles x y = leb y.toggle_count x.toggle_count

    -- The rows of the table of signals.
    unfoldable pub signal_rows : (signals : List Signal) → List (Row F)
    unfolding report_of sort
    signal_rows signals =
        first_rows options.top_signals (sort more_toggles (report_of signals).rows)

    abbrev pub region_row : List ℕ × Item F → RegionRow F
    region_row (category, item) = record {
      workload = options.workload;
      region = category;
      signal_count = item.signals;
      toggle_count = item.toggles;
      avg_normalized_activity = floats.over item.activity_sum (max 1 item.signals);
      time_steps = options.time_steps;
      last_time_ps = options.last_time;
    }

    abbrev pub name_le : List ℕ × Item F → List ℕ × Item F → Bool
    name_le a b = text_le a.0 b.0

    -- The rows of the table of regions.
    unfoldable pub region_rows : (signals : List Signal) → List (RegionRow F)
    unfolding report_of sort text_le
    region_rows signals = map region_row (sort name_le (report_of signals).region)
