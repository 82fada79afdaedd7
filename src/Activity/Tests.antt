-- ===== src/Activity/Tests.antt =====
-- A report over four signals, with fractions for floating-point numbers.
use mathlib.Core.List.{Perm}
use thermal_placement.Base.{
  ℕ, ◌+◌, ◌*◌, ◌≡◌, refl, List, [], ◌∷◌, ◌++◌, map, none, some, ok, true, false, ◌==◌, length,
}
use thermal_placement.Base.Ints.{pos}
use thermal_placement.Base.Sort.{any, filter, sum_of, IsSorted}
use thermal_placement.Base.Text.{codes}
use thermal_placement.Vcd.Signals.{Signal, lookup}
use thermal_placement.Vcd.{Reader, iter_vcd}
use thermal_placement.Vcd.Stream.{values_of, times, sum_deltas, count_deltas, from_first}
use thermal_placement.Vcd.Body.{body_of}
use thermal_placement.Activity.Summary.{Arguments, options_of, values, summarize, summarize-rows}
use thermal_placement.Activity.{classify, default_terms, is_clock}
use thermal_placement.Activity.Clocks.{parts_of, is_clock_word, is_clock-parts}
use thermal_placement.Activity.Tables.{
  Floats, Row, RegionRow, Options, row_of, more_toggles, report_of, signal_rows, region_rows,
}
use thermal_placement.Activity.Rows.{kept, rows_kept, signal_rows-IsSorted}
use thermal_placement.Activity.Regions.{inside, sum_up, activity_of, report_of-counts}
use thermal_placement.Activity.Totals.{region_rows-sum_of}

-- A numerator and a denominator.
abbrev fractions : Floats (ℕ × ℕ)
fractions = record {
  ratio = λ a b. (a, b);
  nothing = (0, 1);
  plus = λ a b. (a.0 * b.1 + b.0 * a.1, a.1 * b.1);
  over = λ a n. (a.0, a.1 * n);
}

abbrev signal : (path : List ℕ) → (toggles : ℕ) → Signal
signal path toggles = record {
  path = path;
  width = pos 2;
  last = none;
  toggles = toggles;
  changes = 1;
}

abbrev signals : List Signal
signals =
    signal (codes "top.mesh.a") 3
    ∷ signal (codes "top.Clock") 50
    ∷ signal (codes "top.spad.b") 7
    ∷ signal (codes "top.mesh.c") 7
    ∷ []

abbrev options : Options
options = record {
  time_steps = 10;
  last_time = pos 100;
  workload = codes "thermal_smoke";
  terms = default_terms;
  top_signals = pos 2;
  exclude_clocks = true;
}

is_clock-parts_example :
    is_clock (codes "top.core_RESET.q") ≡ any is_clock_word (parts_of (codes "top.core_RESET.q"))
unfolding any
is_clock-parts_example = is_clock-parts (codes "top.core_RESET.q") refl

resets : is_clock (codes "top.core_RESET.q") ≡ true
unfolding is_clock
resets = refl

clocks_gate : is_clock (codes "top.clock_gate") ≡ true
unfolding is_clock
clocks_gate = refl

keeps_clocked : is_clock (codes "top.clocked") ≡ false
unfolding is_clock
keeps_clocked = refl

signal_rows-IsSorted_example :
    (cut_off : List (Row (ℕ × ℕ))) × Perm
      (signal_rows fractions options signals ++ cut_off)
      (map (row_of fractions options) (kept fractions options signals))
    × IsSorted (more_toggles fractions options) (signal_rows fractions options signals ++ cut_off)
    × ((n : ℕ)
        → filter (λ row. row.toggle_count == n) (signal_rows fractions options signals ++ cut_off)
          ≡ filter
              (λ row. row.toggle_count == n)
              (map (row_of fractions options) (kept fractions options signals)))
    × (length (signal_rows fractions options signals)
        ≡ rows_kept fractions options (pos 2) (length (kept fractions options signals)))
signal_rows-IsSorted_example = signal_rows-IsSorted fractions options signals

-- Of two rows with as many toggles the earlier signal comes first.
table :
    map (λ (row : Row (ℕ × ℕ)). row.signal_path) (signal_rows fractions options signals)
    ≡ map codes ("top.spad.b" ∷ "top.mesh.c" ∷ [])
unfolding signal_rows
table = refl

report_of-counts_example :
    (2 ≡ length (inside fractions options (codes "pe_array") signals))
    × (10
        ≡ sum_of (λ (s : Signal). s.toggles) (inside fractions options (codes "pe_array") signals))
    × ((200, 400)
        ≡ sum_up fractions options
            (0, 1)
            (map
              (activity_of fractions options)
              (inside fractions options (codes "pe_array") signals)))
unfolding report_of lookup
report_of-counts_example =
    report_of-counts fractions options signals (codes "pe_array")
      (record { signals = 2; toggles = 10; activity_sum = (200, 400) }) refl

region_rows-sum_of_example :
    (sum_of (λ (row : RegionRow (ℕ × ℕ)). row.signal_count) (region_rows fractions options signals)
      ≡ length (kept fractions options signals))
    × (sum_of
          (λ (row : RegionRow (ℕ × ℕ)). row.toggle_count)
          (region_rows fractions options signals)
        ≡ sum_of (λ (s : Signal). s.toggles) (kept fractions options signals))
region_rows-sum_of_example = region_rows-sum_of fractions options signals

abbrev arguments : Arguments
arguments = record {
  hierarchy_map = none;
  workload = codes "thermal_smoke";
  top_signals = pos 10;
  include_clocks = false;
}

abbrev file : List (List ℕ)
file = map codes (
    "$scope module top $end" ∷ "$var wire 4 ! mesh $end" ∷ "$var wire 1 x clk $end"
    ∷ "$upscope $end" ∷ "$enddefinitions $end" ∷ "#0" ∷ "b11 !" ∷ "0x" ∷ "#1" ∷ "b100 !" ∷ "1x"
    ∷ [])

abbrev mesh : Signal
mesh = record {
  path = codes "top.mesh";
  width = pos 4;
  last = some (codes "100");
  toggles = 3;
  changes = 1;
}

abbrev read_file : Reader
read_file = record {
  signals =
      (codes "!", mesh)
      ∷ (
        codes "x",
        record {
          path = codes "top.clk";
          width = pos 1;
          last = some (codes "1");
          toggles = 1;
          changes = 1;
        },
      )
      ∷ [];
  scopes = [];
  in_header = false;
  time_steps = 2;
  last_time = pos 1;
}

abbrev mesh_row : Row (ℕ × ℕ)
mesh_row = row_of fractions (options_of arguments read_file) mesh

summary :
    summarize fractions arguments file
    ≡ ok (mesh_row ∷ [], region_rows fractions (options_of arguments read_file) (values read_file))
unfolding summarize
summary = refl

summarize-rows_example :
    (r : Reader) × (code : List ℕ) × (s : Signal) × (iter_vcd file ≡ ok r)
    × (lookup code r.signals ≡ some s)
    × (codes "top.mesh" ≡ s.path)
    × (pos 4 ≡ s.width)
    × (classify (codes "top.mesh") default_terms ≡ classify s.path default_terms)
    × (3 ≡ from_first 0 (sum_deltas (pos 4)) (values_of code (body_of file)))
    × (1 ≡ from_first 0 (count_deltas (pos 4)) (values_of code (body_of file)))
    × (2 ≡ times (body_of file))
summarize-rows_example =
    summarize-rows fractions arguments file (mesh_row ∷ [])
      (region_rows fractions (options_of arguments read_file) (values read_file)) summary 0 mesh_row
      refl
