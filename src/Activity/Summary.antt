-- ===== src/Activity/Summary.antt =====
-- scripts/extract_vcd_activity.py, `main`: from the file to the two tables.
use thermal_placement.Base.{
  ℕ, zero, suc, ◌≡◌, refl, sym, ap, subst, Bool, not, List, [], ◌∷◌, map, Option, some, Result, ok,
  ◌>>=◌, >>=-eq-ok, ok-injective, All, All-map, get_elem?, take,
}
use thermal_placement.Base.Ints.{ℤ, pos, negsuc}
use thermal_placement.Base.Sort.{All-sort, All-filter, sort}
use thermal_placement.Vcd.{Reader, iter_vcd}
use thermal_placement.Vcd.Signals.{Signal, lookup}
use thermal_placement.Vcd.Keys.{lookup-entries}
use thermal_placement.Vcd.Stream.{values_of, times, sum_deltas, count_deltas, from_first}
use thermal_placement.Vcd.Body.{body_of}
use thermal_placement.Vcd.Counts.{iter_vcd-toggles, iter_vcd-IsDict}
use thermal_placement.Activity.{load_category_terms, classify}
use thermal_placement.Activity.Tables.{
  Floats, Row, RegionRow, Options, row_of, first_rows, more_toggles, report_of, signal_rows,
  region_rows,
}
use thermal_placement.Activity.Rows.{kept, report_of-rows}

-- The command line, with what the hierarchy map holds.
pub record Arguments : Type 0 where
  pub hierarchy_map : Option (List (List ℕ × Option (List (List ℕ))))
  pub workload : List ℕ
  pub top_signals : ℤ
  pub include_clocks : Bool

abbrev pub options_of : Arguments → Reader → Options
options_of args r = record {
  time_steps = r.time_steps;
  last_time = r.last_time;
  workload = args.workload;
  terms = load_category_terms args.hierarchy_map;
  top_signals = args.top_signals;
  exclude_clocks = not args.include_clocks;
}

abbrev pub values : Reader → List Signal
values r = map (λ e. e.1) r.signals

module _ {F : Type 0} (floats : Floats F) (args : Arguments) where
  -- The rows of both tables.
  unfoldable pub summarize : (file : List (List ℕ)) → Result (List (Row F) × List (RegionRow F))
  unfolding iter_vcd signal_rows region_rows
  summarize file = do
    r ← iter_vcd file
    ok (
      signal_rows floats (options_of args r) (values r),
      region_rows floats (options_of args r) (values r),
    )

  -- Where a row comes from: a signal that was read, and the values that the file gives to its code.
  record IsCountedIn (file : List (List ℕ)) (r : Reader) (row : Row F) : Type 0 where
    pub code : List ℕ
    pub signal : Signal
    pub there : lookup code r.signals ≡ some signal
    pub path : row.signal_path ≡ signal.path
    pub width : row.width ≡ signal.width
    pub region : row.region ≡ classify signal.path (load_category_terms args.hierarchy_map)
    pub toggles :
        row.toggle_count ≡ from_first 0 (sum_deltas row.width) (values_of code (body_of file))
    pub changes :
        row.value_change_count
        ≡ from_first 0 (count_deltas row.width) (values_of code (body_of file))
    pub steps : row.time_steps ≡ times (body_of file)

  row_of-IsCountedIn :
      (file : List (List ℕ)) (r : Reader)
      → iter_vcd file ≡ ok r
      → (e : List ℕ × Signal) → lookup e.0 r.signals ≡ some e.1
      → IsCountedIn file r (row_of floats (options_of args r) e.1)
  row_of-IsCountedIn file r h (key, s) there =
      let (toggles, changes, last, steps) = iter_vcd-toggles file r h key s there in
      record {
        code = key;
        signal = s;
        there = there;
        path = refl;
        width = refl;
        region = refl;
        toggles = toggles;
        changes = changes;
        steps = steps;
      }

  All-of_map {ℓ κ μ} :
      {A : Type ℓ} {B : Type κ} (P : B → Type μ) (f : A → B) (l : List A)
      → All (λ a. P (f a)) l
      → All P (map f l)
  All-of_map P f [] h = tt
  All-of_map P f (x ∷ xs) (p, h) = (p, All-of_map P f xs h)

  All-take {ℓ κ} : {A : Type ℓ} (P : A → Type κ) (n : ℕ) (l : List A) → All P l → All P (take n l)
  All-take P zero l h = tt
  All-take P (suc n) [] h = tt
  All-take P (suc n) (x ∷ xs) (p, h) = (p, All-take P n xs h)

  All-first_rows {ℓ κ} :
      {A : Type ℓ} (P : A → Type κ) (top : ℤ) (l : List A) → All P l → All P (first_rows top l)
  All-first_rows P (pos (suc n)) l h = All-take P (suc n) l h
  All-first_rows P (pos zero) l h = h
  All-first_rows P (negsuc n) l h = h

  All-get_elem? {ℓ κ} :
      {A : Type ℓ} (P : A → Type κ) (l : List A) (i : ℕ) (x : A)
      → All P l
      → get_elem? l i ≡ some x
      → P x
  All-get_elem? P [] i x h e = absurd cc
  All-get_elem? P (y ∷ ys) zero x (p, h) e = subst P (let same : y ≡ x = cc in same) p
  All-get_elem? P (y ∷ ys) (suc i) x (p, h) e = All-get_elem? P ys i x h e

  signal_rows-All :
      (file : List (List ℕ)) (r : Reader)
      → iter_vcd file ≡ ok r
      → All (IsCountedIn file r) (signal_rows floats (options_of args r) (values r))
  unfolding signal_rows
  signal_rows-All file r h =
      let options = options_of args r in
      let entries =
        All-map _ (λ e. IsCountedIn file r (row_of floats options e.1)) r.signals
          (row_of-IsCountedIn file r h) (lookup-entries (iter_vcd-IsDict file r h)) in
      let signals =
        All-filter (λ s. IsCountedIn file r (row_of floats options s)) _ (values r)
          (All-of_map _ (λ e. e.1) r.signals entries) in
      All-first_rows (IsCountedIn file r) options.top_signals
        (sort (more_toggles floats options) (report_of floats options (values r)).rows)
        (All-sort (IsCountedIn file r) (more_toggles floats options) _ (
          subst (All (IsCountedIn file r)) (sym (report_of-rows floats options (values r))) (
            All-of_map (IsCountedIn file r) (row_of floats options) (kept floats options (values r))
              signals)))

  -- What a row of the table of signals reports comes from the file: it is the row of a signal that
  -- was read under some code, in the region that the signal's path is classified into. Its toggles
  -- are the sum of the toggles from each value that the file's body gives to the code to the next
  -- one, its changes the number of these steps that toggle, and its time steps the lines of times.
  pub summarize-rows :
      (file : List (List ℕ)) (rows : List (Row F)) (regions : List (RegionRow F))
      → summarize file ≡ ok (rows, regions)
      → (i : ℕ) (row : Row F) → get_elem? rows i ≡ some row
      → (r : Reader) × (code : List ℕ) × (s : Signal) × (iter_vcd file ≡ ok r)
        × (lookup code r.signals ≡ some s)
        × (row.signal_path ≡ s.path)
        × (row.width ≡ s.width)
        × (row.region ≡ classify s.path (load_category_terms args.hierarchy_map))
        × (row.toggle_count ≡ from_first 0 (sum_deltas row.width) (values_of code (body_of file)))
        × (row.value_change_count
            ≡ from_first 0 (count_deltas row.width) (values_of code (body_of file)))
        × (row.time_steps ≡ times (body_of file))
  unfolding summarize
  summarize-rows file rows regions h i row e =
      let (r, read, set) = >>=-eq-ok (iter_vcd file) _ h in
      let same : signal_rows floats (options_of args r) (values r) ≡ rows =
        ap (λ t. t.0) (ok-injective set) in
      let all = subst (All (IsCountedIn file r)) same (signal_rows-All file r read) in
      let c = All-get_elem? (IsCountedIn file r) rows i row all e in
      (r, c.code, c.signal, read, c.there, c.path, c.width, c.region, c.toggles, c.changes, c.steps)
