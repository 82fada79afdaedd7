-- ===== src/Activity/Totals.antt =====
-- What the regions count together.
use thermal_placement.Base.{
  ℕ, ◌+◌, ◌≡◌, refl, sym, ap, ◌∙◌, List, [], ◌∷◌, map, Bool-cases, inl, inr, length, arith,
}
use thermal_placement.Base.Text.{same_text}
use thermal_placement.Base.Sort.{sort, sum_of, sum_of-sort, length-sum_of}
use thermal_placement.Vcd.Signals.{Signal, setdefault, modify}
use thermal_placement.Vcd.Dict.{same_text_self}
use thermal_placement.Activity.{Terms, classify}
use thermal_placement.Activity.Tables.{
  Floats, Item, RegionRow, Options, Report, no_signals, regions_of, row_of, add_row, count_in,
  report_of, region_row, name_le, region_rows,
}
use thermal_placement.Activity.Rows.{kept, count_all, add_signals-kept}

module _ {F : Type 0} (floats : Floats F) (options : Options) where
  -- A measure of the items that grows with each signal by `by`.
  module _ (measure : Item F → ℕ) (by : Signal → ℕ) (none_yet : measure (no_signals floats) ≡ 0)
      (grows : (s : Signal) (item : Item F)
        → measure (add_row floats options (row_of floats options s) item)
          ≡ measure item + by s) where
    abbrev total : List (List ℕ × Item F) → ℕ
    total m = sum_of (λ e. measure e.1) m

    total-setdefault :
        (k : List ℕ) (m : List (List ℕ × Item F))
        → total (setdefault k (no_signals floats) m) ≡ total m
    unfolding setdefault
    total-setdefault k [] = omega (arith, none_yet)
    total-setdefault k ((j, item) ∷ m) = elim (Bool-cases (same_text j k)) [
      | inl here ↦ rw here refl
      | inr other ↦ rw other (omega (arith, total-setdefault k m))
    ]

    total-modify :
        (k : List ℕ) (s : Signal) (m : List (List ℕ × Item F))
        → total (
            modify k
              (add_row floats options (row_of floats options s))
              (setdefault k (no_signals floats) m))
          ≡ total m + by s
    unfolding setdefault modify
    total-modify k s [] = rw same_text_self (omega (arith, none_yet, grows s (no_signals floats)))
    total-modify k s ((j, item) ∷ m) = elim (Bool-cases (same_text j k)) [
      | inl here ↦ rw (here, modify, here) (omega (arith, grows s item))
      | inr other ↦ rw (other, modify, other) (omega (arith, total-modify k s m))
    ]

    total-regions_of :
        (terms : Terms) (m : List (List ℕ × Item F)) → total (regions_of floats terms m) ≡ total m
    unfolding regions_of
    total-regions_of [] m = refl
    total-regions_of ((category, ts) ∷ rest) m =
        total-regions_of rest (setdefault category (no_signals floats) m)
        ∙ total-setdefault category m

    total-count_all :
        (signals : List Signal) (r : Report floats)
        → total (count_all floats options r signals).region ≡ total r.region + sum_of by signals
    unfolding count_all count_in
    total-count_all [] r = omega arith
    total-count_all (s ∷ ss) r = omega (
      arith,
      total-count_all ss (count_in floats options r s),
      total-modify (classify s.path options.terms) s r.region,
    )

    total-report_of :
        (signals : List Signal)
        → total (sort (name_le floats options) (report_of floats options signals).region)
          ≡ sum_of by (kept floats options signals)
    unfolding report_of
    total-report_of signals =
        sum_of-sort (name_le floats options) (λ e. measure e.1)
          (report_of floats options signals).region
        ∙ ap (λ (t : Report floats). total t.region) (add_signals-kept floats options signals _)
        ∙ total-count_all (kept floats options signals) _
        ∙ ap (λ (t : ℕ). t + sum_of by (kept floats options signals))
            (total-regions_of options.terms [])
        ∙ omega arith

  sum_of-map :
      (f : RegionRow F → ℕ) (m : List (List ℕ × Item F))
      → sum_of f (map (region_row floats options) m)
        ≡ sum_of (λ e. f (region_row floats options e)) m
  sum_of-map f [] = refl
  sum_of-map f (e ∷ m) = ap (λ (t : ℕ). f (region_row floats options e) + t) (sum_of-map f m)

  -- The table of regions accounts for each signal that is not left out once: its rows together
  -- count as many signals and as many toggles as these signals have, also when the table of
  -- signals is cut off.
  pub region_rows-sum_of :
      (signals : List Signal)
      → (sum_of (λ (row : RegionRow F). row.signal_count) (region_rows floats options signals)
          ≡ length (kept floats options signals))
        × (sum_of (λ (row : RegionRow F). row.toggle_count) (region_rows floats options signals)
            ≡ sum_of (λ (s : Signal). s.toggles) (kept floats options signals))
  unfolding region_rows
  region_rows-sum_of signals = (
    sum_of-map (λ (row : RegionRow F). row.signal_count) _
        ∙ total-report_of (λ item. item.signals) (λ s. 1) refl (λ s item. refl) signals
        ∙ sym (length-sum_of (kept floats options signals)),
    sum_of-map (λ (row : RegionRow F). row.toggle_count) _
        ∙ total-report_of (λ item. item.toggles) (λ s. s.toggles) refl (λ s item. refl) signals,
  )
