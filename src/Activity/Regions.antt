-- ===== src/Activity/Regions.antt =====
-- The regions: what is counted for each, and in all of them.
use thermal_placement.Base.{
  ℕ, ◌+◌, ◌≡◌, refl, sym, ap, ◌∙◌, Bool, true, false, List, [], ◌∷◌, map, some, if◌then◌else◌,
  length, arith,
}
use thermal_placement.Base.Text.{same_text}
use thermal_placement.Base.Sort.{filter, sum_of}
use thermal_placement.Vcd.Signals.{Signal, lookup, setdefault}
use thermal_placement.Vcd.Keys.{value_at, value_at-setdefault, value_at-modify, value_at-found}
use thermal_placement.Activity.{Terms, classify}
use thermal_placement.Activity.Tables.{
  Floats, Item, Options, Report, no_signals, regions_of, row_of, add_row, count_in, report_of,
}
use thermal_placement.Activity.Rows.{kept, count_all, add_signals-kept}

module _ {F : Type 0} (floats : Floats F) (options : Options) where
  -- The item of a category; one that is not there has counted nothing.
  abbrev pub item_of : (category : List ℕ) → List (List ℕ × Item F) → Item F
  item_of category region = value_at (no_signals floats) category region

  item_of-regions_of :
      (c : List ℕ) (terms : Terms) (m : List (List ℕ × Item F))
      → item_of c (regions_of floats terms m) ≡ item_of c m
  unfolding regions_of
  item_of-regions_of c [] m = refl
  item_of-regions_of c ((category, ts) ∷ rest) m =
      item_of-regions_of c rest (setdefault category (no_signals floats) m)
      ∙ value_at-setdefault (no_signals floats) c category m

  abbrev belongs : (category : List ℕ) → Signal → Bool
  belongs category s = same_text category (classify s.path options.terms)

  -- The signals that count for a category.
  abbrev pub inside : (category : List ℕ) → List Signal → List Signal
  inside category signals = filter (belongs category) (kept floats options signals)

  add_items : Item F → List Signal → Item F
  add_items item [] = item
  add_items item (s ∷ ss) = add_items (add_row floats options (row_of floats options s) item) ss

  add_items-if :
      (b : Bool) (item : Item F) (s : Signal) (l : List Signal)
      → add_items (if b then add_row floats options (row_of floats options s) item else item) l
        ≡ add_items item (if b then s ∷ l else l)
  unfolding add_items
  add_items-if true item s l = refl
  add_items-if false item s l = refl

  item_of-count_all :
      (c : List ℕ) (signals : List Signal) (r : Report floats)
      → item_of c (count_all floats options r signals).region
        ≡ add_items (item_of c r.region) (filter (belongs c) signals)
  unfolding count_all count_in add_items
  item_of-count_all c [] r = refl
  item_of-count_all c (s ∷ ss) r =
      item_of-count_all c ss (count_in floats options r s)
      ∙ ap (λ i. add_items i (filter (belongs c) ss))
          (value_at-modify (no_signals floats) c (classify s.path options.terms)
            (add_row floats options (row_of floats options s)) r.region)
      ∙ add_items-if (belongs c s) (item_of c r.region) s (filter (belongs c) ss)

  add_items-signals :
      (item : Item F) (ss : List Signal) → (add_items item ss).signals ≡ item.signals + length ss
  unfolding add_items
  add_items-signals item [] = omega arith
  add_items-signals item (s ∷ ss) =
      add_items-signals (add_row floats options (row_of floats options s) item) ss ∙ omega arith

  add_items-toggles :
      (item : Item F) (ss : List Signal)
      → (add_items item ss).toggles ≡ item.toggles + sum_of (λ (s : Signal). s.toggles) ss
  unfolding add_items
  add_items-toggles item [] = omega arith
  add_items-toggles item (s ∷ ss) =
      add_items-toggles (add_row floats options (row_of floats options s) item) ss ∙ omega arith

  abbrev pub sum_up : F → List F → F
  sum_up x [] = x
  sum_up x (y ∷ ys) = sum_up (floats.plus x y) ys

  abbrev pub activity_of : Signal → F
  activity_of s = (row_of floats options s).normalized_activity

  add_items-activity_sum :
      (item : Item F) (ss : List Signal)
      → (add_items item ss).activity_sum ≡ sum_up item.activity_sum (map activity_of ss)
  unfolding add_items
  add_items-activity_sum item [] = refl
  add_items-activity_sum item (s ∷ ss) =
      add_items-activity_sum (add_row floats options (row_of floats options s) item) ss

  -- The item of each region has counted the signals that are not left out and whose path is
  -- classified into the region, each once: their number, all their toggles, and their activities
  -- added up in the order of the signals.
  pub report_of-counts :
      (signals : List Signal) (category : List ℕ) (item : Item F)
      → lookup category (report_of floats options signals).region ≡ some item
      → (item.signals ≡ length (inside category signals))
        × (item.toggles ≡ sum_of (λ (s : Signal). s.toggles) (inside category signals))
        × (item.activity_sum ≡ sum_up floats.nothing (map activity_of (inside category signals)))
  unfolding report_of lookup
  report_of-counts signals category item found =
      let first : Report floats = record {
        rows = [];
        region = regions_of floats options.terms [];
      } in
      let same : item ≡ add_items (no_signals floats) (inside category signals) =
        sym (value_at-found (no_signals floats) category _ item found)
        ∙ ap (λ (t : Report floats). item_of category t.region)
            (add_signals-kept floats options signals first)
        ∙ item_of-count_all category (kept floats options signals) first
        ∙ ap (λ i. add_items i (inside category signals))
            (item_of-regions_of category options.terms []) in
      (
        ap (λ (i : Item F). i.signals) same
            ∙ add_items-signals (no_signals floats) (inside category signals)
            ∙ omega arith,
        ap (λ (i : Item F). i.toggles) same
            ∙ add_items-toggles (no_signals floats) (inside category signals)
            ∙ omega arith,
        ap (λ (i : Item F). i.activity_sum) same
            ∙ add_items-activity_sum (no_signals floats) (inside category signals),
      )
