-- ===== src/Activity/Rows.antt =====
-- The rows of the table of signals: which there are, and in which order.
use Prim.Native.Nat.{min}
use mathlib.Core.List.{Perm}
use thermal_placement.Base.{
  ℕ, zero, suc, ◌≡◌, refl, sym, ap, ◌∙◌, subst, not, List, [], ◌∷◌, ◌++◌, map, append_assoc,
  append-nil, ◌==◌, Bool-cases, inl, inr, length, length-take, take, drop, arith,
}
use thermal_placement.Base.Ints.{ℤ, pos, negsuc}
use thermal_placement.Base.Sort.{
  filter, sort, IsSorted, sort-perm, sort-IsSorted, filter-sort, length-sort,
}
use thermal_placement.Vcd.Signals.{Signal}
use thermal_placement.Activity.Tables.{
  Floats, Row, Options, Report, row_of, left_out, add_signal, count_in, add_signals, report_of,
  more_toggles, first_rows, signal_rows,
}

module _ {F : Type 0} (floats : Floats F) (options : Options) where
  -- The signals that count.
  abbrev pub kept : List Signal → List Signal
  kept signals = filter (λ s. not (left_out floats options s)) signals

  unfoldable pub count_all : Report floats → List Signal → Report floats
  count_all r [] = r
  count_all r (s ∷ ss) = count_all (count_in floats options r s) ss

  pub add_signals-kept :
      (signals : List Signal) (r : Report floats)
      → add_signals floats options r signals ≡ count_all r (kept signals)
  unfolding add_signals add_signal count_all
  add_signals-kept [] r = refl
  add_signals-kept (s ∷ ss) r = elim (Bool-cases (left_out floats options s)) [
    | inl out ↦
        let step : add_signal floats options r s ≡ r = rw out refl in
        let rest : kept (s ∷ ss) ≡ kept ss = rw out refl in
        ap (λ t. add_signals floats options t ss) step
        ∙ add_signals-kept ss r
        ∙ ap (count_all r) (sym rest)
    | inr counts ↦
        let step : add_signal floats options r s ≡ count_in floats options r s = rw counts refl in
        let rest : kept (s ∷ ss) ≡ s ∷ kept ss = rw counts refl in
        ap (λ t. add_signals floats options t ss) step
        ∙ add_signals-kept ss (count_in floats options r s)
        ∙ ap (count_all r) (sym rest)
  ]

  count_all-rows :
      (signals : List Signal) (r : Report floats)
      → (count_all r signals).rows ≡ r.rows ++ map (row_of floats options) signals
  unfolding count_all count_in
  count_all-rows [] r = sym (append-nil r.rows)
  count_all-rows (s ∷ ss) r =
      count_all-rows ss (count_in floats options r s)
      ∙ append_assoc r.rows (row_of floats options s ∷ []) (map (row_of floats options) ss)

  pub report_of-rows :
      (signals : List Signal)
      → (report_of floats options signals).rows ≡ map (row_of floats options) (kept signals)
  unfolding report_of
  report_of-rows signals =
      ap (λ (t : Report floats). t.rows) (add_signals-kept signals _)
      ∙ count_all-rows (kept signals) _

  -- The rows that `top_signals` lets through.
  abbrev pub rows_kept : (top_signals : ℤ) → ℕ → ℕ
  rows_kept (pos (suc n)) m = min (suc n) m
  rows_kept (pos zero) m = m
  rows_kept (negsuc n) m = m

  abbrev rows_left {ℓ} : {A : Type ℓ} → (top_signals : ℤ) → List A → List A
  rows_left (pos (suc n)) rows = drop (suc n) rows
  rows_left (pos zero) rows = []
  rows_left (negsuc n) rows = []

  take-append-drop {ℓ} : {A : Type ℓ} (n : ℕ) (xs : List A) → take n xs ++ drop n xs ≡ xs
  take-append-drop zero xs = refl
  take-append-drop (suc n) [] = refl
  take-append-drop (suc n) (x ∷ xs) = ap (◌∷◌ x) (take-append-drop n xs)

  length-map {ℓ κ} :
      {A : Type ℓ} {B : Type κ} (f : A → B) (xs : List A) → length (map f xs) ≡ length xs
  length-map f [] = refl
  length-map f (x ∷ xs) = ap suc (length-map f xs)

  first_rows-append {ℓ} :
      {A : Type ℓ} (top : ℤ) (rows : List A) → first_rows top rows ++ rows_left top rows ≡ rows
  first_rows-append (pos (suc n)) rows = take-append-drop (suc n) rows
  first_rows-append (pos zero) rows = append-nil rows
  first_rows-append (negsuc n) rows = append-nil rows

  length-first_rows {ℓ} :
      {A : Type ℓ} (top : ℤ) (rows : List A)
      → length (first_rows top rows) ≡ rows_kept top (length rows)
  length-first_rows (pos (suc n)) rows = length-take (suc n) rows
  length-first_rows (pos zero) rows = refl
  length-first_rows (negsuc n) rows = refl

  -- What holds of the rows before they are cut off.
  record IsTable (rows sorted : List (Row F)) : Type 0 where
    pub perm : Perm sorted rows
    pub order : IsSorted (more_toggles floats options) sorted
    pub stable :
        (n : ℕ)
        → filter (λ row. row.toggle_count == n) sorted ≡ filter (λ row. row.toggle_count == n) rows

  sort-IsTable : (rows : List (Row F)) → IsTable rows (sort (more_toggles floats options) rows)
  sort-IsTable rows = record {
    perm = sort-perm (more_toggles floats options) rows;
    order =
        sort-IsSorted (more_toggles floats options) (λ x y h. ground arith)
          (λ x y z h k. ground arith) rows;
    stable = λ n.
        filter-sort (more_toggles floats options) (λ row. row.toggle_count == n)
          (λ x y h k. ground arith) rows;
  }

  -- The table of signals holds the rows with the most toggles: together with the rows that
  -- `top_signals` cuts off it is the rows of all signals that count, in decreasing order of their
  -- toggles, where rows of equally many toggles keep the order of their signals. It has
  -- `top_signals` rows, or all if there are fewer or `top_signals` is not positive.
  pub signal_rows-IsSorted :
      (signals : List Signal)
      → (cut_off : List (Row F)) × Perm
          (signal_rows floats options signals ++ cut_off)
          (map (row_of floats options) (kept signals))
        × IsSorted (more_toggles floats options) (signal_rows floats options signals ++ cut_off)
        × ((n : ℕ)
            → filter (λ row. row.toggle_count == n) (signal_rows floats options signals ++ cut_off)
              ≡ filter (λ row. row.toggle_count == n) (map (row_of floats options) (kept signals)))
        × (length (signal_rows floats options signals)
            ≡ rows_kept options.top_signals (length (kept signals)))
  unfolding signal_rows report_of
  signal_rows-IsSorted signals =
      let rows = (report_of floats options signals).rows in
      let all = report_of-rows signals in
      let sorted = sort (more_toggles floats options) rows in
      let table =
        subst
          (λ l.
            IsTable l
              (first_rows options.top_signals sorted ++ rows_left options.top_signals sorted))
          all
          (subst (λ l. IsTable rows l) (sym (first_rows-append options.top_signals sorted))
            (sort-IsTable rows)) in
      (
        rows_left options.top_signals sorted,
        table.perm,
        table.order,
        table.stable,
        length-first_rows options.top_signals sorted
            ∙ ap (rows_kept options.top_signals) (
                length-sort (more_toggles floats options) rows
                ∙ ap length all
                ∙ length-map (row_of floats options) (kept signals)),
      )
