-- ===== src/Vcd/Counts.antt =====
-- What the reader has counted at the end of a file, from the values that the file's body gives.
use thermal_placement.Base.{
  ℕ, ◌+◌, ◌≡◌, refl, sym, ap, ◌∙◌, subst, List, [], some, ok, inl, inr, Option-cases,
}
use mathlib.Core.Option
use native.Mathlib.Nat.{zero-add}
use thermal_placement.Vcd.Signals.{Signal, lookup}
use thermal_placement.Vcd.Stream.{
  values_of, times, sum_deltas, count_deltas, from_first, last_of, feed, IsCountedFirst, feed-first,
}
use thermal_placement.Vcd.{Reader, initial, iter_vcd}
use thermal_placement.Vcd.Body.{body_of, lookup-read_all, read_all-IsDict, read_all-time_steps}
use thermal_placement.Vcd.Keys.{IsDict}
use thermal_placement.Vcd.Header.{IsFresh, read_lines-header}

none_yet : IsFresh []
unfolding lookup
none_yet = record { new = λ key s e. absurd cc; dict = IsDict.nil }

-- Of a signal's values in the body the first counts nothing, and each later one the toggles from
-- the one before it: their sum, and the number of them that toggle, is what a file's reading leaves
-- beside the last value. The time steps are the body's lines that begin with #.
pub iter_vcd-toggles :
    (file : List (List ℕ)) (r : Reader)
    → iter_vcd file ≡ ok r
    → (key : List ℕ) (s : Signal) → lookup key r.signals ≡ some s
    → (s.toggles ≡ from_first 0 (sum_deltas s.width) (values_of key (body_of file)))
      × (s.changes ≡ from_first 0 (count_deltas s.width) (values_of key (body_of file)))
      × (s.last ≡ last_of (values_of key (body_of file)))
      × (r.time_steps ≡ times (body_of file))
unfolding iter_vcd
iter_vcd-toggles file r h key s found =
    let (r₀, f, t, e) = read_lines-header file initial r refl none_yet h in
    let body = body_of file in
    let fed : Option.map (λ s. feed s (values_of key body)) (lookup key r₀.signals) ≡ some s =
      sym (lookup-read_all key body r₀)
      ∙ sym (ap (λ (t : Reader). lookup key t.signals) e)
      ∙ found in
    let steps : r.time_steps ≡ times body =
      ap (λ (t : Reader). t.time_steps) e
      ∙ read_all-time_steps body r₀
      ∙ ap (λ (n : ℕ). n + times body) t
      ∙ zero-add (times body) in
    elim (Option-cases (lookup key r₀.signals)) [
      | inl missing ↦ absurd (let no_signal = rw missing at fed in cc)
      | inr (s₀, there) ↦
          let same : feed s₀ (values_of key body) ≡ s = let one = rw there at fed in cc in
          let (no_last, no_toggles, no_changes) = f.new key s₀ there in
          let counted = feed-first s₀ (values_of key body) no_last no_toggles no_changes in
          let final = subst (λ (u : Signal). IsCountedFirst u (values_of key body)) same counted in
          (final.toggles, final.changes, final.last, steps)
    ]

-- No code stands twice among the signals.
pub iter_vcd-IsDict : (file : List (List ℕ)) (r : Reader) → iter_vcd file ≡ ok r → IsDict r.signals
unfolding iter_vcd
iter_vcd-IsDict file r h =
    let (r₀, f, t, e) = read_lines-header file initial r refl none_yet h in
    subst (λ (u : Reader). IsDict u.signals) (sym e) (read_all-IsDict (body_of file) r₀ f.dict)
