-- ===== src/Vcd/Keys.antt =====
-- The dict of signals: no key stands twice in it.
use mathlib.Core.Option
use thermal_placement.Base.{
  ℕ, ◌≡◌, refl, sym, ap, ◌∙◌, List, [], ◌∷◌, none, some, All, All-map, Bool-cases, inl, inr, Bool,
  true, false, if◌then◌else◌, Option,
}
use thermal_placement.Base.Text.{same_text}
use thermal_placement.Vcd.Signals.{lookup, setdefault, modify}
use thermal_placement.Vcd.Dict.{
  or_default, same_text-eq, same_text_self, same_text_comm, lookup-setdefault, lookup-modify,
}

module _ {V : Type 0} where
  -- No key stands twice.
  pub data IsDict : List (List ℕ × V) → Type 0 where
    nil : IsDict []
    cons :
        {k : List ℕ} {v : V} {m : List (List ℕ × V)}
        → lookup k m ≡ none
        → IsDict m
        → IsDict ((k, v) ∷ m)

  pub setdefault-IsDict :
      (k : List ℕ) (v : V) (m : List (List ℕ × V)) → IsDict m → IsDict (setdefault k v m)
  unfolding setdefault lookup
  setdefault-IsDict k v [] d = IsDict.cons refl IsDict.nil
  setdefault-IsDict k v ((j, w) ∷ m) (IsDict.cons free d) = elim (Bool-cases (same_text j k)) [
    | inl here ↦ rw here (IsDict.cons free d)
    | inr other ↦ rw other (
        IsDict.cons (rw (lookup-setdefault, same_text_comm k j, other, free) refl)
          (setdefault-IsDict k v m d))
  ]

  pub modify-IsDict :
      (k : List ℕ) (f : V → V) (m : List (List ℕ × V)) → IsDict m → IsDict (modify k f m)
  unfolding modify
  modify-IsDict k f [] d = d
  modify-IsDict k f ((j, w) ∷ m) (IsDict.cons free d) = elim (Bool-cases (same_text j k)) [
    | inl here ↦ rw here (IsDict.cons free d)
    | inr other ↦ rw other (IsDict.cons (rw (lookup-modify, other) free) (modify-IsDict k f m d))
  ]

  lookup-rest :
      (k : List ℕ) (v : V) (m : List (List ℕ × V))
      → lookup k m ≡ none
      → (e : List ℕ × V) → lookup e.0 m ≡ some e.1
      → lookup e.0 ((k, v) ∷ m) ≡ some e.1
  unfolding lookup
  lookup-rest k v m free e there = elim (Bool-cases (same_text k e.0)) [
    | inl same ↦
        absurd (let both = sym free ∙ ap (λ j. lookup j m) (same_text-eq k e.0 same) ∙ there in cc)
    | inr other ↦ rw other there
  ]

  -- Each entry is what its key is mapped to.
  pub lookup-entries : {m : List (List ℕ × V)} → IsDict m → All (λ e. lookup e.0 m ≡ some e.1) m
  unfolding lookup
  lookup-entries IsDict.nil = tt
  lookup-entries (IsDict.cons {k} {v} {m} free d) =
      (rw same_text_self refl, All-map _ _ m (lookup-rest k v m free) (lookup-entries d))

-- A dict whose missing keys stand for `d`, as in a defaultdict.
module _ {V : Type 0} (d : V) where
  abbrev or_else : Option V → V
  or_else none = d
  or_else (some v) = v

  abbrev pub value_at : (key : List ℕ) → List (List ℕ × V) → V
  value_at key m = or_else (lookup key m)

  or_else-default : (b : Bool) (o : Option V) → or_else (or_default b d o) ≡ or_else o
  or_else-default b (some v) = refl
  or_else-default true none = refl
  or_else-default false none = refl

  or_else-map :
      (f : V → V) (o : Option V) → or_else (Option.map f (or_default true d o)) ≡ f (or_else o)
  or_else-map f none = refl
  or_else-map f (some v) = refl

  pub value_at-setdefault :
      (c k : List ℕ) (m : List (List ℕ × V)) → value_at c (setdefault k d m) ≡ value_at c m
  value_at-setdefault c k m =
      ap or_else (lookup-setdefault c k d m) ∙ or_else-default (same_text k c) (lookup c m)

  pub value_at-modify :
      (c k : List ℕ) (f : V → V) (m : List (List ℕ × V))
      → value_at c (modify k f (setdefault k d m))
        ≡ (if same_text c k then f (value_at c m) else value_at c m)
  value_at-modify c k f m = elim (Bool-cases (same_text c k)) [
    | inl same ↦
        let back = sym (same_text_comm c k) ∙ same in
        rw (lookup-modify, same, lookup-setdefault, back) (or_else-map f (lookup c m))
    | inr other ↦ rw (lookup-modify, other) (value_at-setdefault c k m)
  ]

  -- A key that is there.
  pub value_at-found :
      (c : List ℕ) (m : List (List ℕ × V)) (v : V) → lookup c m ≡ some v → value_at c m ≡ v
  value_at-found c m v found = ap or_else found
