-- ===== src/Inventory/Loaded.antt =====
-- The map of the categories, read back as terms of the activity summary.
use mathlib.Core.List.{map-map}
use thermal_placement.Base.{
  ℕ, ◌≡◌, refl, sym, ap, ◌∙◌, Bool, true, false, List, [], ◌∷◌, ◌++◌, map, append-nil, Option, none,
  some, if◌then◌else◌, Bool-cases, inl, inr,
}
use thermal_placement.Base.Sort.{filter, insert, sort}
use thermal_placement.Base.Text.{same_text}
use thermal_placement.Vcd.Text.{lower}
use thermal_placement.Vcd.Signals.{lookup}
use thermal_placement.Vcd.Dict.{same_text-eq, same_text_comm}
use thermal_placement.Vcd.Keys.{IsDict, setdefault-IsDict, modify-IsDict, value_at, value_at-modify}
use thermal_placement.Activity.{Terms, default_terms, extend_terms, load_category_terms}
use thermal_placement.Activity.Tables.{text_le}
use thermal_placement.Inventory.{
  category_for, Categorized, append_module, append_modules, categorize, Category, yaml_categories,
}
use thermal_placement.Inventory.Categories.{is_in, categorize-filter}

module _ {V : Type 0} (le : List ℕ × V → List ℕ × V → Bool) where
  lookup-swap :
      (c k j : List ℕ) (v w : V) (m : List (List ℕ × V))
      → same_text j k ≡ false
      → lookup c ((j, w) ∷ (k, v) ∷ m) ≡ lookup c ((k, v) ∷ (j, w) ∷ m)
  unfolding lookup
  lookup-swap c k j v w m other = elim (Bool-cases (same_text k c)) [
    | inl hit ↦
        let same = same_text-eq k c hit in
        let miss : same_text j c ≡ false = ap (same_text j) (sym same) ∙ other in
        rw (hit, miss) refl
    | inr miss ↦ rw miss refl
  ]

  lookup-insert :
      (c k : List ℕ) (v : V) (m : List (List ℕ × V))
      → lookup k m ≡ none
      → lookup c (insert le (k, v) m) ≡ lookup c ((k, v) ∷ m)
  unfolding insert lookup
  lookup-insert c k v [] free = refl
  lookup-insert c k v ((j, w) ∷ m) free = elim (Bool-cases (le (k, v) (j, w))) [
    | inl here ↦ rw here refl
    | inr later ↦ elim (Bool-cases (same_text j k)) [
      | inl same ↦ absurd (let found = rw same at free in cc)
      | inr other ↦
          let rest = lookup-insert c k v m (rw other at free) in
          rw later
            (ap (λ t. if same_text j c then some w else t) rest ∙ lookup-swap c k j v w m other)
    ]
  ]

  lookup-sort : (c : List ℕ) {m : List (List ℕ × V)} → IsDict m → lookup c (sort le m) ≡ lookup c m
  unfolding sort lookup
  lookup-sort c IsDict.nil = refl
  lookup-sort c (IsDict.cons {k} {v} {m} free d) =
      lookup-insert c k v (sort le m) (lookup-sort k d ∙ free)
      ∙ ap (λ t. if same_text k c then some v else t) (lookup-sort c d)

  insert-IsDict :
      (k : List ℕ) (v : V) {m : List (List ℕ × V)}
      → lookup k m ≡ none
      → IsDict m
      → IsDict (insert le (k, v) m)
  unfolding insert lookup
  insert-IsDict k v free IsDict.nil = IsDict.cons free IsDict.nil
  insert-IsDict k v free (IsDict.cons {k = j} {v = w} {m} free' d) =
      elim (Bool-cases (le (k, v) (j, w))) [
        | inl here ↦ rw here (IsDict.cons free (IsDict.cons free' d))
        | inr later ↦ elim (Bool-cases (same_text j k)) [
          | inl same ↦ absurd (let found = rw same at free in cc)
          | inr other ↦
              let missing : lookup j ((k, v) ∷ m) ≡ none = rw (same_text_comm k j, other) free' in
              rw later (
                IsDict.cons (lookup-insert j k v m (rw other at free) ∙ missing)
                  (insert-IsDict k v (rw other at free) d))
        ]
      ]

  sort-IsDict : {m : List (List ℕ × V)} → IsDict m → IsDict (sort le m)
  unfolding sort
  sort-IsDict IsDict.nil = IsDict.nil
  sort-IsDict (IsDict.cons {k} {v} {m} free d) =
      insert-IsDict k v (lookup-sort k d ∙ free) (sort-IsDict d)

-- What the YAML module, which is not in the repository, is taken to read back of the categories that
-- it has written.
abbrev pub loaded : List Category → List (List ℕ × Option (List (List ℕ)))
loaded categories = map (λ (c : Category). (c.name, some c.modules)) categories

abbrev entries : Categorized → List (List ℕ × Option (List (List ℕ)))
entries m = map (λ (e : List ℕ × List (List ℕ)). (e.0, some e.1)) m

append-map :
    (b : Bool) (old v rest : List (List ℕ))
    → (b ≡ true → rest ≡ [])
    → (if b then old ++ map lower v else old) ++ map lower rest
      ≡ old ++ map lower (if b then v else rest)
append-map true old v rest h =
    ap (λ l. (old ++ map lower v) ++ map lower l) (h refl) ∙ append-nil (old ++ map lower v)
append-map false old v rest h = refl

missing :
    (c k : List ℕ) (m : Categorized)
    → lookup k m ≡ none
    → same_text c k ≡ true
    → value_at [] c m ≡ []
missing c k m free same =
    let here : value_at [] k m ≡ [] = rw free refl in
    ap (λ t. value_at [] t m) (same_text-eq c k same) ∙ here

value_at-cons :
    (c k : List ℕ) (v : List (List ℕ)) (m : Categorized)
    → (if same_text c k then v else value_at [] c m) ≡ value_at [] c ((k, v) ∷ m)
unfolding lookup
value_at-cons c k v m = elim (Bool-cases (same_text k c)) [
  | inl same ↦ rw (same_text_comm c k, same) refl
  | inr other ↦ rw (same_text_comm c k, other) refl
]

value_at-extend_terms :
    (c : List ℕ) {m : Categorized} (terms : Terms)
    → IsDict m
    → value_at [] c (extend_terms (entries m) terms)
      ≡ value_at [] c terms ++ map lower (value_at [] c m)
unfolding extend_terms lookup
value_at-extend_terms c terms IsDict.nil = sym (append-nil (value_at [] c terms))
value_at-extend_terms c terms (IsDict.cons {k} {v} {m} free d) =
    value_at-extend_terms c _ d
    ∙ ap (λ l. l ++ map lower (value_at [] c m))
        (value_at-modify [] c k (λ old. old ++ map lower v) terms)
    ∙ append-map (same_text c k) (value_at [] c terms) v (value_at [] c m)
        (λ same. missing c k m free same)
    ∙ ap (λ l. value_at [] c terms ++ map lower l) (value_at-cons c k v m)

append_modules-IsDict :
    (names : List (List ℕ)) (m : Categorized) → IsDict m → IsDict (append_modules m names)
unfolding append_modules append_module
append_modules-IsDict [] m d = d
append_modules-IsDict (name ∷ names) m d = append_modules-IsDict names (append_module m name) (
    modify-IsDict (category_for name) (λ l. l ++ name ∷ []) _
      (setdefault-IsDict (category_for name) [] m d))

categorize-IsDict : (modules : List (List ℕ)) → IsDict (categorize modules)
unfolding categorize
categorize-IsDict modules = append_modules-IsDict (sort text_le modules) [] IsDict.nil

abbrev key_le : List ℕ × List (List ℕ) → List ℕ × List (List ℕ) → Bool
key_le a b = text_le a.0 b.0

loaded-yaml_categories : (m : Categorized) → loaded (yaml_categories m) ≡ entries (sort key_le m)
unfolding yaml_categories
loaded-yaml_categories m = map-map (λ (c : Category). (c.name, some c.modules)) _ (sort key_le m)

abbrev value_or : Option (List (List ℕ)) → List (List ℕ)
value_or none = []
value_or (some v) = v

-- With the map of the inventory the activity summary asks, for each category, its own terms and
-- then the names of exactly the modules that the inventory puts into the category, in small
-- letters and in the order of the names.
pub load_category_terms-categorize :
    (modules : List (List ℕ)) (category : List ℕ)
    → value_at [] category
        (load_category_terms (some (loaded (yaml_categories (categorize modules)))))
      ≡ value_at [] category default_terms
        ++ map lower (filter (is_in category) (sort text_le modules))
load_category_terms-categorize modules category =
    let m = categorize modules in
    let d = categorize-IsDict modules in
    let sorted : value_at [] category (sort key_le m) ≡ value_at [] category m =
      ap (λ o. value_or o) (lookup-sort key_le category d) in
    ap (λ l. value_at [] category (extend_terms l default_terms)) (loaded-yaml_categories m)
    ∙ value_at-extend_terms category default_terms (sort-IsDict key_le d)
    ∙ ap (λ l. value_at [] category default_terms ++ map lower l)
        (sorted ∙ categorize-filter modules category)
