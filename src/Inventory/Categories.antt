-- ===== src/Inventory/Categories.antt =====
-- Which modules each category gets.
use thermal_placement.Base.{
  ℕ, ◌≡◌, refl, sym, ap, ◌∙◌, Bool, true, false, List, [], ◌∷◌, ◌++◌, append_assoc, append-nil,
  if◌then◌else◌,
}
use thermal_placement.Base.Sort.{filter, sort}
use thermal_placement.Base.Text.{same_text}
use thermal_placement.Vcd.Signals.{lookup}
use thermal_placement.Vcd.Keys.{value_at, value_at-modify}
use thermal_placement.Activity.Tables.{text_le}
use thermal_placement.Inventory.{
  category_for, Categorized, append_module, append_modules, categorize,
}

abbrev pub is_in : (category module_name : List ℕ) → Bool
is_in category module_name = same_text category (category_for module_name)

append-if :
    (b : Bool) (old : List (List ℕ)) (name : List ℕ) (rest : List (List ℕ))
    → (if b then old ++ name ∷ [] else old) ++ rest ≡ old ++ (if b then name ∷ rest else rest)
append-if true old name rest = append_assoc old (name ∷ []) rest
append-if false old name rest = refl

append_modules-filter :
    (c : List ℕ) (names : List (List ℕ)) (m : Categorized)
    → value_at [] c (append_modules m names) ≡ value_at [] c m ++ filter (is_in c) names
unfolding append_modules append_module
append_modules-filter c [] m = sym (append-nil (value_at [] c m))
append_modules-filter c (name ∷ names) m =
    append_modules-filter c names (append_module m name)
    ∙ ap (λ l. l ++ filter (is_in c) names)
        (value_at-modify [] c (category_for name) (λ l. l ++ name ∷ []) m)
    ∙ append-if (is_in c name) (value_at [] c m) name (filter (is_in c) names)

-- A category has exactly the modules that the rules put into it, in the order of their names, and
-- none if it is missing.
pub categorize-filter :
    (modules : List (List ℕ)) (category : List ℕ)
    → value_at [] category (categorize modules) ≡ filter (is_in category) (sort text_le modules)
unfolding categorize lookup
categorize-filter modules category = append_modules-filter category (sort text_le modules) []
