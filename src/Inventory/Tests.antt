-- ===== src/Inventory/Tests.antt =====
-- Inventories of a few modules.
use thermal_placement.Base.{ℕ, ◌≡◌, refl, List, [], ◌∷◌, ◌++◌, map, some}
use thermal_placement.Base.Sort.{filter, sort}
use thermal_placement.Base.Text.{codes}
use thermal_placement.Vcd.Text.{lower}
use thermal_placement.Vcd.Signals.{lookup}
use thermal_placement.Vcd.Keys.{value_at}
use thermal_placement.Activity.{default_terms, extend_terms, load_category_terms}
use thermal_placement.Activity.Tables.{text_le}
use thermal_placement.Inventory.{categorize, yaml_categories}
use thermal_placement.Inventory.Categories.{is_in}
use thermal_placement.Inventory.Loaded.{loaded, load_category_terms-categorize}

-- The modules of three kinds.
sorts_modules :
    categorize (map codes ("Tile" ∷ "GemminiTop" ∷ "MeshPe" ∷ "SerialPort" ∷ []))
    ≡ (codes "gemmini_other", map codes ("GemminiTop" ∷ []))
      ∷ (codes "pe_array", map codes ("MeshPe" ∷ "Tile" ∷ []))
      ∷ (codes "non_gemmini_context", map codes ("SerialPort" ∷ []))
      ∷ []
unfolding categorize
sorts_modules = refl

abbrev modules : List (List ℕ)
modules = map codes ("Tile" ∷ "SerialPort" ∷ "MeshPe" ∷ [])

load_category_terms-categorize_example :
    value_at []
      (codes "pe_array")
      (load_category_terms (some (loaded (yaml_categories (categorize modules)))))
    ≡ value_at [] (codes "pe_array") default_terms
      ++ map lower (filter (is_in (codes "pe_array")) (sort text_le modules))
load_category_terms-categorize_example = load_category_terms-categorize modules (codes "pe_array")

extends_terms :
    value_at []
      (codes "pe_array")
      (load_category_terms (some (loaded (yaml_categories (categorize modules)))))
    ≡ map codes ("gemmini" ∷ "mesh" ∷ "pe" ∷ "tile" ∷ "meshpe" ∷ "tile" ∷ [])
unfolding categorize yaml_categories extend_terms lookup
extends_terms = refl
