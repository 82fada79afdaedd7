-- ===== src/Inventory.antt =====
-- scripts/inspect_gemmini_hierarchy.py: the modules of the generated Verilog, sorted into categories,
-- and the map of the categories that extract_vcd_activity.py reads. The search for modules in the
-- files, the Markdown report and the hierarchy in JSON are left out.
pub mod Categories
pub mod Loaded
mod Tests
use thermal_placement.Base.{
  ℕ, ◌≡◌, refl, Bool, true, false, List, [], ◌∷◌, ◌++◌, map, Option, none, some, if◌then◌else◌,
}
use thermal_placement.Base.Sort.{any, sort}
use thermal_placement.Base.Text.{codes, find, same_text}
use thermal_placement.Vcd.Signals.{lookup, setdefault, modify}
use thermal_placement.Vcd.Text.{lower}
use thermal_placement.Activity.{is_found}
use thermal_placement.Activity.Tables.{text_le}

-- Each category with its keywords.
abbrev pub category_rules : List (List ℕ × List (List ℕ))
category_rules =
    (codes "pe_array", map codes ("mesh" ∷ "tile" ∷ "pe" ∷ "mac" ∷ "systolic" ∷ []))
    ∷ (codes "scratchpad", map codes ("scratchpad" ∷ "spad" ∷ "sp_bank" ∷ "spadmem" ∷ []))
    ∷ (codes "accumulator", map codes ("accumulator" ∷ "accumulator" ∷ "acc_" ∷ "accbank" ∷ []))
    ∷ (
      codes "load_store_dma",
      map codes
          ("dma" ∷ "streamreader" ∷ "streamwriter" ∷ "loadcontroller" ∷ "storecontroller" ∷ []),
    )
    ∷ (
      codes "controller",
      map codes (
          "controller" ∷ "cmd" ∷ "reservationstation" ∷ "scheduler" ∷ "fsm" ∷ "unroller" ∷ "rob"
          ∷ []),
    )
    ∷ (
      codes "tl_soc_glue",
      map codes ("tl" ∷ "tilelink" ∷ "rocc" ∷ "frontend" ∷ "memport" ∷ "ptw" ∷ []),
    )
    ∷ []

-- `keyword in lowered`
abbrev pub contains : (text keyword : List ℕ) → Bool
contains text keyword = is_found (find keyword text)

-- The loop over the rules, and what follows it.
rule_for : (lowered : List ℕ) → List (List ℕ × List (List ℕ)) → List ℕ
unfolding any find
rule_for lowered [] =
    if contains lowered (codes "gemmini")
    then codes "gemmini_other"
    else codes "non_gemmini_context"
rule_for lowered ((category, keywords) ∷ rest) =
    if any (contains lowered) keywords then category else rule_for lowered rest

unfoldable pub category_for : (module_name : List ℕ) → List ℕ
unfolding rule_for
category_for module_name = rule_for (lower module_name) category_rules

-- A dict of lists of names.
abbrev pub Categorized : Type 0
Categorized = List (List ℕ × List (List ℕ))

-- `categorized[category_for(module_name)].append(module_name)`
unfoldable pub append_module : Categorized → (module_name : List ℕ) → Categorized
unfolding category_for setdefault modify
append_module m module_name =
    modify (category_for module_name) (λ names. names ++ module_name ∷ [])
      (setdefault (category_for module_name) [] m)

unfoldable pub append_modules : Categorized → (names : List (List ℕ)) → Categorized
unfolding append_module
append_modules m [] = m
append_modules m (name ∷ names) = append_modules (append_module m name) names

-- The loop of `main` over the sorted modules.
unfoldable pub categorize : (modules : List (List ℕ)) → Categorized
unfolding append_modules sort text_le
categorize modules = append_modules [] (sort text_le modules)

pub record Category : Type 0 where
  pub name : List ℕ
  pub include_in_thermal_study : Bool
  pub modules : List (List ℕ)

abbrev pub include_categories : List (List ℕ)
include_categories = map codes (
    "pe_array" ∷ "scratchpad" ∷ "accumulator" ∷ "load_store_dma" ∷ "controller" ∷ "gemmini_other"
    ∷ [])

-- The categories that `write_yaml` writes.
unfoldable pub yaml_categories : Categorized → List Category
unfolding sort text_le any
yaml_categories m =
    map
      (λ (e : List ℕ × List (List ℕ)). record {
        name = e.0;
        include_in_thermal_study = any (same_text e.0) include_categories;
        modules = e.1;
      })
      (sort (λ (a b : List ℕ × List (List ℕ)). text_le a.0 b.0) m)
