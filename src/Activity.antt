-- ===== src/Activity.antt =====
-- scripts/extract_vcd_activity.py, the reports: which signals count, the region each one belongs
-- to, and the tables of the signals and of the regions.
-- Floating-point numbers are a parameter.
pub mod Clocks
pub mod Tables
pub mod Rows
pub mod Regions
pub mod Totals
pub mod Names
pub mod Summary
mod Tests
use thermal_placement.Base.{
  ℕ, zero, suc, ◌+◌, ◌-◌, ◌*◌, Bool, true, false, not, ◌&&◌, ◌||◌, List, [], ◌∷◌, ◌++◌, map, Option,
  none, some, ltb, leb, ◌==◌, if◌then◌else◌, length, take, drop,
}
use thermal_placement.Base.Ints.{ℤ, pos, negsuc}
use thermal_placement.Base.Sort.{any}
use thermal_placement.Base.Text.{codes, starts_with, find}
use thermal_placement.Vcd.Text.{lower_char, lower}
use thermal_placement.Vcd.Signals.{Signal, lookup, setdefault, modify}

-- The categories in order, each with its terms.
abbrev pub Terms : Type 0
Terms = List (List ℕ × List (List ℕ))

abbrev pub default_terms : Terms
default_terms =
    (codes "pe_array", map codes ("gemmini" ∷ "mesh" ∷ "pe" ∷ "tile" ∷ []))
    ∷ (codes "scratchpad", map codes ("scratchpad" ∷ "spad" ∷ "sp_bank" ∷ []))
    ∷ (codes "accumulator", map codes ("accumulator" ∷ "acc_" ∷ "accumulator_mem" ∷ []))
    ∷ (
      codes "load_store_dma",
      map codes
          ("load_controller" ∷ "store_controller" ∷ "streamreader" ∷ "streamwriter" ∷ "dma" ∷ []),
    )
    ∷ (codes "controller", map codes ("controller" ∷ "reservationstation" ∷ "cmd" ∷ "rob" ∷ []))
    ∷ (codes "tl_soc_glue", map codes ("tl" ∷ "axi" ∷ "cache" ∷ "bus" ∷ []))
    ∷ (
      codes "non_gemmini_context",
      map codes ("rocket" ∷ "system" ∷ "debug" ∷ "jtag" ∷ "uart" ∷ []),
    )
    ∷ []

abbrev pub modules_of : Option (List (List ℕ)) → List (List ℕ)
modules_of none = []
modules_of (some modules) = modules

abbrev pub is_found {ℓ} : {A : Type ℓ} → Option A → Bool
is_found none = false
is_found (some i) = true

-- The categories of the YAML file, in order; `none` is a value that is no mapping.
unfoldable pub extend_terms : (categories : List (List ℕ × Option (List (List ℕ)))) → Terms → Terms
extend_terms [] terms = terms
extend_terms ((category, value) ∷ rest) terms =
    extend_terms rest
      (modify category (λ old. old ++ map lower (modules_of value)) (setdefault category [] terms))

-- What the YAML file at the path holds, or `none` without a file or without the yaml module.
abbrev pub load_category_terms : Option (List (List ℕ × Option (List (List ℕ)))) → Terms
load_category_terms none = default_terms
load_category_terms (some categories) = extend_terms categories default_terms

-- `term and term.lower() in path`
abbrev pub occurs : (term path : List ℕ) → Bool
occurs [] path = false
occurs (c ∷ cs) path = is_found (find (lower (c ∷ cs)) path)

-- The loop over the categories.
first_category : (path : List ℕ) → Terms → List ℕ
unfolding any find
first_category path [] = codes "other"
first_category path ((category, terms) ∷ rest) =
    if any (λ term. occurs term path) terms then category else first_category path rest

unfoldable pub classify : (path : List ℕ) → Terms → List ℕ
unfolding first_category
classify path terms = first_category (lower path) terms

abbrev pub is_separator : ℕ → Bool
is_separator c = (c == b'.') || (c == b'_')

-- `([._]|$)`: `$` also stands before a last newline.
abbrev pub word_ends : List ℕ → Bool
word_ends [] = true
word_ends (c ∷ []) = is_separator c || (c == 10)
word_ends (c ∷ d ∷ ds) = is_separator c

abbrev pub clock_words : List (List ℕ)
clock_words = map codes ("clock" ∷ "clk" ∷ "reset" ∷ [])

abbrev pub word_here : (text word : List ℕ) → Bool
word_here text word = starts_with word (lower text) && word_ends (drop (length word) text)

-- `clock_re.search`, behind a character; `start` says that `(^|[._])` has matched there.
unfoldable pub clock_from : (start : Bool) → List ℕ → Bool
unfolding any
clock_from start [] = false
clock_from start (c ∷ cs) =
    (start && any (word_here (c ∷ cs)) clock_words) || clock_from (is_separator c) cs

unfoldable pub is_clock : (path : List ℕ) → Bool
unfolding clock_from
is_clock path = clock_from true path
