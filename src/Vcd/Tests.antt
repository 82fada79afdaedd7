-- ===== src/Vcd/Tests.antt =====
-- Runs of the VCD reader on small files.
use thermal_placement.Base.{
  ℕ, ◌≡◌, refl, List, [], ◌∷◌, map, some, ok, err, thrown, fault_of, false,
}
use thermal_placement.Base.Ints.{pos}
use thermal_placement.Base.Text.{codes}
use thermal_placement.Vcd.{Reader, initial, iter_vcd}
use thermal_placement.Vcd.Signals.{Signal, value_toggle_delta}
use thermal_placement.Vcd.Hamming.{bits_value, differences, value_toggle_delta-differences}
use thermal_placement.Vcd.Text.{join, parse_int}
use thermal_placement.Vcd.Declared.{
  Variable, Declarations, AreDeclarations, lines_of, declared, set_all, iter_vcd-lines_of,
}
use thermal_placement.Vcd.Errors.{has_bad_var, thrown_if, iter_vcd-fault}

small_file :
    iter_vcd (
      map codes (
        "$timescale 1ps $end" ∷ " $scope module top $end" ∷ "  $var wire 4 1L a [3:0] $end"
        ∷ "  $var wire 1 x b $end" ∷ " $upscope $end" ∷ "$enddefinitions $end" ∷ "#0" ∷ "b11 1L"
        ∷ "0x" ∷ "#5" ∷ "b1000 1L" ∷ "1x" ∷ "#10" ∷ "zx" ∷ []))
    ≡ ok (record initial {
      in_header = false;
      time_steps = 3;
      last_time = pos 10;
      signals =
          (
            codes "1L",
            record {
              path = codes "top.a[3:0]";
              width = pos 4;
              last = some (codes "1000");
              toggles = 3;
              changes = 1;
            },
          )
          ∷ (
            codes "x",
            record {
              path = codes "top.b";
              width = pos 1;
              last = some (codes "z");
              toggles = 2;
              changes = 2;
            },
          )
          ∷ [];
    })
unfolding iter_vcd
small_file = refl

abbrev counter : List (List ℕ)
counter = map codes (
    "$scope module top $end" ∷ "$var wire 4 ! count $end" ∷ "$var wire 1 x b $end" ∷ "$upscope $end"
    ∷ "$enddefinitions $end" ∷ "#0" ∷ "b11 !" ∷ "#1" ∷ "1x" ∷ "b100 !" ∷ "#2" ∷ "b100 !" ∷ [])

abbrev counted_signal : Signal
counted_signal = record {
  path = codes "top.count";
  width = pos 4;
  last = some (codes "100");
  toggles = 3;
  changes = 1;
}

abbrev counter_read : Reader
counter_read = record initial {
  signals =
      (codes "!", counted_signal)
      ∷ (
        codes "x",
        record {
          path = codes "top.b";
          width = pos 1;
          last = some (codes "1");
          toggles = 0;
          changes = 0;
        },
      )
      ∷ [];
  in_header = false;
  time_steps = 3;
  last_time = pos 2;
}

counts : iter_vcd counter ≡ ok counter_read
unfolding iter_vcd
counts = refl

value_toggle_delta-differences_example :
    value_toggle_delta (codes "011") (codes "1100") (pos 6)
    ≡ differences 6 (bits_value (codes "011")) (bits_value (codes "1100"))
value_toggle_delta-differences_example =
    value_toggle_delta-differences (codes "011") (codes "1100") (pos 6) refl refl

abbrev bad_width : List (List ℕ)
bad_width = map codes ("$var wire w ! count $end" ∷ "$enddefinitions $end" ∷ [])

iter_vcd-fault_example : fault_of (iter_vcd bad_width) ≡ thrown_if (has_bad_var bad_width)
iter_vcd-fault_example = iter_vcd-fault bad_width

throws : iter_vcd bad_width ≡ err thrown
unfolding iter_vcd
throws = refl

abbrev variable : (name : List ℕ) → (code : List ℕ) → Variable
variable name code = record { width_text = codes "4"; width = pos 4; code = code; name = name }

-- A variable in a scope of a scope, and one behind it.
abbrev nested : Declarations
nested =
    Declarations.scope (codes "top")
      (Declarations.scope (codes "core")
        (Declarations.var (variable (codes "a[3:0]") (codes "!")) Declarations.done)
        (Declarations.var (variable (codes "b") (codes "x")) Declarations.done))
      Declarations.done

nested-AreDeclarations : AreDeclarations nested
unfolding AreDeclarations parse_int
nested-AreDeclarations =
    (refl, (refl, ((refl, refl, refl, refl), tt), ((refl, refl, refl, refl), tt)), tt)

iter_vcd-lines_of_example :
    iter_vcd (lines_of nested (codes "$enddefinitions $end" ∷ []))
    ≡ ok (record initial { signals = set_all [] (declared [] nested); in_header = false })
iter_vcd-lines_of_example = iter_vcd-lines_of nested nested-AreDeclarations

paths : map (λ e. e.1.path) (declared [] nested) ≡ map codes ("top.core.a[3:0]" ∷ "top.b" ∷ [])
unfolding declared join
paths = refl
