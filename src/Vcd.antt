-- ===== src/Vcd.antt =====
-- scripts/extract_vcd_activity.py, the reader: the signals of a VCD file and how often they toggle.
-- A file is the list of its lines, of ASCII codes: other bytes are dropped when the file is read.
pub mod Text
pub mod Signals
pub mod Dict
pub mod Keys
pub mod Hamming
pub mod Stream
pub mod Body
pub mod Header
pub mod Counts
pub mod Errors
pub mod Words
pub mod Declared
mod Tests
use thermal_placement.Base.{
  ℕ, zero, suc, ◌+◌, ◌-◌, Bool, true, false, ◌&&◌, ◌||◌, List, [], ◌∷◌, ◌++◌, map, ◌≡◌, refl,
  Option, none, some, Result, ok, err, ◌>>=◌, or_fault, thrown, ltb, leb, ◌==◌, if◌then◌else◌,
  length, get_elem?, get_or, take, drop, replicate,
}
use thermal_placement.Base.Ints.{ℤ, pos, negsuc}
use thermal_placement.Base.Text.{codes, starts_with}
use thermal_placement.Vcd.Signals.{Signal, lookup, setdefault, modify, take_value}
use thermal_placement.Vcd.Text.{
  lstrip, rstrip, strip, split_from, split, lower_char, lower, join, without_spaces, parse_int,
}

-- The local variables of `iter_vcd`.
pub record Reader : Type 0 where
  pub signals : List (List ℕ × Signal)
  pub scopes : List (List ℕ)
  pub in_header : Bool
  pub time_steps : ℕ
  pub last_time : ℤ

-- `parts[2]` is there.
unfoldable pub open_scope : Option (List ℕ) → Reader → Reader
open_scope none r = r
open_scope (some name) r = record r { scopes = r.scopes ++ without_spaces name ∷ [] }

-- `scopes.pop()`
unfoldable pub drop_last : List (List ℕ) → List (List ℕ)
drop_last [] = []
drop_last (s ∷ []) = []
drop_last (s ∷ t ∷ ts) = s ∷ drop_last (t ∷ ts)

abbrev pub dot : List ℕ
dot = b'.' ∷ []

abbrev pub fresh : (path : List ℕ) → (width : ℤ) → Signal
fresh path width = record { path = path; width = width; last = none; toggles = 0; changes = 0 }

-- `"".join(parts[4:-1])` without spaces, behind the scopes.
abbrev pub full_path : (scopes parts : List (List ℕ)) → List ℕ
full_path scopes parts =
    join dot (scopes ++ without_spaces (join [] (take (length parts - 5) (drop 4 parts))) ∷ [])

unfoldable pub declare_var : Reader → (parts : List (List ℕ)) → Result Reader
declare_var r parts =
    if leb 6 (length parts)
    then (do
      width ← or_fault (parse_int (get_or parts 2 [])) thrown
      ok (record r {
        signals = setdefault (get_or parts 3 []) (fresh (full_path r.scopes parts) width) r.signals;
      }))
    else ok r

-- A line of the header.
unfoldable pub read_header : Reader → (line : List ℕ) → Result Reader
unfolding open_scope drop_last declare_var setdefault join without_spaces split_from parse_int
read_header r line =
    if starts_with (codes "$scope") line
    then ok (open_scope (get_elem? (split line) 2) r)
    else if starts_with (codes "$upscope") line
    then ok (record r { scopes = drop_last r.scopes })
    else if starts_with (codes "$var") line
    then declare_var r (split line)
    else if starts_with (codes "$enddefinitions") line
    then ok (record r { in_header = false })
    else ok r

-- The code and the value that a line of two words gives.
vector_change : List (List ℕ) → Option (List ℕ × List ℕ)
vector_change (value ∷ code ∷ []) = some (code, lower (drop 1 value))
vector_change _ = none

abbrev pub is_scalar : ℕ → Bool
is_scalar c =
    ((c == b'0') || (c == b'1')) || (((c == b'x') || (c == b'z')) || ((c == b'X') || (c == b'Z')))

abbrev pub is_vector : ℕ → Bool
is_vector c = ((c == b'b') || (c == b'B')) || ((c == b'r') || (c == b'R'))

-- The code and the value of a line that is no time.
unfoldable pub change_of : (line : List ℕ) → Option (List ℕ × List ℕ)
unfolding vector_change split_from
change_of [] = none
change_of (c ∷ cs) =
    if is_scalar c
    then some (cs, lower_char c ∷ [])
    else if is_vector c
    then vector_change (split (c ∷ cs))
    else none

unfoldable pub apply_change : Option (List ℕ × List ℕ) → Reader → Reader
apply_change none r = r
apply_change (some (code, value)) r = record r {
  signals = modify code (λ s. take_value s value) r.signals;
}

or_last : Option ℤ → ℤ → ℤ
or_last none t = t
or_last (some u) t = u

-- A line behind the header.
unfoldable pub read_body : Reader → (line : List ℕ) → Reader
unfolding apply_change or_last change_of take_value modify parse_int
read_body r line =
    if starts_with (codes "#") line
    then record r {
      time_steps = r.time_steps + 1;
      last_time = or_last (parse_int (drop 1 line)) r.last_time;
    }
    else apply_change (change_of line) r

unfoldable pub read_stripped : Reader → (line : List ℕ) → Result Reader
unfolding read_header read_body
read_stripped r [] = ok r
read_stripped r (c ∷ cs) = if r.in_header then read_header r (c ∷ cs) else ok (read_body r (c ∷ cs))

-- One round of the loop over the lines.
unfoldable pub read_line : Reader → (raw_line : List ℕ) → Result Reader
unfolding read_stripped lstrip rstrip
read_line r raw_line = read_stripped r (strip raw_line)

unfoldable pub read_lines : Reader → (file : List (List ℕ)) → Result Reader
unfolding read_line
read_lines r [] = ok r
read_lines r (l ∷ ls) = do r' ← read_line r l; read_lines r' ls

abbrev pub initial : Reader
initial = record { signals = []; scopes = []; in_header = true; time_steps = 0; last_time = pos 0 }

unfoldable pub iter_vcd : (file : List (List ℕ)) → Result Reader
unfolding read_lines
iter_vcd file = read_lines initial file
