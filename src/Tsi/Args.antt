-- ===== src/Tsi/Args.antt =====
-- The arguments of the host: the constructor of testchip_tsi_t and parse_htif_args.
pub mod RoundTrip
pub mod Range
mod Tests
use thermal_placement.Base.{
  ℕ, ◌+◌, ◌-◌, ◌%◌, ◌^◌, Bool, true, false, List, [], ◌∷◌, ◌++◌, Option, none, some, Result, ok,
  err, ◌>>=◌, or_fault, thrown, out_of_bounds, if◌then◌else◌, length, take, drop,
}
use thermal_placement.Base.{◌≡◌, refl}
use thermal_placement.Base.Text.{codes, starts_with, find, strtoull16}
use thermal_placement.Tsi.{Tsi, InitAccess}

abbrev pub write_flag : List ℕ
write_flag = codes "+init_write=0x"

abbrev pub read_flag : List ℕ
read_flag = codes "+init_read=0x"

abbrev pub msip_flag : List ℕ
msip_flag = codes "+no_hart0_msip"

abbrev loadmem_flag : List ℕ
loadmem_flag = codes "+loadmem="

abbrev cflush_flag : List ℕ
cflush_flag = codes "+cflush_addr=0x"

abbrev pub push_access : Tsi → InitAccess → Tsi
push_access t p = record t { init_accesses = t.init_accesses ++ p ∷ [] }

-- `arg` has the flag +init_write=0x. `d - 14` is not below 0, as the flag has no colon.
parse_write : Tsi → (arg : List ℕ) → Result Tsi
parse_write t arg = do
  d ← or_fault (find (codes ":0x") arg) thrown
  ok (
      push_access t (record {
        address = strtoull16 (take (d - 14) (drop 14 arg));
        stdata = strtoull16 (drop (d + 3) arg) % 2 ^ 32;
        store = true;
      }))

parse_read : Tsi → (arg : List ℕ) → Tsi
parse_read t arg =
    push_access t (record { address = strtoull16 (drop 13 arg); stdata = 0; store = false })

-- One round of parse_htif_args.
unfoldable pub parse_arg : Tsi → (arg : List ℕ) → Result Tsi
unfolding parse_write parse_read
parse_arg t arg = do
  t₁ ← if starts_with write_flag arg then parse_write t arg else ok t
  let t₂ = if starts_with read_flag arg then parse_read t₁ arg else t₁
  ok (if starts_with msip_flag arg then record t₂ { write_hart0_msip = false } else t₂)

-- `parse_htif_args`
unfoldable pub parse_htif_args : Tsi → (args : List (List ℕ)) → Result Tsi
unfolding parse_arg
parse_htif_args t [] = ok t
parse_htif_args t (arg ∷ args) = do t' ← parse_arg t arg; parse_htif_args t' args

-- One round of the loop of the constructor.
scan_arg : (can_have_loadmem : Bool) → Tsi → (arg : List ℕ) → Tsi
scan_arg can_have_loadmem t arg = record t {
  has_loadmem = if starts_with loadmem_flag arg then can_have_loadmem else t.has_loadmem;
  cflush_addr = if starts_with cflush_flag arg then strtoull16 (drop 15 arg) else t.cflush_addr;
}

scan_args : (can_have_loadmem : Bool) → Tsi → (args : List (List ℕ)) → Tsi
scan_args can_have_loadmem t [] = t
scan_args can_have_loadmem t (arg ∷ args) =
    scan_args can_have_loadmem (scan_arg can_have_loadmem t arg) args

-- The members before the first argument is read.
abbrev pub defaults : Tsi
defaults = record {
  has_loadmem = false;
  is_loadmem = false;
  cflush_addr = 0;
  write_hart0_msip = true;
  init_accesses = [];
}

-- The constructor, without that of tsi_t. `argv + 1` needs an entry.
unfoldable pub construct : (argv : List (List ℕ)) → (can_have_loadmem : Bool) → Result Tsi
unfolding parse_htif_args scan_arg scan_args
construct [] can_have_loadmem = err out_of_bounds
construct (program ∷ args) can_have_loadmem =
    parse_htif_args (scan_args can_have_loadmem defaults args) args
