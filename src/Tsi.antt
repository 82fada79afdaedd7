-- ===== src/Tsi.antt =====
-- testchip_tsi.h, testchip_tsi.cc, testchip_htif.h and testchip_htif.cc, but for the arguments
-- (Tsi/Args.antt), and the clean-up of the arguments in SimTSI.cc: the host that loads and starts
-- the target over its serial interface.
pub mod Flush
pub mod Args
pub mod Serial
pub mod Accesses
pub mod Load
pub mod Options
mod Tests
use thermal_placement.Base.{
  ℕ, zero, suc, ◌+◌, ◌-◌, ◌*◌, ◌/◌, ◌%◌, ◌^◌, ◌<◌, Bool, true, false, not, ◌&&◌, List, [], ◌∷◌,
  ◌++◌, Option, none, some, ltb, ◌==◌, if◌then◌else◌, length, get_elem?, get_or, set, add64,
}

-- What the sources take from fesvr's tsi_t, which is not part of the repository, but for its
-- `load_program` (Tsi/Load.antt): the chunks that pass through the target, and `switch_to_target`,
-- which lets the target run until it gives the control back.
pub record Host : Type 1 where
  pub State : Type 0
  pub write_chunk : (taddr : ℕ) → (src : List ℕ) → State → State
  pub read_chunk : (taddr nbytes : ℕ) → State → State × List ℕ
  pub reset : State → State
  pub switch_to_target : State → State

-- `init_access_t`
pub record InitAccess : Type 0 where
  pub address : ℕ
  pub stdata : ℕ
  pub store : Bool

-- The members of testchip_tsi_t and testchip_htif_t.
pub record Tsi : Type 0 where
  pub has_loadmem : Bool
  pub is_loadmem : Bool
  pub cflush_addr : ℕ
  pub write_hart0_msip : Bool
  pub init_accesses : List InitAccess

-- The `n` bytes of a number in memory, lowest first.
abbrev pub le_bytes : (n x : ℕ) → List ℕ
le_bytes zero x = []
le_bytes (suc n) x = x % 256 ∷ le_bytes n (x / 256)

abbrev pub line : ℕ
line = 64

-- `taddr & ~(cblock_bytes-1)`
abbrev pub line_of : ℕ → ℕ
line_of taddr = taddr / line * line

module _ (h : Host) where
  -- One round: the two halves of the line's address, as the 8 bytes that they make up.
  pub flush_line : (cflush_addr base : ℕ) → h.State → h.State
  flush_line cflush_addr base =
      h.write_chunk cflush_addr (le_bytes 4 base ++ le_bytes 4 (base / 2 ^ 32))

  -- `while (base < end)`; `none` means that the fuel has run out.
  pub flush_loop : (fuel base end cflush_addr : ℕ) → h.State → Option h.State
  flush_loop zero base end cflush_addr s = none
  flush_loop (suc fuel) base end cflush_addr s = elim (ltb base end) [
    | true ↦ flush_loop fuel (add64 base line) end cflush_addr (flush_line cflush_addr base s)
    | false ↦ some s
  ]

  -- `flush_cache_lines`
  unfoldable pub flush_cache_lines :
      (fuel : ℕ) → Tsi → (taddr nbytes : ℕ) → h.State → Option h.State
  unfolding flush_loop flush_line
  flush_cache_lines fuel t taddr nbytes s =
      if t.cflush_addr == 0
      then some s
      else flush_loop fuel (line_of taddr) (add64 taddr nbytes) t.cflush_addr s

  abbrev and_then : {A B : Type 0} → Option A → (A → B) → Option B
  and_then none f = none
  and_then (some a) f = some (f a)

  -- `write_chunk`; `load_mem_write` does nothing.
  unfoldable pub write_chunk : (fuel : ℕ) → Tsi → (taddr : ℕ) → List ℕ → h.State → Option h.State
  unfolding flush_cache_lines
  write_chunk fuel t taddr src s =
      if t.is_loadmem
      then some s
      else and_then (flush_cache_lines fuel t taddr (length src) s) (h.write_chunk taddr src)

  -- `read_chunk` into a buffer that holds `dst`; `load_mem_read` does nothing.
  unfoldable pub read_chunk :
      (fuel : ℕ) → Tsi → (taddr : ℕ) → (dst : List ℕ) → h.State → Option (h.State × List ℕ)
  unfolding flush_cache_lines
  read_chunk fuel t taddr dst s =
      if t.is_loadmem
      then some (s, dst)
      else and_then (flush_cache_lines fuel t taddr (length dst) s)
          (h.read_chunk taddr (length dst))

  perform_one : (fuel : ℕ) → Tsi → InitAccess → h.State → Option h.State
  perform_one fuel t p s =
      if p.store
      then write_chunk fuel t p.address (le_bytes 4 p.stdata) s
      else and_then (read_chunk fuel t p.address (le_bytes 4 0) s) (λ r. r.0)

  -- `perform_init_accesses`
  unfoldable pub perform_init_accesses :
      (fuel : ℕ) → Tsi → List InitAccess → h.State → Option h.State
  unfolding perform_one
  perform_init_accesses fuel t [] s = some s
  perform_init_accesses fuel t (p ∷ ps) s = elim (perform_one fuel t p s) [
    | none ↦ none
    | some s' ↦ perform_init_accesses fuel t ps s'
  ]

  -- `reset`
  unfoldable pub reset : (fuel : ℕ) → Tsi → h.State → Option h.State
  reset fuel t s =
      and_then (perform_init_accesses fuel t t.init_accesses s)
        λ s'. if t.write_hart0_msip then h.reset s' else s'

-- `find(c) != npos`
abbrev pub has_char : ℕ → List ℕ → Bool
has_char c [] = false
has_char c (x ∷ xs) = if x == c then true else has_char c xs

-- An argument of the form -X…=….
unfoldable pub is_simv_opt : List ℕ → Bool
is_simv_opt str =
    ltb 1 (length str)
    && ((get_or str 0 0 == b'-') && (not (get_or str 1 0 == b'-') && has_char b'=' str))

-- `for (int i = idx; i < argc - 1; i++) argv[i] = argv[i + 1];` with `n` rounds left.
shift_down : (n i : ℕ) → List (List ℕ) → List (List ℕ)
shift_down zero i argv = argv
shift_down (suc n) i argv = shift_down n (suc i) (set argv i (get_or argv (suc i) []))

-- `while(idx < argc)`; `none` means that the fuel has run out.
remove_loop : (fuel idx argc : ℕ) → List (List ℕ) → Option (ℕ × List (List ℕ))
remove_loop zero idx argc argv = none
remove_loop (suc n) idx argc argv = elim (ltb idx argc) [
  | false ↦ some (argc, argv)
  | true ↦ elim (is_simv_opt (get_or argv idx [])) [
    | true ↦ remove_loop n idx (argc - 1) (shift_down (argc - 1 - idx) idx argv)
    | false ↦ remove_loop n (suc idx) argc argv
  ]
]

-- `remove_vcs_simv_opt`: the new count and the array. Each round either lowers `argc` or raises
-- `idx`, and one more finds that they are equal.
unfoldable pub remove_vcs_simv_opt : (argc : ℕ) → List (List ℕ) → Option (ℕ × List (List ℕ))
unfolding remove_loop shift_down is_simv_opt
remove_vcs_simv_opt argc argv = remove_loop (suc argc) 0 argc argv
