-- ===== src/Simdram/Tests.antt =====
-- Calls of memory_init at concrete inputs.
use thermal_placement.Base.{
  ℕ, ◌+◌, ◌==◌, if◌then◌else◌, ◌≡◌, refl, true, false, List, [], ◌∷◌, Option, none, some, ok,
  get_elem?,
}
use thermal_placement.Memory
use thermal_placement.Magic
use thermal_placement.Axi.{Store}
use thermal_placement.Dramsim.Interface.{System}
use thermal_placement.Simdram.{
  Backing, Globals, Libraries, Request, Made, immediate, load_chunks, back, scan_args, scan_arg,
  make, memory_init,
}
use thermal_placement.Simdram.Inits.{run_inits, memory_init-shares}

abbrev idle : System
idle = record { State = ℕ; will_accept = λ s. false; add = λ w a s. s; update = λ s. (s, []) }

-- The loader writes two bytes behind the start of the memory.
abbrev libraries : Libraries
libraries = record {
  load_elf = λ file. (9, 7 ∷ 8 ∷ []) ∷ [];
  dramsim = idle;
  instance_of = λ ini mib clock. 0;
}

abbrev garbage : Store × ℕ
garbage = (
  record { store_inflight = true; store_addr = 1; store_id = 2; store_size = 3; store_count = 4 },
  5,
)

abbrev start : Globals
start = record {
  use_dramsim = false;
  loadmem_file = b'p' ∷ [];
  backing_mem_data = [];
  buffers = [];
}

-- Four bytes at 8; the upper bits of the base address are masked off.
abbrev small : Request
small = record {
  chip_id = 0;
  mem_size = 4;
  word_size = 2;
  line_size = 64;
  id_bits = 1;
  clock_hz = 1;
  mem_base = 16 + 8;
  addr_bits = 4;
}

abbrev on_chip : ℕ → Request
on_chip k = record small { chip_id = k }

abbrev first_backing : Backing
first_backing = record { data_at = 0; size = 4 }

abbrev bases_with : Backing → ℕ → Option Backing
bases_with b = λ k. if k == 8 then some b else none

abbrev after_first : Globals
after_first = record start {
  backing_mem_data = bases_with first_backing ∷ [];
  buffers = (0 ∷ 7 ∷ 8 ∷ 0 ∷ []) ∷ [];
}

abbrev after_other : Globals
after_other = record start {
  backing_mem_data = bases_with first_backing ∷ bases_with (record { data_at = 1; size = 4 }) ∷ [];
  buffers = (0 ∷ 7 ∷ 8 ∷ 0 ∷ []) ∷ (0 ∷ 7 ∷ 8 ∷ 0 ∷ []) ∷ [];
}

abbrev memory : Made idle
memory = immediate (
    Magic.init (record { mem_base = 8; mem_size = 4; word_size = 2; line_size = 64 }) garbage.0
      garbage.1)

inits_first :
    memory_init libraries (some []) garbage small start ≡ ok (after_first, first_backing, memory)
unfolding memory_init back load_chunks scan_args scan_arg make Memory.init
inits_first = refl

inits_other : run_inits libraries (some []) garbage (on_chip 1 ∷ []) after_first ≡ ok after_other
unfolding run_inits memory_init back Memory.init
inits_other = refl

inits_again :
    memory_init libraries (some []) garbage small after_other
    ≡ ok (after_other, first_backing, memory)
unfolding memory_init back Memory.init
inits_again = refl

memory_init-shares_example :
    (first_backing ≡ first_backing)
    × (after_other.buffers ≡ after_other.buffers)
    × ((j : ℕ) (buf : List ℕ)
        → get_elem? after_first.buffers j ≡ some buf
        → get_elem? after_other.buffers j ≡ some buf)
memory_init-shares_example =
    memory_init-shares libraries (some []) garbage small small (on_chip 1 ∷ []) start after_first
      after_other after_other first_backing first_backing inits_first inits_other inits_again refl
      refl
