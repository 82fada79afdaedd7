-- ===== src/Simdram.antt =====
-- SimDRAM.cc, memory_init: the buffers behind the memories, one for each chip and base address, and
-- the memory that is made over a buffer. Numbers of chips are natural.
pub mod Sharing
pub mod Inits
pub mod Tick
mod Tests
use thermal_placement.Base.{
  ℕ, zero, suc, ◌+◌, ◌-◌, ◌*◌, ◌/◌, ◌%◌, ◌^◌, Bool, true, false, not, ◌&&◌, ◌||◌, List, [], ◌∷◌,
  ◌++◌, Option, none, some, Result, ok, err, ◌>>=◌, ◌>>◌, guard, or_fault, aborted, assertion,
  out_of_bounds, bad_shift, ltb, leb, ◌==◌, if◌then◌else◌, length, get_elem?, set, take, drop,
  replicate, sub64, one_shl_int,
}
use thermal_placement.Base.Text.{codes, starts_with, same_text}
use thermal_placement.Memory
use thermal_placement.Axi.{Store}
use thermal_placement.Magic
use thermal_placement.Dramsim
use thermal_placement.Dramsim.Interface.{System}

-- `backing_data_t`; `data` is the place of the buffer among the buffers mapped.
pub record Backing : Type 0 where
  pub data_at : ℕ
  pub size : ℕ

-- `std::map<long long int, backing_data_t>`
abbrev pub Bases : Type 0
Bases = ℕ → Option Backing

-- The globals, and the buffers mapped so far.
pub record Globals : Type 0 where
  pub use_dramsim : Bool
  pub loadmem_file : List ℕ
  pub backing_mem_data : List Bases
  pub buffers : List (List ℕ)

-- What memory_init takes from fesvr and DRAMSim2: the writes that `load_elf` makes for a file, and a
-- memory system for a configuration directory, a size in MiB and a clock.
pub record Libraries : Type 1 where
  pub load_elf : (file : List ℕ) → List (ℕ × List ℕ)
  pub dramsim : System
  pub instance_of : (ini_dir : List ℕ) → (mib clock_hz : ℕ) → System.State dramsim

abbrev pub no_bases : Bases
no_bases = λ b. none

-- `while (chip_id >= backing_mem_data.size())` with `n` rounds left.
push_maps : (n : ℕ) → List Bases → List Bases
push_maps zero maps = maps
push_maps (suc n) maps = push_maps n (maps ++ no_bases ∷ [])

-- `loadmem_memif_t::write`, for each write of the loader.
load_chunks : (start : ℕ) → List (ℕ × List ℕ) → List ℕ → Result (List ℕ)
load_chunks start [] buf = ok buf
load_chunks start ((taddr, src) ∷ rest) buf = do
  let addr = sub64 taddr start
  guard (leb (addr + length src) (length buf)) out_of_bounds
  load_chunks start rest (take addr buf ++ (src ++ drop (addr + length src) buf))

abbrev pub chunks_of : Libraries → List ℕ → List (ℕ × List ℕ)
chunks_of lib [] = []
chunks_of lib (c ∷ cs) = lib.load_elf (c ∷ cs)

-- The `else` branch: a new buffer of zeros, loaded when there is a file to load.
map_buffer :
    Libraries → (chip_id mem_base mem_size : ℕ) → Bases → Globals → Result (Globals × Backing)
map_buffer lib chip_id mem_base mem_size bases g = do
  let zeros = replicate mem_size 0
  buf ← load_chunks mem_base (chunks_of lib g.loadmem_file) zeros
  let made : Backing = record { data_at = length g.buffers; size = mem_size }
  ok (
    record g {
      backing_mem_data =
          set g.backing_mem_data chip_id (λ b. if b == mem_base then some made else bases b);
      buffers = g.buffers ++ buf ∷ [];
    },
    made,
  )

find_or_map :
    Option Backing
    → Libraries
    → (chip_id mem_base mem_size : ℕ) → Bases
    → Globals
    → Result (Globals × Backing)
unfolding map_buffer load_chunks
find_or_map (some found) lib chip_id mem_base mem_size bases g = do
  guard (found.size == mem_size) assertion
  ok (g, found)
find_or_map none lib chip_id mem_base mem_size bases g =
    map_buffer lib chip_id mem_base mem_size bases g

-- From the `while` to the end of the `else` branch.
unfoldable pub back :
    Libraries → (chip_id mem_base mem_size : ℕ) → Globals → Result (Globals × Backing)
unfolding push_maps find_or_map load_chunks map_buffer
back lib chip_id mem_base mem_size g = do
  let maps = push_maps (suc chip_id - length g.backing_mem_data) g.backing_mem_data
  bases ← or_fault (get_elem? maps chip_id) out_of_bounds
  find_or_map (bases mem_base) lib chip_id mem_base mem_size bases
      (record g { backing_mem_data = maps })

abbrev dramsim_flag : List ℕ
dramsim_flag = codes "+dramsim"

abbrev ini_dir_flag : List ℕ
ini_dir_flag = codes "+dramsim_ini_dir="

abbrev loadmem_flag : List ℕ
loadmem_flag = codes "+loadmem="

-- One round of the loop over the arguments.
scan_arg : List ℕ → Globals × List ℕ → Globals × List ℕ
scan_arg arg (g, ini_dir) = (
  record g {
    use_dramsim = g.use_dramsim || same_text arg dramsim_flag;
    loadmem_file =
        if starts_with loadmem_flag arg then drop (length loadmem_flag) arg else g.loadmem_file;
  },
  if starts_with ini_dir_flag arg then drop (length ini_dir_flag) arg else ini_dir,
)

scan_args : List (List ℕ) → Globals × List ℕ → Globals × List ℕ
scan_args [] settings = settings
scan_args (arg ∷ args) settings = scan_args args (scan_arg arg settings)

abbrev pub default_ini_dir : List ℕ
default_ini_dir = codes "dramsim2_ini"

-- The arguments of memory_init.
pub record Request : Type 0 where
  pub chip_id : ℕ
  pub mem_size : ℕ
  pub word_size : ℕ
  pub line_size : ℕ
  pub id_bits : ℕ
  pub clock_hz : ℕ
  pub mem_base : ℕ
  pub addr_bits : ℕ

-- The memory made.
pub data Made (d : System) : Type 0 where
  immediate : Magic.Magic → Made d
  timed : Dramsim.Dram d → Made d

-- `if (use_dramsim) … else …`; the members without an initial value are `garbage`. A shift of 1 into
-- the sign bit of the int is taken as a fault.
make :
    (lib : Libraries)
    → (use_dramsim : Bool) → Memory.Mm
    → Request
    → (ini_dir : List ℕ) → (garbage : Store × ℕ) → Result (Made lib.dramsim)
unfolding Dramsim.init
make lib true m r ini_dir garbage = do
  guard (ltb r.id_bits 31) bad_shift
  made ←
      Dramsim.init lib.dramsim m (lib.instance_of ini_dir (r.mem_size / (1024 * 1024)) r.clock_hz)
        (2 ^ r.id_bits) garbage.0 garbage.1
  ok (timed made)
make lib false m r ini_dir garbage = ok (immediate (Magic.init m garbage.0 garbage.1))

-- `mem_base & mem_base_mask`
abbrev pub masked : Request → ℕ
masked r = r.mem_base % 2 ^ r.addr_bits

abbrev pub arguments : List (List ℕ) → List (List ℕ)
arguments [] = []
arguments (program ∷ args) = args

-- `memory_init`: the globals after it, the buffer used and the memory made.
unfoldable pub memory_init :
    (lib : Libraries)
    → (argv : Option (List (List ℕ))) → (garbage : Store × ℕ) → Request
    → Globals
    → Result (Globals × Backing × Made lib.dramsim)
unfolding scan_args scan_arg make
memory_init lib argv garbage r g = do
  guard (ltb r.addr_bits 64) bad_shift
  args ← or_fault argv aborted
  let settings = scan_args (arguments args) (g, default_ini_dir)
  (g', found) ← back lib r.chip_id (masked r) r.mem_size settings.0
  m ← Memory.init (masked r) r.mem_size r.word_size r.line_size found.size
  made ← make lib g'.use_dramsim m r settings.1 garbage
  ok (g', found, made)
