-- ===== src/Simdram/Tick.antt =====
-- SimDRAM.cc, memory_tick: a clock cycle of a memory, in the integer types of the simulator.
pub mod Elems
pub mod Served
pub mod Shared
pub mod Strobes
pub mod Answer
mod Tests
use thermal_placement.Base.{
  ℕ, zero, suc, ◌+◌, Bool, true, false, not, List, [], ◌∷◌, Option, none, some, Result, ok, err,
  ◌>>=◌, ◌>>◌, guard, or_fault, assertion, out_of_bounds, leb, ◌==◌, if◌then◌else◌, length,
  get_elem?, set, take, drop, map, ◌*◌, ◌^◌, ◌++◌,
}
use thermal_placement.Base.Ints.{ℤ, pos, negsuc, to_u64, to_int}
use thermal_placement.Axi.{Inputs}
use thermal_placement.Magic
use thermal_placement.Dramsim
use thermal_placement.Dramsim.Interface.{System}
use thermal_placement.Simdram.{Backing, Made, immediate, timed}

-- The values that memory_tick is given: flags are unsigned char, addresses long long and the other
-- numbers int. `w_data` has the elements of the open array, `none` where svGetArrElemPtr1 gives no
-- address; `r_data_bytes` is svSize of the other one.
pub record Call : Type 0 where
  pub reset : ℕ
  pub ar_valid : ℕ
  pub ar_addr : ℤ
  pub ar_id : ℤ
  pub ar_size : ℤ
  pub ar_len : ℤ
  pub aw_valid : ℕ
  pub aw_addr : ℤ
  pub aw_id : ℤ
  pub aw_size : ℤ
  pub aw_len : ℤ
  pub w_valid : ℕ
  pub w_strb : ℤ
  pub w_data : List (Option ℕ)
  pub w_last : ℕ
  pub r_ready : ℕ
  pub b_ready : ℕ
  pub r_data_bytes : ℕ

-- The values that it leaves in the variables of the simulator.
pub record Reply : Type 0 where
  pub ar_ready : ℕ
  pub aw_ready : ℕ
  pub w_ready : ℕ
  pub r_valid : ℕ
  pub r_id : ℤ
  pub r_resp : ℤ
  pub r_data : List ℕ
  pub r_last : ℕ
  pub b_valid : ℕ
  pub b_id : ℤ
  pub b_resp : ℤ

-- The conversions between bool and unsigned char.
abbrev pub truth : ℕ → Bool
truth n = not (n == 0)

abbrev pub char_of : Bool → ℕ
char_of b = if b then 1 else 0

-- The loop that copies the array.
pub copy_elems : List (Option ℕ) → Result (List ℕ)
copy_elems [] = ok []
copy_elems (e ∷ es) = do b ← or_fault e assertion; bs ← copy_elems es; ok (b ∷ bs)

-- The arguments of `tick`, converted to its types.
abbrev pub inputs : Call → (w_data_arr : List ℕ) → Inputs
inputs c w_data_arr = record {
  reset = truth c.reset;
  ar_valid = truth c.ar_valid;
  ar_addr = to_u64 c.ar_addr;
  ar_id = to_u64 c.ar_id;
  ar_size = to_u64 c.ar_size;
  ar_len = to_u64 c.ar_len;
  aw_valid = truth c.aw_valid;
  aw_addr = to_u64 c.aw_addr;
  aw_id = to_u64 c.aw_id;
  aw_size = to_u64 c.aw_size;
  aw_len = to_u64 c.aw_len;
  w_valid = truth c.w_valid;
  w_strb = to_u64 c.w_strb;
  w_data = w_data_arr;
  w_last = truth c.w_last;
  r_ready = truth c.r_ready;
  b_ready = truth c.b_ready;
}

-- The simulator: whether VERILATOR is defined, and what an element of the open array holds after
-- svPutBitArrElemVecVal has been given a word or svPutBitArrElem a byte. `behind` has the bytes of
-- the program's memory that can be read behind the read data. Verilator's branch reads some of them,
-- which C++ leaves undefined: here it finds these bytes, and a read past them is out of bounds.
pub record Simulator : Type 0 where
  pub verilator : Bool
  pub put_word : ℕ → ℕ
  pub put_byte : ℕ → ℕ
  pub behind : List ℕ

-- The uint32_t at an address, on a host that stores the lowest byte first.
pub word_of : List ℕ → Result ℕ
word_of (b₀ ∷ b₁ ∷ b₂ ∷ b₃ ∷ dat) = ok (b₀ + 2 ^ 8 * b₁ + 2 ^ 16 * b₂ + 2 ^ 24 * b₃)
word_of _ = err out_of_bounds

-- The loop over the elements, as Verilator has it: each is given the word that starts at its byte.
pub put_words : (put_word : ℕ → ℕ) → (r_data_bytes : ℕ) → List ℕ → Result (List ℕ)
put_words put_word zero dat = ok []
put_words put_word (suc n) dat = do
  w ← word_of dat
  elems ← put_words put_word n (drop 1 dat)
  ok (put_word w ∷ elems)

-- The loop in the other branch.
pub put_bytes : (put_byte : ℕ → ℕ) → (r_data_bytes : ℕ) → List ℕ → Result (List ℕ)
put_bytes put_byte r_data_bytes dat = do
  guard (leb r_data_bytes (length dat)) out_of_bounds
  ok (map put_byte (take r_data_bytes dat))

-- `dat` has the bytes that `mm->r_data()` points to.
pub put_elems : Simulator → (r_data_bytes : ℕ) → List ℕ → Result (List ℕ)
unfolding put_words put_bytes
put_elems sim r_data_bytes dat =
    if sim.verilator
    then put_words sim.put_word r_data_bytes (dat ++ sim.behind)
    else put_bytes sim.put_byte r_data_bytes (dat ++ sim.behind)

module _ (d : System) where
  -- `mm->tick`
  pub dispatch_tick : Made d → List ℕ → Inputs → Result (Made d × List ℕ)
  dispatch_tick (immediate s) mem x = do (s', mem') ← Magic.tick s mem x; ok (immediate s', mem')
  dispatch_tick (timed s) mem x = do (s', mem') ← Dramsim.tick d s mem x; ok (timed s', mem')

module _ (sim : Simulator) (d : System) where
  -- What is read after the tick.
  pub outputs : Made d → List ℕ → (r_data_bytes : ℕ) → Result Reply
  unfolding put_elems
  outputs (immediate s) mem r_data_bytes = do
    elems ← put_elems sim r_data_bytes (Magic.r_data s mem)
    ok (record {
      ar_ready = char_of (Magic.ar_ready s);
      aw_ready = char_of (Magic.aw_ready s);
      w_ready = char_of (Magic.w_ready s);
      r_valid = char_of (Magic.r_valid s);
      r_id = to_int (Magic.r_id s);
      r_resp = to_int 0;
      r_data = elems;
      r_last = char_of (Magic.r_last s);
      b_valid = char_of (Magic.b_valid s);
      b_id = to_int (Magic.b_id s);
      b_resp = to_int 0;
    })
  outputs (timed s) mem r_data_bytes = do
    elems ← put_elems sim r_data_bytes (Dramsim.r_data d s mem)
    ok (record {
      ar_ready = char_of (Dramsim.ar_ready d s);
      aw_ready = char_of (Dramsim.aw_ready d s);
      w_ready = char_of (Dramsim.w_ready d s);
      r_valid = char_of (Dramsim.r_valid d s);
      r_id = to_int (Dramsim.r_id d s);
      r_resp = to_int 0;
      r_data = elems;
      r_last = char_of (Dramsim.r_last d s);
      b_valid = char_of (Dramsim.b_valid d s);
      b_id = to_int (Dramsim.b_id d s);
      b_resp = to_int 0;
    })

  -- `memory_tick` for the memory `made` over the buffer `found`: the memory, the buffers and the
  -- simulator's variables after it.
  unfoldable pub memory_tick :
      Backing → Made d → (buffers : List (List ℕ)) → Call → Result (Made d × List (List ℕ) × Reply)
  unfolding copy_elems dispatch_tick outputs
  memory_tick found made buffers c = do
    w_data_arr ← copy_elems c.w_data
    mem ← or_fault (get_elem? buffers found.data_at) out_of_bounds
    (made', mem') ← dispatch_tick d made mem (inputs c w_data_arr)
    reply ← outputs made' mem' c.r_data_bytes
    ok (made', set buffers found.data_at mem', reply)
