-- ===== src/Memory.antt =====
-- mm.h and mm.cc, class mm_t: the byte memory behind both AXI memory models.
-- The buffer that `data` points to is shared by all channels at one base, so it is no field here but
-- an argument of each operation, which returns it anew. `assert` is taken to be enabled.
pub mod Write
pub mod Read
pub mod Splice
mod Tests
use thermal_placement.Base.{
  ℕ, zero, suc, ◌+◌, ◌*◌, ◌/◌, ◌%◌, ◌^◌, ◌≤◌, ◌<◌, ◌≡◌, Bool, true, false, List, Result, ok, err,
  ◌>>=◌, ◌>>◌, guard, or_fault, assertion, out_of_bounds, div_by_zero, ltb, leb, ◌==◌,
  if◌then◌else◌, length, get_elem?, set, take, drop, sub64, shl64,
}
use thermal_placement.Base.Bits.{and64}

-- The constants of an mm_t.
pub record Mm : Type 0 where
  pub mem_base : ℕ
  pub mem_size : ℕ
  pub word_size : ℕ
  pub line_size : ℕ

-- The constructor, over a buffer of `dat_size` bytes.
unfoldable pub init : (mem_base mem_size word_size line_size dat_size : ℕ) → Result Mm
init mem_base mem_size word_size line_size dat_size = do
  guard (dat_size == mem_size) assertion
  ok (record {
    mem_base = mem_base;
    mem_size = mem_size;
    word_size = word_size;
    line_size = line_size;
  })

-- The strobes that `write` honours: all of them for a transfer of 64 bytes, and otherwise those of
-- the `size` lanes from the lane of the address on.
lane_mask : Mm → (addr strb size : ℕ) → Result ℕ
lane_mask m addr strb size = if size == 64 then ok strb else (do
  one ← shl64 1 size
  lanes ← shl64 (sub64 one 1) (addr % m.word_size)
  ok (and64 strb lanes))

-- `base[i] = data[i]` under the strobe.
put_lane : Bool → List ℕ → (i base : ℕ) → List ℕ → Result (List ℕ)
put_lane false dat i base mem = ok mem
put_lane true dat i base mem = do
  b ← or_fault (get_elem? dat i) out_of_bounds
  guard (ltb (base + i) (length mem)) out_of_bounds
  ok (set mem (base + i) b)

-- The loop over the lanes of a word, with `n` lanes left.
write_lanes : (n i strb : ℕ) → List ℕ → (base : ℕ) → List ℕ → Result (List ℕ)
write_lanes zero i strb dat base mem = ok mem
write_lanes (suc n) i strb dat base mem = do
  mem' ← put_lane (strb % 2 == 1) dat i base mem
  write_lanes n (suc i) (strb / 2) dat base mem'

-- `mm_t::write`. A division by a word size of 0 traps.
unfoldable pub write : Mm → List ℕ → (faddr : ℕ) → List ℕ → (strb size : ℕ) → Result (List ℕ)
unfolding lane_mask put_lane write_lanes
write m mem faddr dat strb size = do
  let addr = sub64 faddr m.mem_base
  guard (ltb addr m.mem_size) assertion
  guard (leb size 64) assertion
  guard (ltb 0 m.word_size) div_by_zero
  lanes ← lane_mask m addr strb size
  write_lanes m.word_size 0 lanes dat (addr / m.word_size * m.word_size) mem

-- `mm_t::read`: one word from any byte address, aligned or not.
unfoldable pub read : Mm → List ℕ → (faddr : ℕ) → Result (List ℕ)
read m mem faddr = do
  let addr = sub64 faddr m.mem_base
  guard (ltb addr m.mem_size) assertion
  guard (leb (addr + m.word_size) (length mem)) out_of_bounds
  ok (take m.word_size (drop addr mem))

-- A memory as the harness configures it: a buffer of `mem_size` bytes, cut into whole words of at
-- most 64 bytes, at a base that starts a word.
pub record IsWellFormed (m : Mm) (mem : List ℕ) : Type 0 where
  pub word_pos : 0 < m.word_size
  pub word_small : m.word_size ≤ 64
  pub buffer : length mem ≡ m.mem_size
  pub whole_words : m.mem_size % m.word_size ≡ 0
  pub aligned_base : m.mem_base % m.word_size ≡ 0
  pub base_fits : m.mem_base + m.mem_size ≤ 2 ^ 64
