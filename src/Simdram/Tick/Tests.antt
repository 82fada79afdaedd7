-- ===== src/Simdram/Tick/Tests.antt =====
-- A memory with DRAMSim2's timing and an immediate one over the same eight bytes.
use thermal_placement.Base.{
  ℕ, ◌%◌, ◌<◌, err, out_of_bounds, ◌≡◌, refl, true, List, [], ◌∷◌, some, ok, All, arith,
}
use thermal_placement.Base.Ints.{pos, negsuc, to_u64}
use thermal_placement.Magic.{Magic}
use thermal_placement.Magic.Ticks
use thermal_placement.Magic.Ticks.{IsGood}
use thermal_placement.Dramsim.Ticks.{IsLegal}
use thermal_placement.Dramsim.Tests.{
  fifo, fifo-IsAccountable, small, cells, waiting, waiting-IsAccounted, start_write-IsLegal,
  small-IsWellFormed,
}
use thermal_placement.Simdram.{Backing, Made, immediate, timed}
use thermal_placement.Simdram.Tick.{
  Simulator, Call, Reply, word_of, put_words, put_elems, inputs, memory_tick,
}
use thermal_placement.Simdram.Tick.Elems.{IsByteArray}
use thermal_placement.Simdram.Tick.Served.{IsServed}
use thermal_placement.Simdram.Tick.Shared.{IsHeld, memory_tick-IsHeld}
use thermal_placement.Base.Bits.{bit_at}
use thermal_placement.Simdram.Tick.Strobes.{inputs-strobes}
use thermal_placement.Simdram.Tick.Answer.{memory_tick-reads}

abbrev found : Backing
found = record { data_at = 0; size = 8 }

abbrev word : List ℕ
word = 50 ∷ 51 ∷ 52 ∷ 53 ∷ []

-- A simulation by Verilator, with three bytes behind the read data.
abbrev verilated : Simulator
verilated = record {
  verilator = true;
  put_word = λ v. v % 256;
  put_byte = λ v. v % 256;
  behind = 9 ∷ 9 ∷ 9 ∷ [];
}

verilated-IsByteArray : IsByteArray verilated
verilated-IsByteArray = record { words = λ v. refl; bytes = λ v. refl }

puts_word : put_elems verilated 4 word ≡ ok word
unfolding put_elems put_words word_of
puts_word = refl

overruns_word : put_elems (record verilated { behind = [] }) 4 word ≡ err out_of_bounds
unfolding put_elems put_words word_of
overruns_word = refl

-- A read of the word at 16 and the address of a write at 20.
abbrev call : Call
call = record {
  reset = 0;
  ar_valid = 1;
  ar_addr = pos 16;
  ar_id = pos 1;
  ar_size = pos 2;
  ar_len = pos 0;
  aw_valid = 1;
  aw_addr = pos 20;
  aw_id = pos 1;
  aw_size = pos 2;
  aw_len = pos 0;
  w_valid = 0;
  w_strb = pos 15;
  w_data = some 50 ∷ some 51 ∷ some 52 ∷ some 53 ∷ [];
  w_last = 1;
  r_ready = 1;
  b_ready = 1;
  r_data_bytes = 4;
}

abbrev idle : Magic
idle = record { mm = small; store = waiting.store; bresp = []; rresp = []; cycle = 0 }

idle-IsGood : IsGood idle cells
idle-IsGood = record {
  memory = small-IsWellFormed;
  tracked = record { to_come = λ h. cc; is_word = omega arith; sized = λ h. cc };
}

idle-IsServed : IsServed fifo fifo-IsAccountable 2 (immediate idle) cells
idle-IsServed = record { settled = idle-IsGood; widths = tt }

waiting-IsServed : IsServed fifo fifo-IsAccountable 2 (timed waiting) cells
waiting-IsServed = record { settled = waiting-IsAccounted; widths = tt }

call-IsLegal : IsLegal fifo 2 waiting (inputs call word)
unfolding to_u64
call-IsLegal = start_write-IsLegal

memory_tick-IsHeld_example :
    (made' : Made fifo) × (buffers' : List (List ℕ)) × (reply : Reply) × (memory_tick verilated fifo
        found
        (timed waiting)
        (cells ∷ [])
        call
      ≡ ok (made', buffers', reply))
    × IsHeld fifo fifo-IsAccountable 2 buffers' (found, made')
    × All (IsHeld fifo fifo-IsAccountable 2 buffers') ((found, immediate idle) ∷ [])
memory_tick-IsHeld_example =
    memory_tick-IsHeld verilated fifo fifo-IsAccountable 2 found (timed waiting) (cells ∷ []) call
      word ((found, immediate idle) ∷ []) (omega arith) (cells, refl, omega arith, waiting-IsServed)
      refl (omega arith) call-IsLegal ((cells, refl, omega arith, idle-IsServed), tt)

-- The id is negative, the address is that of a byte inside the second word.
abbrev odd_call : Call
odd_call = record call { ar_addr = pos 21; ar_id = negsuc 2 }

odd_call-IsLegal : Ticks.IsLegal idle (inputs odd_call word)
unfolding to_u64
odd_call-IsLegal = record {
  reads = λ h. omega arith;
  sizes = omega arith;
  lengths = omega arith;
  writes = λ h. cc;
  words = omega arith;
  marks = λ h. cc;
}

cells-AreBytes : All (λ b. b < 256) cells
cells-AreBytes = (
  omega arith,
  (
    omega arith,
    (omega arith, (omega arith, (omega arith, (omega arith, (omega arith, (omega arith, tt)))))),
  ),
)

memory_tick-reads_example :
    (made' : Made fifo) × (buffers' : List (List ℕ)) × (reply : Reply) × (memory_tick verilated fifo
        found
        (immediate idle)
        (cells ∷ [])
        odd_call
      ≡ ok (made', buffers', reply))
    × (reply.r_valid ≡ 1)
    × (reply.r_id ≡ negsuc 2)
    × (reply.r_last ≡ 1)
    × (reply.r_data ≡ 4 ∷ 5 ∷ 6 ∷ 7 ∷ [])
unfolding to_u64
memory_tick-reads_example =
    memory_tick-reads verilated fifo fifo-IsAccountable found idle (cells ∷ []) cells odd_call word
      (omega arith) verilated-IsByteArray cells-AreBytes refl (omega arith) idle-IsGood refl refl
      refl odd_call-IsLegal refl refl (omega arith)

-- Only lane 31 is meant to be written.
abbrev wide_call : Call
wide_call = record call { w_strb = negsuc 2147483647 }

inputs-strobes_example : bit_at (inputs wide_call word).w_strb 40 ≡ true
unfolding to_u64
inputs-strobes_example = inputs-strobes wide_call word 40 (omega arith) (omega arith)
