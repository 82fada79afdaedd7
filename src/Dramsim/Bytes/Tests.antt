-- ===== src/Dramsim/Bytes/Tests.antt =====
-- The last word of a burst, written to a timed and to an immediate memory.
use thermal_placement.Base.{ℕ, ◌≡◌, refl, true, false, List, [], ◌∷◌, ok}
use thermal_placement.Memory.{write}
use thermal_placement.Base.Bits.{and64}
use thermal_placement.Axi.{Inputs, Store, beat}
use thermal_placement.Magic
use thermal_placement.Magic.{Magic, write_beat, finish}
use thermal_placement.Dramsim.{Dram, put_queue, tick}
use thermal_placement.Dramsim.Bytes.{tick-same_bytes}
use thermal_placement.Dramsim.Tests.{fifo, small, waiting, cells, start_write}

abbrev storing : Store
storing = record {
  store_inflight = true;
  store_addr = 16;
  store_id = 0;
  store_size = 4;
  store_count = 1;
}

abbrev done : Store
done = record storing { store_inflight = false; store_addr = 20; store_count = 0 }

abbrev timed : Dram fifo
timed = record waiting { state = []; store = storing; rreq_queue = [] }

abbrev immediate : Magic
immediate = record { mm = small; store = storing; bresp = []; rresp = []; cycle = 0 }

abbrev last_word : Inputs
last_word = record start_write {
  ar_valid = false;
  aw_valid = false;
  w_valid = true;
  r_ready = false;
  b_ready = false;
}

abbrev bytes : List ℕ
bytes = 50 ∷ 51 ∷ 52 ∷ 53 ∷ 4 ∷ 5 ∷ 6 ∷ 7 ∷ []

abbrev timed_after : Dram fifo
timed_after = record timed {
  store = done;
  tables = record timed.tables {
    bresp = 0 ∷ [];
    wreq = put_queue (put_queue timed.tables.wreq 20 (0 ∷ [])) 20 [];
  };
  cycle = 6;
}

abbrev immediate_after : Magic
immediate_after = record immediate { store = done; bresp = 0 ∷ []; cycle = 1 }

timed_ticks : tick fifo timed cells last_word ≡ ok (timed_after, bytes)
unfolding tick beat write and64
timed_ticks = refl

immediate_ticks : Magic.tick immediate cells last_word ≡ ok (immediate_after, bytes)
unfolding Magic.tick write_beat beat write and64
immediate_ticks = refl

tick-same_bytes_example : (bytes ≡ bytes) × (immediate_after.store ≡ timed_after.store)
tick-same_bytes_example =
    tick-same_bytes fifo timed timed_after immediate immediate_after cells bytes bytes last_word
      refl refl refl immediate_ticks timed_ticks
