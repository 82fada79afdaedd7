-- ===== src/Dramsim/Hold/Tests.antt =====
-- A write completes while older responses wait.
use thermal_placement.Base.{◌≡◌, refl, true, false, [], ◌∷◌, ok, if◌then◌else◌, ◌==◌}
use thermal_placement.Axi.{Inputs}
use thermal_placement.Dramsim.{Dram, r_valid, r_id, r_data, r_last, tick, put_queue}
use thermal_placement.Dramsim.Hold.{tick_keeps_beat}
use thermal_placement.Dramsim.Tests.{fifo, waiting, cells, start_write}

-- Read id 0 has been answered by one beat, write id 1 too; write id 0 is out.
abbrev answered : Dram fifo
answered = record waiting {
  state = record { is_write = true; address = 16 } ∷ [];
  tables = record {
    bresp = 1 ∷ [];
    wreq = λ a. if a == 16 then 0 ∷ [] else [];
    rreq = λ a. [];
    rresp = record { id = 0; bytes = 0 ∷ 1 ∷ 2 ∷ 3 ∷ []; last = true } ∷ [];
    read_id_busy = false ∷ false ∷ [];
    write_id_busy = true ∷ false ∷ [];
  };
  rreq_queue = [];
}

abbrev stalled : Inputs
stalled = record start_write {
  ar_valid = false;
  aw_valid = false;
  r_ready = false;
  b_ready = false;
}

abbrev after : Dram fifo
after = record answered {
  state = [];
  tables = record answered.tables {
    bresp = 1 ∷ 0 ∷ [];
    wreq = put_queue answered.tables.wreq 16 [];
    write_id_busy = false ∷ false ∷ [];
  };
  cycle = 6;
}

ticked : tick fifo answered cells stalled ≡ ok (after, cells)
unfolding tick
ticked = refl

tick_keeps_beat_example :
    (r_valid fifo after ≡ true)
    × (r_id fifo after ≡ r_id fifo answered)
    × (r_data fifo after cells ≡ r_data fifo answered cells)
    × (r_last fifo after ≡ r_last fifo answered)
tick_keeps_beat_example =
    tick_keeps_beat fifo answered after cells cells stalled ticked refl refl refl
