-- ===== src/Dramsim/Bursts/Tests.antt =====
-- The oldest read at address 16 completes: two beats are pushed and its id is free again.
use thermal_placement.Base.{◌≡◌, refl, true, false, List, [], ◌∷◌, ok, arith, set}
use thermal_placement.Memory.{read}
use thermal_placement.Axi.{RResp}
use thermal_placement.Magic.{read_burst}
use thermal_placement.Dramsim.{put_queue, complete_as}
use thermal_placement.Dramsim.Bursts.{complete-read_burst}
use thermal_placement.Dramsim.Tests.{small, cells, tables}

abbrev beats : List RResp
beats =
    record { id = 0; bytes = 0 ∷ 1 ∷ 2 ∷ 3 ∷ []; last = false }
    ∷ record { id = 0; bytes = 4 ∷ 5 ∷ 6 ∷ 7 ∷ []; last = true }
    ∷ []

pushed : read_burst small cells 16 0 1 [] ≡ ok beats
unfolding read_burst read
pushed = refl

complete-read_burst_example :
    complete_as false small cells 16 tables
    ≡ ok (record tables {
      rreq = put_queue tables.rreq 16 [];
      rresp = beats;
      read_id_busy = set tables.read_id_busy 0 false;
    })
complete-read_burst_example =
    complete-read_burst small cells tables 16 4 0 1 16 [] beats refl (omega arith) (omega arith)
      (omega arith) pushed
