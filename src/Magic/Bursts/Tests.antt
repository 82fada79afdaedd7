-- ===== src/Magic/Bursts/Tests.antt =====
-- A write burst of two words, read back.
use thermal_placement.Base.{ℕ, zero, suc, ◌≡◌, refl, true, false, List, [], ◌∷◌, ok, arith}
use thermal_placement.Memory.Splice.{IsFull}
use thermal_placement.Axi.{Inputs}
use thermal_placement.Magic.{Magic, read_burst}
use thermal_placement.Magic.Bursts.{IsBeat, IsAddress}
use thermal_placement.Magic.Bursts.RoundTrip.{run-read_burst}
use thermal_placement.Magic.Tests.{small, cells, fresh, nothing, small-IsWellFormed}
use thermal_placement.Magic.Trace.{Seen, run}

abbrev address : Inputs
address = record nothing { aw_valid = true; aw_addr = 20; aw_id = 9; aw_size = 2; aw_len = 1 }

abbrev first : Inputs
first = record nothing { w_valid = true; w_strb = 15; w_last = false }

abbrev second : Inputs
second = record nothing { w_valid = true; w_strb = 15; w_data = 60 ∷ 61 ∷ 62 ∷ 63 ∷ [] }

all_lanes : IsFull 4 15
all_lanes zero h = refl
all_lanes (suc zero) h = refl
all_lanes (suc (suc zero)) h = refl
all_lanes (suc (suc (suc zero))) h = refl
all_lanes (suc (suc (suc (suc i)))) h = absurd (omega arith)

address-IsAddress : IsAddress small 1 2 address
address-IsAddress = record {
  live = refl;
  no_ar = refl;
  valid = refl;
  words = refl;
  sizes = omega arith;
  beats = refl;
  place = refl;
}

first-IsBeat : IsBeat 4 first
first-IsBeat = record { live = refl; no_ar = refl; valid = refl; width = refl; full = all_lanes }

second-IsBeat : IsBeat 4 second
second-IsBeat = record { live = refl; no_ar = refl; valid = refl; width = refl; full = all_lanes }

abbrev written : List ℕ
written = 0 ∷ 1 ∷ 2 ∷ 3 ∷ 50 ∷ 51 ∷ 52 ∷ 53 ∷ 60 ∷ 61 ∷ 62 ∷ 63 ∷ 12 ∷ 13 ∷ 14 ∷ 15 ∷ []

run-read_burst_example :
    (s' : Magic) × (mem' : List ℕ) × (all : Seen) × (run fresh cells (address ∷ first ∷ second ∷ [])
      ≡ ok (s', mem', all))
    × (mem' ≡ written)
    × (s'.store_inflight ≡ false)
    × (read_burst s'.mm mem' 21 3 1 []
        ≡ ok (
            record { id = 3; bytes = 50 ∷ 51 ∷ 52 ∷ 53 ∷ []; last = false }
            ∷ record { id = 3; bytes = 60 ∷ 61 ∷ 62 ∷ 63 ∷ []; last = true }
            ∷ []))
run-read_burst_example =
    run-read_burst fresh cells address (first ∷ second ∷ []) 1 21 3 1 small-IsWellFormed refl
      address-IsAddress (first-IsBeat, refl, (second-IsBeat, refl, tt)) refl (omega arith)
      (omega arith) (omega arith) refl
