-- ===== src/Magic/Tests.antt =====
-- A memory of four words at address 16 under a read burst, a write burst and a reset.
use thermal_placement.Base.{
  ℕ, ◌≤◌, ◌≡◌, refl, true, false, List, [], ◌∷◌, ◌++◌, some, ok, length, get_elem?, arith,
}
use thermal_placement.Memory.{Mm, IsWellFormed, read}
use thermal_placement.Axi.{Inputs, RResp, Store, accept}
use thermal_placement.Magic.{Magic, init, tick, read_burst, aw_ready, r_id, r_last, b_id}
use thermal_placement.Magic.Reads.{burst_beat, read_burst_lem}
use thermal_placement.Magic.Ticks.{IsGood, IsLegal, tick-IsGood}
use thermal_placement.Magic.Idle.{tick-reset, IsDraining}
use thermal_placement.Magic.Trace.{Seen, run}
use thermal_placement.Magic.Trace.Runs.{IsOrdered, run-IsOrdered}
use thermal_placement.Magic.Trace.Drain.{IsDrained, run-drain}

abbrev pub small : Mm
small = record { mem_base = 16; mem_size = 16; word_size = 4; line_size = 64 }

abbrev pub cells : List ℕ
cells = 0 ∷ 1 ∷ 2 ∷ 3 ∷ 4 ∷ 5 ∷ 6 ∷ 7 ∷ 8 ∷ 9 ∷ 10 ∷ 11 ∷ 12 ∷ 13 ∷ 14 ∷ 15 ∷ []

abbrev pub idle_store : Store
idle_store = record {
  store_inflight = false;
  store_addr = 0;
  store_id = 0;
  store_size = 0;
  store_count = 0;
}

abbrev pub fresh : Magic
fresh = record { mm = small; store = idle_store; bresp = []; rresp = []; cycle = 0 }

abbrev pub nothing : Inputs
nothing = record {
  reset = false;
  ar_valid = false;
  ar_addr = 0;
  ar_id = 0;
  ar_size = 0;
  ar_len = 0;
  aw_valid = false;
  aw_addr = 0;
  aw_id = 0;
  aw_size = 0;
  aw_len = 0;
  w_valid = false;
  w_strb = 0;
  w_data = 50 ∷ 51 ∷ 52 ∷ 53 ∷ [];
  w_last = true;
  r_ready = true;
  b_ready = true;
}

-- Two words from address 21 on, and the start of a write burst of one word at 24.
abbrev both : Inputs
both = record nothing {
  ar_valid = true;
  ar_addr = 21;
  ar_id = 3;
  ar_len = 1;
  aw_valid = true;
  aw_addr = 24;
  aw_id = 9;
  aw_size = 2;
}

-- The state after `both`.
abbrev busy : Magic
busy = record {
  mm = small;
  store = record {
    store_inflight = true;
    store_addr = 24;
    store_id = 9;
    store_size = 4;
    store_count = 1;
  };
  bresp = [];
  rresp =
      record { id = 3; bytes = 4 ∷ 5 ∷ 6 ∷ 7 ∷ []; last = false }
      ∷ record { id = 3; bytes = 8 ∷ 9 ∷ 10 ∷ 11 ∷ []; last = true }
      ∷ [];
  cycle = 1;
}

init_is_idle : init small (record idle_store { store_inflight = true }) 0 ≡ fresh
unfolding init
init_is_idle = refl

tick_starts_both : tick fresh cells both ≡ ok (busy, cells)
unfolding tick read_burst accept read
tick_starts_both = refl

outputs : (r_id busy ≡ 3) × (r_last busy ≡ false) × (b_id busy ≡ 0)
unfolding r_id r_last b_id
outputs = (refl, refl, refl)

pub small-IsWellFormed : IsWellFormed small cells
small-IsWellFormed = omega arith

fresh-IsGood : IsGood fresh cells
fresh-IsGood = record {
  memory = small-IsWellFormed;
  tracked = record { to_come = λ h. cc; is_word = omega arith; sized = λ h. cc };
}

busy-IsGood : IsGood busy cells
busy-IsGood = record {
  memory = small-IsWellFormed;
  tracked = record { to_come = λ h. omega arith; is_word = omega arith; sized = λ h. omega arith };
}

both-IsLegal : IsLegal fresh both
both-IsLegal = record {
  reads = λ h. omega arith;
  sizes = omega arith;
  lengths = omega arith;
  writes = λ h. cc;
  words = omega arith;
  marks = λ h. cc;
}

read_burst_lem_example :
    (bs : List RResp) × (read_burst small cells 21 3 1 [] ≡ ok ([] ++ bs))
    × (length bs ≡ 2)
    × ((k : ℕ) → k ≤ 1 → get_elem? bs k ≡ some (burst_beat small cells 4 3 1 k))
read_burst_lem_example = read_burst_lem small cells 21 3 1 [] small-IsWellFormed (omega arith)

tick-IsGood_example :
    (s' : Magic) × (mem' : List ℕ) × (tick fresh cells both ≡ ok (s', mem')) × IsGood s' mem'
tick-IsGood_example = tick-IsGood fresh cells both fresh-IsGood both-IsLegal

run-IsOrdered_example :
    (s' : Magic) × (mem' : List ℕ) × (all : Seen) × (run fresh cells (both ∷ [])
      ≡ ok (s', mem', all))
    × IsGood s' mem'
    × IsOrdered fresh (both ∷ []) s' all
run-IsOrdered_example =
    run-IsOrdered fresh cells (both ∷ []) fresh-IsGood (both-IsLegal, λ s' mem' e. tt) (refl, tt)

tick-reset_example :
    (s' : Magic) × (tick busy cells (record nothing { reset = true }) ≡ ok (s', cells))
    × (s'.bresp ≡ [])
    × (s'.rresp ≡ [])
    × (s'.cycle ≡ 0)
    × (s'.store ≡ busy.store)
    × (aw_ready s' ≡ false)
tick-reset_example = tick-reset busy cells (record nothing { reset = true }) refl

nothing-IsDraining : IsDraining nothing
nothing-IsDraining = record {
  live = refl;
  no_ar = refl;
  no_aw = refl;
  no_w = refl;
  takes_r = refl;
  takes_b = refl;
}

run-drain_example :
    (s' : Magic) × (all : Seen) × (run busy cells (nothing ∷ nothing ∷ []) ≡ ok (s', cells, all))
    × IsDrained busy s' all
run-drain_example =
    run-drain busy cells (nothing ∷ nothing ∷ []) (nothing-IsDraining, (nothing-IsDraining, tt))
      (omega arith) (omega arith)
