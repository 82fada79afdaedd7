-- ===== src/Tsi/Serial.antt =====
-- SimTSI.cc, tsi_tick: the hosts of the chips and the calls that drive them.
pub mod Chips
pub mod First
mod Tests
use thermal_placement.Base.{
  ℕ, ◌+◌, ◌*◌, ◌^◌, Bool, true, false, List, [], ◌∷◌, Option, none, some, Result, ok, err, ◌>>=◌,
  ◌>>◌, guard, or_fault, aborted, blocked, overflow, ltb, ◌==◌, if◌then◌else◌, take,
}
use thermal_placement.Tsi.{Tsi, remove_vcs_simv_opt}
use thermal_placement.Tsi.Args.{construct}

-- What tsi_tick uses of fesvr's tsi_t, as the base of a testchip_tsi_t. `switch_to_host` runs the
-- host's side until it waits for the target again.
pub record Fesvr : Type 1 where
  pub State : Type 0
  pub create : (args : List (List ℕ)) → Tsi → State
  pub tick : (out_valid : Bool) → (out_bits : ℕ) → (in_ready : Bool) → State → State
  pub switch_to_host : State → State
  pub in_valid : State → Bool
  pub in_bits : State → ℕ
  pub out_ready : State → Bool
  pub done : State → Bool
  pub exit_code : State → ℕ

-- The arguments of the simulator: vpi_get_vlog_info gives the count anew at each call, and always
-- the same array.
pub record Vlog : Type 0 where
  pub argc : ℕ
  pub argv : List (List ℕ)

-- What a call is given by the target. The values that its other variables hold before the call are
-- read into flags that nothing uses.
pub record Call : Type 0 where
  pub out_valid : Bool
  pub out_bits : ℕ
  pub in_ready : Bool

pub record Reply : Type 0 where
  pub in_valid : Bool
  pub in_bits : ℕ
  pub out_ready : Bool
  pub result : ℕ

module _ (f : Fesvr) where
  -- The map of hosts and the simulator's arguments, if it gives any.
  pub record Globals : Type 0 where
    pub tsis : ℕ → Option f.State
    pub vlog : Option Vlog

  -- `if (it == tsis.end()) { … }` and the look-up after it.
  find_or_create : Option f.State → Globals → (chip_id : ℕ) → Result (Globals × f.State)
  find_or_create (some s) g chip_id = ok (g, s)
  find_or_create none g chip_id = do
    info ← or_fault g.vlog aborted
    (argc, argv) ← or_fault (remove_vcs_simv_opt info.argc info.argv) blocked
    t ← construct (take argc argv) true
    let s = f.create (take argc argv) t
    ok (
      record {
        tsis = λ c. if c == chip_id then some s else g.tsis c;
        vlog = some (record info { argv = argv });
      },
      s,
    )

  -- `tsi->done() ? (tsi->exit_code() << 1 | 1) : 0`, at type int.
  result_of : f.State → Result ℕ
  result_of s =
      if f.done s
      then (do guard (ltb (f.exit_code s) (2 ^ 30)) overflow; ok (2 * f.exit_code s + 1))
      else ok 0

  -- What a host answers to a call.
  unfoldable pub serve : f.State → Call → Result (f.State × Reply)
  unfolding result_of
  serve s x = do
    let s' = f.switch_to_host (f.tick x.out_valid x.out_bits x.in_ready s)
    result ← result_of s'
    ok (
      s',
      record {
        in_valid = f.in_valid s';
        in_bits = f.in_bits s';
        out_ready = f.out_ready s';
        result = result;
      },
    )

  -- `tsi_tick`
  unfoldable pub tsi_tick : Globals → (chip_id : ℕ) → Call → Result (Globals × Reply)
  unfolding find_or_create serve
  tsi_tick g chip_id x = do
    (g', s) ← find_or_create (g.tsis chip_id) g chip_id
    (s', r) ← serve s x
    ok (record g' { tsis = λ c. if c == chip_id then some s' else g'.tsis c }, r)
