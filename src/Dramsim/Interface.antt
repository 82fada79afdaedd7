-- ===== src/Dramsim/Interface.antt =====
-- What mm_dramsim2_t uses of the DRAMSim2 library, which is not part of the repository.
use thermal_placement.Base.{
  ℕ, ◌+◌, ◌≡◌, Bool, true, false, not, ◌&&◌, List, [], ◌∷◌, ◌==◌, if◌then◌else◌,
}

-- A transaction that has completed: `update` calls the read or the write callback with its address.
pub record Done : Type 0 where
  pub is_write : Bool
  pub address : ℕ

-- `MultiChannelMemorySystem`. `update` gives the callbacks that it makes, in order; they do not call
-- the memory system back.
pub record System : Type 1 where
  pub State : Type 0
  pub will_accept : State → Bool
  pub add : (is_write : Bool) → (address : ℕ) → State → State
  pub update : State → State × List Done

abbrev pub same : Bool → Bool → Bool
same true b = b
same false b = not b

-- How many of the completions are of that kind and address.
abbrev pub count : Bool → ℕ → List Done → ℕ
count w a [] = 0
count w a (d ∷ ds) = (if same w d.is_write && (a == d.address) then 1 else 0) + count w a ds

-- The documented behaviour that the code relies on: a transaction that is added completes at most
-- once, under its own kind and address, and nothing else completes.
pub record IsAccountable (d : System) : Type 0 where
  pub pending : d.State → Bool → ℕ → ℕ
  pub pending-add :
      (w : Bool) (a : ℕ) (s : d.State) (w' : Bool) (a' : ℕ)
      → pending (d.add w a s) w' a' ≡ pending s w' a' + (if same w' w && (a' == a) then 1 else 0)
  pub pending-update :
      (s : d.State) (w : Bool) (a : ℕ)
      → pending s w a ≡ pending (d.update s).0 w a + count w a (d.update s).1
