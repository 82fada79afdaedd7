-- ===== src/Dramsim/Complete.antt =====
-- The completion callbacks under the accounting of DRAMSim2.
use thermal_placement.Base.{
  ℕ, ◌+◌, ◌<◌, ◌≡◌, refl, Bool, true, false, List, [], ◌∷◌, ok, length, arith,
}
use thermal_placement.Memory.{Mm, IsWellFormed}
use thermal_placement.Dramsim.Interface.{Done, count}
use thermal_placement.Dramsim.{Tables, complete_as, complete}
use thermal_placement.Dramsim.Sound.{IsSound, IsServed, read_front_lem, write_front_lem}

-- The queues hold an entry for each transaction that is pending or among the completions to come.
pub record IsMatched (p : Bool → ℕ → ℕ) (ds : List Done) (t : Tables) : Type 0 where
  pub reads : (a : ℕ) → length (t.rreq a) ≡ p false a + count false a ds
  pub writes : (a : ℕ) → length (t.wreq a) ≡ p true a + count true a ds

one_completes :
    (w : Bool) (d : Done) (ds : List Done) (p : Bool → ℕ → ℕ)
    → d.is_write ≡ w
    → 0 < p w d.address + count w d.address (d ∷ ds)
one_completes true d ds p e = ground arith
one_completes false d ds p e = ground arith

served-IsMatched :
    (w : Bool) (m : Mm) (ids : ℕ) (d : Done) (ds : List Done) (p : Bool → ℕ → ℕ) (t t' : Tables)
    → d.is_write ≡ w
    → IsMatched p (d ∷ ds) t
    → IsServed m ids w d.address t t'
    → IsMatched p ds t'
served-IsMatched true m ids d ds p t t' e h g = record {
  reads = λ a. ground (arith, h.reads a, g.reads a);
  writes = λ a. ground (arith, h.writes a, g.writes a);
}
served-IsMatched false m ids d ds p t t' e h g = record {
  reads = λ a. ground (arith, h.reads a, g.reads a);
  writes = λ a. ground (arith, h.writes a, g.writes a);
}

complete_step :
    (w : Bool) (m : Mm) (mem : List ℕ) (ids : ℕ) (d : Done) (ds : List Done) (p : Bool → ℕ → ℕ)
    (t : Tables)
    → d.is_write ≡ w
    → IsWellFormed m mem
    → IsSound m ids t
    → IsMatched p (d ∷ ds) t
    → (t' : Tables) × (complete_as w m mem d.address t ≡ ok t')
      × IsSound m ids t'
      × IsMatched p ds t'
unfolding complete_as
complete_step false m mem ids d ds p t e v s h =
    let k = d.address in
    let waits : 0 < length (t.rreq k) = omega (arith, h.reads k, one_completes false d ds p e) in
    let (t', served, g) = read_front_lem (t.rreq k) m mem ids k t v s refl waits in
    (t', served, g.sound, served-IsMatched false m ids d ds p t t' e h g)
complete_step true m mem ids d ds p t e v s h =
    let k = d.address in
    let waits : 0 < length (t.wreq k) = omega (arith, h.writes k, one_completes true d ds p e) in
    let (t', served, g) = write_front_lem (t.wreq k) m mem ids k t s refl waits in
    (t', served, g.sound, served-IsMatched true m ids d ds p t t' e h g)

-- If the queues hold an entry for each transaction that is pending or completes now, and the tables
-- are sound, then every callback finds its request: none of their assertions fails and none reads
-- outside the memory or the busy bits. Afterwards the tables are sound again and the queues hold
-- exactly an entry for each transaction still pending.
pub complete-IsMatched :
    (m : Mm) (mem : List ℕ) (ids : ℕ) (ds : List Done) (p : Bool → ℕ → ℕ) (t : Tables)
    → IsWellFormed m mem
    → IsSound m ids t
    → IsMatched p ds t
    → (t' : Tables) × (complete m mem ds t ≡ ok t') × IsSound m ids t' × IsMatched p [] t'
unfolding complete
complete-IsMatched m mem ids [] p t v s h = (t, refl, s, h)
complete-IsMatched m mem ids (d ∷ ds) p t v s h =
    let (t₁, one, s₁, h₁) = complete_step d.is_write m mem ids d ds p t refl v s h in
    let (t', others, s', h') = complete-IsMatched m mem ids ds p t₁ v s₁ h₁ in
    (t', rw one others, s', h')
