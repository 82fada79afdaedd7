-- ===== src/Simdram/Tick/Shared.antt =====
-- memory_tick when several memories share the buffers.
use native.Mathlib.Decide.{ℕ_discrete}
use thermal_placement.Base.{
  ℕ, ◌≤◌, ◌<◌, ◌≡◌, refl, sym, ap, ◌∙◌, List, map, some, ok, length, get_elem?, set,
  get_elem?-set_self, get_elem?-set_ne, get_elem?_above, All, All-map, arith,
}
use native.Mathlib.Decide.{dec_lt}
use thermal_placement.Memory.{Mm}
use thermal_placement.Dramsim.Interface.{System, IsAccountable}
use thermal_placement.Simdram.{Backing, Made}
use thermal_placement.Simdram.Tick.{Simulator, Call, Reply, inputs, memory_tick}
use thermal_placement.Simdram.Tick.Elems.{overrun}
use thermal_placement.Simdram.Tick.Served.{
  constants, beats, IsServed, IsServed-length, IsLegalFor, dispatch_tick-IsTicked, copy_elems-some,
  front_data-length, word-fits, outputs_lem, IsSettled-IsWellFormed,
}

found_below : {A : Type 0} (xs : List A) (i : ℕ) (v : A) → get_elem? xs i ≡ some v → i < length xs
found_below xs i v e = elim (dec_lt i (length xs)) [
  | yes h ↦ h
  | no h ↦ let none_there = get_elem?_above xs i (omega arith) in cc
]

module _ (d : System) (acc : IsAccountable d) (ids : ℕ) where
  -- A memory in order over its buffer, which is not empty.
  abbrev pub IsHeld : List (List ℕ) → Backing × Made d → Type 0
  IsHeld buffers (found, made) =
      (mem : List ℕ) × (get_elem? buffers found.data_at ≡ some mem)
      × (0 < length mem)
      × IsServed d acc ids made mem

  -- A memory is still held when a buffer has been replaced by one as long.
  IsHeld-set :
      (buffers : List (List ℕ)) (k : ℕ) (mem mem' : List ℕ) (p : Backing × Made d)
      → get_elem? buffers k ≡ some mem
      → length mem' ≡ length mem
      → IsHeld buffers p
      → IsHeld (set buffers k mem') p
  IsHeld-set buffers k mem mem' (found, made) here size (old, at, some_bytes, served) =
      elim (ℕ_discrete k found.data_at) [
        | yes e ↦
            let same : mem ≡ old = cc in
            let longer : length mem' ≡ length old = size ∙ ap length same in
            let kept = get_elem?-set_self buffers k mem' (found_below buffers k mem here) in
            (
              mem',
              ap (get_elem? (set buffers k mem')) (sym e) ∙ kept,
              omega (arith, longer),
              IsServed-length d acc ids made old mem' longer served,
            )
        | no ne ↦ (old, get_elem?-set_ne buffers k found.data_at mem' ne ∙ at, some_bytes, served)
      ]

module _ (sim : Simulator) (d : System) (acc : IsAccountable d) (ids : ℕ) where
  -- A call for a memory in order whose inputs are legal for it, with an array that has an address for
  -- each element and a reply of at most a word, returns, and leaves the memory in order; so it leaves
  -- all other memories, also those over the same buffer. In a simulation by Verilator it does so where
  -- three bytes can be read behind the read data, because it reads a word at each byte of them.
  pub memory_tick-IsHeld :
      (found : Backing) (made : Made d) (buffers : List (List ℕ)) (c : Call) (w_data_arr : List ℕ)
      (others : List (Backing × Made d))
      → overrun sim ≤ length sim.behind
      → IsHeld d acc ids buffers (found, made)
      → c.w_data ≡ map some w_data_arr
      → c.r_data_bytes ≤ (constants d made).word_size
      → IsLegalFor d acc ids made (inputs c w_data_arr)
      → All (IsHeld d acc ids buffers) others
      → (made' : Made d) × (buffers' : List (List ℕ)) × (reply : Reply) × (memory_tick sim d found
            made buffers c
          ≡ ok (made', buffers', reply))
        × IsHeld d acc ids buffers' (found, made')
        × All (IsHeld d acc ids buffers') others
  unfolding memory_tick
  memory_tick-IsHeld found made buffers c dat others room (mem, here, some_bytes, served) copied
        short legal held =
      let t = dispatch_tick-IsTicked d acc ids made mem (inputs c dat) served legal in
      let wide =
        word-fits (constants d made) mem (IsSettled-IsWellFormed d acc ids made mem served.settled)
          some_bytes in
      let word = (constants d t.made').word_size in
      let same = ap (λ (m : Mm). m.word_size) t.constant in
      let (reply, replied) =
        outputs_lem sim d t.made' t.mem' c.r_data_bytes
          (front_data-length word c.r_data_bytes (beats d t.made') t.mem' t.served.widths
            (omega (arith, same)) (omega (arith, same, t.size, wide)))
          room in
      let buffers' = set buffers found.data_at t.mem' in
      (
        t.made',
        buffers',
        reply,
        rw (copied, copy_elems-some dat, here, t.ticks, replied) refl,
        (
          t.mem',
          get_elem?-set_self buffers found.data_at t.mem'
              (found_below buffers found.data_at mem here),
          omega (arith, t.size),
          t.served,
        ),
        All-map (IsHeld d acc ids buffers) (IsHeld d acc ids buffers') others
            (λ p h. IsHeld-set d acc ids buffers found.data_at mem t.mem' p here t.size h) held,
      )
