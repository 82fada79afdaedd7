-- ===== src/Tsi/Load.antt =====
-- load_program and idle (testchip_tsi.h): the program goes through the target, or past it.
use thermal_placement.Base.{
  ℕ, ◌+◌, ◌-◌, ◌^◌, ◌≤◌, ◌<◌, ◌≡◌, refl, ap, sym, ◌∙◌, Bool, true, false, Bool-cases, inl, inr,
  List, Option, none, some, if◌then◌else◌, length,
}
use thermal_placement.Tsi.{Host, Tsi, line, write_chunk, read_chunk}
use thermal_placement.Tsi.Flush.{lines_touched}
use thermal_placement.Tsi.Accesses.{flushed, flush_total}

-- A course of tsi_t::load_program, which is fesvr's: it may take steps of its own on the target and
-- call back into `write_chunk` and `read_chunk`, where `dst` is what the buffer holds before, and what
-- it does next may depend on what it has read.
pub data Loader (S : Type 0) : Type 0 where
  done : Loader S
  own_step : (step : S → S) → (next : Loader S) → Loader S
  write : (taddr : ℕ) → (src : List ℕ) → (next : Loader S) → Loader S
  read : (taddr : ℕ) → (dst : List ℕ) → (next : List ℕ → Loader S) → Loader S

module _ (h : Host) where
  -- `idle`
  pub idle : h.State → h.State
  idle = h.switch_to_target

  -- The call of tsi_t::load_program, whose virtual calls come back to this class.
  run_loader : (fuel : ℕ) → Tsi → Loader h.State → h.State → Option h.State
  run_loader fuel t done s = some s
  run_loader fuel t (own_step step next) s = run_loader fuel t next (step s)
  run_loader fuel t (write taddr src next) s = elim (write_chunk h fuel t taddr src s) [
    | none ↦ none
    | some s' ↦ run_loader fuel t next s'
  ]
  run_loader fuel t (read taddr dst next) s = elim (read_chunk h fuel t taddr dst s) [
    | none ↦ none
    | some r ↦ run_loader fuel t (next r.1) r.0
  ]

  abbrev loaded : Tsi → Option h.State → Option (Tsi × h.State)
  loaded t none = none
  loaded t (some s) = some (record t { is_loadmem = false }, s)

  -- `load_program`; `l` is the course of tsi_t's own.
  unfoldable pub load_program :
      (fuel : ℕ) → Tsi → (l : Loader h.State) → h.State → Option (Tsi × h.State)
  unfolding run_loader
  load_program fuel t l s =
      let started = h.switch_to_target s in
      loaded t (run_loader fuel (record t { is_loadmem = t.has_loadmem }) l started)

  -- The target after a course whose chunks go through it, each behind the flush of its lines.
  abbrev pub stored : Tsi → Loader h.State → h.State → h.State
  stored t done s = s
  stored t (own_step step next) s = stored t next (step s)
  stored t (write taddr src next) s =
      stored t next (h.write_chunk taddr src (flushed h t taddr (length src) s))
  stored t (read taddr dst next) s =
      let r = h.read_chunk taddr (length dst) (flushed h t taddr (length dst) s) in
      stored t (next r.1) r.0

  -- The target after a course whose chunks go past it: nothing is written, and a buffer that is read
  -- into stays as it is.
  abbrev pub passed : Loader h.State → h.State → h.State
  passed done s = s
  passed (own_step step next) s = passed next (step s)
  passed (write taddr src next) s = passed next s
  passed (read taddr dst next) s = passed (next dst) s

  -- A chunk of `n` bytes ends at least a line below 2 ^ 64 and has fewer lines than the fuel.
  abbrev pub IsInReach : (fuel taddr n : ℕ) → Type 0
  IsInReach fuel taddr n = (taddr + n ≤ 2 ^ 64 - line) × (lines_touched taddr n < fuel)

  -- Each chunk of the course, whatever has been read into a buffer.
  abbrev pub IsLoadable : (fuel : ℕ) → Loader h.State → Type 0
  IsLoadable fuel done = Unit
  IsLoadable fuel (own_step step next) = IsLoadable fuel next
  IsLoadable fuel (write taddr src next) = IsInReach fuel taddr (length src) × IsLoadable fuel next
  IsLoadable fuel (read taddr dst next) =
      IsInReach fuel taddr (length dst)
      × ((bytes : List ℕ) → length bytes ≡ length dst → IsLoadable fuel (next bytes))

  -- The target fills the buffer of a read.
  abbrev pub IsFilled : Type 0
  IsFilled = (taddr nbytes : ℕ) (s : h.State) → length (h.read_chunk taddr nbytes s).1 ≡ nbytes

  run_loader-past :
      (fuel : ℕ) (t : Tsi) (l : Loader h.State) (s : h.State)
      → t.is_loadmem ≡ true
      → run_loader fuel t l s ≡ some (passed l s)
  unfolding run_loader write_chunk read_chunk
  run_loader-past fuel t done s past = refl
  run_loader-past fuel t (own_step step next) s past = run_loader-past fuel t next (step s) past
  run_loader-past fuel t (write taddr src next) s past =
      rw (run_loader, past) (run_loader-past fuel t next s past)
  run_loader-past fuel t (read taddr dst next) s past =
      rw (run_loader, past) (run_loader-past fuel t (next dst) s past)

  run_loader-through :
      (fuel : ℕ) (t : Tsi) (l : Loader h.State) (s : h.State)
      → t.is_loadmem ≡ false
      → IsFilled
      → IsLoadable fuel l
      → run_loader fuel t l s ≡ some (stored t l s)
  unfolding run_loader write_chunk read_chunk
  run_loader-through fuel t done s through filled fits = refl
  run_loader-through fuel t (own_step step next) s through filled fits =
      run_loader-through fuel t next (step s) through filled fits
  run_loader-through fuel t (write taddr src next) s through filled ((room, f), fits) =
      let flush = flush_total h t fuel taddr (length src) s room f in
      rw (run_loader, through, flush) (run_loader-through fuel t next _ through filled fits)
  run_loader-through fuel t (read taddr dst next) s through filled ((room, f), fits) =
      let flush = flush_total h t fuel taddr (length dst) s room f in
      let s' = flushed h t taddr (length dst) s in
      let r = h.read_chunk taddr (length dst) s' in
      let later = fits r.1 (filled taddr (length dst) s') in
      rw (run_loader, through, flush)
        (run_loader-through fuel t (next r.1) r.0 through filled later)

  -- `load_program` first lets the target run. On a target that fills the buffer of a read, for a course
  -- of tsi_t's loader whose chunks end at least a line below 2 ^ 64, and with fuel for more rounds than
  -- a chunk has lines, it ends. Where the memory
  -- is loaded directly (+loadmem), the target sees none of the chunks, and each read leaves its buffer
  -- as it was; else each chunk is written or read in order, behind the flush of its lines. The direct
  -- way is off again afterwards.
  pub load_program_lem :
      (fuel : ℕ) (t : Tsi) (l : Loader h.State) (s : h.State)
      → IsFilled
      → IsLoadable fuel l
      → load_program fuel t l s
        ≡ some (
          record t { is_loadmem = false },
          (if t.has_loadmem
              then passed l (h.switch_to_target s)
              else stored (record t { is_loadmem = false }) l (h.switch_to_target s)),
        )
  unfolding load_program
  load_program_lem fuel t l s filled fits =
      let way = λ (b : Bool). record t { is_loadmem = b } in
      let s₀ = h.switch_to_target s in
      let ends =
        λ (b : Bool). some (way false, if b then passed l s₀ else stored (way false) l s₀) in
      elim (Bool-cases t.has_loadmem) [
        | inl past ↦
            ap (loaded t) (run_loader-past fuel (way t.has_loadmem) l s₀ past) ∙ ap ends (sym past)
        | inr through ↦
            ap (loaded t) (run_loader-through fuel (way t.has_loadmem) l s₀ through filled fits)
            ∙ ap (λ (b : Bool). some (way false, stored (way b) l s₀)) through
            ∙ ap ends (sym through)
      ]
