-- ===== src/Magic/Ticks.antt =====
-- mm_magic_t::tick under a legal master.
use native.Mathlib.Decide.{ℕ_discrete}
use thermal_placement.Base.{
  append-nil, subst, ℕ, ◌*◌, ◌/◌, ◌-◌, ◌^◌, ◌≤◌, ◌<◌, ◌≡◌, refl, sym, ap, Bool, true, false, not,
  ◌&&◌, List, [], ◌∷◌, ◌++◌, ok, if◌then◌else◌, length, add64, sub64, arith,
}
use thermal_placement.Memory.{Mm, IsWellFormed}
use thermal_placement.Axi.{Inputs, RResp, Store, IsTracked}
use thermal_placement.Axi.Burst.{beat_lem, IsWellFormed-length, pop_if_lem, accept_stage}
use thermal_placement.Magic.{
  Magic, aw_ready, w_ready, read_burst, finish, write_beat, clear_if, tick,
}
use thermal_placement.Magic.Reads.{IsInRange, read_burst_lem}

-- The state between two ticks.
pub record IsGood (s : Magic) (mem : List ℕ) : Type 0 where
  pub memory : IsWellFormed s.mm mem
  pub tracked : IsTracked s.store

-- What the AXI master must respect: bursts stay inside the memory, a beat is at most 64 bytes wide
-- and carries a whole word of data, and the last beat of a write burst is marked.
pub record IsLegal (s : Magic) (x : Inputs) : Type 0 where
  pub reads :
      x.ar_valid ≡ true → IsInRange s.mm (x.ar_addr / s.mm.word_size * s.mm.word_size) x.ar_len
  pub sizes : x.aw_size ≤ 6
  pub lengths : x.aw_len < 2 ^ 64 - 1
  pub writes :
      s.store_inflight ≡ true → x.w_valid ≡ true → sub64 s.store_addr s.mm.mem_base < s.mm.mem_size
  pub words : s.mm.word_size ≤ length x.w_data
  pub marks : s.store_inflight ≡ true → s.store_count ≡ 1 → x.w_last ≡ true

-- The first stage, under its flag.
read_stage :
    (b : Bool) (m : Mm) (mem : List ℕ) (addr id len : ℕ) (q : List RResp)
    → IsWellFormed m mem
    → (b ≡ true → IsInRange m (addr / m.word_size * m.word_size) len)
    → (bs : List RResp) × ((if b then read_burst m mem addr id len q else ok q) ≡ ok (q ++ bs))
read_stage true m mem addr id len q v r =
    let (bs, e, _, _) = read_burst_lem m mem addr id len q v (r refl) in (bs, e)
read_stage false m mem addr id len q v r = ([], ap ok (sym (append-nil q)))

-- What follows a beat in range.
finish_lem :
    (s : Store) (bresp : List ℕ) (w_last : Bool)
    → (s.store_count ≡ 0 → w_last ≡ true)
    → s.store_count < 2 ^ 64
    → s.store_size ≤ 64
    → (s' : Store) × (more : List ℕ) × (finish s bresp w_last ≡ ok (s', bresp ++ more))
      × IsTracked s'
unfolding finish
finish_lem s bresp w_last last word size = elim (ℕ_discrete s.store_count 0) [
  | yes e ↦ (
    record s { store_inflight = false },
    s.store_id ∷ [],
    ground (arith, last e),
    record { to_come = λ h. cc; is_word = word; sized = λ _. size },
  )
  | no ne ↦ (
    s,
    [],
    ground (arith, append-nil bresp),
    record { to_come = λ _. omega arith; is_word = word; sized = λ _. size },
  )
]

write_stage :
    (b : Bool) (m : Mm) (s : Store) (mem bresp : List ℕ) (x : Inputs)
    → IsWellFormed m mem
    → IsTracked s
    → (b ≡ true
        → (s.store_inflight ≡ true)
          × (sub64 s.store_addr m.mem_base < m.mem_size)
          × (s.store_count ≡ 1 → x.w_last ≡ true))
    → m.word_size ≤ length x.w_data
    → (s' : Store) × (mem' : List ℕ) × (more : List ℕ) × ((if b
          then write_beat m s mem bresp x
          else ok (s, mem, bresp))
        ≡ ok (s', mem', bresp ++ more))
      × IsWellFormed m mem'
      × IsTracked s'
unfolding write_beat
write_stage false m s mem bresp x v t fits d =
    (s, mem, [], ap (λ (q : List ℕ). ok (s, mem, q)) (sym (append-nil bresp)), v, t)
write_stage true m s mem bresp x v t fits d =
    let (inflight, here, mark) = fits refl in
    let count = t.to_come inflight in
    let word = t.is_word in
    let (mem', _, moved, same) = beat_lem m s mem x v here (t.sized inflight) d in
    let s₁ : Store = record s {
      store_addr = add64 s.store_addr s.store_size;
      store_count = sub64 s.store_count 1;
    } in
    let (s', more, done, t') =
      finish_lem s₁ bresp x.w_last (λ e. mark (omega arith)) (omega arith) (t.sized inflight) in
    (s', mem', more, rw (moved, done), IsWellFormed-length m mem mem' same v, t')

clear_if-IsGood : (b : Bool) (s : Magic) (mem : List ℕ) → IsGood s mem → IsGood (clear_if b s) mem
unfolding clear_if
clear_if-IsGood true s mem g = record { memory = g.memory; tracked = g.tracked }
clear_if-IsGood false s mem g = g

-- A beat is taken at the tracker of the cycle's start: an address accepted in the same cycle would
-- have needed the tracker free.
fits_at_start :
    (s : Magic) (x : Inputs) (st : Store)
    → IsLegal s x
    → (not x.reset && (x.aw_valid && aw_ready s) ≡ false → st ≡ s.store)
    → not x.reset && (x.w_valid && w_ready s) ≡ true
    → (st.store_inflight ≡ true)
      × (sub64 st.store_addr s.mm.mem_base < s.mm.mem_size)
      × (st.store_count ≡ 1 → x.w_last ≡ true)
fits_at_start s x st l keep fires =
    let inflight : s.store_inflight ≡ true = ground arith in
    let valid : x.w_valid ≡ true = ground arith in
    let same : st ≡ s.store = keep (ground arith) in
    subst
      (λ (t : Store).
        (t.store_inflight ≡ true)
        × (sub64 t.store_addr s.mm.mem_base < s.mm.mem_size)
        × (t.store_count ≡ 1 → x.w_last ≡ true))
      (sym same) (inflight, l.writes inflight valid, l.marks inflight)

-- From a good state and legal inputs a tick always succeeds, and the state after it is good.
pub tick-IsGood :
    (s : Magic) (mem : List ℕ) (x : Inputs)
    → IsGood s mem
    → IsLegal s x
    → (s' : Magic) × (mem' : List ℕ) × (tick s mem x ≡ ok (s', mem')) × IsGood s' mem'
unfolding tick
tick-IsGood s mem x g l =
    let live = not x.reset in
    let (bs, read) =
      read_stage (live && (x.ar_valid && true)) s.mm mem x.ar_addr x.ar_id x.ar_len s.rresp g.memory
        (λ e. l.reads (ground arith)) in
    let (st, accepted, t, keep, _) =
      accept_stage (live && (x.aw_valid && aw_ready s)) s.store x l.sizes l.lengths g.tracked in
    let (st', mem', more, wrote, v', t') =
      write_stage (live && (x.w_valid && w_ready s)) s.mm st mem s.bresp x g.memory t
        (fits_at_start s x st l keep) l.words in
    let (bresp, popped) = pop_if_lem live x.b_ready s.bresp more in
    let (rresp, popped') = pop_if_lem live x.r_ready s.rresp bs in
    let next : Magic = record {
      mm = s.mm;
      store = st';
      bresp = bresp;
      rresp = rresp;
      cycle = add64 s.cycle 1;
    } in
    (
      clear_if x.reset next,
      mem',
      rw (read, accepted, wrote, popped, popped'),
      clear_if-IsGood x.reset next mem' (record { memory = v'; tracked = t' }),
    )
