-- ===== src/Dramsim/Ticks.antt =====
-- mm_dramsim2_t::tick under a legal master, for any DRAMSim2 that accounts for its transactions.
use thermal_placement.Base.{
  ℕ, ◌+◌, ◌-◌, ◌*◌, ◌/◌, ◌^◌, ◌≤◌, ◌<◌, ◌≡◌, refl, sym, ◌∙◌, subst, Bool, true, false, not, ◌&&◌,
  List, [], ok, length, append-nil, All, arith, sub64, add64,
}
use thermal_placement.Memory.{Mm}
use thermal_placement.Axi.{Inputs, Store, pop_if, is_empty}
use thermal_placement.Dramsim.Interface.{System, IsAccountable}
use thermal_placement.Dramsim.{Tables, Dram, clear_if, tick, ar_ready, aw_ready, w_ready}
use thermal_placement.Dramsim.Sound.{IsServable, IsSound}
use thermal_placement.Dramsim.Complete.{complete-IsMatched}
use thermal_placement.Axi.Burst.{pop_if_lem, accept_stage}
use thermal_placement.Dramsim.Accounted.{IsAccounted, issue-IsAccounted}
use thermal_placement.Dramsim.Stages.{enqueue_if-All, write_stage}

pop_lem {ℓ} :
    {A : Type ℓ} (c b : Bool) (q q₁ : List A)
    → q₁ ≡ q
    → (q' : List A) × (pop_if (c && (not (is_empty q) && b)) q₁ ≡ ok q')
pop_lem c b q q₁ e = let (q', popped) = pop_if_lem c b q [] in (q', rw e (rw append-nil at popped))

module _ (d : System) where
  -- What the AXI master must respect, with `ids` AXI ids.
  pub record IsLegal (ids : ℕ) (s : Dram d) (x : Inputs) : Type 0 where
    pub reads :
        x.ar_valid ≡ true
        → (x.ar_id < ids)
          × (sub64 (x.ar_addr / s.mm.word_size * s.mm.word_size) s.mm.mem_base
                + add64 x.ar_len 1 * s.mm.word_size
              ≤ s.mm.mem_size)
    pub write_ids : x.aw_id < ids
    pub ar_sizes : x.ar_size ≤ 6
    pub aw_sizes : x.aw_size ≤ 6
    pub lengths : x.aw_len < 2 ^ 64 - 1
    pub writes :
        s.store_inflight ≡ true
        → x.w_valid ≡ true
        → sub64 s.store_addr s.mm.mem_base < s.mm.mem_size
    pub words : s.mm.word_size ≤ length x.w_data
    pub marks : s.store_inflight ≡ true → s.store_count ≡ 1 → x.w_last ≡ true

module _ (d : System) (acc : IsAccountable d) where
  open acc use {pending, pending-update}

  clear_if-IsAccounted :
      (b : Bool) (ids : ℕ) (s : Dram d) (mem : List ℕ)
      → IsAccounted d acc ids s mem
      → IsAccounted d acc ids (clear_if d b s) mem
  unfolding clear_if
  clear_if-IsAccounted false ids s mem g = g
  clear_if-IsAccounted true ids s mem g = record {
    memory = g.memory;
    tracked = g.tracked;
    store_known = g.store_known;
    sound = record {
      read_bits = g.sound.read_bits;
      write_bits = g.sound.write_bits;
      reads = g.sound.reads;
      writes = g.sound.writes;
    };
    matched = record { reads = g.matched.reads; writes = g.matched.writes };
    waiting = g.waiting;
  }

  -- A beat is taken at the tracker of the cycle's start.
  fits_at_start :
      (ids : ℕ) (s : Dram d) (x : Inputs) (st : Store)
      → IsLegal d ids s x
      → (not x.reset && (x.aw_valid && aw_ready d s) ≡ false → st ≡ s.store)
      → not x.reset && (x.w_valid && w_ready d s) ≡ true
      → (st.store_inflight ≡ true)
        × (sub64 st.store_addr s.mm.mem_base < s.mm.mem_size)
        × (st.store_count ≡ 1 → x.w_last ≡ true)
  fits_at_start ids s x st l keep fires =
      let inflight : s.store_inflight ≡ true = ground arith in
      let valid : x.w_valid ≡ true = ground arith in
      let kept : st ≡ s.store = keep (ground arith) in
      subst
        (λ (t : Store).
          (t.store_inflight ≡ true)
          × (sub64 t.store_addr s.mm.mem_base < s.mm.mem_size)
          × (t.store_count ≡ 1 → x.w_last ≡ true))
        (sym kept) (inflight, l.writes inflight valid, l.marks inflight)

  known_after :
      (b : Bool) (ids : ℕ) (s st : Store) (x : Inputs)
      → x.aw_id < ids
      → (s.store_inflight ≡ true → s.store_id < ids)
      → (b ≡ false → st ≡ s)
      → (b ≡ true → st.store_id ≡ x.aw_id)
      → st.store_inflight ≡ true
      → st.store_id < ids
  known_after true ids s st x new old keep name on = omega (arith, name refl)
  known_after false ids s st x new old keep name on =
      subst (λ (t : Store). t.store_inflight ≡ true → t.store_id < ids) (sym (keep refl)) old on

  -- With a DRAMSim2 that completes only transactions that were added, each at most once: from a good
  -- state and legal inputs a tick always succeeds, whatever DRAMSim2 accepts and whenever it
  -- completes: no assertion of `tick` or of the callbacks fails, no access is out of range and no empty
  -- queue is popped. The state after it is good.
  pub tick-IsAccounted :
      (ids : ℕ) (s : Dram d) (mem : List ℕ) (x : Inputs)
      → IsAccounted d acc ids s mem
      → IsLegal d ids s x
      → (s' : Dram d) × (mem' : List ℕ) × (tick d s mem x ≡ ok (s', mem'))
        × IsAccounted d acc ids s' mem'
  unfolding tick
  tick-IsAccounted ids s mem x g l =
      let live = not x.reset in
      let (s₁, issued, i) = issue-IsAccounted d acc ids s mem g in
      let waiting =
        subst (λ (m : Mm). All (IsServable m ids) s₁.rreq_queue) i.same_mm i.good.waiting in
      let (queue, queued, servable) =
        enqueue_if-All d acc (live && (x.ar_valid && ar_ready d s)) s.mm ids x s₁.rreq_queue
          l.ar_sizes (λ e. l.reads (ground arith)) waiting in
      let (st, accepted, tr, keep, name) =
        accept_stage (live && (x.aw_valid && aw_ready d s)) s₁.store x l.aw_sizes l.lengths
          i.good.tracked in
      let known = known_after _ ids s₁.store st x l.write_ids i.good.store_known keep name in
      let sound = subst (λ (m : Mm). IsSound m ids s₁.tables) i.same_mm i.good.sound in
      let (st', mem', state, t, wrote, v', w) =
        write_stage d acc (live && (x.w_valid && w_ready d s)) s.mm ids st mem s₁.state s₁.tables x
          g.memory tr known (fits_at_start ids s x st l (λ e. keep e ∙ i.same_store)) l.words sound
          i.good.matched in
      let (bresp, popped) = pop_lem live x.b_ready s.bresp t.bresp (w.same_bresp ∙ i.same_bresp) in
      let (rresp, popped') = pop_lem live x.r_ready s.rresp t.rresp (w.same_rresp ∙ i.same_rresp) in
      let t₁ : Tables = record t { bresp = bresp; rresp = rresp } in
      let (t', completed, sound', matched') =
        complete-IsMatched s.mm mem' ids (d.update state).1 (pending (d.update state).0) t₁ v'
          (record {
            read_bits = w.sound.read_bits;
            write_bits = w.sound.write_bits;
            reads = w.sound.reads;
            writes = w.sound.writes;
          })
          (record {
            reads = λ a. omega (arith, w.matched.reads a, pending-update state false a);
            writes = λ a. omega (arith, w.matched.writes a, pending-update state true a);
          }) in
      let next : Dram d = record {
        mm = s.mm;
        state = (d.update state).0;
        store = st';
        tables = t';
        rreq_queue = queue;
        cycle = add64 s.cycle 1;
      } in
      (
        clear_if d x.reset next,
        mem',
        rw (issued, queued, accepted, wrote, popped, popped', completed),
        clear_if-IsAccounted x.reset ids next mem' (record {
          memory = v';
          tracked = w.tracked;
          store_known = w.known;
          sound = sound';
          matched = matched';
          waiting = servable;
        }),
      )
