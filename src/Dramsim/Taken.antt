-- ===== src/Dramsim/Taken.antt =====
-- The stages of mm_dramsim2_t::tick, taken apart, with what each adds to the response queues.
use thermal_placement.Base.{
  ℕ, ◌≡◌, refl, ◌∙◌, subst, Bool, true, false, not, ◌&&◌, List, ok, >>=-eq-ok, ok-pair, add64, All,
}
use thermal_placement.Axi.{Inputs, RResp, accept_if, pop_if}
use thermal_placement.Axi.Queue.{Grows, Adds, HasWidth, Adds-All, pop_if-All}
use thermal_placement.Dramsim.Interface.{System}
use thermal_placement.Dramsim.{
  Tables, Dram, complete, issue, enqueue_if, write_beat_if, clear_if, ar_ready, aw_ready, w_ready,
  r_valid, b_valid, tick,
}
use thermal_placement.Dramsim.Grow.{
  BothGrow-trans, complete-BothGrow, issue-BothGrow, write_beat_if-BothGrow,
}

module _ (d : System) where
  -- A tick that succeeds: the queues before and after the two pops and after the callbacks.
  pub record Taken (s : Dram d) (mem : List ℕ) (x : Inputs) (s' : Dram d) (mem' : List ℕ)
      : Type 0 where
    pub rresp : List RResp
    pub bresp : List ℕ
    pub rresp' : List RResp
    pub bresp' : List ℕ
    pub next : Dram d
    pub same_mm : next.mm ≡ s.mm
    pub beats : Adds s.mm.word_size s.rresp rresp
    pub ids : Grows s.bresp bresp
    pub answers : pop_if (not x.reset && (b_valid d s && x.b_ready)) bresp ≡ ok bresp'
    pub delivers : pop_if (not x.reset && (r_valid d s && x.r_ready)) rresp ≡ ok rresp'
    pub late_beats : Adds s.mm.word_size rresp' next.rresp
    pub late_ids : Grows bresp' next.bresp
    pub ends : clear_if d x.reset next ≡ s'

  pub tick-Taken :
      (s s' : Dram d) (mem mem' : List ℕ) (x : Inputs)
      → tick d s mem x ≡ ok (s', mem')
      → Taken s mem x s' mem'
  unfolding tick
  tick-Taken s s' mem mem' x ticked =
      let on = not x.reset in
      let (s₁, issued, e₁) = >>=-eq-ok (issue d s) _ ticked in
      let (queue, _, e₂) =
        >>=-eq-ok (enqueue_if d (on && (x.ar_valid && ar_ready d s)) x s₁.rreq_queue) _ e₁ in
      let (store, _, e₃) =
        >>=-eq-ok (accept_if (on && (x.aw_valid && aw_ready d s)) s₁.store x) _ e₂ in
      let (w, wrote, e₄) =
        >>=-eq-ok
          (write_beat_if d (on && (x.w_valid && w_ready d s)) s.mm store mem s₁.state s₁.tables x) _
          e₃ in
      let (bresp, answers, e₅) =
        >>=-eq-ok (pop_if (on && (b_valid d s && x.b_ready)) w.3.bresp) _ e₄ in
      let (rresp, delivers, e₆) =
        >>=-eq-ok (pop_if (on && (r_valid d s && x.r_ready)) w.3.rresp) _ e₅ in
      let updated = d.update w.2 in
      let t₁ : Tables = record w.3 { bresp = bresp; rresp = rresp } in
      let (t', completed, made) = >>=-eq-ok (complete s.mm w.1 updated.1 t₁) _ e₆ in
      let next : Dram d = record {
        mm = s.mm;
        state = updated.0;
        store = w.0;
        tables = t';
        rreq_queue = queue;
        cycle = add64 s.cycle 1;
      } in
      let before =
        BothGrow-trans s.mm.word_size s.tables s₁.tables w.3
          (issue-BothGrow d s.mm.word_size (d.will_accept s.state) s s₁ refl issued)
          (write_beat_if-BothGrow d s.mm.word_size _ s.mm store mem s₁.state s₁.tables x w wrote) in
      let after = complete-BothGrow s.mm w.1 updated.1 t₁ t' completed in
      record {
        rresp = w.3.rresp;
        bresp = w.3.bresp;
        rresp' = rresp;
        bresp' = bresp;
        next = next;
        same_mm = refl;
        beats = before.beats;
        ids = before.ids;
        answers = answers;
        delivers = delivers;
        late_beats = after.beats;
        late_ids = after.ids;
        ends = (ok-pair made).0;
      }

module _ (d : System) where
  clear_if-widths :
      (b : Bool) (s s' : Dram d) (w : ℕ)
      → clear_if d b s ≡ s'
      → All (HasWidth w) s.rresp
      → (s'.mm ≡ s.mm) × All (HasWidth w) s'.rresp
  unfolding clear_if
  clear_if-widths false s s' w e h =
      subst (λ (u : Dram d). (u.mm ≡ s.mm) × All (HasWidth w) u.rresp) e (refl, h)
  clear_if-widths true s s' w e h =
      subst (λ (u : Dram d). (u.mm ≡ s.mm) × All (HasWidth w) u.rresp) e (refl, tt)

  -- A tick that succeeds keeps the constants, and every beat that waits as wide as a word.
  pub tick-widths :
      (s s' : Dram d) (mem mem' : List ℕ) (x : Inputs)
      → tick d s mem x ≡ ok (s', mem')
      → All (HasWidth s.mm.word_size) s.rresp
      → (s'.mm ≡ s.mm) × All (HasWidth s.mm.word_size) s'.rresp
  tick-widths s s' mem mem' x ticked h =
      let t = tick-Taken d s s' mem mem' x ticked in
      let w = s.mm.word_size in
      let before = Adds-All w s.rresp t.rresp t.beats h in
      let popped = pop_if-All (HasWidth w) _ t.rresp t.rresp' t.delivers before in
      let after = Adds-All w t.rresp' t.next.rresp t.late_beats popped in
      let (same, widths) = clear_if-widths x.reset t.next s' w t.ends after in
      (same ∙ t.same_mm, widths)
