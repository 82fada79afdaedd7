-- ===== src/Dramsim/Hold.antt =====
-- The response channels of mm_dramsim2_t over a tick in which a response is not taken.
mod Tests
use thermal_placement.Base.{
  ℕ, zero, suc, ◌≡◌, refl, sym, ap, ◌∙◌, subst, Bool, true, false, not, ◌&&◌, List, [], ◌∷◌, ◌++◌,
  Option, none, some, Result, ok, err, ◌>>=◌, ◌>>◌, >>=-eq-ok, ok-injective, ok-triple, ok-pair,
  guard, or_fault, assertion, div_by_zero, ltb, ◌==◌, if◌then◌else◌, add64, sub64, ◌*◌, ◌/◌, ◌%◌,
  ◌^◌,
}
use thermal_placement.Memory.{Mm, read}
use thermal_placement.Axi.{Inputs, RResp, Store, is_empty, accept_if, pop_if, beat}
use thermal_placement.Axi.Queue.{
  Grows, Grows-refl, Grows-trans, pop_if-Grows, beats_held, ids_held, Adds-Grows,
}
use thermal_placement.Dramsim.Taken.{tick-Taken}
use thermal_placement.Dramsim.Interface.{System, Done}
use thermal_placement.Dramsim.{
  Req, Tables, Dram, put_queue, set_bit, push_words, read_front, write_front, complete_as, complete,
  pick, issue_picked, issue, enqueue_if, finish_store, write_beat_if, clear_if, ar_ready, aw_ready,
  w_ready, r_valid, r_id, r_data, r_last, b_valid, b_id, tick,
}
use thermal_placement.Dramsim.Grow.{
  BothGrow, BothGrow-trans, complete-BothGrow, issue-BothGrow, write_beat_if-BothGrow,
  clear_if_live,
}

module _ (d : System) where
  tick_keeps :
      (s s' : Dram d) (mem mem' : List ℕ) (x : Inputs)
      → tick d s mem x ≡ ok (s', mem')
      → x.reset ≡ false
      → (r_valid d s ≡ true
          → x.r_ready ≡ false
          → (r_valid d s' ≡ true)
            × (r_id d s' ≡ r_id d s)
            × (r_data d s' mem' ≡ r_data d s mem)
            × (r_last d s' ≡ r_last d s))
        × (b_valid d s ≡ true → x.b_ready ≡ false → (b_valid d s' ≡ true) × (b_id d s' ≡ b_id d s))
  unfolding r_id r_data r_last b_id
  tick_keeps s s' mem mem' x ticked live =
      let on = not x.reset in
      let t = tick-Taken d s s' mem mem' x ticked in
      let n = t.next in
      let w = s.mm.word_size in
      let same = clear_if_live d x.reset n s' live t.ends in
      (
        λ valid waits.
            let popped =
              pop_if-Grows on (r_valid d s) x.r_ready s.rresp t.rresp t.rresp' waits
                (Adds-Grows w s.rresp t.rresp t.beats) t.delivers in
            subst
              (λ (u : Dram d).
                (r_valid d u ≡ true)
                × (r_id d u ≡ r_id d s)
                × (r_data d u mem' ≡ r_data d s mem)
                × (r_last d u ≡ r_last d s))
              same
              (beats_held s.rresp n.rresp mem mem' valid (
                Grows-trans s.rresp t.rresp' n.rresp popped
                  (Adds-Grows w t.rresp' n.rresp t.late_beats))),
        λ valid waits.
            let popped =
              pop_if-Grows on (b_valid d s) x.b_ready s.bresp t.bresp t.bresp' waits t.ids
                t.answers in
            subst (λ (u : Dram d). (b_valid d u ≡ true) × (b_id d u ≡ b_id d s)) same
              (ids_held s.bresp n.bresp valid
                (Grows-trans s.bresp t.bresp' n.bresp popped t.late_ids)),
      )

  -- Over a tick without reset, whatever DRAMSim2 completes in it, a read beat that is offered and not
  -- taken is offered again: the same valid signal, id, data and last mark.
  pub tick_keeps_beat :
      (s s' : Dram d) (mem mem' : List ℕ) (x : Inputs)
      → tick d s mem x ≡ ok (s', mem')
      → x.reset ≡ false
      → r_valid d s ≡ true
      → x.r_ready ≡ false
      → (r_valid d s' ≡ true)
        × (r_id d s' ≡ r_id d s)
        × (r_data d s' mem' ≡ r_data d s mem)
        × (r_last d s' ≡ r_last d s)
  tick_keeps_beat s s' mem mem' x ticked live = (tick_keeps s s' mem mem' x ticked live).0

  -- Over a tick without reset, whatever DRAMSim2 completes in it, a write response that is offered and
  -- not taken is offered again, with the same id.
  tick_keeps_id :
      (s s' : Dram d) (mem mem' : List ℕ) (x : Inputs)
      → tick d s mem x ≡ ok (s', mem')
      → x.reset ≡ false
      → b_valid d s ≡ true
      → x.b_ready ≡ false
      → (b_valid d s' ≡ true) × (b_id d s' ≡ b_id d s)
  tick_keeps_id s s' mem mem' x ticked live = (tick_keeps s s' mem mem' x ticked live).1
