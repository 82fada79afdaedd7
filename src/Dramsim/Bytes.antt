-- ===== src/Dramsim/Bytes.antt =====
-- The bytes and the write tracker of both memories, side by side.
mod Tests
use thermal_placement.Base.{
  ℕ, ◌≡◌, refl, sym, ap, ◌∙◌, subst, Bool, true, false, not, ◌&&◌, List, [], ◌∷◌, ◌++◌, Option,
  none, some, Result, ok, >>=-eq-ok, ok-injective, ok-pair, ok-triple, guard, assertion, ◌==◌,
  if◌then◌else◌, Bool-cases, inl, inr,
}
use thermal_placement.Memory.{Mm}
use thermal_placement.Axi.{Inputs, Store, beat, accept_if, pop_if}
use thermal_placement.Magic
use thermal_placement.Magic.{Magic, finish, write_beat, write_if}
use thermal_placement.Dramsim.Interface.{System}
use thermal_placement.Dramsim.{
  Req, Tables, Dram, set_bit, pick, issue_picked, issue, finish_store, write_beat_if, clear_if,
  complete, enqueue_if, ar_ready, aw_ready, w_ready, b_valid, r_valid, tick,
}
use thermal_placement.Magic.Trace.Stages
use thermal_placement.Magic.Trace.Stages.{tick-Stages}

same_value {ℓ} : {A : Type ℓ} {r : Result A} {a b : A} → r ≡ ok a → r ≡ ok b → a ≡ b
same_value e f = ok-injective (sym e ∙ f)

module _ (d : System) where
  issue_picked-store :
      (o : Option (Req × List Req)) (s s' : Dram d)
      → issue_picked d s o ≡ ok s'
      → s'.store ≡ s.store
  unfolding issue_picked
  issue_picked-store none s s' e = sym (ap (λ (u : Dram d). u.store) (ok-injective e))
  issue_picked-store (some (req, others)) s s' e =
      let (busy, _, e₁) = >>=-eq-ok (set_bit s.read_id_busy req.id true) _ e in
      sym (ap (λ (u : Dram d). u.store) (ok-injective e₁))

  pub issue-store :
      (b : Bool) (s s' : Dram d)
      → d.will_accept s.state ≡ b
      → issue d s ≡ ok s'
      → s'.store ≡ s.store
  unfolding issue
  issue-store true s s' h e =
      let (o, _, e₁) = >>=-eq-ok (pick s.read_id_busy s.rreq_queue) _ (rw h at e) in
      issue_picked-store o s s' e₁
  issue-store false s s' h e = sym (ap (λ (u : Dram d). u.store) (ok-injective (rw h at e)))

  finish-same :
      (b : Bool) (s : Store) (q : List ℕ) (state : d.State) (t : Tables) (w_last : Bool)
      (one : Store × List ℕ) (other : Store × d.State × Tables)
      → (s.store_count == 0) ≡ b
      → finish s q w_last ≡ ok one
      → finish_store d s state t w_last ≡ ok other
      → one.0 ≡ other.0
  unfolding finish finish_store
  finish-same true s q state t w_last one other h e f =
      let (_, _, e₁) = >>=-eq-ok (guard w_last assertion) _ (rw h at e) in
      let (_, _, f₁) = >>=-eq-ok (guard w_last assertion) _ (rw h at f) in
      sym (ap (λ (o : Store × List ℕ). o.0) (ok-injective e₁))
      ∙ ap (λ (o : Store × d.State × Tables). o.0) (ok-injective f₁)
  finish-same false s q state t w_last one other h e f =
      sym (ap (λ (o : Store × List ℕ). o.0) (ok-injective (rw h at e)))
      ∙ ap (λ (o : Store × d.State × Tables). o.0) (ok-injective (rw h at f))

  write-same :
      (b : Bool) (m : Mm) (st : Store) (mem q : List ℕ) (state : d.State) (t : Tables) (x : Inputs)
      (one : Store × List ℕ × List ℕ) (other : Store × List ℕ × d.State × Tables)
      → write_if b m st mem q x ≡ ok one
      → write_beat_if d b m st mem state t x ≡ ok other
      → (one.0 ≡ other.0) × (one.1 ≡ other.1)
  unfolding write_beat write_beat_if
  write-same false m st mem q state t x one other e f =
      let p = ok-injective e in
      let r = ok-injective f in
      (
        sym (ap (λ (o : Store × List ℕ × List ℕ). o.0) p)
            ∙ ap (λ (o : Store × List ℕ × d.State × Tables). o.0) r,
        sym (ap (λ (o : Store × List ℕ × List ℕ). o.1) p)
            ∙ ap (λ (o : Store × List ℕ × d.State × Tables). o.1) r,
      )
  write-same true m st mem q state t x one other e f =
      let (moved, beats, e₁) = >>=-eq-ok (beat m st mem x) _ e in
      let (moved', beats', f₁) = >>=-eq-ok (beat m st mem x) _ f in
      let same : moved' ≡ moved = same_value beats' beats in
      let (done, finished, e₂) = >>=-eq-ok (finish moved.0 q x.w_last) _ e₁ in
      let (done', finished', f₂) = >>=-eq-ok (finish_store d moved'.0 state t x.w_last) _ f₁ in
      let finished₁ =
        subst (λ (u : Store × List ℕ). finish_store d u.0 state t x.w_last ≡ ok done') same
          finished' in
      let p = ok-injective e₂ in
      let r = ok-injective f₂ in
      (
        sym (ap (λ (o : Store × List ℕ × List ℕ). o.0) p)
            ∙ finish-same _ moved.0 q state t x.w_last done done' refl finished finished₁
            ∙ ap (λ (o : Store × List ℕ × d.State × Tables). o.0) r,
        sym (ap (λ (o : Store × List ℕ × List ℕ). o.1) p)
            ∙ ap (λ (u : Store × List ℕ). u.1) (sym same)
            ∙ ap (λ (o : Store × List ℕ × d.State × Tables). o.1) r,
      )

  clear_if-store : (b : Bool) (s s' : Dram d) → clear_if d b s ≡ s' → s.store ≡ s'.store
  unfolding clear_if
  clear_if-store false s s' e = ap (λ (u : Dram d). u.store) e
  clear_if-store true s s' e = ap (λ (u : Dram d). u.store) e

  -- What a tick that succeeds does to the bytes and to the tracker.
  record Wrote (s : Dram d) (mem : List ℕ) (x : Inputs) (s' : Dram d) (mem' : List ℕ) : Type 0 where
    store : Store
    state : d.State
    tables : Tables
    out : Store × List ℕ × d.State × Tables
    accepts : accept_if (not x.reset && (x.aw_valid && aw_ready d s)) s.store x ≡ ok store
    writes :
        write_beat_if d (not x.reset && (x.w_valid && w_ready d s)) s.mm store mem state tables x
        ≡ ok out
    same_store : out.0 ≡ s'.store
    same_bytes : out.1 ≡ mem'

  tick-Wrote :
      (s s' : Dram d) (mem mem' : List ℕ) (x : Inputs)
      → tick d s mem x ≡ ok (s', mem')
      → Wrote s mem x s' mem'
  unfolding tick
  tick-Wrote s s' mem mem' x ticked =
      let on = not x.reset in
      let (s₁, issued, e₁) = >>=-eq-ok (issue d s) _ ticked in
      let (queue, _, e₂) =
        >>=-eq-ok (enqueue_if d (on && (x.ar_valid && ar_ready d s)) x s₁.rreq_queue) _ e₁ in
      let (store, accepts, e₃) =
        >>=-eq-ok (accept_if (on && (x.aw_valid && aw_ready d s)) s₁.store x) _ e₂ in
      let (w, wrote, e₄) =
        >>=-eq-ok
          (write_beat_if d (on && (x.w_valid && w_ready d s)) s.mm store mem s₁.state s₁.tables x) _
          e₃ in
      let (bresp, _, e₅) = >>=-eq-ok (pop_if (on && (b_valid d s && x.b_ready)) w.3.bresp) _ e₄ in
      let (rresp, _, e₆) = >>=-eq-ok (pop_if (on && (r_valid d s && x.r_ready)) w.3.rresp) _ e₅ in
      let t₁ : Tables = record w.3 { bresp = bresp; rresp = rresp } in
      let (t', _, made) = >>=-eq-ok (complete s.mm w.1 (d.update w.2).1 t₁) _ e₆ in
      let kept = issue-store (d.will_accept s.state) s s₁ refl issued in
      record {
        store = store;
        state = s₁.state;
        tables = s₁.tables;
        out = w;
        accepts =
            ap (λ (t : Store). accept_if (on && (x.aw_valid && aw_ready d s)) t x) (sym kept)
            ∙ accepts;
        writes = wrote;
        same_store = clear_if-store x.reset _ s' (ok-pair made).0;
        same_bytes = (ok-pair made).1;
      }

-- When DRAMSim2 takes transactions, a tick of the timed memory and one of the immediate memory that
-- start from the same constants, bytes and write tracker, under the same inputs, leave the same bytes
-- and the same tracker, if both succeed.
pub tick-same_bytes :
    (d : System) (s s' : Dram d) (u u' : Magic) (mem mem₁ mem₂ : List ℕ) (x : Inputs)
    → d.will_accept s.state ≡ true
    → u.mm ≡ s.mm
    → u.store ≡ s.store
    → Magic.tick u mem x ≡ ok (u', mem₁)
    → tick d s mem x ≡ ok (s', mem₂)
    → (mem₁ ≡ mem₂) × (u'.store ≡ s'.store)
tick-same_bytes d s s' u u' mem mem₁ mem₂ x takes mm store e f =
    let on = not x.reset in
    let a = tick-Stages u mem x u' mem₁ e in
    let b = tick-Wrote d s s' mem mem₂ x f in
    let accepted : accept_if (on && (x.aw_valid && not s.store_inflight)) s.store x ≡ ok a.store =
      subst (λ (t : Store). accept_if (on && (x.aw_valid && not t.store_inflight)) t x ≡ ok a.store)
        store a.accepts in
    let tracked : a.store ≡ b.store = same_value accepted (rw takes at b.accepts) in
    let one : Store × List ℕ × List ℕ = (a.next.store, mem₁, a.bresp) in
    let wrote : write_if (on && (x.w_valid && s.store_inflight)) s.mm b.store mem u.bresp x
        ≡ ok one =
      subst
        (λ (t : Store).
          write_if (on && (x.w_valid && t.store_inflight)) s.mm b.store mem u.bresp x ≡ ok one)
        store
        (subst
          (λ (m : Mm).
            write_if (on && (x.w_valid && u.store_inflight)) m b.store mem u.bresp x ≡ ok one)
          mm
          (subst
            (λ (t : Store).
              write_if (on && (x.w_valid && u.store_inflight)) u.mm t mem u.bresp x ≡ ok one)
            tracked a.writes)) in
    let same =
      write-same d _ s.mm b.store mem u.bresp b.state b.tables x one b.out wrote b.writes in
    (
      same.1 ∙ b.same_bytes,
      sym (Stages.clear_if-store x.reset a.next u' a.ends) ∙ same.0 ∙ b.same_store,
    )
