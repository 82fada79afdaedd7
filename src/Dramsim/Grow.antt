-- ===== src/Dramsim/Grow.antt =====
-- What the stages of mm_dramsim2_t::tick and the callbacks add to the response queues.
use thermal_placement.Base.{
  ℕ, zero, suc, ◌≡◌, refl, subst, Bool, true, false, List, [], ◌∷◌, ◌++◌, Option, none, some, ok,
  >>=-eq-ok, ok-injective, guard, assertion, div_by_zero, ltb, ◌==◌, add64, sub64, ◌*◌, ◌/◌, ◌%◌,
  ◌^◌,
}
use thermal_placement.Memory.{Mm, read}
use thermal_placement.Axi.{Inputs, RResp, Store, beat}
use thermal_placement.Memory.Read.{read-length}
use thermal_placement.Axi.Queue.{Grows, Grows-refl, Grows-trans, Adds, Adds-refl, Adds-trans}
use thermal_placement.Dramsim.Interface.{System, Done}
use thermal_placement.Dramsim.{
  Req, Tables, Dram, set_bit, push_words, read_front, write_front, complete_as, complete, pick,
  issue_picked, issue, finish_store, write_beat_if, clear_if, b_id,
}

-- Both response queues have only grown, that of the beats by beats of `w` bytes.
pub record BothGrow (w : ℕ) (t t' : Tables) : Type 0 where
  pub beats : Adds w t.rresp t'.rresp
  pub ids : Grows t.bresp t'.bresp

pub BothGrow-refl : (w : ℕ) (t : Tables) → BothGrow w t t
BothGrow-refl w t = record { beats = Adds-refl w t.rresp; ids = Grows-refl t.bresp }

pub BothGrow-trans : (w : ℕ) (t u v : Tables) → BothGrow w t u → BothGrow w u v → BothGrow w t v
BothGrow-trans w t u v g h = record {
  beats = Adds-trans w t.rresp u.rresp v.rresp g.beats h.beats;
  ids = Grows-trans t.bresp u.bresp v.bresp g.ids h.ids;
}

push_words-Adds :
    (n i : ℕ) (m : Mm) (mem : List ℕ) (start id len : ℕ) (q q' : List RResp)
    → push_words n i m mem start id len q ≡ ok q'
    → Adds m.word_size q q'
unfolding push_words
push_words-Adds zero i m mem start id len q q' e =
    subst (Adds m.word_size q) (ok-injective e) (Adds-refl m.word_size q)
push_words-Adds (suc n) i m mem start id len q q' e =
    let (dat, got, e₁) = >>=-eq-ok (read m mem (add64 start (i * m.word_size % 2 ^ 64))) _ e in
    let one : RResp = record { id = id; bytes = dat; last = i == sub64 len 1 } in
    Adds-trans m.word_size q (q ++ one ∷ []) q' (one ∷ [], refl, (read-length m mem _ dat got, tt))
      (push_words-Adds n (suc i) m mem start id len (q ++ one ∷ []) q' e₁)

read_front-BothGrow :
    (l : List Req) (m : Mm) (mem : List ℕ) (address : ℕ) (t t' : Tables)
    → read_front l m mem address t ≡ ok t'
    → BothGrow m.word_size t t'
unfolding read_front
read_front-BothGrow [] m mem address t t' e = cc
read_front-BothGrow (req ∷ rest) m mem address t t' e =
    let (_, _, e₁) = >>=-eq-ok (guard (ltb 0 m.word_size) div_by_zero) _ e in
    let start = req.addr / m.word_size * m.word_size in
    let (q, pushed, e₂) =
      >>=-eq-ok (push_words req.len 0 m mem start req.id req.len t.rresp) _ e₁ in
    let (busy, _, e₃) = >>=-eq-ok (set_bit t.read_id_busy req.id false) _ e₂ in
    subst (BothGrow m.word_size t) (ok-injective e₃) (record {
      beats = push_words-Adds req.len 0 m mem start req.id req.len t.rresp q pushed;
      ids = Grows-refl t.bresp;
    })

write_front-BothGrow :
    (w : ℕ) (l : List ℕ) (address : ℕ) (t t' : Tables)
    → write_front l address t ≡ ok t'
    → BothGrow w t t'
unfolding write_front
write_front-BothGrow w [] address t t' e = cc
write_front-BothGrow w (b_id ∷ rest) address t t' e =
    let (busy, _, e₁) = >>=-eq-ok (set_bit t.write_id_busy b_id false) _ e in
    subst (BothGrow w t) (ok-injective e₁)
      (record { beats = Adds-refl w t.rresp; ids = (b_id ∷ [], refl) })

complete_as-BothGrow :
    (w : Bool) (m : Mm) (mem : List ℕ) (address : ℕ) (t t' : Tables)
    → complete_as w m mem address t ≡ ok t'
    → BothGrow m.word_size t t'
unfolding complete_as
complete_as-BothGrow false m mem address t t' e =
    read_front-BothGrow (t.rreq address) m mem address t t' e
complete_as-BothGrow true m mem address t t' e =
    write_front-BothGrow m.word_size (t.wreq address) address t t' e

pub complete-BothGrow :
    (m : Mm) (mem : List ℕ) (ds : List Done) (t t' : Tables)
    → complete m mem ds t ≡ ok t'
    → BothGrow m.word_size t t'
unfolding complete
complete-BothGrow m mem [] t t' e =
    subst (BothGrow m.word_size t) (ok-injective e) (BothGrow-refl m.word_size t)
complete-BothGrow m mem (d ∷ ds) t t' e =
    let (t₁, one, e₁) = >>=-eq-ok (complete_as d.is_write m mem d.address t) _ e in
    BothGrow-trans m.word_size t t₁ t' (complete_as-BothGrow d.is_write m mem d.address t t₁ one)
      (complete-BothGrow m mem ds t₁ t' e₁)

module _ (d : System) (wd : ℕ) where
  issue_picked-BothGrow :
      (o : Option (Req × List Req)) (s s' : Dram d)
      → issue_picked d s o ≡ ok s'
      → BothGrow wd s.tables s'.tables
  unfolding issue_picked
  issue_picked-BothGrow none s s' e =
      subst (λ (u : Dram d). BothGrow wd s.tables u.tables) (ok-injective e)
        (BothGrow-refl wd s.tables)
  issue_picked-BothGrow (some (req, others)) s s' e =
      let (busy, _, e₁) = >>=-eq-ok (set_bit s.read_id_busy req.id true) _ e in
      subst (λ (u : Dram d). BothGrow wd s.tables u.tables) (ok-injective e₁)
        (record { beats = Adds-refl wd s.rresp; ids = Grows-refl s.bresp })

  pub issue-BothGrow :
      (b : Bool) (s s' : Dram d)
      → d.will_accept s.state ≡ b
      → issue d s ≡ ok s'
      → BothGrow wd s.tables s'.tables
  unfolding issue
  issue-BothGrow true s s' h e =
      let (o, _, e₁) = >>=-eq-ok (pick s.read_id_busy s.rreq_queue) _ (rw h at e) in
      issue_picked-BothGrow o s s' e₁
  issue-BothGrow false s s' h e =
      subst (λ (u : Dram d). BothGrow wd s.tables u.tables) (ok-injective (rw h at e))
        (BothGrow-refl wd s.tables)

  finish_store-BothGrow :
      (b : Bool) (s : Store) (state : d.State) (t : Tables) (w_last : Bool)
      (out : Store × d.State × Tables)
      → (s.store_count == 0) ≡ b
      → finish_store d s state t w_last ≡ ok out
      → BothGrow wd t out.2
  unfolding finish_store
  finish_store-BothGrow true s state t w_last out h e =
      let (_, _, e₁) = >>=-eq-ok (guard w_last assertion) _ (rw h at e) in
      subst (λ (o : Store × d.State × Tables). BothGrow wd t o.2) (ok-injective e₁)
        (record { beats = Adds-refl wd t.rresp; ids = Grows-refl t.bresp })
  finish_store-BothGrow false s state t w_last out h e =
      subst (λ (o : Store × d.State × Tables). BothGrow wd t o.2) (ok-injective (rw h at e))
        (BothGrow-refl wd t)

  pub write_beat_if-BothGrow :
      (b : Bool) (m : Mm) (s : Store) (mem : List ℕ) (state : d.State) (t : Tables) (x : Inputs)
      (out : Store × List ℕ × d.State × Tables)
      → write_beat_if d b m s mem state t x ≡ ok out
      → BothGrow wd t out.3
  unfolding write_beat_if
  write_beat_if-BothGrow false m s mem state t x out e =
      subst (λ (o : Store × List ℕ × d.State × Tables). BothGrow wd t o.3) (ok-injective e)
        (BothGrow-refl wd t)
  write_beat_if-BothGrow true m s mem state t x out e =
      let (moved, _, e₁) = >>=-eq-ok (beat m s mem x) _ e in
      let (done, finished, e₂) = >>=-eq-ok (finish_store d moved.0 state t x.w_last) _ e₁ in
      subst (λ (o : Store × List ℕ × d.State × Tables). BothGrow wd t o.3) (ok-injective e₂)
        (finish_store-BothGrow (moved.0.store_count == 0) moved.0 state t x.w_last done refl
          finished)

module _ (d : System) where
  pub clear_if_live : (b : Bool) (s s' : Dram d) → b ≡ false → clear_if d b s ≡ s' → s ≡ s'
  unfolding clear_if
  clear_if_live false s s' h e = e
  clear_if_live true s s' h e = cc
