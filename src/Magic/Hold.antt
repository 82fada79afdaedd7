-- ===== src/Magic/Hold.antt =====
-- The response channels of mm_magic_t over a tick in which a response is not taken.
mod Tests
use thermal_placement.Base.{
  ℕ, zero, suc, ◌≡◌, refl, sym, ap, ◌∙◌, subst, Bool, true, false, not, ◌&&◌, List, [], ◌∷◌, ◌++◌,
  Result, ok, ◌>>=◌, ◌>>◌, >>=-eq-ok, ok-injective, ok-triple, ok-pair, guard, assertion, overflow,
  div_by_zero, ltb, ◌==◌, if◌then◌else◌, Bool-cases, inl, inr, mul_int, int_max, add64,
}
use thermal_placement.Memory.{Mm, read}
use thermal_placement.Axi.{Inputs, RResp, Store, is_empty, beat}
use thermal_placement.Memory.Read.{read-length}
use thermal_placement.Axi.Queue.{
  Adds, Adds-refl, Adds-trans, Adds-Grows, Grows, Grows-refl, Grows-trans, pop_if-Grows, beats_held,
  ids_held,
}
use thermal_placement.Magic.{
  Magic, r_valid, r_id, r_data, r_last, b_valid, b_id, push_beats, read_burst, finish, write_beat,
  read_if, write_if, clear_if, tick,
}
use thermal_placement.Magic.Trace.Stages.{Stages, tick-Stages, clear_if_live}

-- What a read burst pushes, and that it has the width of a word.
pub push_beats-Adds :
    (n i : ℕ) (m : Mm) (mem : List ℕ) (start id len : ℕ) (q q' : List RResp)
    → push_beats n i m mem start id len q ≡ ok q'
    → Adds m.word_size q q'
unfolding push_beats
push_beats-Adds zero i m mem start id len q q' e =
    subst (Adds m.word_size q) (ok-injective e) (Adds-refl m.word_size q)
push_beats-Adds (suc n) i m mem start id len q q' e =
    let (off, _, e₁) = >>=-eq-ok (mul_int i m.word_size) _ e in
    let (dat, got, e₂) = >>=-eq-ok (read m mem (add64 start off)) _ e₁ in
    let (_, _, e₃) = >>=-eq-ok (guard (ltb i int_max) overflow) _ e₂ in
    let one : RResp = record { id = id; bytes = dat; last = i == len } in
    Adds-trans m.word_size q (q ++ one ∷ []) q'
      (one ∷ [], refl, (read-length m mem (add64 start off) dat got, tt))
      (push_beats-Adds n (suc i) m mem start id len (q ++ one ∷ []) q' e₃)

pub read_if-Adds :
    (b : Bool) (s : Magic) (mem : List ℕ) (x : Inputs) (q' : List RResp)
    → read_if b s mem x ≡ ok q'
    → Adds s.mm.word_size s.rresp q'
unfolding read_burst
read_if-Adds false s mem x q' e =
    subst (Adds s.mm.word_size s.rresp) (ok-injective e) (Adds-refl s.mm.word_size s.rresp)
read_if-Adds true s mem x q' e =
    let (_, _, e₁) = >>=-eq-ok (guard (ltb 0 s.mm.word_size) div_by_zero) _ e in
    push_beats-Adds (suc x.ar_len) 0 s.mm mem _ x.ar_id x.ar_len s.rresp q' e₁

finish-Grows :
    (b : Bool) (s s' : Store) (q q' : List ℕ) (w_last : Bool)
    → (s.store_count == 0) ≡ b
    → finish s q w_last ≡ ok (s', q')
    → Grows q q'
unfolding finish
finish-Grows true s s' q q' w_last h e =
    let (_, _, e₁) = >>=-eq-ok (guard w_last assertion) _ (rw h at e) in
    subst (Grows q) (ok-pair e₁).1 (s.store_id ∷ [], refl)
finish-Grows false s s' q q' w_last h e = subst (Grows q) (ok-pair (rw h at e)).1 (Grows-refl q)

write_if-Grows :
    (b : Bool) (m : Mm) (s s' : Store) (mem mem' q q' : List ℕ) (x : Inputs)
    → write_if b m s mem q x ≡ ok (s', mem', q')
    → Grows q q'
unfolding write_beat
write_if-Grows false m s s' mem mem' q q' x e = subst (Grows q) (ok-triple e).2 (Grows-refl q)
write_if-Grows true m s s' mem mem' q q' x e =
    let (moved, _, e₁) = >>=-eq-ok (beat m s mem x) _ e in
    let (done, finished, e₂) = >>=-eq-ok (finish moved.0 q x.w_last) _ e₁ in
    subst (Grows q) (ok-triple e₂).2
      (finish-Grows (moved.0.store_count == 0) moved.0 done.0 q done.1 x.w_last refl finished)

tick_holds :
    (s s' : Magic) (mem mem' : List ℕ) (x : Inputs)
    → tick s mem x ≡ ok (s', mem')
    → x.reset ≡ false
    → (r_valid s ≡ true
        → x.r_ready ≡ false
        → (r_valid s' ≡ true)
          × (r_id s' ≡ r_id s)
          × (r_data s' mem' ≡ r_data s mem)
          × (r_last s' ≡ r_last s))
      × (b_valid s ≡ true → x.b_ready ≡ false → (b_valid s' ≡ true) × (b_id s' ≡ b_id s))
unfolding r_id r_data r_last b_id
tick_holds s s' mem mem' x ticked live =
    let st = tick-Stages s mem x s' mem' ticked in
    let same = clear_if_live x.reset st.next s' live st.ends in
    let beats = Adds-Grows _ s.rresp st.rresp (read_if-Adds _ s mem x st.rresp st.reads) in
    let ids = write_if-Grows _ s.mm st.store st.next.store mem mem' s.bresp st.bresp x st.writes in
    (
      λ valid waits.
          subst
            (λ (t : Magic).
              (r_valid t ≡ true)
              × (r_id t ≡ r_id s)
              × (r_data t mem' ≡ r_data s mem)
              × (r_last t ≡ r_last s))
            same
            (beats_held s.rresp st.next.rresp mem mem' valid (
              pop_if-Grows (not x.reset) (r_valid s) x.r_ready s.rresp st.rresp st.next.rresp waits
                beats st.delivers)),
      λ valid waits.
          subst (λ (t : Magic). (b_valid t ≡ true) × (b_id t ≡ b_id s)) same
            (ids_held s.bresp st.next.bresp valid (
              pop_if-Grows (not x.reset) (b_valid s) x.b_ready s.bresp st.bresp st.next.bresp waits
                ids st.answers)),
    )

-- Over a tick without reset, a read beat that is offered and not taken is offered again: the same valid
-- signal, id, data and last mark.
pub tick_holds_beat :
    (s s' : Magic) (mem mem' : List ℕ) (x : Inputs)
    → tick s mem x ≡ ok (s', mem')
    → x.reset ≡ false
    → r_valid s ≡ true
    → x.r_ready ≡ false
    → (r_valid s' ≡ true)
      × (r_id s' ≡ r_id s)
      × (r_data s' mem' ≡ r_data s mem)
      × (r_last s' ≡ r_last s)
tick_holds_beat s s' mem mem' x ticked live = (tick_holds s s' mem mem' x ticked live).0

-- Over a tick without reset, a write response that is offered and not taken is offered again, with the
-- same id.
tick_holds_id :
    (s s' : Magic) (mem mem' : List ℕ) (x : Inputs)
    → tick s mem x ≡ ok (s', mem')
    → x.reset ≡ false
    → b_valid s ≡ true
    → x.b_ready ≡ false
    → (b_valid s' ≡ true) × (b_id s' ≡ b_id s)
tick_holds_id s s' mem mem' x ticked live = (tick_holds s s' mem mem' x ticked live).1
