-- ===== src/Magic/Trace/Responses.antt =====
-- The write channel of mm_magic_t over a tick.
use thermal_placement.Base.{
  ℕ, ◌≡◌, refl, sym, ap, ap₂, ◌∙◌, Bool, true, false, not, ◌&&◌, List, [], ◌∷◌, ◌++◌, append-nil,
  append_assoc, ok, >>=-eq-ok, ok-pair, ok-triple, ok-injective, Bool-cases, inl, inr, one_shl_int,
  assertion, if◌then◌else◌, ◌==◌, arith, guard,
}
use thermal_placement.Memory.{Mm, write}
use thermal_placement.Axi.{Inputs, Store, accept, beat, accept_if}
use thermal_placement.Magic.{Magic, w_ready, finish, write_beat, tick, write_if}
use thermal_placement.Magic.Trace.{seen, in_flight}
use thermal_placement.Magic.Trace.Stages.{popped_ids, tick-Stages, clear_if_live}

accept-ids :
    (s : Store) (x : Inputs) (s' : Store)
    → accept s x ≡ ok s'
    → (s'.store_inflight ≡ true) × (s'.store_id ≡ x.aw_id)
unfolding accept
accept-ids s x s' e =
    let (size, _, e₁) = >>=-eq-ok (one_shl_int x.aw_size) _ e in
    let made = ok-injective e₁ in
    (sym (ap (λ (t : Store). t.store_inflight) made), sym (ap (λ (t : Store). t.store_id) made))

accept_if-ids :
    (live : Bool) (s : Store) (x : Inputs) (s' : Store)
    → accept_if (live && (x.aw_valid && not s.store_inflight)) s x ≡ ok s'
    → in_flight s'
      ≡ in_flight s ++ (if live && (x.aw_valid && not s.store_inflight) then x.aw_id ∷ [] else [])
accept_if-ids live s x s' e = elim (Bool-cases (live && (x.aw_valid && not s.store_inflight))) [
  | inl fires ↦
      let (on, name) = accept-ids s x s' (rw fires at e) in
      let free : s.store_inflight ≡ false = ground arith in rw (fires, on, name, free)
  | inr idle ↦
      let same : s' ≡ s = sym (ok-injective (rw idle at e)) in
      rw (idle, same) (sym (append-nil (in_flight s)))
]

beat-ids :
    (m : Mm) (s : Store) (mem : List ℕ) (x : Inputs) (s' : Store) (mem' : List ℕ)
    → beat m s mem x ≡ ok (s', mem')
    → (s'.store_inflight ≡ s.store_inflight) × (s'.store_id ≡ s.store_id)
unfolding beat
beat-ids m s mem x s' mem' e =
    let (_, _, e₁) = >>=-eq-ok (write m mem s.store_addr x.w_data x.w_strb s.store_size) _ e in
    let moved = (ok-pair e₁).0 in
    (sym (ap (λ (t : Store). t.store_inflight) moved), sym (ap (λ (t : Store). t.store_id) moved))

-- What a finished beat adds to the responses, and the burst that it leaves in flight.
abbrev Answers : (s s' : Store) (bresp bresp' : List ℕ) → Type 0
Answers s s' bresp bresp' =
    (more : List ℕ) × (bresp' ≡ bresp ++ more) × (more ++ in_flight s' ≡ in_flight s)

finish-ids :
    (s : Store) (bresp : List ℕ) (w_last : Bool) (s' : Store) (bresp' : List ℕ)
    → s.store_inflight ≡ true
    → finish s bresp w_last ≡ ok (s', bresp')
    → Answers s s' bresp bresp'
unfolding finish
finish-ids s bresp w_last s' bresp' on e = elim (Bool-cases (s.store_count == 0)) [
  | inl ends ↦
      let (_, _, e₁) = >>=-eq-ok (guard w_last assertion) _ (rw ends at e) in
      let (freed, pushed) = ok-pair e₁ in
      let mine : s.store_id ∷ [] ≡ in_flight s = rw on in
      (s.store_id ∷ [], sym pushed, ap (λ (t : Store). s.store_id ∷ in_flight t) (sym freed) ∙ mine)
  | inr goes ↦
      let (kept, same) = ok-pair (rw goes at e) in
      ([], sym same ∙ sym (append-nil bresp), ap in_flight (sym kept))
]

-- A beat moves the id of its burst to the responses, or leaves both.
write_if-ids :
    (fire : Bool) (m : Mm) (s : Store) (mem bresp : List ℕ) (x : Inputs) (s' : Store)
    (mem' bresp' : List ℕ)
    → (fire ≡ true → s.store_inflight ≡ true)
    → write_if fire m s mem bresp x ≡ ok (s', mem', bresp')
    → Answers s s' bresp bresp'
unfolding write_beat
write_if-ids false m s mem bresp x s' mem' bresp' h e =
    let (kept, _, same) = ok-triple e in
    ([], sym same ∙ sym (append-nil bresp), ap in_flight (sym kept))
write_if-ids true m s mem bresp x s' mem' bresp' h e =
    let (moved, beaten, e₁) = >>=-eq-ok (beat m s mem x) _ e in
    let (closed, finished, e₂) = >>=-eq-ok (finish moved.0 bresp x.w_last) _ e₁ in
    let (kept, _, same) = ok-triple e₂ in
    let (inflight, name) = beat-ids m s mem x moved.0 moved.1 beaten in
    let on = inflight ∙ h refl in
    let (more, added, left) = finish-ids moved.0 bresp x.w_last closed.0 closed.1 on finished in
    let mine : in_flight moved.0 ≡ in_flight s =
      ap₂ (λ (b : Bool) (n : ℕ). if b then n ∷ [] else []) inflight name in
    (more, sym same ∙ added, ap (λ (t : Store). more ++ in_flight t) (sym kept) ∙ left ∙ mine)

-- A tracker that is busy stays busy while it accepts nothing.
accept_if-busy :
    (live : Bool) (s : Store) (x : Inputs) (s' : Store)
    → accept_if (live && (x.aw_valid && not s.store_inflight)) s x ≡ ok s'
    → s.store_inflight ≡ true
    → s'.store_inflight ≡ true
accept_if-busy live s x s' e on =
    let idle : live && (x.aw_valid && not s.store_inflight) ≡ false = ground arith in
    ap (λ (t : Store). t.store_inflight) (sym (ok-injective (rw idle at e))) ∙ on

-- One cycle: the responses handed over, those that wait and the burst in flight are those of before
-- and the address accepted.
pub tick-responses :
    (s : Magic) (mem : List ℕ) (x : Inputs) (s' : Magic) (mem' : List ℕ)
    → x.reset ≡ false
    → tick s mem x ≡ ok (s', mem')
    → (seen s x).responses ++ (s'.bresp ++ in_flight s'.store)
      ≡ (s.bresp ++ in_flight s.store) ++ (seen s x).addresses
tick-responses s mem x s' mem' live e =
    let st = tick-Stages s mem x s' mem' e in
    let same : st.next ≡ s' = clear_if_live x.reset st.next s' live st.ends in
    let taken = accept_if-ids (not x.reset) s.store x st.store st.accepts in
    let busy = accept_if-busy (not x.reset) s.store x st.store st.accepts in
    let (more, pushed, waits) =
      write_if-ids _ s.mm st.store mem s.bresp x st.next.store mem' st.bresp
        (λ (f : not x.reset && (x.w_valid && w_ready s) ≡ true). busy (ground arith)) st.writes in
    let handed =
      popped_ids (not x.reset) x.b_ready s.bresp st.bresp st.next.bresp more pushed st.answers in
    ap (λ (t : Magic). (seen s x).responses ++ (t.bresp ++ in_flight t.store)) (sym same)
    ∙ sym (append_assoc (seen s x).responses st.next.bresp (in_flight st.next.store))
    ∙ ap (λ (t : List ℕ). t ++ in_flight st.next.store) handed
    ∙ append_assoc s.bresp more (in_flight st.next.store)
    ∙ ap (λ (t : List ℕ). s.bresp ++ t) (waits ∙ taken)
    ∙ sym (append_assoc s.bresp (in_flight s.store) (seen s x).addresses)
