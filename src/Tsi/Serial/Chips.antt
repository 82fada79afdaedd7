-- ===== src/Tsi/Serial/Chips.antt =====
-- The calls of tsi_tick for several chips.
use thermal_placement.Base.{
  aborted, blocked, ==_iff, ℕ, ◌≡◌, refl, sym, ap, ◌∙◌, subst, true, false, Bool-cases, inl, inr,
  List, [], ◌∷◌, Option, none, some, Result, ok, ◌>>=◌, >>=-eq-ok, ok-pair, or_fault, ◌==◌,
  if◌then◌else◌, take, arith,
}
use thermal_placement.Tsi.{remove_vcs_simv_opt}
use thermal_placement.Tsi.Args.{construct}
use thermal_placement.Tsi.Serial.{Fesvr, Call, Reply, Globals, find_or_create, serve, tsi_tick}

module _ (f : Fesvr) where
  -- Calls of tsi_tick for any chips, with the chip of each reply.
  unfoldable pub run_calls : Globals f → List (ℕ × Call) → Result (Globals f × List (ℕ × Reply))
  run_calls g [] = ok (g, [])
  run_calls g ((c, x) ∷ xs) = do
    (g', r) ← tsi_tick f g c x
    (g'', rs) ← run_calls g' xs
    ok (g'', (c, r) ∷ rs)

  -- The calls of one host alone.
  pub session : f.State → List Call → Result (f.State × List Reply)
  session s [] = ok (s, [])
  session s (x ∷ xs) = do (s', r) ← serve f s x; (s'', rs) ← session s' xs; ok (s'', r ∷ rs)

abbrev pub own {ℓ} : {A : Type ℓ} → (chip_id : ℕ) → List (ℕ × A) → List A
own c [] = []
own c ((k, a) ∷ l) = if c == k then a ∷ own c l else own c l

own-mine {ℓ} :
    {A : Type ℓ} (c k : ℕ) (a : A) (l : List (ℕ × A))
    → (c == k) ≡ true
    → own c ((k, a) ∷ l) ≡ a ∷ own c l
own-mine c k a l h = rw h refl

own-other {ℓ} :
    {A : Type ℓ} (c k : ℕ) (a : A) (l : List (ℕ × A))
    → (c == k) ≡ false
    → own c ((k, a) ∷ l) ≡ own c l
own-other c k a l h = rw h refl

module _ (f : Fesvr) where
  session_step :
      (s s₁ s' : f.State) (x : Call) (r : Reply) (xs : List Call) (rs : List Reply)
      → serve f s x ≡ ok (s₁, r)
      → session f s₁ xs ≡ ok (s', rs)
      → session f s (x ∷ xs) ≡ ok (s', r ∷ rs)
  unfolding session
  session_step s s₁ s' x r xs rs one rest = rw (one, rest) refl

  -- A call for a chip whose host is there.
  tick_present :
      (g g' : Globals f) (c : ℕ) (x : Call) (s : f.State) (r : Reply)
      → g.tsis c ≡ some s
      → tsi_tick f g c x ≡ ok (g', r)
      → (s' : f.State) × (serve f s x ≡ ok (s', r)) × (g'.tsis c ≡ some s')
  unfolding tsi_tick find_or_create
  tick_present g g' c x s r there done =
      let same : find_or_create f (g.tsis c) g c ≡ ok (g, s) =
        ap (λ (o : Option f.State). find_or_create f o g c) there in
      let (out, served, made) = >>=-eq-ok (serve f s x) _ (rw same at done) in
      let (same_g, same_r) = ok-pair made in
      let here : (c == c) ≡ true = ground arith in
      (
        out.0,
        served ∙ ap (λ (y : Reply). ok (out.0, y)) same_r,
        ap (λ (h : Globals f). h.tsis c) (sym same_g) ∙ rw here refl,
      )

  create_other :
      (o : Option f.State) (g g' : Globals f) (c k : ℕ) (s : f.State)
      → (c == k) ≡ false
      → find_or_create f o g k ≡ ok (g', s)
      → g'.tsis c ≡ g.tsis c
  unfolding find_or_create
  create_other (some t) g g' c k s ne done = ap (λ (h : Globals f). h.tsis c) (sym (ok-pair done).0)
  create_other none g g' c k s ne done =
      let (info, _, done₁) = >>=-eq-ok (or_fault g.vlog aborted) _ done in
      let (out, _, done₂) =
        >>=-eq-ok (or_fault (remove_vcs_simv_opt info.argc info.argv) blocked) _ done₁ in
      let (t, _, made) = >>=-eq-ok (construct (take out.0 out.1) true) _ done₂ in
      ap (λ (h : Globals f). h.tsis c) (sym (ok-pair made).0) ∙ rw ne refl

  -- A call for another chip.
  tick_other :
      (g g' : Globals f) (c k : ℕ) (x : Call) (r : Reply)
      → (c == k) ≡ false
      → tsi_tick f g k x ≡ ok (g', r)
      → g'.tsis c ≡ g.tsis c
  unfolding tsi_tick
  tick_other g g' c k x r ne done =
      let (out, found, done₁) = >>=-eq-ok (find_or_create f (g.tsis k) g k) _ done in
      let (ans, served, made) = >>=-eq-ok (serve f out.1 x) _ done₁ in
      ap (λ (h : Globals f). h.tsis c) (sym (ok-pair made).0)
      ∙ rw ne (create_other (g.tsis k) g out.0 c k out.1 ne found)

  -- However the calls of the chips are interleaved, a chip whose host is there sees just the replies
  -- that its host would give to its own calls alone, and its host ends in the same state.
  pub run_calls-session :
      (xs : List (ℕ × Call)) (g g' : Globals f) (c : ℕ) (s : f.State) (rs : List (ℕ × Reply))
      → g.tsis c ≡ some s
      → run_calls f g xs ≡ ok (g', rs)
      → (s' : f.State) × (session f s (own c xs) ≡ ok (s', own c rs)) × (g'.tsis c ≡ some s')
  unfolding run_calls session
  run_calls-session [] g g' c s rs there ran =
      let (same_g, same_rs) = ok-pair ran in
      (
        s,
        ap (λ (l : List (ℕ × Reply)). ok (s, own c l)) same_rs,
        ap (λ (h : Globals f). h.tsis c) (sym same_g) ∙ there,
      )
  run_calls-session ((k, x) ∷ xs) g g' c s rs there ran =
      let (out, ticked, ran₁) = >>=-eq-ok (tsi_tick f g k x) _ ran in
      let (end, later, made) = >>=-eq-ok (run_calls f out.0 xs) _ ran₁ in
      let (same_g, same_rs) = ok-pair made in
      let end_g = ap (λ (h : Globals f). h.tsis c) (sym same_g) in
      let end_rs = ap (own c) (sym same_rs) in
      elim (Bool-cases (c == k)) [
        | inl mine ↦
            let by_c =
              subst (λ (j : ℕ). tsi_tick f g j x ≡ ok out) (sym ((==_iff c k).0 mine)) ticked in
            let (s₁, served, here) = tick_present g out.0 c x s out.1 there by_c in
            let (s', alone, fin) = run_calls-session xs out.0 end.0 c s₁ end.1 here later in
            (
              s',
              ap (session f s) (own-mine c k x xs mine)
                  ∙ session_step s s₁ s' x out.1 (own c xs) (own c end.1) served alone
                  ∙ ap (λ (l : List Reply). ok (s', l))
                      (sym (end_rs ∙ own-mine c k out.1 end.1 mine)),
              end_g ∙ fin,
            )
        | inr other ↦
            let still = tick_other g out.0 c k x out.1 other ticked ∙ there in
            let (s', alone, fin) = run_calls-session xs out.0 end.0 c s end.1 still later in
            (
              s',
              ap (session f s) (own-other c k x xs other)
                  ∙ alone
                  ∙ ap (λ (l : List Reply). ok (s', l))
                      (sym (end_rs ∙ own-other c k out.1 end.1 other)),
              end_g ∙ fin,
            )
      ]
