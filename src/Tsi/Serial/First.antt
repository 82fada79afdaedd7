-- ===== src/Tsi/Serial/First.antt =====
-- The first call of a chip, and the number that a call returns.
use thermal_placement.Base.{
  take-front, ℕ, ◌/◌, ◌%◌, ◌^◌, ◌<◌, ◌≡◌, refl, sym, ap, ◌∙◌, true, false, List, ◌++◌, none, some,
  Result, ok, ◌>>=◌, >>=-eq-ok, ok-pair, ◌==◌, if◌then◌else◌, length, arith,
}
use thermal_placement.Tsi.{Tsi}
use thermal_placement.Tsi.Args.{construct}
use thermal_placement.Tsi.Options.{kept, remove_vcs_simv_opt_lem}
use thermal_placement.Tsi.Serial.{
  Fesvr, Call, Reply, Globals, find_or_create, result_of, serve, tsi_tick,
}

module _ (f : Fesvr) where
  -- The first call for a chip, with arguments that the host's constructor accepts once the simulator's
  -- own options are removed, goes on as if the chip's host had been made of the remaining arguments
  -- before. The other chips keep their hosts. The simulator's array then holds the remaining arguments
  -- in front, but keeps its old count.
  pub first_call :
      (g : Globals f) (c : ℕ) (x : Call) (args junk : List (List ℕ)) (t : Tsi)
      → g.tsis c ≡ none
      → g.vlog ≡ some (record { argc = length args; argv = args ++ junk })
      → construct (kept args) true ≡ ok t
      → (g₁ : Globals f) × (junk' : List (List ℕ)) × (g₁.tsis c ≡ some (f.create (kept args) t))
        × (tsi_tick f g c x ≡ tsi_tick f g₁ c x)
        × ((k : ℕ) → (k == c) ≡ false → g₁.tsis k ≡ g.tsis k)
        × (g₁.vlog ≡ some (record { argc = length args; argv = kept args ++ junk' }))
  unfolding tsi_tick find_or_create
  first_call g c x args junk t new given built =
      let (junk', removed) = remove_vcs_simv_opt_lem args junk in
      let front = take-front (kept args) junk' in
      let s = f.create (kept args) t in
      let g₁ : Globals f = record {
        tsis = λ k. if k == c then some s else g.tsis k;
        vlog = some (record { argc = length args; argv = kept args ++ junk' });
      } in
      let here : (c == c) ≡ true = ground arith in
      let made : find_or_create f (g.tsis c) g c ≡ ok (g₁, s) =
        rw (new, given, removed, front, built) refl in
      let found : find_or_create f (g₁.tsis c) g₁ c ≡ ok (g₁, s) = rw here refl in
      (
        g₁,
        junk',
        rw here refl,
        ap
            (λ (o : Result (Globals f × f.State)). o >>= (λ p.
              (serve f p.1 x >>= (λ q.
                ok (record p.0 { tsis = λ k. if k == c then some q.0 else p.0.tsis k }, q.1)))))
            (made ∙ sym found),
        λ k other. rw other refl,
        refl,
      )

  result_of_lem :
      (s : f.State) (n : ℕ)
      → result_of f s ≡ ok n
      → (n < 2 ^ 31)
        × (n % 2 ≡ (if f.done s then 1 else 0))
        × (n / 2 ≡ (if f.done s then f.exit_code s else 0))
  unfolding result_of
  result_of_lem s n h = ground arith

  -- The number that tsi_tick returns is an int whose lowest bit says whether the host is done, and
  -- whose other bits are then its exit code, and else 0.
  serve_result :
      (s s' : f.State) (x : Call) (r : Reply)
      → serve f s x ≡ ok (s', r)
      → (r.result < 2 ^ 31)
        × (r.result % 2 ≡ (if f.done s' then 1 else 0))
        × (r.result / 2 ≡ (if f.done s' then f.exit_code s' else 0))
  unfolding serve
  serve_result s s' x r served =
      let moved = f.switch_to_host (f.tick x.out_valid x.out_bits x.in_ready s) in
      let (result, ended, made) = >>=-eq-ok (result_of f moved) _ served in
      let (same, same_r) = ok-pair made in
      let number = ap (λ (y : Reply). y.result) same_r in
      result_of_lem s' r.result (ap (result_of f) (sym same) ∙ ended ∙ ap (λ (n : ℕ). ok n) number)
