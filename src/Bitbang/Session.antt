-- ===== src/Bitbang/Session.antt =====
-- Invariants of the JTAG port over its ticks, and the numbers that jtag_tick returns.
use native.Mathlib.Decide.{ℕ_discrete}
use thermal_placement.Base.{
  ℕ, suc, ◌≤◌, ◌≡◌, sym, ap, ap₂, subst, ◌∙◌, List, [], ◌∷◌, ◌++◌, Option, none, some, Result,
  replicate, ok, ◌>>=◌, >>=-eq-ok, ok-triple, ok-injective, ltb, arith, Bool-cases, inl, inr, ◌⊎◌,
}
use thermal_placement.Bitbang.{
  Bitbang, Events, Setup, init, accept, read_command, dispatch, send_reply, hang_up,
  execute_command, tick, code, existing, jtag_tick,
}

-- The two ways in which a tick returns.
tick_cases :
    (b : Bitbang) (e : Events) (jtag_tdo : ℕ) {b' : Bitbang} {e' : Events} {reply : Option ℕ}
    → tick b e jtag_tdo ≡ ok (b', e', reply)
    → ((c : ℕ) × (b' ≡ hang_up (dispatch c (record b { tdo = jtag_tdo })).0))
      ⊎ ((fd : ℕ) × (b' ≡ record b { client_fd = fd }))
unfolding tick execute_command
tick_cases b e jtag_tdo h = elim (Bool-cases (ltb 0 b.client_fd)) [
  | inl on ↦
      let (got, _, h₁) = >>=-eq-ok (read_command e.reads) _ (rw on at h) in
      let b₀ : Bitbang = record b { tdo = jtag_tdo } in
      let (_, _, h₂) = >>=-eq-ok (send_reply (dispatch got.0 b₀).1 e.writes) _ h₁ in
      inl (got.0, sym (ok-triple h₂).0)
  | inr off ↦
      let (got, _, h₁) = >>=-eq-ok (accept e.accepts) _ (rw off at h) in
      inr (got.0, sym (ok-triple h₁).0)
]

-- The pins are bits, the reset pin is never driven, and no error is ever recorded.
pub record IsDriving (b : Bitbang) : Type 0 where
  pub tck_bit : b.tck ≤ 1
  pub tms_bit : b.tms ≤ 1
  pub tdi_bit : b.tdi ≤ 1
  pub quit_bit : b.quit ≤ 1
  pub no_reset : b.trstn ≡ 1
  pub no_error : b.error ≡ 0

dispatch-IsDriving : (c : ℕ) (b : Bitbang) → IsDriving b → IsDriving (hang_up (dispatch c b).0)
unfolding dispatch hang_up
dispatch-IsDriving c b v = ground arith

dispatch-quit : (c : ℕ) (b : Bitbang) → b.quit ≡ 1 → (hang_up (dispatch c b).0).quit ≡ 1
unfolding dispatch hang_up
dispatch-quit c b h = ground arith

init-IsDriving : (u : Setup) {b : Bitbang} → init u ≡ ok b → IsDriving b × (b.quit ≡ 0)
unfolding init
init-IsDriving u h = ground arith

abbrev IsStart : Option Bitbang → Type 0
IsStart none = Unit {0}
IsStart (some b) = IsDriving b

existing-IsDriving :
    (jtag : Option Bitbang) (u : Setup) {b : Bitbang}
    → IsStart jtag
    → existing jtag u ≡ ok b
    → IsDriving b
unfolding existing
existing-IsDriving none u v h = (init-IsDriving u h).0
existing-IsDriving (some b) u v h = subst IsDriving (ok-injective h) v

tick-IsDriving :
    (b : Bitbang) (e : Events) (jtag_tdo : ℕ) {b' : Bitbang} {e' : Events} {reply : Option ℕ}
    → IsDriving b
    → tick b e jtag_tdo ≡ ok (b', e', reply)
    → IsDriving b'
tick-IsDriving b e jtag_tdo {b'} v h = elim (tick_cases b e jtag_tdo h) [
  | inl (c, same) ↦
      subst IsDriving (sym same) (dispatch-IsDriving c (record b { tdo = jtag_tdo }) (omega arith))
  | inr (fd, same) ↦ subst IsDriving (sym same) (omega arith)
]

tick-quit_stays :
    (b : Bitbang) (e : Events) (jtag_tdo : ℕ) {b' : Bitbang} {e' : Events} {reply : Option ℕ}
    → b.quit ≡ 1
    → tick b e jtag_tdo ≡ ok (b', e', reply)
    → b'.quit ≡ 1
tick-quit_stays b e jtag_tdo q h = elim (tick_cases b e jtag_tdo h) [
  | inl (c, same) ↦
      ap (λ (t : Bitbang). t.quit) same ∙ dispatch-quit c (record b { tdo = jtag_tdo }) q
  | inr (fd, same) ↦ ap (λ (t : Bitbang). t.quit) same ∙ q
]

-- Successive calls of `jtag_tick`, one for each sampled bit, with the numbers that they return.
unfoldable pub run :
    Option Bitbang → Setup → Events → List ℕ → Result (Option Bitbang × Events × List ℕ)
run jtag u e [] = ok (jtag, e, [])
run jtag u e (jtag_tdo ∷ tdos) = do
  (b, e', reply, n) ← jtag_tick jtag u e jtag_tdo
  (jtag', e'', ns) ← run (some b) u e' tdos
  ok (jtag', e'', n ∷ ns)

code-quit : (b : Bitbang) → IsDriving b → code b ≡ b.quit
code-quit b v = ground arith

-- One call: the state after it, and the number returned.
jtag_tick-code :
    (jtag : Option Bitbang) (u : Setup) (e : Events) (jtag_tdo : ℕ) {b' : Bitbang} {e' : Events}
    {reply : Option ℕ} {n : ℕ}
    → IsStart jtag
    → jtag_tick jtag u e jtag_tdo ≡ ok (b', e', reply, n)
    → IsDriving b' × (n ≡ b'.quit)
unfolding jtag_tick
jtag_tick-code jtag u e jtag_tdo {b'} {n} v h =
    let (b, made, h₁) = >>=-eq-ok (existing jtag u) _ h in
    let (next, ticked, h₂) = >>=-eq-ok (tick b e jtag_tdo) _ h₁ in
    let same = ok-injective h₂ in
    let driving = tick-IsDriving b e jtag_tdo (existing-IsDriving jtag u v made) ticked in
    let moved : next.0 ≡ b' = ap (λ p. p.0) same in
    let counted : code next.0 ≡ n = ap (λ p. p.3) same in
    (
      subst IsDriving moved driving,
      sym counted ∙ code-quit next.0 driving ∙ ap (λ (t : Bitbang). t.quit) moved,
    )

jtag_tick-quit_stays :
    (b : Bitbang) (u : Setup) (e : Events) (jtag_tdo : ℕ) {b' : Bitbang} {e' : Events}
    {reply : Option ℕ} {n : ℕ}
    → b.quit ≡ 1
    → jtag_tick (some b) u e jtag_tdo ≡ ok (b', e', reply, n)
    → b'.quit ≡ 1
unfolding jtag_tick existing
jtag_tick-quit_stays b u e jtag_tdo q h =
    let (next, ticked, h₁) = >>=-eq-ok (tick b e jtag_tdo) _ h in
    ap (λ (p : Bitbang × Events × Option ℕ × ℕ). p.0.quit) (sym (ok-injective h₁))
    ∙ tick-quit_stays b e jtag_tdo q ticked

run-quit :
    (b : Bitbang) (u : Setup) (tdos : List ℕ) (e : Events) {jtag' : Option Bitbang} {e' : Events}
    {ns : List ℕ}
    → IsDriving b
    → b.quit ≡ 1
    → run (some b) u e tdos ≡ ok (jtag', e', ns)
    → (k : ℕ) × (ns ≡ replicate k 1)
unfolding run
run-quit b u [] e v q h = (0, sym (ok-triple h).2)
run-quit b u (jtag_tdo ∷ tdos) e v q h =
    let (next, ticked, h₁) = >>=-eq-ok (jtag_tick (some b) u e jtag_tdo) _ h in
    let (rest, ran, h₂) = >>=-eq-ok (run (some next.0) u next.1 tdos) _ h₁ in
    let (v', code_is) = jtag_tick-code (some b) u e jtag_tdo v ticked in
    let q' = jtag_tick-quit_stays b u e jtag_tdo q ticked in
    let (k, ones) = run-quit next.0 u tdos next.1 v' q' ran in
    (suc k, sym (ok-triple h₂).2 ∙ ap₂ (λ (a : ℕ) (t : List ℕ). a ∷ t) (code_is ∙ q') ones)

-- However the client behaves, the numbers that successive calls of `jtag_tick` return are zeros and
-- then ones: once the simulation has been told to stop, every later call says so, and no call
-- reports any other exit code.
pub run-codes :
    (jtag : Option Bitbang) (u : Setup) (tdos : List ℕ) (e : Events) {jtag' : Option Bitbang}
    {e' : Events} {ns : List ℕ}
    → IsStart jtag
    → run jtag u e tdos ≡ ok (jtag', e', ns)
    → (m k : ℕ) × (ns ≡ replicate m 0 ++ replicate k 1)
unfolding run
run-codes jtag u [] e v h = (0, 0, sym (ok-triple h).2)
run-codes jtag u (jtag_tdo ∷ tdos) e v h =
    let (next, ticked, h₁) = >>=-eq-ok (jtag_tick jtag u e jtag_tdo) _ h in
    let (rest, ran, h₂) = >>=-eq-ok (run (some next.0) u next.1 tdos) _ h₁ in
    let (v', code_is) = jtag_tick-code jtag u e jtag_tdo v ticked in
    let listed = sym (ok-triple h₂).2 in
    elim (ℕ_discrete next.0.quit 0) [
      | yes zero_quit ↦
          let (m, k, shape) = run-codes (some next.0) u tdos next.1 v' ran in
          (suc m, k, listed ∙ ap₂ (λ (a : ℕ) (t : List ℕ). a ∷ t) (code_is ∙ zero_quit) shape)
      | no raised ↦
          let q' : next.0.quit ≡ 1 = omega (arith, v'.quit_bit) in
          let (k, ones) = run-quit next.0 u tdos next.1 v' q' ran in
          (0, suc k, listed ∙ ap₂ (λ (a : ℕ) (t : List ℕ). a ∷ t) (code_is ∙ q') ones)
    ]
