-- ===== src/Tsi/Serial/Tests.antt =====
-- Two chips with a host that counts its calls.
use thermal_placement.Base.{
  ℕ, suc, ◌+◌, ◌≡◌, refl, true, false, List, [], ◌∷◌, ◌++◌, none, some, ok, length, ltb, ◌==◌,
  if◌then◌else◌,
}
use thermal_placement.Base.Text.{codes}
use thermal_placement.Tsi.{is_simv_opt}
use thermal_placement.Tsi.Args.{construct, defaults}
use thermal_placement.Tsi.Options.{kept}
use thermal_placement.Tsi.Serial.{Fesvr, Call, Reply, Globals, serve, tsi_tick}
use thermal_placement.Tsi.Serial.Chips.{run_calls, session, run_calls-session}
use thermal_placement.Tsi.Serial.First.{first_call}

-- Done with code 3 after two calls; the number of arguments is its first bits.
abbrev counting : Fesvr
counting = record {
  State = ℕ × ℕ;
  create = λ args t. (0, length args);
  tick = λ v b r s. (suc s.0, s.1 + b);
  switch_to_host = λ s. s;
  in_valid = λ s. true;
  in_bits = λ s. s.1;
  out_ready = λ s. true;
  done = λ s. ltb 1 s.0;
  exit_code = λ s. 3;
}

abbrev args : List (List ℕ)
args = codes "sim" ∷ codes "-a=1" ∷ codes "x" ∷ []

abbrev none_yet : Globals counting
none_yet = record { tsis = λ c. none; vlog = some (record { argc = 3; argv = args ++ [] }) }

abbrev call : ℕ → Call
call b = record { out_valid = true; out_bits = b; in_ready = true }

abbrev answer : ℕ → ℕ → Reply
answer b n = record { in_valid = true; in_bits = b; out_ready = true; result = n }

keeps_two : kept args ≡ codes "sim" ∷ codes "x" ∷ []
unfolding kept is_simv_opt
keeps_two = refl

builds : construct (kept args) true ≡ ok defaults
unfolding kept is_simv_opt construct
builds = refl

first_call_example :
    (g₁ : Globals counting) × (junk' : List (List ℕ)) × (g₁.tsis 0
      ≡ some (counting.create (kept args) defaults))
    × (tsi_tick counting none_yet 0 (call 5) ≡ tsi_tick counting g₁ 0 (call 5))
    × ((k : ℕ) → (k == 0) ≡ false → g₁.tsis k ≡ none)
    × (g₁.vlog ≡ some (record { argc = 3; argv = kept args ++ junk' }))
first_call_example = first_call counting none_yet 0 (call 5) args [] defaults refl refl builds

abbrev two_chips : Globals counting
two_chips = record { tsis = λ c. if c == 0 then some (0, 0) else some (0, 9); vlog = none }

abbrev after : Globals counting
after = record {
  tsis = λ c.
      if c == 0
      then some (2, 7)
      else if c == 1
      then some (1, 10)
      else if c == 0
      then some (1, 5)
      else if c == 0
      then some (0, 0)
      else some (0, 9);
  vlog = none;
}

interleaves :
    run_calls counting two_chips ((0, call 5) ∷ (1, call 1) ∷ (0, call 2) ∷ [])
    ≡ ok (after, (0, answer 5 0) ∷ (1, answer 10 0) ∷ (0, answer 7 7) ∷ [])
unfolding run_calls tsi_tick
interleaves = refl

run_calls-session_example :
    (s' : ℕ × ℕ) × (session counting (0, 0) (call 5 ∷ call 2 ∷ [])
      ≡ ok (s', answer 5 0 ∷ answer 7 7 ∷ []))
    × (after.tsis 0 ≡ some s')
run_calls-session_example =
    run_calls-session counting ((0, call 5) ∷ (1, call 1) ∷ (0, call 2) ∷ []) two_chips after 0
      (0, 0) ((0, answer 5 0) ∷ (1, answer 10 0) ∷ (0, answer 7 7) ∷ []) refl interleaves

serves : serve counting (1, 5) (call 2) ≡ ok ((2, 7), answer 7 7)
unfolding serve
serves = refl
