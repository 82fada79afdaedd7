-- ===== src/Smoke.antt =====
-- workloads/thermal_smoke/thermal_smoke.c: the program that the smoke simulation runs. Its message
-- is left out.
use thermal_placement.Base.{ℕ, zero, suc, ◌≡◌, refl, ◌==◌, if◌then◌else◌, add64}

-- The loop with `n` rounds left.
add_up : (n i acc : ℕ) → ℕ
add_up zero i acc = acc
add_up (suc n) i acc = add_up n (suc i) (add64 acc i)

-- `main`
abbrev exit_code : ℕ
exit_code = if add_up 8 0 0 == 28 then 0 else 1

succeeds : exit_code ≡ 0
unfolding add_up
succeeds = refl
