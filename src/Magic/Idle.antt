-- ===== src/Magic/Idle.antt =====
-- mm_magic_t when nothing new comes in: reset, and the draining of what waits.
use thermal_placement.Base.{ℕ, ◌≡◌, refl, true, false, not, List, [], ◌∷◌, ok, drop, add64, arith}
use thermal_placement.Axi.{Inputs, is_empty, pop_if}
use thermal_placement.Magic.{Magic, aw_ready, clear_if, tick}

-- A tick under reset empties both response queues and the cycle counter. It leaves the write-burst
-- tracker: a burst that was in flight stays so, and the memory goes on refusing write addresses.
pub tick-reset :
    (s : Magic) (mem : List ℕ) (x : Inputs)
    → x.reset ≡ true
    → (s' : Magic) × (tick s mem x ≡ ok (s', mem))
      × (s'.bresp ≡ [])
      × (s'.rresp ≡ [])
      × (s'.cycle ≡ 0)
      × (s'.store ≡ s.store)
      × (aw_ready s' ≡ aw_ready s)
unfolding tick clear_if
tick-reset s mem x h =
    (record s { bresp = []; rresp = []; cycle = 0 }, ground arith, refl, refl, refl, refl, refl)

-- Inputs that start nothing and take every response.
pub record IsDraining (x : Inputs) : Type 0 where
  pub live : x.reset ≡ false
  pub no_ar : x.ar_valid ≡ false
  pub no_aw : x.aw_valid ≡ false
  pub no_w : x.w_valid ≡ false
  pub takes_r : x.r_ready ≡ true
  pub takes_b : x.b_ready ≡ true

pop_if-drop {ℓ} : {A : Type ℓ} (q : List A) → pop_if (not (is_empty q)) q ≡ ok (drop 1 q)
pop_if-drop [] = refl
pop_if-drop (x ∷ q) = refl

pub tick-drain :
    (s : Magic) (mem : List ℕ) (x : Inputs)
    → IsDraining x
    → tick s mem x
      ≡ ok (
        record s { bresp = drop 1 s.bresp; rresp = drop 1 s.rresp; cycle = add64 s.cycle 1 },
        mem,
      )
unfolding tick clear_if
tick-drain s mem x d = ground (arith, pop_if-drop s.bresp, pop_if-drop s.rresp)
