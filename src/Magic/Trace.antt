-- ===== src/Magic/Trace.antt =====
-- Whole runs of mm_magic_t: what an AXI master sees over successive ticks.
pub mod Stages
mod Beats
mod Responses
pub mod Runs
pub mod Drain
use thermal_placement.Base.{
  ℕ, zero, suc, ◌+◌, ◌≡◌, refl, sym, ap, ap₂, ◌∙◌, subst, Bool, true, false, not, ◌&&◌, List, [],
  ◌∷◌, ◌++◌, map, append-nil, append_assoc, Result, ok, ◌>>=◌, >>=-eq-ok, ok-pair, ok-triple,
  ok-injective, Bool-cases, inl, inr, one_shl_int, assertion, if◌then◌else◌, ◌==◌, replicate, add64,
  sub64, arith, mul_int, guard, ltb, int_max, overflow, ◌>>◌, div_by_zero,
}
use mathlib.Core.List.{map-append, map-id}
use thermal_placement.Memory.{Mm, read, write}
use thermal_placement.Axi.{Inputs, RResp, Store, accept, beat, is_empty, pop_if, accept_if}
use thermal_placement.Magic.{
  Magic, aw_ready, w_ready, b_valid, r_valid, push_beats, read_burst, finish, write_beat, clear_if,
  tick, read_if, write_if,
}
use thermal_placement.Magic.Ticks.{IsGood, IsLegal, tick-IsGood}

-- What the master sees of a beat besides its data.
abbrev pub tag : RResp → ℕ × Bool
tag r = (r.id, r.last)

abbrev pub tags : List RResp → List (ℕ × Bool)
tags = map tag

-- The beats that answer a read address: `len` of them, and the last.
abbrev pub burst_tags : (id len : ℕ) → List (ℕ × Bool)
burst_tags id len = replicate len (id, false) ++ (id, true) ∷ []

-- The read beats that a cycle's inputs ask for.
abbrev pub asked : Inputs → List (ℕ × Bool)
asked x = if not x.reset && x.ar_valid then burst_tags x.ar_id x.ar_len else []

abbrev front_if {ℓ κ} : {A : Type ℓ} {B : Type κ} → (A → B) → Bool → List A → List B
front_if f b [] = []
front_if f b (a ∷ q) = if b then f a ∷ [] else []

-- What one cycle hands over, and the write address that it accepts.
pub record Seen : Type 0 where
  pub beats : List (ℕ × Bool)
  pub responses : List ℕ
  pub addresses : List ℕ

abbrev pub seen : Magic → Inputs → Seen
seen s x = record {
  beats = front_if tag (not x.reset && x.r_ready) s.rresp;
  responses = front_if (λ b. b) (not x.reset && x.b_ready) s.bresp;
  addresses = if not x.reset && (x.aw_valid && aw_ready s) then x.aw_id ∷ [] else [];
}

abbrev pub then_seen : Seen → Seen → Seen
then_seen a b = record {
  beats = a.beats ++ b.beats;
  responses = a.responses ++ b.responses;
  addresses = a.addresses ++ b.addresses;
}

-- Successive ticks, with all that they hand over and accept.
unfoldable pub run : Magic → List ℕ → List Inputs → Result (Magic × List ℕ × Seen)
run s mem [] = ok (s, mem, record { beats = []; responses = []; addresses = [] })
run s mem (x ∷ xs) = do
  (s', mem') ← tick s mem x
  (s'', mem'', rest) ← run s' mem' xs
  ok (s'', mem'', then_seen (seen s x) rest)

-- The write bursts whose response has not been pushed yet: at most one.
abbrev pub in_flight : Store → List ℕ
in_flight s = if s.store_inflight then s.store_id ∷ [] else []
