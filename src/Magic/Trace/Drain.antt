-- ===== src/Magic/Trace/Drain.antt =====
-- Runs of mm_magic_t that only hand over what waits.
use thermal_placement.Base.{
  ℕ, ◌≤◌, ◌≡◌, refl, sym, ap, ap₂, ◌∙◌, Bool, true, false, not, ◌&&◌, List, [], ◌∷◌, ◌++◌, map, ok,
  length, length-drop, drop, add64, arith, if◌then◌else◌,
}
use mathlib.Core.List.{map-id}
use thermal_placement.Axi.{Inputs}
use thermal_placement.Magic.{Magic, aw_ready}
use thermal_placement.Magic.Idle.{IsDraining, tick-drain}
use thermal_placement.Magic.Trace.{tag, tags, Seen, seen, then_seen, run, front_if}

abbrev pub AreDraining : List Inputs → Type 0
AreDraining [] = Unit {0}
AreDraining (x ∷ xs) = IsDraining x × AreDraining xs

front-drop {ℓ κ} :
    {A : Type ℓ} {B : Type κ} (f : A → B) (b : Bool) (q : List A)
    → b ≡ true
    → front_if f b q ++ map f (drop 1 q) ≡ map f q
front-drop f b [] h = refl
front-drop f b (x ∷ q) h = rw h

-- The queues that a run of draining cycles leaves and what it has handed over.
pub record IsDrained (s s' : Magic) (all : Seen) : Type 0 where
  pub no_beats : s'.rresp ≡ []
  pub no_responses : s'.bresp ≡ []
  pub all_beats : all.beats ≡ tags s.rresp
  pub all_responses : all.responses ≡ s.bresp
  pub no_addresses : all.addresses ≡ []
  pub same_store : s'.store ≡ s.store

no_items {ℓ} : {A : Type ℓ} (q : List A) → length q ≤ 0 → q ≡ []
no_items [] h = refl
no_items (x ∷ q) h = elim h [ ]

-- As many cycles that take responses and start nothing as there are responses waiting in either
-- queue: each succeeds, all the responses are handed over in order, nothing waits any more, and
-- the memory and the burst tracker are as before.
pub run-drain :
    (s : Magic) (mem : List ℕ) (xs : List Inputs)
    → AreDraining xs
    → length s.rresp ≤ length xs
    → length s.bresp ≤ length xs
    → (s' : Magic) × (all : Seen) × (run s mem xs ≡ ok (s', mem, all)) × IsDrained s s' all
unfolding run
run-drain s mem [] d h k =
    let none_r = no_items s.rresp h in
    let none_b = no_items s.bresp k in
    (
      s,
      record { beats = []; responses = []; addresses = [] },
      refl,
      record {
        no_beats = none_r;
        no_responses = none_b;
        all_beats = ap tags (sym none_r);
        all_responses = sym none_b;
        no_addresses = refl;
        same_store = refl;
      },
    )
run-drain s mem (x ∷ xs) d h k =
    let s₁ : Magic = record s {
      bresp = drop 1 s.bresp;
      rresp = drop 1 s.rresp;
      cycle = add64 s.cycle 1;
    } in
    let (s', rest, ran, e) =
      run-drain s₁ mem xs d.1 (omega (arith, length-drop 1 s.rresp))
        (omega (arith, length-drop 1 s.bresp)) in
    let c = d.0 in
    let takes_r : not x.reset && x.r_ready ≡ true = ground arith in
    let takes_b : not x.reset && x.b_ready ≡ true = ground arith in
    let no_aw : not x.reset && (x.aw_valid && aw_ready s) ≡ false = ground arith in
    (
      s',
      then_seen (seen s x) rest,
      rw (tick-drain s mem x c, ran),
      record {
        no_beats = e.no_beats;
        no_responses = e.no_responses;
        all_beats =
            ap (λ (t : List (ℕ × Bool)). (seen s x).beats ++ t) e.all_beats
            ∙ front-drop tag _ s.rresp takes_r;
        all_responses =
            ap (λ (t : List ℕ). (seen s x).responses ++ t) e.all_responses
            ∙ (simp map-id at (front-drop (λ (n : ℕ). n) _ s.bresp takes_b));
        no_addresses =
            ap₂ (λ (b : Bool) (t : List ℕ). (if b then x.aw_id ∷ [] else []) ++ t) no_aw
              e.no_addresses;
        same_store = e.same_store;
      },
    )
