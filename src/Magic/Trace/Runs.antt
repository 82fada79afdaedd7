-- ===== src/Magic/Trace/Runs.antt =====
-- Runs of many ticks.
use thermal_placement.Base.{
  ℕ, ◌≡◌, refl, sym, ap, ◌∙◌, Bool, false, List, [], ◌∷◌, ◌++◌, append-nil, append_assoc, ok,
}
use thermal_placement.Axi.{Inputs}
use thermal_placement.Magic.{Magic, tick}
use thermal_placement.Magic.Ticks.{IsGood, IsLegal, tick-IsGood}
use thermal_placement.Magic.Trace.{tags, asked, Seen, seen, then_seen, run, in_flight}
use thermal_placement.Magic.Trace.Beats.{tick-beats}
use thermal_placement.Magic.Trace.Responses.{tick-responses}

abbrev pub AreLive : List Inputs → Type 0
AreLive [] = Unit {0}
AreLive (x ∷ xs) = (x.reset ≡ false) × AreLive xs

-- Every cycle's inputs are legal in the state that the cycle meets.
abbrev pub IsLegalRun : Magic → List ℕ → List Inputs → Type 0
IsLegalRun s mem [] = Unit {0}
IsLegalRun s mem (x ∷ xs) =
    IsLegal s x
    × ((s' : Magic) (mem' : List ℕ) → tick s mem x ≡ ok (s', mem') → IsLegalRun s' mem' xs)

abbrev pub all_asked : List Inputs → List (ℕ × Bool)
all_asked [] = []
all_asked (x ∷ xs) = asked x ++ all_asked xs

-- What a run hands over and what then waits, in order: the beats of the read channel, and the ids
-- of the write bursts.
pub record IsOrdered (s : Magic) (xs : List Inputs) (s' : Magic) (all : Seen) : Type 0 where
  pub reads : all.beats ++ tags s'.rresp ≡ tags s.rresp ++ all_asked xs
  pub writes :
      all.responses ++ (s'.bresp ++ in_flight s'.store)
      ≡ (s.bresp ++ in_flight s.store) ++ all.addresses

-- A queue through one cycle, then through the others.
chain {ℓ} :
    {A : Type ℓ} (out out' waits waits' waits'' new new' : List A)
    → out ++ waits' ≡ waits ++ new
    → out' ++ waits'' ≡ waits' ++ new'
    → (out ++ out') ++ waits'' ≡ waits ++ (new ++ new')
chain out out' waits waits' waits'' new new' first others =
    append_assoc out out' waits''
    ∙ ap (λ t. out ++ t) others
    ∙ sym (append_assoc out waits' new')
    ∙ ap (λ t. t ++ new') first
    ∙ append_assoc waits new new'

-- From a good state, legal inputs without reset run to the end. All beats that have been handed over
-- and those that wait are, in order, those that waited at the start and those that the read
-- addresses ask for: `ar_len + 1` beats for each, with its id, the last one marked. The write
-- responses handed over, those that wait and the id of the burst in flight are, in order, those of
-- the start and the ids of the write addresses accepted.
pub run-IsOrdered :
    (s : Magic) (mem : List ℕ) (xs : List Inputs)
    → IsGood s mem
    → IsLegalRun s mem xs
    → AreLive xs
    → (s' : Magic) × (mem' : List ℕ) × (all : Seen) × (run s mem xs ≡ ok (s', mem', all))
      × IsGood s' mem'
      × IsOrdered s xs s' all
unfolding run
run-IsOrdered s mem [] g l r = (
  s,
  mem,
  record { beats = []; responses = []; addresses = [] },
  refl,
  g,
  record { reads = sym (append-nil (tags s.rresp)); writes = sym (append-nil _) },
)
run-IsOrdered s mem (x ∷ xs) g l r =
    let (s₁, mem₁, ticked, g₁) = tick-IsGood s mem x g l.0 in
    let (s', mem', rest, ran, g', o) = run-IsOrdered s₁ mem₁ xs g₁ (l.1 s₁ mem₁ ticked) r.1 in
    (
      s',
      mem',
      then_seen (seen s x) rest,
      rw (ticked, ran),
      g',
      record {
        reads =
            chain (seen s x).beats rest.beats _ (tags s₁.rresp) _ (asked x) (all_asked xs)
              (tick-beats s mem x s₁ mem₁ r.0 ticked) o.reads;
        writes =
            chain (seen s x).responses rest.responses _ (s₁.bresp ++ in_flight s₁.store) _
              (seen s x).addresses rest.addresses (tick-responses s mem x s₁ mem₁ r.0 ticked)
              o.writes;
      },
    )
