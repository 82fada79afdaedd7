-- ===== src/Dramsim/Issue.antt =====
-- Which waiting read request is handed to DRAMSim2 next.
use thermal_placement.Base.{
  ◌<◌, ◌≡◌, ◌≢◌, refl, ap, ◌∙◌, Bool, true, false, List, [], ◌∷◌, ◌++◌, Option, none, some, ok,
  length, get_elem?, get_or, get_elem?-eq-get_or, All, Bool-cases, inl, inr,
}
use thermal_placement.Dramsim.{Req, pick}

-- The outcome of the search: every request waits for a busy id, or one is taken out of the queue whose
-- id is free, and all requests before it wait for other ids, which are busy.
abbrev pub Picks : List Bool → List Req → Option (Req × List Req) → Type 0
Picks busy q none = All (λ r. get_elem? busy r.id ≡ some true) q
Picks busy q (some (r, others)) =
    (pre post : List Req) × (q ≡ pre ++ r ∷ post)
    × (others ≡ pre ++ post)
    × (get_elem? busy r.id ≡ some false)
    × All (λ p. (get_elem? busy p.id ≡ some true) × (p.id ≢ r.id)) pre

abbrev put_back : Req → Option (Req × List Req) → Option (Req × List Req)
put_back r o = elim o [ none ↦ none | some (q, qs) ↦ some (q, r ∷ qs) ]

put_back-Picks :
    (busy : List Bool) (r : Req) (rs : List Req) (o : Option (Req × List Req))
    → get_elem? busy r.id ≡ some true
    → Picks busy rs o
    → Picks busy (r ∷ rs) (put_back r o)
put_back-Picks busy r rs none b h = (b, h)
put_back-Picks busy r rs (some (q, qs)) b (pre, post, split, rest, free, before) = (
  r ∷ pre,
  post,
  ap (λ t. r ∷ t) split,
  ap (λ t. r ∷ t) rest,
  free,
  ((b, λ same_id. cc (ap (get_elem? busy) same_id, b, free)), before),
)

-- The search never reads outside the busy bits when every request's id has one. It takes the oldest
-- request whose id is free, out of a queue in which all before it wait for other ids, which are busy,
-- and leaves the rest in order; it takes none when all ids that are waited for are busy.
pub pick-Picks :
    (busy : List Bool) (q : List Req)
    → All (λ r. r.id < length busy) q
    → (o : Option (Req × List Req)) × (pick busy q ≡ ok o) × Picks busy q o
unfolding pick
pick-Picks busy [] h = (none, refl, tt)
pick-Picks busy (r ∷ rs) h =
    let found = get_elem?-eq-get_or busy r.id false h.0 in
    let (o, rest, spec) = pick-Picks busy rs h.1 in
    elim (Bool-cases (get_or busy r.id false)) [
      | inl b ↦
          (put_back r o, rw (found, b, rest), put_back-Picks busy r rs o (found ∙ ap some b) spec)
      | inr free ↦ (some (r, rs), rw (found, free), ([], rs, refl, refl, found ∙ ap some free, tt))
    ]
