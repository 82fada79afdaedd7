-- ===== src/Dramsim/Accounted.antt =====
-- The invariant of mm_dramsim2_t, for any DRAMSim2 that accounts for its transactions, and the issue
-- of a waiting request.
use native.Mathlib.Decide.{ℕ_discrete}
use thermal_placement.Base.{
  ℕ, ◌+◌, ◌<◌, ◌≡◌, refl, sym, ap, ◌∙◌, subst, true, false, List, [], ◌∷◌, ◌++◌, Option, none, some,
  ok, if◌then◌else◌, ◌==◌, length, set, length-set, length-append, All, All-append, All-map, arith,
  lt→ltb, Bool-cases, inl, inr,
}
use thermal_placement.Memory.{IsWellFormed}
use thermal_placement.Axi.{IsTracked}
use thermal_placement.Dramsim.Interface.{System, IsAccountable}
use thermal_placement.Dramsim.{Req, Dram, put_queue, issue_picked, issue}
use thermal_placement.Dramsim.Issue.{Picks, pick-Picks}
use thermal_placement.Dramsim.Sound.{IsServable, IsSound, if-All}
use thermal_placement.Dramsim.Complete.{IsMatched}

-- The queue tables after a push at one address.
pub put-push-All {κ} :
    {A : Type 0} (P : A → Type κ) (f : ℕ → List A) (k : ℕ) (x : A)
    → ((a : ℕ) → All P (f a))
    → P x
    → (a : ℕ) → All P (put_queue f k (f k ++ x ∷ []) a)
put-push-All P f k x h hx a =
    if-All P (a == k) (f k ++ x ∷ []) (f a) (All-append P (f k) (x ∷ []) (h k) (hx, tt)) (h a)

pub length-put-push :
    {A : Type 0} (f : ℕ → List A) (k : ℕ) (x : A) (a : ℕ)
    → length (put_queue f k (f k ++ x ∷ []) a) ≡ length (f a) + (if a == k then 1 else 0)
length-put-push f k x a = elim (ℕ_discrete a k) [
  | yes e ↦ ground (arith, length-append (f k) (x ∷ []), ap (λ (t : ℕ). length (f t)) e)
  | no ne ↦ ground arith
]

All-remove {κ} :
    {A : Type 0} (P : A → Type κ) (pre : List A) (x : A) (post : List A)
    → All P (pre ++ x ∷ post)
    → P x × All P (pre ++ post)
All-remove P [] x post h = h
All-remove P (y ∷ pre) x post h =
    let (hx, others) = All-remove P pre x post h.1 in (hx, (h.0, others))

module _ (d : System) (acc : IsAccountable d) where
  open acc use {pending, pending-add, pending-update}

  -- The state between two ticks, with `ids` AXI ids.
  pub record IsAccounted (ids : ℕ) (s : Dram d) (mem : List ℕ) : Type 0 where
    pub memory : IsWellFormed s.mm mem
    pub tracked : IsTracked s.store
    pub store_known : s.store_inflight ≡ true → s.store_id < ids
    pub sound : IsSound s.mm ids s.tables
    pub matched : IsMatched (pending s.state) [] s.tables
    pub waiting : All (IsServable s.mm ids) s.rreq_queue

  -- What the issue of a request leaves as it was.
  pub record IsIssued (ids : ℕ) (s : Dram d) (mem : List ℕ) (s' : Dram d) : Type 0 where
    pub good : IsAccounted ids s' mem
    pub same_mm : s'.mm ≡ s.mm
    pub same_store : s'.store ≡ s.store
    pub same_bresp : s'.bresp ≡ s.bresp
    pub same_rresp : s'.rresp ≡ s.rresp

  unchanged : (ids : ℕ) (s : Dram d) (mem : List ℕ) → IsAccounted ids s mem → IsIssued ids s mem s
  unchanged ids s mem g = record {
    good = g;
    same_mm = refl;
    same_store = refl;
    same_bresp = refl;
    same_rresp = refl;
  }

  issue_picked-IsAccounted :
      (ids : ℕ) (s : Dram d) (mem : List ℕ) (o : Option (Req × List Req))
      → IsAccounted ids s mem
      → Picks s.read_id_busy s.rreq_queue o
      → (s' : Dram d) × (issue_picked d s o ≡ ok s') × IsIssued ids s mem s'
  unfolding issue_picked
  issue_picked-IsAccounted ids s mem none g p = (s, refl, unchanged ids s mem g)
  issue_picked-IsAccounted ids s mem (some (r, others)) g (pre, post, split, rest, free, before) =
      let (servable, left) =
        All-remove (IsServable s.mm ids) pre r post
          (subst (All (IsServable s.mm ids)) split g.waiting) in
      let has_bit : r.id < length s.read_id_busy =
        omega (arith, servable.known, g.sound.read_bits) in
      let next : Dram d = record s {
        state = d.add false r.addr s.state;
        tables = record s.tables {
          read_id_busy = set s.read_id_busy r.id true;
          rreq = put_queue s.rreq r.addr (s.rreq r.addr ++ r ∷ []);
        };
        rreq_queue = others;
      } in
      let good : IsAccounted ids next mem = record {
        memory = g.memory;
        tracked = g.tracked;
        store_known = g.store_known;
        sound = record {
          read_bits = length-set s.read_id_busy r.id true ∙ g.sound.read_bits;
          write_bits = g.sound.write_bits;
          reads = put-push-All (IsServable s.mm ids) s.rreq r.addr r g.sound.reads servable;
          writes = g.sound.writes;
        };
        matched = record {
          reads = λ a. ground (
            arith,
            length-put-push s.rreq r.addr r a,
            pending-add false r.addr s.state false a,
            g.matched.reads a,
          );
          writes = λ a. ground (arith, pending-add false r.addr s.state true a, g.matched.writes a);
        };
        waiting = subst (All (IsServable s.mm ids)) (sym rest) left;
      } in
      (
        next,
        rw (lt→ltb _ _ has_bit),
        record {
          good = good;
          same_mm = refl;
          same_store = refl;
          same_bresp = refl;
          same_rresp = refl;
        },
      )

  -- The issue of a waiting request at the start of a tick.
  pub issue-IsAccounted :
      (ids : ℕ) (s : Dram d) (mem : List ℕ)
      → IsAccounted ids s mem
      → (s' : Dram d) × (issue d s ≡ ok s') × IsIssued ids s mem s'
  unfolding issue
  issue-IsAccounted ids s mem g = elim (Bool-cases (d.will_accept s.state)) [
    | inl accepts ↦
        let bits =
          All-map (IsServable s.mm ids) (λ (r : Req). r.id < length s.read_id_busy) s.rreq_queue
            (λ r h. omega (arith, h.known, g.sound.read_bits)) g.waiting in
        let (o, picked, spec) = pick-Picks s.read_id_busy s.rreq_queue bits in
        let (s', issued, kept) = issue_picked-IsAccounted ids s mem o g spec in
        (s', rw (accepts, picked) issued, kept)
    | inr full ↦ (s, rw full, unchanged ids s mem g)
  ]
