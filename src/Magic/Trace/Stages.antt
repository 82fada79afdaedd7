-- ===== src/Magic/Trace/Stages.antt =====
-- The stages of mm_magic_t::tick, taken apart, and what its two pops hand over.
use thermal_placement.Base.{
  ℕ, ◌≡◌, refl, ap, ◌∙◌, Bool, true, false, not, ◌&&◌, List, [], ◌∷◌, ◌++◌, map, ok, >>=-eq-ok,
  ok-pair, add64,
}
use mathlib.Core.List.{map-id}
use thermal_placement.Axi.{Inputs, RResp, Store, is_empty, pop_if, accept_if}
use thermal_placement.Magic.{
  Magic, aw_ready, w_ready, b_valid, r_valid, clear_if, tick, read_if, write_if,
}
use thermal_placement.Magic.Trace.{front_if}

-- What `pop` takes and leaves, behind entries that came in meanwhile.
pub popped {ℓ κ} :
    {A : Type ℓ} {B : Type κ} (f : A → B) (c b : Bool) (q q₁ q' : List A) (t : List B)
    → map f q₁ ≡ map f q ++ t
    → pop_if (c && (not (is_empty q) && b)) q₁ ≡ ok q'
    → front_if f (c && b) q ++ map f q' ≡ map f q ++ t
popped f true true [] q₁ q' t h e = cc
popped f true false [] q₁ q' t h e = cc
popped f false b [] q₁ q' t h e = cc
popped f true true (x ∷ q) [] q' t h e = cc
popped f true true (x ∷ q) (y ∷ q₁) q' t h e = cc
popped f true false (x ∷ q) q₁ q' t h e = cc
popped f false b (x ∷ q) q₁ q' t h e = cc

pub popped_ids :
    (c b : Bool) (q q₁ q' t : List ℕ)
    → q₁ ≡ q ++ t
    → pop_if (c && (not (is_empty q) && b)) q₁ ≡ ok q'
    → front_if (λ (n : ℕ). n) (c && b) q ++ q' ≡ q ++ t
popped_ids c b q q₁ q' t h e =
    simp map-id at (popped (λ (n : ℕ). n) c b q q₁ q' t (simp map-id h) e)

-- A tick that succeeds, stage by stage.
pub record Stages (s : Magic) (mem : List ℕ) (x : Inputs) (s' : Magic) (mem' : List ℕ)
    : Type 0 where
  pub rresp : List RResp
  pub store : Store
  pub bresp : List ℕ
  pub next : Magic
  pub same_mm : next.mm ≡ s.mm
  pub reads : read_if (not x.reset && (x.ar_valid && true)) s mem x ≡ ok rresp
  pub accepts : accept_if (not x.reset && (x.aw_valid && aw_ready s)) s.store x ≡ ok store
  pub writes :
      write_if (not x.reset && (x.w_valid && w_ready s)) s.mm store mem s.bresp x
      ≡ ok (next.store, mem', bresp)
  pub answers : pop_if (not x.reset && (b_valid s && x.b_ready)) bresp ≡ ok next.bresp
  pub delivers : pop_if (not x.reset && (r_valid s && x.r_ready)) rresp ≡ ok next.rresp
  pub ends : clear_if x.reset next ≡ s'

pub tick-Stages :
    (s : Magic) (mem : List ℕ) (x : Inputs) (s' : Magic) (mem' : List ℕ)
    → tick s mem x ≡ ok (s', mem')
    → Stages s mem x s' mem'
unfolding tick
tick-Stages s mem x s' mem' e =
    let live = not x.reset in
    let (rresp, reads, e₁) = >>=-eq-ok (read_if (live && (x.ar_valid && true)) s mem x) _ e in
    let (store, accepts, e₂) =
      >>=-eq-ok (accept_if (live && (x.aw_valid && aw_ready s)) s.store x) _ e₁ in
    let (w, writes, e₃) =
      >>=-eq-ok (write_if (live && (x.w_valid && w_ready s)) s.mm store mem s.bresp x) _ e₂ in
    let (bresp', answers, e₄) = >>=-eq-ok (pop_if (live && (b_valid s && x.b_ready)) w.2) _ e₃ in
    let (rresp', delivers, e₅) = >>=-eq-ok (pop_if (live && (r_valid s && x.r_ready)) rresp) _ e₄ in
    record {
      rresp = rresp;
      store = store;
      bresp = w.2;
      next = record {
        mm = s.mm;
        store = w.0;
        bresp = bresp';
        rresp = rresp';
        cycle = add64 s.cycle 1;
      };
      same_mm = refl;
      reads = reads;
      accepts = accepts;
      writes = writes ∙ ap (λ (t : List ℕ). ok (w.0, t, w.2)) (ok-pair e₅).1;
      answers = answers;
      delivers = delivers;
      ends = (ok-pair e₅).0;
    }

pub clear_if_live : (b : Bool) (s s' : Magic) → b ≡ false → clear_if b s ≡ s' → s ≡ s'
unfolding clear_if
clear_if_live false s s' h e = e
clear_if_live true s s' h e = cc

pub clear_if-store : (b : Bool) (s s' : Magic) → clear_if b s ≡ s' → s.store ≡ s'.store
unfolding clear_if
clear_if-store false s s' e = ap (λ (u : Magic). u.store) e
clear_if-store true s s' e = ap (λ (u : Magic). u.store) e
