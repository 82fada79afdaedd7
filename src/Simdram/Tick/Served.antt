-- ===== src/Simdram/Tick/Served.antt =====
-- memory_tick of a memory in a well-formed state, whose buffer other memories may share.
use thermal_placement.Base.{
  ℕ, ◌≤◌, ◌<◌, ◌≡◌, refl, sym, ap, ◌∙◌, subst, List, [], ◌∷◌, map, some, Result, ok, ◌>>=◌, length,
  All, word_fits, arith,
}
use thermal_placement.Memory.{Mm, IsWellFormed}
use thermal_placement.Axi.{Inputs, RResp, front_data}
use thermal_placement.Axi.Queue.{HasWidth}
use thermal_placement.Axi.Burst.{IsWellFormed-length}
use thermal_placement.Magic
use thermal_placement.Magic.Ticks.{IsGood}
use thermal_placement.Dramsim
use thermal_placement.Dramsim.Interface.{System, IsAccountable}
use thermal_placement.Dramsim.Accounted.{IsAccounted}
use thermal_placement.Simdram.{Made, immediate, timed}
use thermal_placement.Simdram.Tick.{Simulator, Reply, copy_elems, dispatch_tick, outputs}
use thermal_placement.Simdram.Tick.Elems.{overrun, put_elems_total}

pub copy_elems-some : (bs : List ℕ) → copy_elems (map some bs) ≡ ok bs
unfolding copy_elems
copy_elems-some [] = refl
copy_elems-some (b ∷ bs) = rw (copy_elems-some bs) refl

-- A queue of beats shows at least `n` bytes.
pub front_data-length :
    (w n : ℕ) (q : List RResp) (mem : List ℕ)
    → All (HasWidth w) q
    → n ≤ w
    → w ≤ length mem
    → n ≤ length (front_data q mem)
front_data-length w n [] mem h short fits = omega arith
front_data-length w n (r ∷ q) mem h short fits = omega (arith, h.0)

pub word-fits :
    (m : Mm) (mem : List ℕ) → IsWellFormed m mem → 0 < length mem → m.word_size ≤ length mem
word-fits m mem v some_bytes =
    omega (arith, word_fits 0 m.mem_size m.word_size v.word_pos v.whole_words (omega arith))

then_ok {ℓ κ} :
    {A : Type ℓ} {B : Type κ} (next : A → B) (first : Result A) (value : A)
    → first ≡ ok value
    → (result : B) × ((first >>= (λ v. ok (next v))) ≡ ok result)
then_ok next first value e = (next value, rw e refl)

module _ (d : System) where
  abbrev pub constants : Made d → Mm
  constants (immediate s) = s.mm
  constants (timed s) = s.mm

  abbrev pub beats : Made d → List RResp
  beats (immediate s) = s.rresp
  beats (timed s) = s.rresp

module _ (sim : Simulator) (d : System) where
  pub outputs_lem :
      (made : Made d) (mem : List ℕ) (n : ℕ)
      → n ≤ length (front_data (beats d made) mem)
      → overrun sim ≤ length sim.behind
      → (reply : Reply) × (outputs sim d made mem n ≡ ok reply)
  unfolding outputs Magic.r_data Dramsim.r_data
  outputs_lem (immediate s) mem n h room =
      then_ok _ _ _ (put_elems_total sim n (front_data s.rresp mem) h room).1
  outputs_lem (timed s) mem n h room =
      then_ok _ _ _ (put_elems_total sim n (front_data s.rresp mem) h room).1

module _ (d : System) (acc : IsAccountable d) (ids : ℕ) where
  -- The state of the memory itself.
  abbrev pub IsSettled : Made d → List ℕ → Type 0
  IsSettled (immediate s) mem = IsGood s mem
  IsSettled (timed s) mem = IsAccounted d acc ids s mem

  abbrev pub IsLegalFor : Made d → Inputs → Type 0
  IsLegalFor (immediate s) x = Magic.Ticks.IsLegal s x
  IsLegalFor (timed s) x = Dramsim.Ticks.IsLegal d ids s x

  -- The state between two calls: the beats that wait have the width of a word.
  pub record IsServed (made : Made d) (mem : List ℕ) : Type 0 where
    pub settled : IsSettled made mem
    pub widths : All (HasWidth (constants d made).word_size) (beats d made)

  pub IsSettled-IsWellFormed :
      (made : Made d) (mem : List ℕ) → IsSettled made mem → IsWellFormed (constants d made) mem
  IsSettled-IsWellFormed (immediate s) mem g = g.memory
  IsSettled-IsWellFormed (timed s) mem g = g.memory

  -- Another memory may have changed the bytes of the buffer.
  pub IsServed-length :
      (made : Made d) (mem mem' : List ℕ)
      → length mem' ≡ length mem
      → IsServed made mem
      → IsServed made mem'
  IsServed-length (immediate s) mem mem' e h = record {
    settled = record {
      memory = IsWellFormed-length s.mm mem mem' e h.settled.memory;
      tracked = h.settled.tracked;
    };
    widths = h.widths;
  }
  IsServed-length (timed s) mem mem' e h =
      let g = h.settled in
      record {
        settled = record {
          memory = IsWellFormed-length s.mm mem mem' e g.memory;
          tracked = g.tracked;
          store_known = g.store_known;
          sound = g.sound;
          matched = g.matched;
          waiting = g.waiting;
        };
        widths = h.widths;
      }

  -- What a tick under legal inputs comes to.
  pub record IsTicked (made : Made d) (mem : List ℕ) (x : Inputs) : Type 0 where
    pub made' : Made d
    pub mem' : List ℕ
    pub ticks : dispatch_tick d made mem x ≡ ok (made', mem')
    pub served : IsServed made' mem'
    pub constant : constants d made' ≡ constants d made
    pub size : length mem' ≡ length mem

  same_length :
      (m m' : Mm) (mem mem' : List ℕ)
      → m' ≡ m
      → IsWellFormed m mem
      → IsWellFormed m' mem'
      → length mem' ≡ length mem
  same_length m m' mem mem' e v v' = v'.buffer ∙ ap (λ (t : Mm). t.mem_size) e ∙ sym v.buffer

  pub dispatch_tick-IsTicked :
      (made : Made d) (mem : List ℕ) (x : Inputs)
      → IsServed made mem
      → IsLegalFor made x
      → IsTicked made mem x
  unfolding dispatch_tick
  dispatch_tick-IsTicked (immediate s) mem x h legal =
      let (s', mem', ticked, g) = Magic.Ticks.tick-IsGood s mem x h.settled legal in
      let (same, widths) = Magic.Widths.tick-widths s s' mem mem' x ticked h.widths in
      record {
        made' = immediate s';
        mem' = mem';
        ticks = rw ticked refl;
        served = record {
          settled = g;
          widths = subst (λ (m : Mm). All (HasWidth m.word_size) s'.rresp) (sym same) widths;
        };
        constant = same;
        size = same_length s.mm s'.mm mem mem' same h.settled.memory g.memory;
      }
  dispatch_tick-IsTicked (timed s) mem x h legal =
      let (s', mem', ticked, g) =
        Dramsim.Ticks.tick-IsAccounted d acc ids s mem x h.settled legal in
      let (same, widths) = Dramsim.Taken.tick-widths d s s' mem mem' x ticked h.widths in
      record {
        made' = timed s';
        mem' = mem';
        ticks = rw ticked refl;
        served = record {
          settled = g;
          widths = subst (λ (m : Mm). All (HasWidth m.word_size) s'.rresp) (sym same) widths;
        };
        constant = same;
        size = same_length s.mm s'.mm mem mem' same h.settled.memory g.memory;
      }
