-- ===== src/Magic/Widths.antt =====
-- The width of the beats that wait in mm_magic_t.
use thermal_placement.Base.{ℕ, ◌≡◌, refl, ◌∙◌, subst, Bool, true, false, List, ok, All}
use thermal_placement.Axi.{Inputs}
use thermal_placement.Axi.Queue.{HasWidth, Adds-All, pop_if-All}
use thermal_placement.Magic.{Magic, clear_if, tick}
use thermal_placement.Magic.Hold.{read_if-Adds}
use thermal_placement.Magic.Trace.Stages.{tick-Stages}

clear_if-widths :
    (b : Bool) (s s' : Magic) (w : ℕ)
    → clear_if b s ≡ s'
    → All (HasWidth w) s.rresp
    → (s'.mm ≡ s.mm) × All (HasWidth w) s'.rresp
unfolding clear_if
clear_if-widths false s s' w e h =
    subst (λ (u : Magic). (u.mm ≡ s.mm) × All (HasWidth w) u.rresp) e (refl, h)
clear_if-widths true s s' w e h =
    subst (λ (u : Magic). (u.mm ≡ s.mm) × All (HasWidth w) u.rresp) e (refl, tt)

-- A tick that succeeds keeps the constants, and every beat that waits as wide as a word.
pub tick-widths :
    (s s' : Magic) (mem mem' : List ℕ) (x : Inputs)
    → tick s mem x ≡ ok (s', mem')
    → All (HasWidth s.mm.word_size) s.rresp
    → (s'.mm ≡ s.mm) × All (HasWidth s.mm.word_size) s'.rresp
tick-widths s s' mem mem' x ticked h =
    let t = tick-Stages s mem x s' mem' ticked in
    let w = s.mm.word_size in
    let before = Adds-All w s.rresp t.rresp (read_if-Adds _ s mem x t.rresp t.reads) h in
    let popped = pop_if-All (HasWidth w) _ t.rresp t.next.rresp t.delivers before in
    let (same, widths) = clear_if-widths x.reset t.next s' w t.ends popped in
    (same ∙ t.same_mm, widths)
