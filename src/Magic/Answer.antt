-- ===== src/Magic/Answer.antt =====
-- The answer of mm_magic_t to a read burst, in the next cycle.
use thermal_placement.Base.{
  ℕ, ◌*◌, ◌/◌, ◌≡◌, sym, ap, ◌∙◌, true, false, List, [], ◌∷◌, ◌++◌, some, ok, ok-injective,
  get_elem?, sub64, arith,
}
use thermal_placement.Memory.{IsWellFormed}
use thermal_placement.Axi.{Inputs, RResp}
use thermal_placement.Magic.{Magic, tick}
use thermal_placement.Magic.Reads.{burst_beat, IsInRange, read_burst_lem}
use thermal_placement.Magic.Trace.Stages.{tick-Stages, clear_if_live}

first_of :
    (bs : List RResp) (b : RResp) → get_elem? bs 0 ≡ some b → (rest : List RResp) × (bs ≡ b ∷ rest)
first_of [] b e = cc
first_of (c ∷ bs) b e = (bs, cc)

-- When no beat waits, the first beat of a burst that is accepted is offered next.
pub tick-first :
    (s s' : Magic) (mem mem' : List ℕ) (x : Inputs)
    → tick s mem x ≡ ok (s', mem')
    → x.reset ≡ false
    → x.ar_valid ≡ true
    → s.rresp ≡ []
    → IsWellFormed s.mm mem
    → IsInRange s.mm (x.ar_addr / s.mm.word_size * s.mm.word_size) x.ar_len
    → (rest : List RResp) × (s'.rresp
        ≡ burst_beat s.mm mem
            (sub64 (x.ar_addr / s.mm.word_size * s.mm.word_size) s.mm.mem_base)
            x.ar_id
            x.ar_len
            0
          ∷ rest)
tick-first s s' mem mem' x ticked live asked idle v r =
    let t = tick-Stages s mem x s' mem' ticked in
    let same = clear_if_live x.reset t.next s' live t.ends in
    let (bs, pushed, _, at) = read_burst_lem s.mm mem x.ar_addr x.ar_id x.ar_len s.rresp v r in
    let (rest, first) = first_of bs _ (at 0 (omega arith)) in
    let read : ok t.rresp ≡ ok (s.rresp ++ bs) = sym (rw (live, asked) at t.reads) ∙ pushed in
    let kept : t.rresp ≡ t.next.rresp = ok-injective (rw (live, idle) at t.delivers) in
    (
      rest,
      ap (λ (u : Magic). u.rresp) (sym same)
          ∙ sym kept
          ∙ ok-injective read
          ∙ ap (λ q. q ++ bs) idle
          ∙ first,
    )
