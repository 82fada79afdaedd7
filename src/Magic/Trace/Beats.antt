-- ===== src/Magic/Trace/Beats.antt =====
-- The read channel of mm_magic_t over a tick.
use thermal_placement.Base.{
  ℕ, zero, suc, ◌+◌, ◌≡◌, sym, ap, ◌∙◌, Bool, true, false, not, ◌&&◌, List, [], ◌∷◌, ◌++◌,
  append-nil, append_assoc, ok, >>=-eq-ok, if◌then◌else◌, ◌==◌, add64, arith, mul_int, guard, ltb,
  int_max, overflow, div_by_zero,
}
use mathlib.Core.List.{map-append}
use thermal_placement.Memory.{Mm, read}
use thermal_placement.Axi.{Inputs, RResp}
use thermal_placement.Magic.{Magic, push_beats, read_burst, tick, read_if}
use thermal_placement.Magic.Trace.{tag, tags, burst_tags, asked, seen}
use thermal_placement.Magic.Trace.Stages.{popped, tick-Stages, clear_if_live}

tags_from : (n i id len : ℕ) → List (ℕ × Bool)
tags_from zero i id len = []
tags_from (suc n) i id len = (id, i == len) ∷ tags_from n (suc i) id len

tags_from_last : (n i id len : ℕ) → i + n ≡ len → tags_from (suc n) i id len ≡ burst_tags id n
unfolding tags_from
tags_from_last zero i id len e = ground arith
tags_from_last (suc n) i id len e =
    let early : (i == len) ≡ false = ground arith in
    rw early (
      ap (λ (t : List (ℕ × Bool)). (id, false) ∷ t) (tags_from_last n (suc i) id len (omega arith)))

push_beats-tags :
    (n i : ℕ) (m : Mm) (mem : List ℕ) (start id len : ℕ) (q q' : List RResp)
    → push_beats n i m mem start id len q ≡ ok q'
    → tags q' ≡ tags q ++ tags_from n i id len
unfolding push_beats tags_from
push_beats-tags zero i m mem start id len q q' e =
    let same : q' ≡ q = cc in rw same (sym (append-nil (tags q)))
push_beats-tags (suc n) i m mem start id len q q' e =
    let (off, _, e₁) = >>=-eq-ok (mul_int i m.word_size) _ e in
    let (dat, _, e₂) = >>=-eq-ok (read m mem (add64 start off)) _ e₁ in
    let (_, _, e₃) = >>=-eq-ok (guard (ltb i int_max) overflow) _ e₂ in
    push_beats-tags n (suc i) m mem start id len _ q' e₃
    ∙ rw (map-append tag q) (append_assoc (tags q) _ _)

-- A burst that is read pushes its beats, in order, behind those that wait.
read_burst-tags :
    (m : Mm) (mem : List ℕ) (addr id len : ℕ) (q q' : List RResp)
    → read_burst m mem addr id len q ≡ ok q'
    → tags q' ≡ tags q ++ burst_tags id len
unfolding read_burst
read_burst-tags m mem addr id len q q' e =
    let (_, _, e₁) = >>=-eq-ok (guard (ltb 0 m.word_size) div_by_zero) _ e in
    push_beats-tags (suc len) 0 m mem _ id len q q' e₁
    ∙ ap (λ (t : List (ℕ × Bool)). tags q ++ t) (tags_from_last len 0 id len (omega arith))

read_if-tags :
    (fire : Bool) (s : Magic) (mem : List ℕ) (x : Inputs) (q : List RResp)
    → read_if fire s mem x ≡ ok q
    → tags q ≡ tags s.rresp ++ (if fire then burst_tags x.ar_id x.ar_len else [])
read_if-tags true s mem x q e = read_burst-tags s.mm mem x.ar_addr x.ar_id x.ar_len s.rresp q e
read_if-tags false s mem x q e =
    let same : q ≡ s.rresp = cc in rw same (sym (append-nil (tags s.rresp)))

-- One cycle hands over the front of what waits and of what is asked for, and leaves the rest.
pub tick-beats :
    (s : Magic) (mem : List ℕ) (x : Inputs) (s' : Magic) (mem' : List ℕ)
    → x.reset ≡ false
    → tick s mem x ≡ ok (s', mem')
    → (seen s x).beats ++ tags s'.rresp ≡ tags s.rresp ++ asked x
tick-beats s mem x s' mem' live e =
    let st = tick-Stages s mem x s' mem' e in
    let same : st.next ≡ s' = clear_if_live x.reset st.next s' live st.ends in
    let fire : (not x.reset && (x.ar_valid && true)) ≡ (not x.reset && x.ar_valid) = ground arith in
    let pushed = read_if-tags (not x.reset && (x.ar_valid && true)) s mem x st.rresp st.reads in
    ap (λ (t : Magic). (seen s x).beats ++ tags t.rresp) (sym same)
    ∙ popped tag (not x.reset) x.r_ready s.rresp st.rresp st.next.rresp _ pushed st.delivers
    ∙ ap (λ (b : Bool). tags s.rresp ++ (if b then burst_tags x.ar_id x.ar_len else [])) fire
