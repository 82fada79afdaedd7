-- ===== src/Magic/Bursts/Runs.antt =====
-- Runs of mm_magic_t over the cycles of a write burst.
use thermal_placement.Base.{
  ℕ, zero, suc, ◌+◌, ◌*◌, ◌^◌, ◌≤◌, ◌<◌, ◌≡◌, refl, sym, ap, ◌∙◌, subst, false, List, [], ◌∷◌, ◌++◌,
  ok, ◌==◌, length, length-append, add64, sub64, arith,
}
use thermal_placement.Base.Splice.{splice, splice-splice, splice-nil, length-splice}
use thermal_placement.Memory.{Mm, IsWellFormed}
use thermal_placement.Axi.{Inputs, Store, is_empty}
use thermal_placement.Axi.Burst.{IsWellFormed-length}
use thermal_placement.Magic.{Magic}
use thermal_placement.Magic.Bursts.{IsBurst, IsAt, sent, next_store, tick-word}
use thermal_placement.Magic.Trace.{Seen, run, then_seen, seen}

pub is_empty-length : (xs : List Inputs) → is_empty xs ≡ (length xs == 0)
is_empty-length [] = refl
is_empty-length (x ∷ xs) = ground arith

abbrev nothing_seen : Seen
nothing_seen = record { beats = []; responses = []; addresses = [] }

pub length-sent : (w : ℕ) (xs : List Inputs) → IsBurst w xs → length (sent xs) ≡ length xs * w
length-sent w [] b = omega arith
length-sent w (x ∷ xs) (carried, mark, rest) =
    omega (arith, length-append x.w_data (sent xs), carried.width, length-sent w xs rest)

-- The tracker waits for the words `xs`, which fit behind word `p`.
pub record IsReady (m : Mm) (mem : List ℕ) (p : ℕ) (xs : List Inputs) (st : Store) : Type 0 where
  pub memory : IsWellFormed m mem
  pub at : IsAt m p (length xs) st
  pub fits : p * m.word_size + length xs * m.word_size ≤ m.mem_size
  pub short : length xs < 2 ^ 64
  pub burst : IsBurst m.word_size xs

-- The run ends with the data in place and the tracker free.
abbrev pub IsWritten : Mm → Magic → List ℕ → ℕ → (xs cycles : List Inputs) → Type 0
IsWritten m s mem p xs cycles =
    (s' : Magic) × (all : Seen) × (run s mem cycles
      ≡ ok (s', splice (p * m.word_size) (sent xs) mem, all))
    × (s'.store_inflight ≡ false)
    × (s'.mm ≡ m)

next_place :
    (base size start off o : ℕ)
    → base + size ≤ 2 ^ 64
    → sub64 start base ≡ o
    → o + off < size
    → sub64 (add64 start off) base ≡ o + off
next_place base size start off o fits h room = omega arith

room_for : (p n w size : ℕ) → 0 < w → 0 < n → p * w + suc n * w ≤ size → p * w + w < size
room_for p zero w size pos more h = absurd (omega arith)
room_for p (suc n) w size pos more h = grind arith

next-IsReady :
    (m : Mm) (mem : List ℕ) (p : ℕ) (x : Inputs) (xs : List Inputs) (st : Store)
    → IsReady m mem p (x ∷ xs) st
    → IsReady m (splice (p * m.word_size) x.w_data mem) (suc p) xs (next_store (length xs) st)
next-IsReady m mem p x xs st r =
    let w = m.word_size in
    let (carried, mark, rest) = r.burst in
    let v = r.memory in
    let here : p * w + w ≤ m.mem_size = grind (arith, r.fits) in
    let next : suc p * w ≡ p * w + w = grind arith in
    let there : 0 < length xs → sub64 (add64 st.store_addr w) m.mem_base ≡ suc p * w = λ more.
      (let room : p * w + w < m.mem_size =
          room_for p (length xs) w m.mem_size v.word_pos more r.fits in
        next_place m.mem_base m.mem_size st.store_addr w (p * w) v.base_fits
          (r.at.place (omega arith)) room
        ∙ sym next) in
    let size = length-splice (p * w) x.w_data mem (omega (arith, carried.width, v.buffer, here)) in
    record {
      memory = IsWellFormed-length m mem (splice (p * w) x.w_data mem) size v;
      at = record {
        inflight = refl;
        count = refl;
        sized = r.at.sized;
        place = λ more.
            ap (λ (t : ℕ). sub64 (add64 st.store_addr t) m.mem_base) r.at.sized ∙ there more;
      };
      fits = grind (arith, r.fits);
      short = omega (arith, r.short);
      burst = rest;
    }

pub run_words :
    (xs : List Inputs) (s : Magic) (mem : List ℕ) (p : ℕ)
    → IsReady s.mm mem p xs s.store
    → IsWritten s.mm s mem p xs xs
unfolding run
run_words [] s mem p r = (
  s,
  nothing_seen,
  ap (λ (l : List ℕ). ok (s, l, nothing_seen))
      (splice-nil (p * s.mm.word_size) mem (omega (arith, r.fits, r.memory.buffer))),
  r.at.inflight ∙ ground arith,
  refl,
)
run_words (x ∷ xs) s mem p r =
    let w = s.mm.word_size in
    let (carried, mark, rest) = r.burst in
    let v = r.memory in
    let pos : 0 < w = v.word_pos in
    let inside : p * w < s.mm.mem_size = grind (arith, r.fits, pos) in
    let (s₁, ticked, same, moved) =
      tick-word s mem x p (length xs) v r.at inside r.short carried (mark ∙ is_empty-length xs) in
    let mem₁ = splice (p * w) x.w_data mem in
    let ready : IsReady s.mm mem₁ (suc p) xs s₁.store =
      subst (IsReady s.mm mem₁ (suc p) xs) (sym moved) (next-IsReady s.mm mem p x xs s.store r) in
    let ran =
      run_words xs s₁ mem₁ (suc p)
        (subst (λ (m : Mm). IsReady m mem₁ (suc p) xs s₁.store) (sym same) ready) in
    let (s', all, runs, free, last) =
      subst (λ (m : Mm). IsWritten m s₁ mem₁ (suc p) xs xs) same ran in
    let next : suc p * w ≡ p * w + length x.w_data = grind (arith, carried.width) in
    let fits : p * w + length x.w_data + length (sent xs) ≤ length mem =
      grind (arith, r.fits, length-sent w xs rest, carried.width, v.buffer) in
    let placed : splice (suc p * w) (sent xs) mem₁ ≡ splice (p * w) (x.w_data ++ sent xs) mem =
      ap (λ (o : ℕ). splice o (sent xs) mem₁) next
      ∙ splice-splice (p * w) x.w_data (sent xs) mem fits in
    (
      s',
      then_seen (seen s x) all,
      rw (ticked, runs) (ap (λ (l : List ℕ). ok (s', l, then_seen (seen s x) all)) placed),
      free,
      last,
    )
