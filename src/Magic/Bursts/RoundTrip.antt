-- ===== src/Magic/Bursts/RoundTrip.antt =====
-- A write burst and a read burst of the same words.
use thermal_placement.Base.{
  ℕ, zero, suc, ◌+◌, ◌*◌, ◌/◌, ◌≤◌, ◌<◌, ◌≡◌, refl, sym, ap, ◌∙◌, subst, false, List, [], ◌∷◌, ◌++◌,
  append_assoc, some, ok, ◌==◌, length, length-take, get_elem?, get_elem?_above, take, drop,
  take-front, drop-front, drop-drop, sub64, int_max, arith,
}
use thermal_placement.Base.Splice.{splice, list_ext, length-splice}
use thermal_placement.Memory.{Mm, IsWellFormed}
use thermal_placement.Axi.{Inputs, RResp, is_empty}
use thermal_placement.Axi.Burst.{IsWellFormed-length}
use thermal_placement.Magic.{Magic, read_burst}
use thermal_placement.Magic.Reads.{read_burst_lem}
use native.Mathlib.Decide.{dec_lt}
use thermal_placement.Magic.Bursts.{IsAt, IsBurst, IsAddress, sent, tick-address}
use thermal_placement.Magic.Bursts.Runs.{
  IsWritten, IsReady, run_words, length-sent, is_empty-length,
}
use thermal_placement.Magic.Trace.{Seen, run, then_seen, seen}

-- The beats that carry the data of a burst.
abbrev pub answers : (id : ℕ) → List Inputs → List RResp
answers id [] = []
answers id (x ∷ xs) = record { id = id; bytes = x.w_data; last = is_empty xs } ∷ answers id xs

length-answers : (id : ℕ) (xs : List Inputs) → length (answers id xs) ≡ length xs
length-answers id [] = refl
length-answers id (x ∷ xs) = ap suc (length-answers id xs)

-- The beat of word `k` of the data, whatever is behind them.
answers_at :
    (id w : ℕ) (xs : List Inputs) (tail : List ℕ) (k : ℕ)
    → IsBurst w xs
    → k < length xs
    → get_elem? (answers id xs) k
      ≡ some (record {
        id = id;
        bytes = take w (drop (k * w) (sent xs ++ tail));
        last = suc k == length xs;
      })
answers_at id w [] tail k b h = absurd (omega arith)
answers_at id w (x ∷ xs) tail zero (carried, mark, rest) h =
    let start : 0 * w ≡ 0 = omega arith in
    let front : take w (x.w_data ++ (sent xs ++ tail)) ≡ x.w_data =
      ap (λ (n : ℕ). take n (x.w_data ++ (sent xs ++ tail))) (sym carried.width)
      ∙ take-front x.w_data (sent xs ++ tail) in
    let last : is_empty xs ≡ (1 == suc (length xs)) = is_empty-length xs ∙ ground arith in
    rw (start, append_assoc x.w_data (sent xs) tail, front, last) refl
answers_at id w (x ∷ xs) tail (suc k) (carried, mark, rest) h =
    let next : suc k * w ≡ length x.w_data + k * w = grind (arith, carried.width) in
    let behind : drop (suc k * w) ((x.w_data ++ sent xs) ++ tail) ≡ drop (k * w) (sent xs ++ tail) =
      rw
        (
          next,
          append_assoc x.w_data (sent xs) tail,
          drop-drop (length x.w_data) (k * w) (x.w_data ++ (sent xs ++ tail)),
          drop-front x.w_data (sent xs ++ tail),
        )
        refl in
    let last : (suc k == length xs) ≡ (suc (suc k) == suc (length xs)) = ground arith in
    answers_at id w xs tail k rest (omega arith) ∙ rw (behind, last) refl

drop-splice :
    (o : ℕ) (dat mem : List ℕ)
    → o ≤ length mem
    → drop o (splice o dat mem) ≡ dat ++ drop (o + length dat) mem
drop-splice o dat mem h =
    let l : o ≡ length (take o mem) = omega (arith, length-take o mem) in
    let tail = dat ++ drop (o + length dat) mem in
    ap (λ (n : ℕ). drop n (take o mem ++ tail)) l ∙ drop-front (take o mem) tail

-- A read burst of the words where data lies.
read_back :
    (m : Mm) (mem : List ℕ) (p : ℕ) (xs : List Inputs) (addr id len : ℕ)
    → IsWellFormed m mem
    → IsBurst m.word_size xs
    → suc len ≡ length xs
    → sub64 (addr / m.word_size * m.word_size) m.mem_base ≡ p * m.word_size
    → p * m.word_size + suc len * m.word_size ≤ m.mem_size
    → len < int_max
    → len * m.word_size ≤ int_max
    → read_burst m (splice (p * m.word_size) (sent xs) mem) addr id len [] ≡ ok (answers id xs)
read_back m mem p xs addr id len v burst count place fits short reach =
    let w = m.word_size in
    let o = p * w in
    let mem' = splice o (sent xs) mem in
    let tail = drop (o + length (sent xs)) mem in
    let words : length (sent xs) ≡ suc len * w =
      length-sent w xs burst ∙ ap (λ (n : ℕ). n * w) (sym count) in
    let size = length-splice o (sent xs) mem (omega (arith, words, fits, v.buffer)) in
    let inside : sub64 (addr / w * w) m.mem_base + suc len * w ≤ m.mem_size =
      omega (arith, place, fits) in
    let (bs, pushed, l, at) =
      read_burst_lem m mem' addr id len [] (IsWellFormed-length m mem mem' size v)
        (record { short = short; reach = reach; inside = inside }) in
    let same : bs ≡ answers id xs = list_ext bs (answers id xs) (λ k. elim (dec_lt k (suc len)) [
      | yes h ↦
          let shift = ap (λ (t : ℕ). drop (t + k * w) mem') place in
          let behind =
            drop-drop o (k * w) mem'
            ∙ ap (drop (k * w)) (drop-splice o (sent xs) mem (omega (arith, v.buffer, fits))) in
          let last : (k == len) ≡ (suc k == length xs) = ground (arith, count) in
          at k (omega arith)
          ∙ rw (shift, behind, last) (sym (answers_at id w xs tail k burst (omega (arith, count))))
      | no h ↦
          get_elem?_above bs k (omega (arith, l))
          ∙ sym (get_elem?_above (answers id xs) k (omega (arith, length-answers id xs, count)))
    ]) in
    pushed ∙ ap ok same

-- From a good state with no burst in flight, a write address of full words inside the memory and the
-- cycles of its words, without reads and resets, run to the end. The words lie in the memory one
-- behind the other, all other bytes are as before, and the next burst can come; a read burst of the
-- same words then pushes exactly the data that was sent, with its id, the last beat marked.
pub run-read_burst :
    (s : Magic) (mem : List ℕ) (a : Inputs) (xs : List Inputs) (p addr id len : ℕ)
    → IsWellFormed s.mm mem
    → s.store_inflight ≡ false
    → IsAddress s.mm p (suc len) a
    → IsBurst s.mm.word_size xs
    → suc len ≡ length xs
    → p * s.mm.word_size + suc len * s.mm.word_size ≤ s.mm.mem_size
    → len < int_max
    → len * s.mm.word_size ≤ int_max
    → sub64 (addr / s.mm.word_size * s.mm.word_size) s.mm.mem_base ≡ p * s.mm.word_size
    → (s' : Magic) × (mem' : List ℕ) × (all : Seen) × (run s mem (a ∷ xs) ≡ ok (s', mem', all))
      × (mem' ≡ splice (p * s.mm.word_size) (sent xs) mem)
      × (s'.store_inflight ≡ false)
      × (read_burst s'.mm mem' addr id len [] ≡ ok (answers id xs))
unfolding run
run-read_burst s mem a xs p addr id len v free start burst count fits short reach place =
    let w = s.mm.word_size in
    let (s₁, ticked, same, at) = tick-address s mem a p len free start in
    let ready : IsReady s.mm mem p xs s₁.store = record {
      memory = v;
      at = subst (λ (n : ℕ). IsAt s.mm p n s₁.store) count at;
      fits = subst (λ (n : ℕ). p * w + n * w ≤ s.mm.mem_size) count fits;
      short = omega (arith, count);
      burst = burst;
    } in
    let ran =
      run_words xs s₁ mem p (subst (λ (m : Mm). IsReady m mem p xs s₁.store) (sym same) ready) in
    let (s', all, runs, idle, last) = subst (λ (m : Mm). IsWritten m s₁ mem p xs xs) same ran in
    let mem' = splice (p * w) (sent xs) mem in
    let back = read_back s.mm mem p xs addr id len v burst count place fits short reach in
    (
      s',
      mem',
      then_seen (seen s a) all,
      rw (ticked, runs) refl,
      refl,
      idle,
      subst (λ (m : Mm). read_burst m mem' addr id len [] ≡ ok (answers id xs)) (sym last) back,
    )
