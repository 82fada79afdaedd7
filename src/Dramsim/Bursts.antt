-- ===== src/Dramsim/Bursts.antt =====
-- A completed read beside the read burst of the immediate memory.
mod Tests
use mathlib.Core.Path.{fun_ext}
use native.Mathlib.Nat.{le_trans, mul-le-mul_right}
use thermal_placement.Base.{
  ℕ, zero, suc, ◌+◌, ◌*◌, ◌/◌, ◌%◌, ◌^◌, ◌≤◌, ◌<◌, ◌≡◌, refl, sym, ap, ◌∙◌, Bool, true, false, List,
  [], ◌∷◌, ◌++◌, Result, ok, ◌>>=◌, ◌>>◌, >>=-eq-ok, guard, div_by_zero, ltb, lt→ltb, ◌==◌,
  if◌then◌else◌, length, add64, sub64, mul_int, int_max, arith, set,
}
use thermal_placement.Memory.{Mm, read}
use thermal_placement.Axi.{RResp}
use thermal_placement.Magic.{push_beats, read_burst}
use thermal_placement.Dramsim.{Req, Tables, put_queue, set_bit, push_words, read_front, complete_as}
use thermal_placement.Dramsim.Sound.{set_bit_lem}

-- The counter and the offsets of the immediate memory are ints; in their range the loops agree.
push_words-push_beats :
    (n i : ℕ) (m : Mm) (mem : List ℕ) (start id len : ℕ) (q : List RResp)
    → i + n ≡ suc len
    → len < int_max
    → len * m.word_size ≤ int_max
    → push_words n i m mem start id (suc len) q ≡ push_beats n i m mem start id len q
unfolding push_words push_beats
push_words-push_beats zero i m mem start id len q e short reach = refl
push_words-push_beats (suc n) i m mem start id len q e short reach =
    let below : i ≤ len = omega arith in
    let off = i * m.word_size in
    let reached : off ≤ int_max = le_trans (mul-le-mul_right m.word_size below) reach in
    let product : mul_int i m.word_size ≡ ok off = ground arith in
    let same_off : off % 2 ^ 64 ≡ off = omega arith in
    let last : sub64 (suc len) 1 ≡ len = omega arith in
    let counts : ltb i int_max ≡ true = lt→ltb i int_max (omega arith) in
    let rest = λ (dat : List ℕ).
      push_words-push_beats n (suc i) m mem start id len
        (q ++ record { id = id; bytes = dat; last = i == len } ∷ []) (omega arith) short reach in
    rw (push_words, push_beats, product, same_off, last, counts)
      (ap (λ (f : List ℕ → Result (List RResp)). read m mem (add64 start off) >>= f) (fun_ext rest))

-- When the immediate memory would push the beats of a burst behind those that wait, without a fault,
-- then `read_complete` for a request of that address, id and length, first in line at its address,
-- leaves exactly those beats, takes the request out and frees its id.
pub complete-read_burst :
    (m : Mm) (mem : List ℕ) (t : Tables) (address size id len addr : ℕ) (rest : List Req)
    (q : List RResp)
    → t.rreq address ≡ record { id = id; size = size; len = add64 len 1; addr = addr } ∷ rest
    → id < length t.read_id_busy
    → len < int_max
    → len * m.word_size ≤ int_max
    → read_burst m mem addr id len t.rresp ≡ ok q
    → complete_as false m mem address t
      ≡ ok (record t {
        rreq = put_queue t.rreq address rest;
        rresp = q;
        read_id_busy = set t.read_id_busy id false;
      })
unfolding complete_as read_front read_burst
complete-read_burst m mem t address size id len addr rest q front known short reach pushed =
    let (checked, positive, pushed₁) = >>=-eq-ok (guard (ltb 0 m.word_size) div_by_zero) _ pushed in
    let start = addr / m.word_size * m.word_size in
    let count : add64 len 1 ≡ suc len = omega arith in
    let same : push_words (suc len) 0 m mem start id (suc len) t.rresp ≡ ok q =
      push_words-push_beats (suc len) 0 m mem start id len t.rresp (omega arith) short reach
      ∙ pushed₁ in
    rw (front, count, positive, same, set_bit_lem t.read_id_busy id false known) refl
