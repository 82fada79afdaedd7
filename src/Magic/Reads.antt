-- ===== src/Magic/Reads.antt =====
-- The read bursts of mm_magic_t: which beats an accepted address pushes.
use native.Mathlib.Nat.{le_trans, mul-le-mul_right}
use thermal_placement.Base.{
  ℕ, zero, suc, ◌+◌, ◌*◌, ◌/◌, ◌^◌, ◌≤◌, ◌<◌, ◌≡◌, refl, ap, ◌∙◌, List, [], ◌∷◌, ◌++◌, some, ok,
  ◌==◌, lt→ltb, length, get_elem?, take, drop, add64, sub64, mul_int, int_max, append-nil,
  append_assoc, arith, le→leb,
}
use thermal_placement.Memory.{Mm, read, IsWellFormed}
use thermal_placement.Axi.{RResp}
use thermal_placement.Magic.{push_beats, read_burst}

-- Beat `k` of a burst of `len + 1` beats that starts at offset `o` of the buffer.
abbrev pub burst_beat : Mm → List ℕ → (o id len k : ℕ) → RResp
burst_beat m mem o id len k = record {
  id = id;
  bytes = take m.word_size (drop (o + k * m.word_size) mem);
  last = k == len;
}

-- A burst that stays inside the memory and within the range of the loop's ints.
pub record IsInRange (m : Mm) (start len : ℕ) : Type 0 where
  pub short : len < int_max
  pub reach : len * m.word_size ≤ int_max
  pub inside : sub64 start m.mem_base + suc len * m.word_size ≤ m.mem_size

read_ok :
    (m : Mm) (mem : List ℕ) (faddr o : ℕ)
    → sub64 faddr m.mem_base ≡ o
    → o < m.mem_size
    → o + m.word_size ≤ length mem
    → read m mem faddr ≡ ok (take m.word_size (drop o mem))
unfolding read
read_ok m mem faddr o e h fits = rw (e, lt→ltb _ _ h, le→leb _ _ fits)

beat_offset :
    (base size start off : ℕ)
    → base + size ≤ 2 ^ 64
    → sub64 start base + off < size
    → sub64 (add64 start off) base ≡ sub64 start base + off
beat_offset base size start off fits h = omega arith

beat_inside : (i len w o size : ℕ) → i ≤ len → o + suc len * w ≤ size → o + i * w + w ≤ size
beat_inside i len w o size h fits = grind arith

-- One round of the loop pushes one beat.
push_beat :
    (n i : ℕ) (m : Mm) (mem : List ℕ) (start id len : ℕ) (q : List RResp)
    → IsWellFormed m mem
    → IsInRange m start len
    → i ≤ len
    → push_beats (suc n) i m mem start id len q
      ≡ push_beats n
          (suc i)
          m
          mem
          start
          id
          len
          (q ++ burst_beat m mem (sub64 start m.mem_base) id len i ∷ [])
unfolding push_beats
push_beat n i m mem start id len q v r h =
    let o = sub64 start m.mem_base in
    let off = i * m.word_size in
    let reached : off ≤ int_max = le_trans (mul-le-mul_right m.word_size h) r.reach in
    let small : mul_int i m.word_size ≡ ok off = ground arith in
    let room : o + off + m.word_size ≤ m.mem_size =
      beat_inside i len m.word_size o m.mem_size h r.inside in
    let pos : 0 < m.word_size = v.word_pos in
    let here : o + off < m.mem_size = omega arith in
    let shift = beat_offset m.mem_base m.mem_size start off v.base_fits here in
    let fits : o + off + m.word_size ≤ length mem = omega arith in
    let got = read_ok m mem (add64 start off) (o + off) shift here fits in
    let below : i < int_max = omega arith in rw (small, got, lt→ltb _ _ below)

beats_from :
    (f : ℕ → RResp) (i n : ℕ) (bs : List RResp)
    → ((k : ℕ) → k < n → get_elem? bs k ≡ some (f (suc i + k)))
    → (k : ℕ) → k < suc n
    → get_elem? (f i ∷ bs) k ≡ some (f (i + k))
beats_from f i n bs at zero h =
    let same : i ≡ i + 0 = omega arith in ap (λ (t : ℕ). some (f t)) same
beats_from f i n bs at (suc k) h =
    let next : suc i + k ≡ i + suc k = omega arith in
    at k (omega arith) ∙ ap (λ (t : ℕ). some (f t)) next

push_beats_lem :
    (n i : ℕ) (m : Mm) (mem : List ℕ) (start id len : ℕ) (q : List RResp)
    → IsWellFormed m mem
    → IsInRange m start len
    → i + n ≡ suc len
    → (bs : List RResp) × (push_beats n i m mem start id len q ≡ ok (q ++ bs))
      × (length bs ≡ n)
      × ((k : ℕ)
          → k < n
          → get_elem? bs k ≡ some (burst_beat m mem (sub64 start m.mem_base) id len (i + k)))
unfolding push_beats
push_beats_lem zero i m mem start id len q v r e =
    ([], rw (append-nil), refl, λ k h. absurd (omega arith))
push_beats_lem (suc n) i m mem start id len q v r e =
    let beat_at = burst_beat m mem (sub64 start m.mem_base) id len in
    let (bs, pushed, l, at) =
      push_beats_lem n (suc i) m mem start id len (q ++ beat_at i ∷ []) v r (omega arith) in
    (
      beat_at i ∷ bs,
      push_beat n i m mem start id len q v r (omega arith)
          ∙ pushed
          ∙ ap ok (append_assoc q (beat_at i ∷ []) bs),
      ap suc l,
      beats_from beat_at i n bs at,
    )

-- A read burst in range never faults. It pushes `len + 1` beats behind those that wait, all with the
-- id of the address; beat `k` holds word `k` from the word of the address on, and only the last
-- beat is marked `last`.
pub read_burst_lem :
    (m : Mm) (mem : List ℕ) (addr id len : ℕ) (q : List RResp)
    → IsWellFormed m mem
    → let start = addr / m.word_size * m.word_size in
      IsInRange m start len
      → (bs : List RResp) × (read_burst m mem addr id len q ≡ ok (q ++ bs))
        × (length bs ≡ suc len)
        × ((k : ℕ)
            → k ≤ len
            → get_elem? bs k ≡ some (burst_beat m mem (sub64 start m.mem_base) id len k))
unfolding read_burst
read_burst_lem m mem addr id len q v r =
    let start = addr / m.word_size * m.word_size in
    let (bs, pushed, l, at) = push_beats_lem (suc len) 0 m mem start id len q v r (omega arith) in
    (
      bs,
      rw (lt→ltb _ _ v.word_pos) pushed,
      l,
      λ k h. at k (omega arith) ∙ (let same : 0 + k ≡ k = omega arith in rw same),
    )
