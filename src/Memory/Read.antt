-- ===== src/Memory/Read.antt =====
-- mm_t::read, and what it sees of an earlier mm_t::write.
use native.Mathlib.Decide.{ℕ_discrete, dec_lt}
use native.Mathlib.Nat.{mul-div_left}
use thermal_placement.Base.{
  ℕ, ◌+◌, ◌-◌, ◌*◌, ◌/◌, ◌≤◌, ◌<◌, ◌≡◌, ◌≢◌, ap, ◌∙◌, Bool, false, ◌&&◌, List, ok, guard,
  guard-eq-ok, >>=-eq-ok, ok-injective, assertion, out_of_bounds, leb→le, ltb, leb, ◌==◌, lt→ltb,
  le→leb, word_fits, if◌then◌else◌, length, get_elem?, take, drop, length-take, length-drop,
  get_elem?-take, get_elem?-drop, sub64, arith,
}
use thermal_placement.Memory.{Mm, write, read, IsWellFormed}
use thermal_placement.Memory.Write.{stores_lane, write_lem}

-- A read of whole bytes inside the buffer returns exactly those bytes.
pub read_lem :
    (m : Mm) (mem : List ℕ) (faddr : ℕ)
    → 0 < m.word_size
    → length mem ≡ m.mem_size
    → sub64 faddr m.mem_base + m.word_size ≤ m.mem_size
    → (w : List ℕ) × (read m mem faddr ≡ ok w)
      × (length w ≡ m.word_size)
      × ((i : ℕ) → i < m.word_size → get_elem? w i ≡ get_elem? mem (sub64 faddr m.mem_base + i))
unfolding read
read_lem m mem faddr pos size fits =
    let addr = sub64 faddr m.mem_base in
    let inside : addr < m.mem_size = omega arith in
    let within : addr + m.word_size ≤ length mem = omega arith in
    (
      take m.word_size (drop addr mem),
      rw (lt→ltb _ _ inside, le→leb _ _ within),
      omega (arith, length-take m.word_size (drop addr mem), length-drop addr mem),
      λ i h. get_elem?-take m.word_size (drop addr mem) i h ∙ get_elem?-drop addr mem i,
    )

-- A read that succeeds returns a word.
pub read-length :
    (m : Mm) (mem : List ℕ) (faddr : ℕ) (dat : List ℕ)
    → read m mem faddr ≡ ok dat
    → length dat ≡ m.word_size
unfolding read
read-length m mem faddr dat e =
    let addr = sub64 faddr m.mem_base in
    let (_, _, e₁) = >>=-eq-ok (guard (ltb addr m.mem_size) assertion) _ e in
    let fits = leb (addr + m.word_size) (length mem) in
    let (_, inside, e₂) = >>=-eq-ok (guard fits out_of_bounds) _ e₁ in
    let within = leb→le _ _ (guard-eq-ok fits out_of_bounds inside) in
    rw (← ok-injective e₂)
      (omega (arith, length-take m.word_size (drop addr mem), length-drop addr mem, within))

-- The lane that a write to word `p` stores is seen in word `p` only.
other_word :
    (p q w i : ℕ) (b : Bool)
    → p ≢ q
    → i < w
    → (leb (p * w) (q * w + i) && (ltb (q * w + i) (p * w + w) && b)) ≡ false
other_word p q w i b ne h = elim (dec_lt p q) [
  | yes below ↦ let after : p * w + w ≤ q * w + i = grind arith in ground arith
  | no above ↦ let before : q * w + i < p * w = grind arith in ground arith
]

-- Lane `i` of word `q` after a write to word `p`, from the bytes of the buffers.
stored_lane :
    (p q w i o : ℕ) (mem' mem dat before : List ℕ) (selected : ℕ → Bool)
    → o ≡ q * w
    → i < w
    → ((j : ℕ)
        → get_elem? mem' j ≡ (
            if leb (p * w) j && (ltb j (p * w + w) && selected (j - p * w))
            then get_elem? dat (j - p * w)
            else get_elem? mem j))
    → get_elem? before i ≡ get_elem? mem (o + i)
    → get_elem? mem' (o + i)
      ≡ (if (p == q) && selected i then get_elem? dat i else get_elem? before i)
stored_lane p q w i o mem' mem dat before selected e h at old = elim (ℕ_discrete p q) [
  | yes same ↦
      let start : p * w ≡ q * w = ap (λ (t : ℕ). t * w) same in
      let lane : o + i - p * w ≡ i = omega arith in
      let above : p * w ≤ o + i = omega arith in
      let below : o + i < p * w + w = omega arith in
      ground (arith, at (o + i), old, ap selected lane, ap (get_elem? dat) lane)
  | no ne ↦
      let outside = rw (← e) at (other_word p q w i (selected (o + i - p * w)) ne h) in
      ground (arith, at (o + i), old, outside)
]

-- After a write in range, a word reads as before, but for the lanes of the word written that the
-- strobes and the size select: those hold the data.
pub read-write :
    (m : Mm) (mem : List ℕ) (faddr : ℕ) (dat : List ℕ) (strb size a q : ℕ)
    → IsWellFormed m mem
    → sub64 faddr m.mem_base < m.mem_size
    → size ≤ 64
    → m.word_size ≤ length dat
    → sub64 a m.mem_base ≡ q * m.word_size
    → q * m.word_size < m.mem_size
    → let addr = sub64 faddr m.mem_base in
      (mem' before after : List ℕ) × (write m mem faddr dat strb size ≡ ok mem')
      × (read m mem a ≡ ok before)
      × (read m mem' a ≡ ok after)
      × ((i : ℕ)
          → i < m.word_size
          → get_elem? after i ≡ (
              if (addr / m.word_size == q) && stores_lane m addr strb size i
              then get_elem? dat i
              else get_elem? before i))
read-write m mem faddr dat strb size a q v h s d e inside =
    let addr = sub64 faddr m.mem_base in
    let w = m.word_size in
    let fits : q * w + w ≤ m.mem_size =
      let start : q * m.word_size / m.word_size ≡ q = mul-div_left q v.word_pos in
      rw start at (word_fits (q * w) m.mem_size w v.word_pos v.whole_words inside) in
    let (mem', wrote, same, at) = write_lem m mem faddr dat strb size v h s d in
    let (before, r, _, old) = read_lem m mem a v.word_pos v.buffer (rw e fits) in
    let (after, r', _, new) = read_lem m mem' a v.word_pos (same ∙ v.buffer) (rw e fits) in
    (
      mem',
      before,
      after,
      wrote,
      r,
      r',
      λ i hi.
          new i hi
          ∙ stored_lane (addr / w) q w i (sub64 a m.mem_base) mem' mem dat before
              (stores_lane m addr strb size) e hi at (old i hi),
    )
