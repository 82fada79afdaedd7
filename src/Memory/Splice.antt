-- ===== src/Memory/Splice.antt =====
-- mm_t::write of a whole word.
use native.Mathlib.Nat.{mul-div_left, mul-mod_left}
use native.Mathlib.Decide.{dec_lt}
use thermal_placement.Base.{
  ℕ, ◌+◌, ◌-◌, ◌*◌, ◌/◌, ◌%◌, ◌≤◌, ◌<◌, ◌≡◌, sym, ap, ◌∙◌, Bool, true, ◌&&◌, List, ok, leb, ltb,
  if◌then◌else◌, length, get_elem?, sub64, arith, word_fits,
}
use thermal_placement.Base.Bits.{bit_at}
use thermal_placement.Base.Splice.{splice, list_ext, get_elem?-splice}
use thermal_placement.Memory.{Mm, write, IsWellFormed}
use thermal_placement.Memory.Write.{stores_lane, write_lem}

-- The strobes of all lanes of a word.
abbrev pub IsFull : (w strb : ℕ) → Type 0
IsFull w strb = (i : ℕ) → i < w → bit_at strb i ≡ true

whole_word :
    (m : Mm) (addr strb i : ℕ)
    → m.word_size ≤ 64
    → addr % m.word_size ≡ 0
    → i < m.word_size
    → bit_at strb i ≡ true
    → stores_lane m addr strb m.word_size i ≡ true
whole_word m addr strb i small start h e =
    let back : i - 0 ≡ i = omega arith in rw (start, e, back) (ground arith)

-- The bytes of a buffer whose bytes from `o` on have all been selected.
spliced :
    (o : ℕ) (mem mem' dat : List ℕ) (selected : ℕ → Bool)
    → o + length dat ≤ length mem
    → ((i : ℕ) → i < length dat → selected i ≡ true)
    → ((j : ℕ)
        → get_elem? mem' j ≡ (
            if leb o j && (ltb j (o + length dat) && selected (j - o))
            then get_elem? dat (j - o)
            else get_elem? mem j))
    → mem' ≡ splice o dat mem
spliced o mem mem' dat selected fits all bytes = list_ext mem' (splice o dat mem) (λ j.
    let put = get_elem?-splice o dat mem j fits in
    elim (dec_lt (j - o) (length dat)) [
      | yes lane ↦ bytes j ∙ ground (arith, all (j - o) lane) ∙ sym put
      | no outside ↦ bytes j ∙ ground arith ∙ sym put
    ])

-- A write of all lanes at the start of a word puts its data there.
pub write-splice :
    (m : Mm) (mem : List ℕ) (faddr : ℕ) (dat : List ℕ) (strb p : ℕ)
    → IsWellFormed m mem
    → sub64 faddr m.mem_base ≡ p * m.word_size
    → p * m.word_size < m.mem_size
    → length dat ≡ m.word_size
    → IsFull m.word_size strb
    → write m mem faddr dat strb m.word_size ≡ ok (splice (p * m.word_size) dat mem)
write-splice m mem faddr dat strb p v at inside width full =
    let w = m.word_size in
    let addr = sub64 faddr m.mem_base in
    let o = addr / w * w in
    let start : o ≡ p * w =
      ap (λ (t : ℕ). t / w * w) at ∙ ap (λ (t : ℕ). t * w) (mul-div_left p v.word_pos) in
    let lowest : addr % w ≡ 0 = ap (λ (t : ℕ). t % w) at ∙ mul-mod_left p w in
    let here : addr < m.mem_size = omega (arith, at, inside) in
    let fits : o + w ≤ m.mem_size = word_fits addr m.mem_size w v.word_pos v.whole_words here in
    let (mem', wrote, _, bytes) =
      write_lem m mem faddr dat strb w v here v.word_small (omega (arith, width)) in
    let whole =
      spliced o mem mem' dat (stores_lane m addr strb w) (omega (arith, width, v.buffer))
        (λ i h.
          whole_word m addr strb i v.word_small lowest (omega (arith, width))
            (full i (omega (arith, width))))
        (λ j.
          bytes j
          ∙ ap
              (λ (t : ℕ).
                if leb o j && (ltb j (o + t) && stores_lane m addr strb w (j - o))
                then get_elem? dat (j - o)
                else get_elem? mem j)
              (sym width)) in
    wrote ∙ ap ok whole ∙ ap (λ (t : ℕ). ok (splice t dat mem)) start
