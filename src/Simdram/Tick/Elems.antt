-- ===== src/Simdram/Tick/Elems.antt =====
-- The loops of memory_tick that hand the read data over to the simulator, element by element.
use thermal_placement.Base.{
  ℕ, zero, suc, ◌+◌, ◌*◌, ◌%◌, ◌^◌, ◌≤◌, ◌<◌, ◌≡◌, refl, sym, ap, ap₂, ◌∙◌, Bool-cases, inl, inr,
  true, false, List, [], ◌∷◌, ◌++◌, map, ok, err, guard, out_of_bounds, leb, le→leb, >>=-eq-ok,
  ok-injective, if◌then◌else◌, length, take, drop, All, arith,
}
use thermal_placement.Simdram.Tick.{Simulator, word_of, put_words, put_bytes, put_elems}

-- The bytes that are read past the last element: Verilator's branch reads a whole word for it.
abbrev pub overrun : Simulator → ℕ
overrun sim = if sim.verilator then 3 else 0

-- An element of 8 bits keeps the low byte of what it is given.
pub record IsByteArray (sim : Simulator) : Type 0 where
  pub words : (v : ℕ) → sim.put_word v ≡ v % 256
  pub bytes : (v : ℕ) → sim.put_byte v ≡ v % 256

abbrev pub IsByte : ℕ → Type 0
IsByte b = b < 256

pub length-append_lem : (xs ys : List ℕ) → length (xs ++ ys) ≡ length xs + length ys
length-append_lem [] ys = omega arith
length-append_lem (x ∷ xs) ys = omega (arith, length-append_lem xs ys)

take-append_short : (n : ℕ) (xs ys : List ℕ) → n ≤ length xs → take n (xs ++ ys) ≡ take n xs
take-append_short zero xs ys h = refl
take-append_short (suc n) [] ys h = absurd (omega arith)
take-append_short (suc n) (x ∷ xs) ys h = ap (λ l. x ∷ l) (take-append_short n xs ys (omega arith))

pub All-take : (P : ℕ → Type 0) (n : ℕ) (xs : List ℕ) → All P xs → All P (take n xs)
All-take P zero xs h = tt
All-take P (suc n) [] h = tt
All-take P (suc n) (x ∷ xs) h = (h.0, All-take P n xs h.1)

pub All-drop : (P : ℕ → Type 0) (n : ℕ) (xs : List ℕ) → All P xs → All P (drop n xs)
All-drop P zero xs h = h
All-drop P (suc n) [] h = tt
All-drop P (suc n) (x ∷ xs) h = All-drop P n xs h.1

pub low_bytes : (xs : List ℕ) → All IsByte xs → map (λ b. b % 256) xs ≡ xs
low_bytes [] h = refl
low_bytes (x ∷ xs) h =
    let low : x % 256 ≡ x = omega (arith, h.0) in ap₂ (λ y ys. y ∷ ys) low (low_bytes xs h.1)

module _ (sim : Simulator) where
  put_words_total :
      (n : ℕ) (dat : List ℕ)
      → n + 3 ≤ length dat
      → (elems : List ℕ) × (put_words sim.put_word n dat ≡ ok elems)
  unfolding put_words word_of
  put_words_total zero dat h = ([], refl)
  put_words_total (suc n) [] h = absurd (omega arith)
  put_words_total (suc n) (a ∷ []) h = absurd (omega arith)
  put_words_total (suc n) (a ∷ b ∷ []) h = absurd (omega arith)
  put_words_total (suc n) (a ∷ b ∷ c ∷ []) h = absurd (omega arith)
  put_words_total (suc n) (a ∷ b ∷ c ∷ d ∷ dat) h =
      let (elems, e) = put_words_total n (b ∷ c ∷ d ∷ dat) (omega arith) in
      (sim.put_word (a + 2 ^ 8 * b + 2 ^ 16 * c + 2 ^ 24 * d) ∷ elems, rw e refl)

  put_elems-on :
      (n : ℕ) (dat : List ℕ)
      → sim.verilator ≡ true
      → put_elems sim n dat ≡ put_words sim.put_word n (dat ++ sim.behind)
  unfolding put_elems
  put_elems-on n dat on = rw on refl

  put_elems-off :
      (n : ℕ) (dat : List ℕ)
      → sim.verilator ≡ false
      → put_elems sim n dat ≡ put_bytes sim.put_byte n (dat ++ sim.behind)
  unfolding put_elems
  put_elems-off n dat off = rw off refl

  pub put_elems_total :
      (n : ℕ) (dat : List ℕ)
      → n ≤ length dat
      → overrun sim ≤ length sim.behind
      → (elems : List ℕ) × (put_elems sim n dat ≡ ok elems)
  unfolding put_bytes
  put_elems_total n dat short room =
      let whole = length-append_lem dat sim.behind in
      elim (Bool-cases sim.verilator) [
        | inl on ↦
            let room₃ : 3 ≤ length sim.behind = rw on at room in
            let (elems, e) = put_words_total n (dat ++ sim.behind) (omega (arith, whole)) in
            (elems, put_elems-on n dat on ∙ e)
        | inr off ↦
            let fits = le→leb n (length (dat ++ sim.behind)) (omega (arith, whole)) in
            (map sim.put_byte (take n (dat ++ sim.behind)), put_elems-off n dat off ∙ rw fits refl)
      ]

  put_words_past :
      (n : ℕ) (dat : List ℕ)
      → 0 < n
      → length dat < n + 3
      → put_words sim.put_word n dat ≡ err out_of_bounds
  unfolding put_words word_of
  put_words_past zero dat some_elems h = absurd (omega arith)
  put_words_past (suc n) [] some_elems h = refl
  put_words_past (suc n) (a ∷ []) some_elems h = refl
  put_words_past (suc n) (a ∷ b ∷ []) some_elems h = refl
  put_words_past (suc n) (a ∷ b ∷ c ∷ []) some_elems h = refl
  put_words_past (suc zero) (a ∷ b ∷ c ∷ d ∷ dat) some_elems h = absurd (omega arith)
  put_words_past (suc (suc n)) (a ∷ b ∷ c ∷ d ∷ dat) some_elems h =
      rw (put_words_past (suc n) (b ∷ c ∷ d ∷ dat) (omega arith) (omega arith)) refl

  -- In a simulation by Verilator, a reply that has all bytes of the read data reads past them, and is
  -- out of bounds with fewer than three bytes behind them.
  put_elems_past :
      (dat : List ℕ)
      → sim.verilator ≡ true
      → 0 < length dat
      → length sim.behind < 3
      → put_elems sim (length dat) dat ≡ err out_of_bounds
  put_elems_past dat on some_bytes little =
      put_elems-on (length dat) dat on
      ∙ put_words_past (length dat) (dat ++ sim.behind) some_bytes
          (omega (arith, length-append_lem dat sim.behind))

  put_words-low :
      (n : ℕ) (dat elems : List ℕ)
      → IsByteArray sim
      → put_words sim.put_word n dat ≡ ok elems
      → elems ≡ map (λ b. b % 256) (take n dat)
  unfolding put_words word_of
  put_words-low zero dat elems array e = sym (ok-injective e)
  put_words-low (suc n) [] elems array e = absurd (ground arith)
  put_words-low (suc n) (a ∷ []) elems array e = absurd (ground arith)
  put_words-low (suc n) (a ∷ b ∷ []) elems array e = absurd (ground arith)
  put_words-low (suc n) (a ∷ b ∷ c ∷ []) elems array e = absurd (ground arith)
  put_words-low (suc n) (a ∷ b ∷ c ∷ d ∷ dat) elems array e =
      let (later, put, made) = >>=-eq-ok (put_words sim.put_word n (b ∷ c ∷ d ∷ dat)) _ e in
      let low : (a + 2 ^ 8 * b + 2 ^ 16 * c + 2 ^ 24 * d) % 256 ≡ a % 256 = omega arith in
      sym (ok-injective made)
      ∙ ap₂ (λ y ys. y ∷ ys) (array.words _ ∙ low)
          (put_words-low n (b ∷ c ∷ d ∷ dat) later array put)

  map-put_byte : IsByteArray sim → (xs : List ℕ) → map sim.put_byte xs ≡ map (λ b. b % 256) xs
  map-put_byte array [] = refl
  map-put_byte array (x ∷ xs) = ap₂ (λ y ys. y ∷ ys) (array.bytes x) (map-put_byte array xs)

  -- In both branches the elements hold the low bytes.
  pub put_elems-low :
      (n : ℕ) (dat elems : List ℕ)
      → IsByteArray sim
      → n ≤ length dat
      → put_elems sim n dat ≡ ok elems
      → elems ≡ map (λ b. b % 256) (take n dat)
  unfolding put_bytes
  put_elems-low n dat elems array short e =
      let all = dat ++ sim.behind in
      let front = ap (map (λ b. b % 256)) (take-append_short n dat sim.behind short) in
      elim (Bool-cases sim.verilator) [
        | inl on ↦
            let e₁ : put_words sim.put_word n all ≡ ok elems = sym (put_elems-on n dat on) ∙ e in
            put_words-low n all elems array e₁ ∙ front
        | inr off ↦
            let e₀ : put_bytes sim.put_byte n all ≡ ok elems = sym (put_elems-off n dat off) ∙ e in
            let (_, _, e₁) = >>=-eq-ok (guard (leb n (length all)) out_of_bounds) _ e₀ in
            sym (ok-injective e₁) ∙ map-put_byte array (take n all) ∙ front
      ]
