-- ===== src/Vcd/Hamming.antt =====
-- The toggles between two binary values, and the bits of the numbers that they stand for.
use native.Mathlib.Nat.{two-pow-succ}
use thermal_placement.Base.{
  ℕ, zero, suc, ◌+◌, ◌-◌, ◌*◌, ◌/◌, ◌%◌, ◌^◌, ◌≤◌, ◌<◌, ◌≡◌, refl, sym, ap, ap₂, ◌∙◌, subst, true,
  List, [], ◌∷◌, ◌++◌, ◌==◌, if◌then◌else◌, Bool-cases, inl, inr, length, replicate, arith,
}
use thermal_placement.Base.Ints.{ℤ}
use thermal_placement.Base.Text.{same_text}
use thermal_placement.Vcd.Dict.{same_text-eq}
use thermal_placement.Vcd.Signals.{
  is_binary, zfill, count_differ, padded_length, value_toggle_delta,
}

-- The number that binary digits stand for, the highest digit first.
pub bits_value : List ℕ → ℕ
bits_value [] = 0
bits_value (c ∷ cs) = (if c == b'1' then 2 ^ length cs else 0) + bits_value cs

-- The number of bits below bit `n` at which two numbers differ.
pub differences : (n a b : ℕ) → ℕ
differences zero a b = 0
differences (suc n) a b = (if a % 2 == b % 2 then 0 else 1) + differences n (a / 2) (b / 2)

bits_value-lt : (cs : List ℕ) → bits_value cs < 2 ^ length cs
unfolding bits_value
bits_value-lt [] = omega arith
bits_value-lt (c ∷ cs) = ground (arith, bits_value-lt cs, two-pow-succ (length cs))

abbrev bit_of : ℕ → ℕ
bit_of c = if c == b'1' then 1 else 0

abbrev differ : ℕ → ℕ → ℕ
differ a b = if a == b then 0 else 1

top_low : (b n x : ℕ) → (b * 2 ^ suc n + x) % 2 ≡ x % 2
top_low b n x = omega (arith, ap (λ (t : ℕ). b * t) (two-pow-succ n))

top_half : (b n x : ℕ) → (b * 2 ^ suc n + x) / 2 ≡ b * 2 ^ n + x / 2
top_half b n x = omega (arith, ap (λ (t : ℕ). b * t) (two-pow-succ n))

-- The highest of `n + 1` bits.
differences_top :
    (n b c x y : ℕ)
    → b < 2
    → c < 2
    → x < 2 ^ n
    → y < 2 ^ n
    → differences (suc n) (b * 2 ^ n + x) (c * 2 ^ n + y) ≡ differ b c + differences n x y
unfolding differences
differences_top zero b c x y hb hc hx hy = ground arith
differences_top (suc n) b c x y hb hc hx hy =
    let rest =
      differences_top n b c (x / 2) (y / 2) hb hc (omega (arith, two-pow-succ n, hx))
        (omega (arith, two-pow-succ n, hy)) in
    ap₂ (λ (t u : ℕ). t + u) (ap₂ (λ (t u : ℕ). differ t u) (top_low b n x) (top_low c n y))
      (ap₂ (differences (suc n)) (top_half b n x) (top_half c n y) ∙ rest)
    ∙ omega arith

bits_value-cons :
    (c : ℕ) (cs : List ℕ) (n : ℕ)
    → length cs ≡ n
    → bits_value (c ∷ cs) ≡ bit_of c * 2 ^ n + bits_value cs
unfolding bits_value
bits_value-cons c cs n e = rw e (ground arith)

abbrev IsBinary : List ℕ → Type 0
IsBinary cs = is_binary cs ≡ true

-- The first digit says whether the bits differ.
first_digits :
    (x y : ℕ) (xs ys : List ℕ)
    → IsBinary (x ∷ xs)
    → IsBinary (y ∷ ys)
    → differ x y ≡ differ (bit_of x) (bit_of y)
first_digits x y xs ys p q = ground arith

other_digits : (x : ℕ) (xs : List ℕ) → IsBinary (x ∷ xs) → IsBinary xs
other_digits x xs p = ground arith

count_differ-differences :
    (n : ℕ) (xs ys : List ℕ)
    → length xs ≡ n
    → length ys ≡ n
    → IsBinary xs
    → IsBinary ys
    → count_differ xs ys ≡ differences n (bits_value xs) (bits_value ys)
unfolding count_differ differences
count_differ-differences zero [] [] h k p q = refl
count_differ-differences zero [] (y ∷ ys) h k p q = absurd (omega arith)
count_differ-differences zero (x ∷ xs) ys h k p q = absurd (omega arith)
count_differ-differences (suc n) [] ys h k p q = absurd (omega arith)
count_differ-differences (suc n) (x ∷ xs) [] h k p q = absurd (omega arith)
count_differ-differences (suc n) (x ∷ xs) (y ∷ ys) h k p q =
    let l : length xs ≡ n = omega arith in
    let m : length ys ≡ n = omega arith in
    let rest = count_differ-differences n xs ys l m (other_digits x xs p) (other_digits y ys q) in
    let below_x = bits_value-lt xs in
    let below_y = bits_value-lt ys in
    let top =
      differences_top n (bit_of x) (bit_of y) (bits_value xs) (bits_value ys) (ground arith)
        (ground arith) (subst (λ (t : ℕ). bits_value xs < 2 ^ t) l below_x)
        (subst (λ (t : ℕ). bits_value ys < 2 ^ t) m below_y) in
    ap₂ (λ (t u : ℕ). t + u) (first_digits x y xs ys p q) rest
    ∙ sym top
    ∙ sym (ap₂ (differences (suc n)) (bits_value-cons x xs n l) (bits_value-cons y ys n m))

length-zeros : (k : ℕ) (cs : List ℕ) → length (replicate k b'0' ++ cs) ≡ k + length cs
length-zeros zero cs = omega arith
length-zeros (suc k) cs = omega (arith, length-zeros k cs)

zeros-IsBinary : (k : ℕ) (cs : List ℕ) → IsBinary cs → IsBinary (replicate k b'0' ++ cs)
zeros-IsBinary zero cs p = p
zeros-IsBinary (suc k) cs p = zeros-IsBinary k cs p

bits_value-zeros : (k : ℕ) (cs : List ℕ) → bits_value (replicate k b'0' ++ cs) ≡ bits_value cs
unfolding bits_value
bits_value-zeros zero cs = refl
bits_value-zeros (suc k) cs = omega (arith, bits_value-zeros k cs)

differences_self : (n a : ℕ) → differences n a a ≡ 0
unfolding differences
differences_self zero a = refl
differences_self (suc n) a = ground (arith, differences_self n (a / 2))

-- Between two binary values the count of toggles is the number of bits at which the numbers differ,
-- in the longest of the two texts and the width: leading zeros do not count.
pub value_toggle_delta-differences :
    (old new : List ℕ) (width : ℤ)
    → is_binary old ≡ true
    → is_binary new ≡ true
    → value_toggle_delta old new width
      ≡ differences (padded_length old new width) (bits_value old) (bits_value new)
unfolding value_toggle_delta
value_toggle_delta-differences old new width p q = elim (Bool-cases (same_text old new)) [
  | inl same ↦
      let equal = same_text-eq old new same in
      let n = padded_length old new width in
      rw same (
        sym (differences_self n (bits_value old))
        ∙ ap (λ (l : List ℕ). differences n (bits_value old) (bits_value l)) equal)
  | inr other ↦
      let n = padded_length old new width in
      let k = n - length old in
      let l = n - length new in
      let fits : length old ≤ n = ground arith in
      let fits' : length new ≤ n = ground arith in
      rw (other, p, q)
        (count_differ-differences n (zfill n old) (zfill n new)
            (omega (arith, length-zeros k old, fits)) (omega (arith, length-zeros l new, fits'))
            (zeros-IsBinary k old p) (zeros-IsBinary l new q)
          ∙ ap₂ (differences n) (bits_value-zeros k old) (bits_value-zeros l new))
]
