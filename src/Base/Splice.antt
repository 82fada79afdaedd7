-- ===== src/Base/Splice.antt =====
-- Overwriting a stretch of a list.
use Prim.Native.Nat.{ℕ, zero, suc, ◌+◌, ◌-◌, ◌≤◌}
use native.Mathlib.Omega.{arith}
use native.Mathlib.Decide.{dec_lt}
use mathlib.Core.Path.{◌≡◌, refl, sym, ap, ◌∙◌}
use mathlib.Core.Bool.{◌&&◌}
use mathlib.Core.List.{List, [], ◌∷◌, ◌++◌}
use thermal_placement.Base.Tests.{leb, ltb, if◌then◌else◌}
use thermal_placement.Base.Lists.{
  length, get_elem?, take, drop, length-append, length-take, length-drop, get_elem?-take,
  get_elem?-drop,
}

-- `d` at `o`.
abbrev pub splice {ℓ} : {A : Type ℓ} → ℕ → List A → List A → List A
splice o d xs = take o xs ++ (d ++ drop (o + length d) xs)

module _ {A : Type 0} where
  pub list_ext : (xs ys : List A) → ((j : ℕ) → get_elem? xs j ≡ get_elem? ys j) → xs ≡ ys
  list_ext [] [] h = refl
  list_ext [] (y ∷ ys) h = let first = h 0 in cc
  list_ext (x ∷ xs) [] h = let first = h 0 in cc
  list_ext (x ∷ xs) (y ∷ ys) h = let first = h 0 in let rest = list_ext xs ys (λ j. h (suc j)) in cc

  get_elem?-append :
      (xs ys : List A) (j : ℕ)
      → get_elem? (xs ++ ys) j
        ≡ (if ltb j (length xs) then get_elem? xs j else get_elem? ys (j - length xs))
  get_elem?-append [] ys j =
      let same : j - 0 ≡ j = omega arith in ground (arith, ap (get_elem? ys) same)
  get_elem?-append (x ∷ xs) ys zero = ground arith
  get_elem?-append (x ∷ xs) ys (suc j) =
      let same : suc j - suc (length xs) ≡ j - length xs = omega arith in
      get_elem?-append xs ys j ∙ ground (arith, ap (get_elem? ys) same)

  pub length-splice :
      (o : ℕ) (d xs : List A) → o + length d ≤ length xs → length (splice o d xs) ≡ length xs
  length-splice o d xs h = omega (
    arith,
    length-append (take o xs) (d ++ drop (o + length d) xs),
    length-append d (drop (o + length d) xs),
    length-take o xs,
    length-drop (o + length d) xs,
  )

  pub get_elem?-splice :
      (o : ℕ) (d xs : List A) (j : ℕ)
      → o + length d ≤ length xs
      → get_elem? (splice o d xs) j
        ≡ (if leb o j && ltb j (o + length d) then get_elem? d (j - o) else get_elem? xs j)
  get_elem?-splice o d xs j h =
      let l : length (take o xs) ≡ o = omega (arith, length-take o xs) in
      let first = rw l at (get_elem?-append (take o xs) (d ++ drop (o + length d) xs) j) in
      let second = get_elem?-append d (drop (o + length d) xs) (j - o) in
      elim (dec_lt j o) [
        | yes p ↦ first ∙ ground (arith, get_elem?-take o xs j p)
        | no p ↦ elim (dec_lt j (o + length d)) [
          | yes q ↦ first ∙ ground (arith, second)
          | no q ↦
              let k = j - o - length d in
              let there : o + length d + k ≡ j = omega arith in
              first
              ∙ ground (arith, second, get_elem?-drop (o + length d) xs k, ap (get_elem? xs) there)
        ]
      ]

  -- Two stretches, one behind the other.
  pub splice-splice :
      (o : ℕ) (d e xs : List A)
      → o + length d + length e ≤ length xs
      → splice (o + length d) e (splice o d xs) ≡ splice o (d ++ e) xs
  splice-splice o d e xs h =
      let l = length-splice o d xs (omega arith) in
      let both = length-append d e in
      list_ext _ _ (λ j.
        let outer = get_elem?-splice (o + length d) e (splice o d xs) j (omega (arith, l)) in
        let inner = get_elem?-splice o d xs j (omega arith) in
        let whole = get_elem?-splice o (d ++ e) xs j (omega (arith, both)) in
        let at = get_elem?-append d e (j - o) in
        let back : j - (o + length d) ≡ j - o - length d = omega arith in
        outer ∙ ground (arith, inner, at, both, ap (get_elem? e) back) ∙ sym whole)

  pub splice-nil : (o : ℕ) (xs : List A) → o ≤ length xs → xs ≡ splice o [] xs
  splice-nil o xs h =
      list_ext xs (splice o [] xs) (λ j. ground (arith, get_elem?-splice o [] xs j (omega arith)))
