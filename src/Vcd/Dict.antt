-- ===== src/Vcd/Dict.antt =====
-- The dict of signals: what a key is mapped to after an insertion and after a change.
use thermal_placement.Base.{
  ℕ, ◌≡◌, refl, sym, ap, ap₂, ◌∙◌, Bool, true, false, List, [], ◌∷◌, Option, none, some,
  if◌then◌else◌, Bool-cases, inl, inr, arith,
}
use mathlib.Core.Option
use thermal_placement.Base.Text.{same_text}
use thermal_placement.Vcd.Signals.{lookup, setdefault, modify}

pub same_text-eq : (xs ys : List ℕ) → same_text xs ys ≡ true → xs ≡ ys
same_text-eq [] [] h = refl
same_text-eq [] (y ∷ ys) h = cc
same_text-eq (x ∷ xs) [] h = cc
same_text-eq (x ∷ xs) (y ∷ ys) h =
    let first : x ≡ y = ground arith in
    let rest : same_text xs ys ≡ true = ground arith in
    ap₂ (λ (a : ℕ) l. a ∷ l) first (same_text-eq xs ys rest)

pub same_text_self : (xs : List ℕ) → same_text xs xs ≡ true
same_text_self [] = refl
same_text_self (x ∷ xs) = ground (arith, same_text_self xs)

pub same_text_comm : (a b : List ℕ) → same_text a b ≡ same_text b a
same_text_comm [] [] = refl
same_text_comm [] (y ∷ ys) = refl
same_text_comm (x ∷ xs) [] = refl
same_text_comm (x ∷ xs) (y ∷ ys) = ground (arith, same_text_comm xs ys)

abbrev pub or_default {ℓ} : {V : Type ℓ} → Bool → V → Option V → Option V
or_default b v (some w) = some w
or_default b v none = if b then some v else none

same_as : (i j k : List ℕ) → same_text i j ≡ true → same_text j k ≡ same_text i k
same_as i j k h = ap (λ (t : List ℕ). same_text t k) (sym (same_text-eq i j h))

-- A key that is neither `i` nor `j` when these differ.
not_both : (i j k : List ℕ) → same_text i j ≡ false → same_text i k ≡ true → same_text k j ≡ false
not_both i j k h e = ap (λ (t : List ℕ). same_text t j) (sym (same_text-eq i k e)) ∙ h

not_here : (i j k : List ℕ) → same_text i j ≡ true → same_text i k ≡ false → same_text k j ≡ false
not_here i j k h e = elim (Bool-cases (same_text k j)) [
  | inl same ↦
      let both : same_text i k ≡ same_text i j = ap (same_text i) (same_text-eq k j same) in cc
  | inr different ↦ different
]

if_same {ℓ} : {A : Type ℓ} (b : Bool) (x : A) → (if b then x else x) ≡ x
if_same true x = refl
if_same false x = refl

module _ {V : Type 0} where
  or_default-false : (v : V) (o : Option V) → or_default false v o ≡ o
  or_default-false v none = refl
  or_default-false v (some w) = refl

  pub lookup-setdefault :
      (k j : List ℕ) (v : V) (m : List (List ℕ × V))
      → lookup k (setdefault j v m) ≡ or_default (same_text j k) v (lookup k m)
  unfolding lookup setdefault
  lookup-setdefault k j v [] = refl
  lookup-setdefault k j v ((i, w) ∷ m) = elim (Bool-cases (same_text i j)) [
    | inl here ↦ elim (Bool-cases (same_text i k)) [
      | inl hit ↦ rw (here, lookup, hit) refl
      | inr miss ↦
          rw (here, lookup, miss, same_as i j k here, miss) (sym (or_default-false v (lookup k m)))
    ]
    | inr other ↦ elim (Bool-cases (same_text i k)) [
      | inl hit ↦ rw (other, lookup, hit) refl
      | inr miss ↦ rw (other, lookup, miss) (lookup-setdefault k j v m)
    ]
  ]

  pub lookup-modify :
      (k j : List ℕ) (f : V → V) (m : List (List ℕ × V))
      → lookup k (modify j f m) ≡ (if same_text k j then Option.map f (lookup k m) else lookup k m)
  unfolding lookup modify
  lookup-modify k j f [] = sym (if_same (same_text k j) none)
  lookup-modify k j f ((i, w) ∷ m) = elim (Bool-cases (same_text i j)) [
    | inl here ↦ elim (Bool-cases (same_text i k)) [
      | inl hit ↦
          let same : same_text k j ≡ true = same_as i k j hit ∙ here in
          rw (here, lookup, hit, same) refl
      | inr miss ↦
          let different : same_text k j ≡ false = not_here i j k here miss in
          rw (here, lookup, miss, different) refl
    ]
    | inr other ↦ elim (Bool-cases (same_text i k)) [
      | inl hit ↦ rw (other, lookup, hit, not_both i j k other hit) refl
      | inr miss ↦ rw (other, lookup, miss) (lookup-modify k j f m)
    ]
  ]
