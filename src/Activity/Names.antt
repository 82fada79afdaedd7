-- ===== src/Activity/Names.antt =====
-- The names in the table of regions.
use mathlib.Core.List.{Mem, not-mem-nil, Pairwise, forall_mem-cons}
use mathlib.Core.List.Perm
use mathlib.Core.Bool.{Bool-set}
use thermal_placement.Base.{
  ℕ, ◌≡◌, refl, sym, ◌∙◌, subst, Bool, true, false, not, ◌&&◌, List, [], ◌∷◌, map, none, Bool-cases,
  inl, inr, arith,
}
use thermal_placement.Base.Text.{same_text}
use thermal_placement.Base.Sort.{sort, IsSorted, sort-perm, sort-IsSorted}
use thermal_placement.Vcd.Signals.{Signal, lookup, setdefault}
use thermal_placement.Vcd.Keys.{IsDict, setdefault-IsDict, modify-IsDict}
use thermal_placement.Vcd.Dict.{same_text_comm}
use thermal_placement.Activity.{Terms, classify}
use thermal_placement.Activity.Tables.{
  Floats, Item, RegionRow, Options, Report, text_le, no_signals, regions_of, row_of, add_row,
  count_in, report_of, region_row, region_rows,
}
use thermal_placement.Activity.Rows.{kept, count_all, add_signals-kept}

text_le_total : (a b : List ℕ) → text_le a b ≡ false → text_le b a ≡ true
unfolding text_le
text_le_total [] b h = cc
text_le_total (x ∷ xs) [] h = refl
text_le_total (x ∷ xs) (y ∷ ys) h = ground (arith, text_le_total xs ys)

text_le_trans : (a b c : List ℕ) → text_le a b ≡ true → text_le b c ≡ true → text_le a c ≡ true
unfolding text_le
text_le_trans [] b c h k = refl
text_le_trans (x ∷ xs) [] c h k = cc
text_le_trans (x ∷ xs) (y ∷ ys) [] h k = cc
text_le_trans (x ∷ xs) (y ∷ ys) (z ∷ zs) h k = ground (arith, text_le_trans xs ys zs)

text_le_self : (a : List ℕ) → text_le a a ≡ true
unfolding text_le
text_le_self [] = refl
text_le_self (x ∷ xs) = ground (arith, text_le_self xs)

-- `a < b` of texts.
abbrev pub text_lt : List ℕ → List ℕ → Bool
text_lt a b = text_le a b && not (same_text a b)

module _ {V : Type 0} where
  apart :
      (k : List ℕ) (m : List (List ℕ × V))
      → lookup k m ≡ none
      → (z : List ℕ × V) → Mem z m
      → same_text k z.0 ≡ false
  unfolding lookup
  apart k [] free = λ z m. absurd (not-mem-nil m)
  apart k ((j, w) ∷ m) free = elim (Bool-cases (same_text j k)) [
    | inl here ↦ absurd (let found = rw here at free in cc)
    | inr other ↦
        (forall_mem-cons {p = λ z. same_text k z.0 ≡ false}
            (λ z. Bool-set (same_text k z.0) false)).1
          (same_text_comm k j ∙ other, apart k m (rw other at free))
  ]

  abbrev Apart : List ℕ × V → List ℕ × V → Type 0
  Apart a b = same_text a.0 b.0 ≡ false

  IsDict-Pairwise : {m : List (List ℕ × V)} → IsDict m → Pairwise Apart m
  IsDict-Pairwise IsDict.nil = Pairwise.nil
  IsDict-Pairwise (IsDict.cons {k} {v} {m} free d) =
      Pairwise.cons (apart k m free) (IsDict-Pairwise d)

  abbrev key_le : List ℕ × V → List ℕ × V → Bool
  key_le a b = text_le a.0 b.0

  abbrev KeyLt : List ℕ × V → List ℕ × V → Type 0
  KeyLt a b = text_lt a.0 b.0 ≡ true

  both-Pairwise : {m : List (List ℕ × V)} → IsSorted key_le m → Pairwise Apart m → Pairwise KeyLt m
  both-Pairwise Pairwise.nil Pairwise.nil = Pairwise.nil
  both-Pairwise (Pairwise.cons below s) (Pairwise.cons other d) =
      Pairwise.cons (λ z m. let a = below z m in let b = other z m in rw (a, b) refl)
        (both-Pairwise s d)

  -- Sorting a dict by its keys leaves each key strictly below the next ones.
  pub sort-ascending : (m : List (List ℕ × V)) → IsDict m → Pairwise KeyLt (sort key_le m)
  sort-ascending m d =
      both-Pairwise
        (sort-IsSorted key_le (λ x y. text_le_total x.0 y.0) (λ x y z. text_le_trans x.0 y.0 z.0) m)
        (Perm.pairwise (λ a b. Bool-set (same_text a.0 b.0) false)
          (λ a b h. same_text_comm b.0 a.0 ∙ h) (Perm.symm (sort-perm key_le m))
          (IsDict-Pairwise d))

mapped {ℓ κ} :
    {A : Type ℓ} {B : Type κ} {R : B → B → Type 0} {f : A → B}
    → ((a b : B) → IsProp (R a b))
    → (a : A) (l : List A) → ((x : A) → Mem x l → R (f a) (f x))
    → (y : B) → Mem y (map f l)
    → R (f a) y
mapped r a [] h = λ y m. absurd (not-mem-nil m)
mapped {R} {f} r a (b ∷ l) h =
    let both = (forall_mem-cons {p = λ x. R (f a) (f x)} (λ x. r (f a) (f x))).0 h in
    (forall_mem-cons {p = R (f a)} (λ y. r (f a) y)).1 (both.0, mapped r a l both.1)

-- A relation of what a function makes of the elements.
pub Pairwise-map {ℓ κ} :
    {A : Type ℓ} {B : Type κ} {R : B → B → Type 0} (f : A → B)
    → ((a b : B) → IsProp (R a b))
    → {l : List A} → Pairwise (λ a b. R (f a) (f b)) l
    → Pairwise R (map f l)
Pairwise-map f r Pairwise.nil = Pairwise.nil
Pairwise-map f r (Pairwise.cons {a} {l} below s) =
    Pairwise.cons (mapped r a l below) (Pairwise-map f r s)

module _ {F : Type 0} (floats : Floats F) (options : Options) where
  regions_of-IsDict :
      (terms : Terms) (m : List (List ℕ × Item F)) → IsDict m → IsDict (regions_of floats terms m)
  unfolding regions_of
  regions_of-IsDict [] m d = d
  regions_of-IsDict ((category, ts) ∷ rest) m d =
      regions_of-IsDict rest (setdefault category (no_signals floats) m)
        (setdefault-IsDict category (no_signals floats) m d)

  count_all-IsDict :
      (signals : List Signal) (r : Report floats)
      → IsDict r.region
      → IsDict (count_all floats options r signals).region
  unfolding count_all count_in
  count_all-IsDict [] r d = d
  count_all-IsDict (s ∷ ss) r d =
      let region = classify s.path options.terms in
      count_all-IsDict ss (count_in floats options r s) (
        modify-IsDict region (add_row floats options (row_of floats options s)) _
          (setdefault-IsDict region (no_signals floats) r.region d))

  -- The table of regions is in strictly ascending order of the names: no region stands twice.
  pub region_rows-ascending :
      (signals : List Signal)
      → Pairwise
          (λ (a b : RegionRow F). text_lt a.region b.region ≡ true)
          (region_rows floats options signals)
  unfolding region_rows report_of
  region_rows-ascending signals =
      Pairwise-map (region_row floats options) (λ a b. Bool-set (text_lt a.region b.region) true)
        (sort-ascending (report_of floats options signals).region (
          subst (λ (t : Report floats). IsDict t.region)
            (sym (add_signals-kept floats options signals _))
            (count_all-IsDict (kept floats options signals) _
              (regions_of-IsDict options.terms [] IsDict.nil))))
