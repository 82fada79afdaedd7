-- ===== src/Base/Sort.antt =====
-- `list.sort`: a stable sort by a test whether an element goes before, or beside, another.
use mathlib.Core.Path.{◌≡◌, refl, sym, ap, ◌∙◌}
use mathlib.Core.Logic.{inl, inr}
use mathlib.Core.Bool.{Bool, Bool-set, true, false, ◌||◌}
use mathlib.Core.List.{
  mem-cons_self, List, [], ◌∷◌, Perm, Pairwise, Pairwise-singleton, forall_mem-cons, Mem,
}
use mathlib.Core.List.Perm
use Prim.Native.Nat.{ℕ, ◌+◌}
use thermal_placement.Base.Lists.{length, All}
use native.Mathlib.Omega.{arith}
use thermal_placement.Base.Tests.{if◌then◌else◌, Bool-cases}

abbrev pub filter {ℓ} : {A : Type ℓ} → (A → Bool) → List A → List A
filter p [] = []
filter p (x ∷ xs) = if p x then x ∷ filter p xs else filter p xs

module _ {ℓ} {A : Type ℓ} (le : A → A → Bool) where
  unfoldable pub insert : A → List A → List A
  insert x [] = x ∷ []
  insert x (y ∷ ys) = if le x y then x ∷ y ∷ ys else y ∷ insert x ys

  unfoldable pub sort : List A → List A
  unfolding insert
  sort [] = []
  sort (x ∷ xs) = insert x (sort xs)

  abbrev pub Le : A → A → Type 0
  Le x y = le x y ≡ true

  abbrev pub IsSorted : List A → Type ℓ
  IsSorted = Pairwise Le

  insert-perm : (x : A) (l : List A) → Perm (insert x l) (x ∷ l)
  unfolding insert
  insert-perm x [] = Perm.rfl
  insert-perm x (y ∷ ys) = elim (Bool-cases (le x y)) [
    | inl here ↦ rw here Perm.rfl
    | inr later ↦ rw later (Perm.trans (Perm.cons y (insert-perm x ys)) (Perm.swap x y ys))
  ]

  pub sort-perm : (l : List A) → Perm (sort l) l
  unfolding sort
  sort-perm [] = Perm.rfl
  sort-perm (x ∷ xs) = Perm.trans (insert-perm x (sort xs)) (Perm.cons x (sort-perm xs))

  IsBelow-cons :
      {x y : A} {l : List A}
      → Le x y
      → ((z : A) → Mem z l → Le x z)
      → (z : A) → Mem z (y ∷ l)
      → Le x z
  IsBelow-cons {x} first rest =
      (forall_mem-cons {p = Le x} (λ z. Bool-set (le x z) true)).1 (first, rest)

  abbrev IsTotal : Type ℓ
  IsTotal = (x y : A) → le x y ≡ false → Le y x

  abbrev IsTransitive : Type ℓ
  IsTransitive = (x y z : A) → Le x y → Le y z → Le x z

  module _ (total : IsTotal) (transitive : IsTransitive) where
    insert-IsSorted : (x : A) {l : List A} → IsSorted l → IsSorted (insert x l)
    unfolding insert
    insert-IsSorted x Pairwise.nil = Pairwise-singleton _ x
    insert-IsSorted x (Pairwise.cons {a = y} {l = ys} below s) = elim (Bool-cases (le x y)) [
      | inl here ↦ rw here (
          Pairwise.cons (IsBelow-cons here (λ z m. transitive x y z here (below z m)))
            (Pairwise.cons below s))
      | inr later ↦ rw later (
          Pairwise.cons
            (λ z m. IsBelow-cons (total x y later) below z ((Perm.mem_iff (insert-perm x ys)).0 m))
            (insert-IsSorted x s))
    ]

    pub sort-IsSorted : (l : List A) → IsSorted (sort l)
    unfolding sort
    sort-IsSorted [] = Pairwise.nil
    sort-IsSorted (x ∷ xs) = insert-IsSorted x (sort-IsSorted xs)

  -- Elements of one class stay in their order.
  module _ (class : A → Bool)
      (together : (x y : A) → class x ≡ true → class y ≡ true → Le x y) where
    filter-insert : (x : A) (l : List A) → filter class (insert x l) ≡ filter class (x ∷ l)
    unfolding insert
    filter-insert x [] = refl
    filter-insert x (y ∷ ys) = elim (Bool-cases (le x y)) [
      | inl here ↦ rw here refl
      | inr later ↦ elim (Bool-cases (class y)) [
        | inl cy ↦ elim (Bool-cases (class x)) [
          | inl cx ↦ absurd (let both = together x y cx cy in cc)
          | inr cx ↦ rw (later, cy, cx, filter-insert x ys, cx) refl
        ]
        | inr cy ↦ rw (later, cy, filter-insert x ys) refl
      ]
    ]

    pub filter-sort : (l : List A) → filter class (sort l) ≡ filter class l
    unfolding sort
    filter-sort [] = refl
    filter-sort (x ∷ xs) =
        filter-insert x (sort xs) ∙ ap (λ t. if class x then x ∷ t else t) (filter-sort xs)

abbrev pub sum_of {ℓ} : {A : Type ℓ} → (A → ℕ) → List A → ℕ
sum_of f [] = 0
sum_of f (x ∷ xs) = f x + sum_of f xs

sum_of-insert {ℓ} :
    {A : Type ℓ} (le : A → A → Bool) (f : A → ℕ) (x : A) (l : List A)
    → sum_of f (insert le x l) ≡ f x + sum_of f l
unfolding insert
sum_of-insert le f x [] = refl
sum_of-insert le f x (y ∷ ys) = elim (Bool-cases (le x y)) [
  | inl here ↦ rw here refl
  | inr later ↦ rw later (omega (arith, sum_of-insert le f x ys))
]

pub sum_of-sort {ℓ} :
    {A : Type ℓ} (le : A → A → Bool) (f : A → ℕ) (l : List A) → sum_of f (sort le l) ≡ sum_of f l
unfolding sort
sum_of-sort le f [] = refl
sum_of-sort le f (x ∷ xs) = omega (arith, sum_of-insert le f x (sort le xs), sum_of-sort le f xs)

pub length-sum_of {ℓ} : {A : Type ℓ} (l : List A) → length l ≡ sum_of (λ (x : A). 1) l
length-sum_of [] = refl
length-sum_of (x ∷ xs) = omega (arith, length-sum_of xs)

pub length-sort {ℓ} : {A : Type ℓ} (le : A → A → Bool) (l : List A) → length (sort le l) ≡ length l
length-sort le l = length-sum_of (sort le l) ∙ sum_of-sort le (λ x. 1) l ∙ sym (length-sum_of l)

insert_first {ℓ} :
    {A : Type ℓ} (le : A → A → Bool) (x : A) (l : List A)
    → ((y : A) → Mem y l → Le le x y)
    → insert le x l ≡ x ∷ l
unfolding insert
insert_first le x [] below = refl
insert_first le x (y ∷ ys) below = rw (below y mem-cons_self) refl

or_swap : (a b c : Bool) → (a || (b || c)) ≡ (b || (a || c))
or_swap true true c = refl
or_swap true false c = refl
or_swap false b c = refl

pub sort-same {ℓ} : {A : Type ℓ} (le : A → A → Bool) {l : List A} → IsSorted le l → sort le l ≡ l
unfolding sort insert
sort-same le Pairwise.nil = refl
sort-same le (Pairwise.cons {a} {l} below s) =
    ap (insert le a) (sort-same le s) ∙ insert_first le a l below

unfoldable pub any {ℓ} : {A : Type ℓ} → (A → Bool) → List A → Bool
any p [] = false
any p (x ∷ xs) = p x || any p xs

any-insert {ℓ} :
    {A : Type ℓ} (le : A → A → Bool) (p : A → Bool) (x : A) (l : List A)
    → any p (insert le x l) ≡ (p x || any p l)
unfolding insert any
any-insert le p x [] = refl
any-insert le p x (y ∷ ys) = elim (Bool-cases (le x y)) [
  | inl here ↦ rw here refl
  | inr later ↦ rw later (ap (◌||◌ (p y)) (any-insert le p x ys) ∙ or_swap (p y) (p x) (any p ys))
]

pub any-sort {ℓ} :
    {A : Type ℓ} (le : A → A → Bool) (p : A → Bool) (l : List A) → any p (sort le l) ≡ any p l
unfolding sort any
any-sort le p [] = refl
any-sort le p (x ∷ xs) = any-insert le p x (sort le xs) ∙ ap (◌||◌ (p x)) (any-sort le p xs)

abbrev pub is_empty {ℓ} : {A : Type ℓ} → List A → Bool
is_empty [] = true
is_empty (x ∷ xs) = false

is_empty-insert {ℓ} :
    {A : Type ℓ} (le : A → A → Bool) (x : A) (l : List A) → is_empty (insert le x l) ≡ false
unfolding insert
is_empty-insert le x [] = refl
is_empty-insert le x (y ∷ ys) = elim (Bool-cases (le x y)) [
  | inl here ↦ rw here refl
  | inr later ↦ rw later refl
]

pub is_empty-sort {ℓ} :
    {A : Type ℓ} (le : A → A → Bool) (l : List A) → is_empty (sort le l) ≡ is_empty l
unfolding sort
is_empty-sort le [] = refl
is_empty-sort le (x ∷ xs) = is_empty-insert le x (sort le xs)

-- Predicates on each element.
module _ {ℓ κ} {A : Type ℓ} (P : A → Type κ) where
  All-insert : (le : A → A → Bool) (x : A) (l : List A) → P x → All P l → All P (insert le x l)
  unfolding insert
  All-insert le x [] p h = (p, h)
  All-insert le x (y ∷ ys) p (q, h) = elim (Bool-cases (le x y)) [
    | inl here ↦ rw here (p, (q, h))
    | inr later ↦ rw later (q, All-insert le x ys p h)
  ]

  pub All-sort : (le : A → A → Bool) (l : List A) → All P l → All P (sort le l)
  unfolding sort
  All-sort le [] h = h
  All-sort le (x ∷ xs) (p, h) = All-insert le x (sort le xs) p (All-sort le xs h)

  pub All-filter : (q : A → Bool) (l : List A) → All P l → All P (filter q l)
  All-filter q [] h = h
  All-filter q (x ∷ xs) (p, h) = elim (Bool-cases (q x)) [
    | inl kept ↦ rw kept (p, All-filter q xs h)
    | inr cut ↦ rw cut (All-filter q xs h)
  ]
