-- ===== src/Base/Text/Search.antt =====
-- What `find` finds: a word is found just when the text has it somewhere.
use Prim.Native.Nat.{ℕ, suc}
use native.Mathlib.Omega.{arith}
use mathlib.Core.Path.{◌≡◌, refl, sym, ap, ap₂, ◌∙◌}
use mathlib.Core.Bool.{true, false}
use mathlib.Core.Logic.{inl, inr}
use mathlib.Core.Option.{Option, none, some}
use mathlib.Core.List.{List, [], ◌∷◌, ◌++◌}
use thermal_placement.Base.Tests.{◌==◌, Bool-cases, ==_iff}
use thermal_placement.Base.Text.{starts_with, find, one_later}
use thermal_placement.Base.Text.Hex.{starts_with-append}

abbrev pub Contains : (word text : List ℕ) → Type 0
Contains word text = (pre post : List ℕ) × (text ≡ pre ++ (word ++ post))

starts_with-split :
    (word text : List ℕ) → starts_with word text ≡ true → (post : List ℕ) × (text ≡ word ++ post)
starts_with-split [] text h = (text, refl)
starts_with-split (p ∷ ps) [] h = cc
starts_with-split (p ∷ ps) (c ∷ cs) h = elim (Bool-cases (p == c)) [
  | inl same ↦
      let (post, e) = starts_with-split ps cs (rw same at h) in
      (post, ap₂ (λ (x : ℕ) l. x ∷ l) (sym ((==_iff p c).0 same)) e)
  | inr other ↦ absurd (ground arith)
]

find-start : (word text : List ℕ) → starts_with word text ≡ true → find word text ≡ some 0
unfolding find
find-start word [] h = rw h refl
find-start word (c ∷ cs) h = rw (find, h) refl

find-later :
    (word : List ℕ) (c : ℕ) (cs : List ℕ)
    → starts_with word (c ∷ cs) ≡ false
    → find word (c ∷ cs) ≡ one_later (find word cs)
unfolding find
find-later word c cs h = rw (find, h) refl

one_later-some : (o : Option ℕ) (i : ℕ) → one_later o ≡ some i → (j : ℕ) × (o ≡ some j)
one_later-some none i h = cc
one_later-some (some j) i h = (j, refl)

pub find-Contains : (word text : List ℕ) → Contains word text → (i : ℕ) × (find word text ≡ some i)
find-Contains word text ([], post, e) =
    rw e (0, find-start word (word ++ post) (starts_with-append word post))
find-Contains word text (c ∷ pre, post, e) =
    let cs = pre ++ (word ++ post) in
    elim (Bool-cases (starts_with word (c ∷ cs))) [
      | inl here ↦ rw e (0, find-start word (c ∷ cs) here)
      | inr later ↦
          let (i, at) = find-Contains word cs (pre, post, refl) in
          rw e (suc i, find-later word c cs later ∙ ap one_later at)
    ]

find-nil : (word : List ℕ) → starts_with word [] ≡ false → find word [] ≡ none
unfolding find
find-nil word h = rw h refl

pub Contains-find : (word text : List ℕ) (i : ℕ) → find word text ≡ some i → Contains word text
Contains-find word [] i h = elim (Bool-cases (starts_with word [])) [
  | inl here ↦ let (post, e) = starts_with-split word [] here in ([], post, e)
  | inr absent ↦ cc (h, find-nil word absent)
]
Contains-find word (c ∷ cs) i h = elim (Bool-cases (starts_with word (c ∷ cs))) [
  | inl here ↦ let (post, e) = starts_with-split word (c ∷ cs) here in ([], post, e)
  | inr later ↦
      let (j, at) = one_later-some (find word cs) i (sym (find-later word c cs later) ∙ h) in
      let (pre, post, e) = Contains-find word cs j at in (c ∷ pre, post, ap (λ l. c ∷ l) e)
]
