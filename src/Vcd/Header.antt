-- ===== src/Vcd/Header.antt =====
-- The reader's loop on the lines of the header.
use thermal_placement.Base.{
  ℕ, ◌≡◌, refl, sym, ◌∙◌, subst, Bool, true, false, List, [], ◌∷◌, Option, none, some, ok,
  >>=-eq-ok, ok-injective, if◌then◌else◌, Bool-cases, inl, inr, get_or, get_elem?, or_fault, thrown,
  ◌⊎◌, leb, length, arith,
}
use thermal_placement.Base.Ints.{ℤ}
use thermal_placement.Base.Text.{codes, starts_with, same_text}
use thermal_placement.Vcd.Text.{strip, split, parse_int}
use thermal_placement.Vcd.Signals.{Signal, lookup, setdefault}
use thermal_placement.Vcd.Keys.{IsDict, setdefault-IsDict}
use thermal_placement.Vcd.Dict.{lookup-setdefault, or_default}
use thermal_placement.Vcd.{
  Reader, full_path, fresh, open_scope, declare_var, read_header, read_stripped, read_line,
  read_lines,
}
use thermal_placement.Vcd.Body.{ends_header, body_of, read_all, read_lines-body}

-- Signals before any change, each under a key of its own.
pub record IsFresh (m : List (List ℕ × Signal)) : Type 0 where
  pub new :
      (key : List ℕ) (s : Signal)
      → lookup key m ≡ some s
      → (s.last ≡ none) × (s.toggles ≡ 0) × (s.changes ≡ 0)
  pub dict : IsDict m

-- What a line of the header leaves.
pub record IsHeader (r r' : Reader) (line : List ℕ) : Type 0 where
  pub signals : IsFresh r.signals → IsFresh r'.signals
  pub time_steps : r'.time_steps ≡ r.time_steps
  pub in_header : r'.in_header ≡ (if ends_header line then false else r.in_header)

or_default-cases :
    (b : Bool) (v s : Signal) (o : Option Signal)
    → or_default b v o ≡ some s
    → (v ≡ s) ⊎ (o ≡ some s)
or_default-cases b v s (some w) e = inr e
or_default-cases true v s none e = inl cc
or_default-cases false v s none e = cc

setdefault-IsFresh :
    (code path : List ℕ) (width : ℤ) (m : List (List ℕ × Signal))
    → IsFresh m
    → IsFresh (setdefault code (fresh path width) m)
setdefault-IsFresh code path width m h = record {
  new = λ key s e.
      let there = sym (lookup-setdefault key code (fresh path width) m) ∙ e in
      elim (or_default-cases (same_text code key) (fresh path width) s (lookup key m) there) [
        | inl new ↦
            subst (λ (t : Signal). (t.last ≡ none) × (t.toggles ≡ 0) × (t.changes ≡ 0)) new
              (refl, refl, refl)
        | inr old ↦ h.new key s old
      ];
  dict = setdefault-IsDict code (fresh path width) m h.dict;
}

same-IsHeader : (r : Reader) (line : List ℕ) → ends_header line ≡ false → IsHeader r r line
same-IsHeader r line other = record {
  signals = λ h. h;
  time_steps = refl;
  in_header = rw other refl;
}

pub not_scope :
    (line : List ℕ) → starts_with (codes "$scope") line ≡ true → ends_header line ≡ false
not_scope [] h = cc
not_scope (c ∷ []) h = ground arith
not_scope (c ∷ d ∷ ds) h = ground arith

pub not_upscope :
    (line : List ℕ) → starts_with (codes "$upscope") line ≡ true → ends_header line ≡ false
not_upscope [] h = cc
not_upscope (c ∷ []) h = ground arith
not_upscope (c ∷ d ∷ ds) h = ground arith

pub not_var : (line : List ℕ) → starts_with (codes "$var") line ≡ true → ends_header line ≡ false
not_var [] h = cc
not_var (c ∷ []) h = ground arith
not_var (c ∷ d ∷ ds) h = ground arith

declare_var-IsHeader :
    (r r' : Reader) (line : List ℕ)
    → ends_header line ≡ false
    → declare_var r (split line) ≡ ok r'
    → IsHeader r r' line
unfolding declare_var
declare_var-IsHeader r r' line other h = elim (Bool-cases (leb 6 (length (split line)))) [
  | inl long ↦
      let (width, read, set) =
        >>=-eq-ok (or_fault (parse_int (get_or (split line) 2 [])) thrown) _ (rw long at h) in
      subst (λ (t : Reader). IsHeader r t line) (ok-injective set)
        (record {
          signals = λ f.
              setdefault-IsFresh (get_or (split line) 3 []) (full_path r.scopes (split line)) width
                r.signals f;
          time_steps = refl;
          in_header = rw other refl;
        })
  | inr short ↦
      subst (λ (t : Reader). IsHeader r t line) (ok-injective (rw short at h))
        (same-IsHeader r line other)
]

open_scope-IsHeader :
    (name : Option (List ℕ)) (r : Reader) (line : List ℕ)
    → ends_header line ≡ false
    → IsHeader r (open_scope name r) line
unfolding open_scope
open_scope-IsHeader none r line other = same-IsHeader r line other
open_scope-IsHeader (some name) r line other = record {
  signals = λ h. h;
  time_steps = refl;
  in_header = rw other refl;
}

read_header-IsHeader :
    (r r' : Reader) (line : List ℕ) → read_header r line ≡ ok r' → IsHeader r r' line
unfolding read_header
read_header-IsHeader r r' line h = elim (Bool-cases (starts_with (codes "$scope") line)) [
  | inl scope ↦
      subst (λ (t : Reader). IsHeader r t line) (ok-injective (rw scope at h))
        (open_scope-IsHeader (get_elem? (split line) 2) r line (not_scope line scope))
  | inr no_scope ↦ elim (Bool-cases (starts_with (codes "$upscope") line)) [
    | inl up ↦
        subst (λ (t : Reader). IsHeader r t line) (ok-injective (rw (no_scope, up) at h))
          (record {
            signals = λ f. f;
            time_steps = refl;
            in_header = rw (not_upscope line up) refl;
          })
    | inr no_up ↦ elim (Bool-cases (starts_with (codes "$var") line)) [
      | inl var ↦ declare_var-IsHeader r r' line (not_var line var) (rw (no_scope, no_up, var) at h)
      | inr no_var ↦ elim (Bool-cases (ends_header line)) [
        | inl last ↦
            subst (λ (t : Reader). IsHeader r t line)
              (ok-injective (rw (no_scope, no_up, no_var, last) at h))
              (record { signals = λ f. f; time_steps = refl; in_header = rw last refl })
        | inr more ↦
            subst (λ (t : Reader). IsHeader r t line)
              (ok-injective (rw (no_scope, no_up, no_var, more) at h)) (same-IsHeader r line more)
      ]
    ]
  ]
]

pub if_true {ℓ} : {A : Type ℓ} (b : Bool) (x y : A) → b ≡ true → (if b then x else y) ≡ x
if_true b x y e = rw e refl

pub read_stripped-IsHeader :
    (r r' : Reader) (line : List ℕ)
    → r.in_header ≡ true
    → read_stripped r line ≡ ok r'
    → IsHeader r r' line
unfolding read_stripped
read_stripped-IsHeader r r' [] b h =
    subst (λ (t : Reader). IsHeader r t []) (ok-injective h) (same-IsHeader r [] refl)
read_stripped-IsHeader r r' (c ∷ cs) b h =
    read_header-IsHeader r r' (c ∷ cs) (sym (if_true r.in_header _ _ b) ∙ h)

-- A reading splits at the end of the header.
pub read_lines-header :
    (file : List (List ℕ)) (r r' : Reader)
    → r.in_header ≡ true
    → IsFresh r.signals
    → read_lines r file ≡ ok r'
    → (r₀ : Reader) × IsFresh r₀.signals
      × (r₀.time_steps ≡ r.time_steps)
      × (r' ≡ read_all r₀ (body_of file))
unfolding read_lines read_line read_all body_of
read_lines-header [] r r' b f h = (r, f, refl, sym (ok-injective h))
read_lines-header (l ∷ ls) r r' b f h =
    let (r₁, first, rest) = >>=-eq-ok (read_line r l) (λ t. read_lines t ls) h in
    let step = read_stripped-IsHeader r r₁ (strip l) b first in
    elim (Bool-cases (ends_header (strip l))) [
      | inl last ↦
          let body = read_lines-body ls r₁ (step.in_header ∙ rw last refl) in
          (r₁, step.signals f, step.time_steps, rw last (ok-injective (sym rest ∙ body)))
      | inr more ↦
          let (r₀, f₀, t, e) =
            read_lines-header ls r₁ r' (step.in_header ∙ rw more b) (step.signals f) rest in
          (r₀, f₀, t ∙ step.time_steps, rw more e)
    ]
