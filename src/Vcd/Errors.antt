-- ===== src/Vcd/Errors.antt =====
-- When the reader throws, and when it returns.
use thermal_placement.Base.{
  ℕ, ◌≡◌, refl, sym, ap, ◌∙◌, Bool, true, false, ◌&&◌, ◌||◌, List, [], ◌∷◌, Option, none, some,
  Result, ok, err, Fault, fault_of, is_none, thrown, if◌then◌else◌, Bool-cases, Option-cases, inl,
  inr, ◌⊎◌, get_or, leb, length, arith,
}
use thermal_placement.Base.Text.{codes, starts_with}
use thermal_placement.Vcd.Text.{strip, split, parse_int}
use thermal_placement.Vcd.{
  Reader, initial, declare_var, read_header, read_body, read_stripped, read_line, read_lines,
  iter_vcd,
}
use thermal_placement.Vcd.Body.{ends_header, read_lines-body}
use thermal_placement.Vcd.Header.{if_true, read_stripped-IsHeader}

-- A declaration of a variable whose width is no number.
abbrev pub is_bad_var : List ℕ → Bool
is_bad_var line =
    starts_with (codes "$var") line
    && (leb 6 (length (split line)) && is_none (parse_int (get_or (split line) 2 [])))

-- The lines of the header have one.
unfoldable pub has_bad_var : (file : List (List ℕ)) → Bool
has_bad_var [] = false
has_bad_var (l ∷ ls) =
    is_bad_var (strip l) || (if ends_header (strip l) then false else has_bad_var ls)

abbrev pub thrown_if : Bool → Option Fault
thrown_if b = if b then some thrown else none

not_bad_scope : (line : List ℕ) → starts_with (codes "$scope") line ≡ true → is_bad_var line ≡ false
not_bad_scope [] h = cc
not_bad_scope (c ∷ []) h = ground arith
not_bad_scope (c ∷ d ∷ ds) h = ground arith

not_bad_upscope :
    (line : List ℕ) → starts_with (codes "$upscope") line ≡ true → is_bad_var line ≡ false
not_bad_upscope [] h = cc
not_bad_upscope (c ∷ []) h = ground arith
not_bad_upscope (c ∷ d ∷ ds) h = ground arith

declare_var-fault :
    (r : Reader) (parts : List (List ℕ))
    → fault_of (declare_var r parts)
      ≡ thrown_if (leb 6 (length parts) && is_none (parse_int (get_or parts 2 [])))
unfolding declare_var
declare_var-fault r parts = elim (Bool-cases (leb 6 (length parts))) [
  | inl long ↦ elim (Option-cases (parse_int (get_or parts 2 []))) [
    | inl refused ↦ rw (long, refused) refl
    | inr (width, read) ↦ rw (long, read) refl
  ]
  | inr short ↦ rw short refl
]

read_header-fault :
    (r : Reader) (line : List ℕ) → fault_of (read_header r line) ≡ thrown_if (is_bad_var line)
unfolding read_header
read_header-fault r line = elim (Bool-cases (starts_with (codes "$scope") line)) [
  | inl scope ↦ rw (not_bad_scope line scope, scope) refl
  | inr no_scope ↦ elim (Bool-cases (starts_with (codes "$upscope") line)) [
    | inl up ↦ rw (not_bad_upscope line up, no_scope, up) refl
    | inr no_up ↦ elim (Bool-cases (starts_with (codes "$var") line)) [
      | inl var ↦ rw (no_scope, no_up, var) (declare_var-fault r (split line))
      | inr no_var ↦ elim (Bool-cases (ends_header line)) [
        | inl last ↦ rw (no_scope, no_up, no_var, last) refl
        | inr more ↦ rw (no_scope, no_up, no_var, more) refl
      ]
    ]
  ]
]

read_stripped-fault :
    (r : Reader) (line : List ℕ)
    → r.in_header ≡ true
    → fault_of (read_stripped r line) ≡ thrown_if (is_bad_var line)
unfolding read_stripped
read_stripped-fault r [] h = refl
read_stripped-fault r (c ∷ cs) h =
    ap fault_of (if_true r.in_header (read_header r (c ∷ cs)) (ok (read_body r (c ∷ cs))) h)
    ∙ read_header-fault r (c ∷ cs)

Result-cases {ℓ} :
    {A : Type ℓ} (o : Result A) → ((f : Fault) × (o ≡ err f)) ⊎ ((a : A) × (o ≡ ok a))
Result-cases (err f) = inl (f, refl)
Result-cases (ok a) = inr (a, refl)

read_lines-fault :
    (file : List (List ℕ)) (r : Reader)
    → r.in_header ≡ true
    → fault_of (read_lines r file) ≡ thrown_if (has_bad_var file)
unfolding read_lines read_line has_bad_var
read_lines-fault [] r h = refl
read_lines-fault (l ∷ ls) r h =
    let line = strip l in
    let first = read_stripped-fault r line h in
    elim (Bool-cases (is_bad_var line)) [
      | inl bad ↦ elim (Result-cases (read_stripped r line)) [
        | inl (f, failed) ↦ rw (failed, bad) (sym (ap fault_of failed) ∙ first ∙ rw bad refl)
        | inr (r₁, went) ↦ absurd (let a = sym (ap fault_of went) ∙ first ∙ ap thrown_if bad in cc)
      ]
      | inr good ↦ elim (Result-cases (read_stripped r line)) [
        | inl (f, failed) ↦
            absurd (let a = sym (ap fault_of failed) ∙ first ∙ ap thrown_if good in cc)
        | inr (r₁, went) ↦
            let step = read_stripped-IsHeader r r₁ line h went in
            elim (Bool-cases (ends_header line)) [
              | inl last ↦
                  rw (went, good, last)
                    (ap fault_of (read_lines-body ls r₁ (step.in_header ∙ rw last refl)))
              | inr more ↦
                  rw (went, good, more) (read_lines-fault ls r₁ (step.in_header ∙ rw more h))
            ]
      ]
    ]

-- A reading throws exactly if the header declares, in a line of at least six words, a variable
-- whose width `int` refuses. Every other file is read to its end, whatever its lines hold.
pub iter_vcd-fault :
    (file : List (List ℕ)) → fault_of (iter_vcd file) ≡ thrown_if (has_bad_var file)
unfolding iter_vcd
iter_vcd-fault file = read_lines-fault file initial refl
