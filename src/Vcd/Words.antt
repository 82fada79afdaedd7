-- ===== src/Vcd/Words.antt =====
-- Lines of words: what `split` and `strip` make of them.
use thermal_placement.Base.{
  ℕ, ◌≡◌, refl, sym, ap, ◌∙◌, Bool, true, false, not, ◌&&◌, List, [], ◌∷◌, ◌++◌, append_assoc,
  append-nil, ◌==◌, arith,
}
use thermal_placement.Base.Text.{codes}
use thermal_placement.Vcd.Text.{
  is_white, keep, lstrip, rstrip, strip, split_from, split, without_spaces,
}

-- No white space.
abbrev pub is_dark : List ℕ → Bool
is_dark [] = true
is_dark (c ∷ cs) = not (is_white c) && is_dark cs

abbrev pub is_word : List ℕ → Bool
is_word [] = false
is_word (c ∷ cs) = is_dark (c ∷ cs)

dark_first : (c : ℕ) (cs : List ℕ) → is_dark (c ∷ cs) ≡ true → is_white c ≡ false
dark_first c cs h = ground arith

dark_rest : (c : ℕ) (cs : List ℕ) → is_dark (c ∷ cs) ≡ true → is_dark cs ≡ true
dark_rest c cs h = ground arith

split_from-append :
    (word text rest : List ℕ)
    → is_dark text ≡ true
    → split_from word (text ++ rest) ≡ split_from (word ++ text) rest
unfolding split_from
split_from-append word [] rest h = ap (λ w. split_from w rest) (sym (append-nil word))
split_from-append word (c ∷ cs) rest h =
    rw (split_from, dark_first c cs h)
      (split_from-append (word ++ c ∷ []) cs rest (dark_rest c cs h)
        ∙ ap (λ w. split_from w rest) (append_assoc word (c ∷ []) cs))

-- A word in front of a space.
pub split-word :
    (text rest : List ℕ) → is_word text ≡ true → split (text ++ b' ' ∷ rest) ≡ text ∷ split rest
unfolding split_from
split-word [] rest h = cc
split-word (c ∷ cs) rest h = split_from-append [] (c ∷ cs) (b' ' ∷ rest) h

pub without_spaces-same : (text : List ℕ) → is_dark text ≡ true → without_spaces text ≡ text
unfolding without_spaces
without_spaces-same [] h = refl
without_spaces-same (c ∷ cs) h =
    let other : (c == b' ') ≡ false = ground (arith, dark_first c cs h) in
    rw other (ap (◌∷◌ c) (without_spaces-same cs (dark_rest c cs h)))

rstrip-end : (text : List ℕ) → rstrip is_white (text ++ codes "$end") ≡ text ++ codes "$end"
unfolding rstrip keep
rstrip-end [] = refl
rstrip-end (c ∷ []) = refl
rstrip-end (c ∷ d ∷ ds) = ap (keep is_white c) (rstrip-end (d ∷ ds))

strip-end : (text : List ℕ) → strip (b'$' ∷ text ++ codes "$end") ≡ b'$' ∷ text ++ codes "$end"
unfolding lstrip
strip-end text = rstrip-end (b'$' ∷ text)

-- The text ends with the word $end.
abbrev pub Ends : List ℕ → Type 0
Ends text = (front : List ℕ) × (text ≡ front ++ codes "$end")

pub append-Ends : (front text : List ℕ) → Ends text → Ends (front ++ text)
append-Ends front text (rest, e) =
    (front ++ rest, ap (◌++◌ front) e ∙ sym (append_assoc front rest (codes "$end")))

-- A line that begins and ends with a command.
pub strip-same : (text : List ℕ) → Ends text → strip (b'$' ∷ text) ≡ b'$' ∷ text
strip-same text (front, e) =
    let same : b'$' ∷ text ≡ b'$' ∷ front ++ codes "$end" = ap (◌∷◌ b'$') e in
    ap strip same ∙ strip-end front ∙ sym same
