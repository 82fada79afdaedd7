-- ===== src/Activity/Clocks.antt =====
-- The filter of clocks and resets, beside the parts of a path.
use thermal_placement.Base.{
  ℕ, ◌≡◌, refl, ap, ap₂, ◌∙◌, Bool, true, false, ◌&&◌, ◌||◌, List, [], ◌∷◌, ◌==◌, if◌then◌else◌,
  Bool-cases, inl, inr, length, drop, arith,
}
use thermal_placement.Base.Sort.{any}
use thermal_placement.Base.Text.{codes, starts_with, same_text}
use thermal_placement.Vcd.Text.{lower_char, lower}
use thermal_placement.Activity.{
  is_separator, word_ends, clock_words, word_here, clock_from, is_clock,
}

abbrev with_first : ℕ → List (List ℕ) → List (List ℕ)
with_first c [] = (c ∷ []) ∷ []
with_first c (p ∷ ps) = (c ∷ p) ∷ ps

-- The text cut at dots and underscores.
unfoldable pub parts_of : List ℕ → List (List ℕ)
parts_of [] = [] ∷ []
parts_of (c ∷ cs) = if is_separator c then [] ∷ parts_of cs else with_first c (parts_of cs)

-- The part is one of the words, in small or capital letters.
abbrev pub is_clock_word : List ℕ → Bool
is_clock_word part = any (λ word. same_text word (lower part)) clock_words

abbrev first_part : List (List ℕ) → List ℕ
first_part [] = []
first_part (p ∷ ps) = p

abbrev other_parts : List (List ℕ) → List (List ℕ)
other_parts [] = []
other_parts (p ∷ ps) = ps

abbrev pub has_newline : List ℕ → Bool
has_newline text = any (λ c. c == 10) text

abbrev has_separator : List ℕ → Bool
has_separator word = any is_separator word

first_part-with_first :
    (c : ℕ) (ps : List (List ℕ)) → first_part (with_first c ps) ≡ c ∷ first_part ps
first_part-with_first c [] = refl
first_part-with_first c (p ∷ ps) = refl

other_parts-with_first :
    (c : ℕ) (ps : List (List ℕ)) → other_parts (with_first c ps) ≡ other_parts ps
other_parts-with_first c [] = refl
other_parts-with_first c (p ∷ ps) = refl

separator_lower : (c : ℕ) → is_separator c ≡ true → lower_char c ≡ c
separator_lower c h = ground arith

ends_here :
    (text : List ℕ)
    → has_newline text ≡ false
    → word_ends text ≡ same_text [] (lower (first_part (parts_of text)))
unfolding parts_of any
ends_here [] n = refl
ends_here (c ∷ []) n = elim (Bool-cases (is_separator c)) [
  | inl cut ↦ rw cut refl
  | inr same ↦ rw same (ground arith)
]
ends_here (c ∷ d ∷ ds) n = elim (Bool-cases (is_separator c)) [
  | inl cut ↦ rw cut refl
  | inr same ↦ rw (same, first_part-with_first) refl
]

and_assoc : (a b c : Bool) → ((a && b) && c) ≡ (a && (b && c))
and_assoc true b c = refl
and_assoc false b c = refl

word_here-first_part :
    (word text : List ℕ)
    → has_separator word ≡ false
    → has_newline text ≡ false
    → word_here text word ≡ same_text word (lower (first_part (parts_of text)))
unfolding parts_of any
word_here-first_part [] text s n = ends_here text n
word_here-first_part (w ∷ ws) [] s n = refl
word_here-first_part (w ∷ ws) (c ∷ cs) s n = elim (Bool-cases (is_separator c)) [
  | inl cut ↦
      let differ : (w == lower_char c) ≡ false = ground (arith, separator_lower c cut) in
      rw (cut, differ) refl
  | inr same ↦
      let rest = word_here-first_part ws cs (ground (arith, s)) (ground (arith, n)) in
      rw (same, first_part-with_first)
        (and_assoc (w == lower_char c) (starts_with ws (lower cs)) (word_ends (drop (length ws) cs))
          ∙ ap (◌&&◌ (w == lower_char c)) rest)
]

any-clock_words :
    (text : List ℕ)
    → has_newline text ≡ false
    → any (word_here text) clock_words ≡ is_clock_word (first_part (parts_of text))
unfolding any
any-clock_words text n =
    rw
      (
        word_here-first_part (codes "clock") text refl n,
        word_here-first_part (codes "clk") text refl n,
        word_here-first_part (codes "reset") text refl n,
      )
      refl

any-first_part :
    (ps : List (List ℕ))
    → (is_clock_word (first_part ps) || any is_clock_word (other_parts ps)) ≡ any is_clock_word ps
unfolding any
any-first_part [] = refl
any-first_part (p ∷ ps) = refl

any-other_parts :
    (c : ℕ) (cs : List ℕ)
    → ((is_separator c && is_clock_word (first_part (parts_of cs)))
        || any is_clock_word (other_parts (parts_of cs)))
      ≡ any is_clock_word (other_parts (parts_of (c ∷ cs)))
unfolding parts_of
any-other_parts c cs = elim (Bool-cases (is_separator c)) [
  | inl cut ↦ rw cut (any-first_part (parts_of cs))
  | inr same ↦ rw (same, other_parts-with_first) refl
]

or_false : (start : Bool) → false ≡ ((start && false) || false)
or_false true = refl
or_false false = refl

-- The search from a place: the part that ends here may have been cut before it.
clock_from-parts :
    (start : Bool) (text : List ℕ)
    → has_newline text ≡ false
    → clock_from start text ≡ (
        (start && is_clock_word (first_part (parts_of text)))
        || any is_clock_word (other_parts (parts_of text)))
unfolding clock_from parts_of any
clock_from-parts start [] n = or_false start
clock_from-parts start (c ∷ cs) n =
    let rest = clock_from-parts (is_separator c) cs (ground (arith, n)) in
    ap₂ (λ a b. (start && a) || b) (any-clock_words (c ∷ cs) n) (rest ∙ any-other_parts c cs)

-- A path without a newline is filtered out as a clock exactly if one of the parts between its dots
-- and underscores is clock, clk or reset, in small or capital letters.
pub is_clock-parts :
    (path : List ℕ) → has_newline path ≡ false → is_clock path ≡ any is_clock_word (parts_of path)
unfolding is_clock
is_clock-parts path n = clock_from-parts true path n ∙ any-first_part (parts_of path)
