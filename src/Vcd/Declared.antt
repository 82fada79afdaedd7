-- ===== src/Vcd/Declared.antt =====
-- Headers printed line by line, and what is read back of them.
use thermal_placement.Base.{
  ℕ, ◌≡◌, refl, sym, ap, ◌∙◌, true, false, List, [], ◌∷◌, ◌++◌, some, ok, ◌>>=◌,
}
use thermal_placement.Base.Ints.{ℤ}
use thermal_placement.Base.Text.{codes}
use thermal_placement.Vcd.Text.{lstrip, rstrip, strip, split_from, split, join, parse_int}
use thermal_placement.Vcd.Signals.{Signal, setdefault}
use thermal_placement.Vcd.Words.{
  is_word, is_dark, split-word, without_spaces-same, strip-same, Ends, append-Ends,
}
use thermal_placement.Vcd.{
  Reader, dot, fresh, initial, open_scope, drop_last, declare_var, read_header, read_stripped,
  read_line, read_lines, iter_vcd,
}

-- A variable with its width as it is written.
pub record Variable : Type 0 where
  pub width_text : List ℕ
  pub width : ℤ
  pub code : List ℕ
  pub name : List ℕ

-- The declarations of a header: each is followed by the next ones of its scope.
pub data Declarations : Type 0 where
  done : Declarations
  scope : (name : List ℕ) → (inside : Declarations) → (next : Declarations) → Declarations
  var : Variable → (next : Declarations) → Declarations

abbrev pub scope_line : List ℕ → List ℕ
scope_line name = codes "$scope module " ++ (name ++ codes " $end")

abbrev pub var_line : Variable → List ℕ
var_line v =
    codes "$var wire "
    ++ (v.width_text ++ (codes " " ++ (v.code ++ (codes " " ++ (v.name ++ codes " $end")))))

-- The lines of the declarations, in front of other lines.
unfoldable pub lines_of : Declarations → List (List ℕ) → List (List ℕ)
lines_of Declarations.done rest = rest
lines_of (Declarations.scope name inside next) rest =
    scope_line name ∷ lines_of inside (codes "$upscope $end" ∷ lines_of next rest)
lines_of (Declarations.var v next) rest = var_line v ∷ lines_of next rest

-- The names are words, and the width is read from its text.
abbrev pub IsVariable : Variable → Type 0
IsVariable v =
    (is_word v.width_text ≡ true)
    × (is_word v.code ≡ true)
    × (is_word v.name ≡ true)
    × (parse_int v.width_text ≡ some v.width)

unfoldable pub AreDeclarations : Declarations → Type 0
AreDeclarations Declarations.done = Unit {0}
AreDeclarations (Declarations.scope name inside next) =
    (is_word name ≡ true) × AreDeclarations inside × AreDeclarations next
AreDeclarations (Declarations.var v next) = IsVariable v × AreDeclarations next

-- The codes and signals that are declared, in order: a path has the names of the scopes around.
unfoldable pub declared : (scopes : List (List ℕ)) → Declarations → List (List ℕ × Signal)
declared scopes Declarations.done = []
declared scopes (Declarations.scope name inside next) =
    declared (scopes ++ name ∷ []) inside ++ declared scopes next
declared scopes (Declarations.var v next) =
    (v.code, fresh (join dot (scopes ++ v.name ∷ [])) v.width) ∷ declared scopes next

-- The first declaration of a code counts.
unfoldable pub set_all : List (List ℕ × Signal) → List (List ℕ × Signal) → List (List ℕ × Signal)
set_all m [] = m
set_all m ((code, s) ∷ rest) = set_all (setdefault code s m) rest

set_all-append :
    (m xs ys : List (List ℕ × Signal)) → set_all m (xs ++ ys) ≡ set_all (set_all m xs) ys
unfolding set_all
set_all-append m [] ys = refl
set_all-append m ((code, s) ∷ xs) ys = set_all-append (setdefault code s m) xs ys

dark_word : (text : List ℕ) → is_word text ≡ true → is_dark text ≡ true
dark_word [] h = cc
dark_word (c ∷ cs) h = h

split-scope_line :
    (name : List ℕ)
    → is_word name ≡ true
    → split (scope_line name) ≡ codes "$scope" ∷ codes "module" ∷ name ∷ codes "$end" ∷ []
unfolding split_from
split-scope_line name h =
    ap (λ l. codes "$scope" ∷ codes "module" ∷ l) (split-word name (codes "$end") h)

split-var_line :
    (v : Variable)
    → IsVariable v
    → split (var_line v)
      ≡ codes "$var" ∷ codes "wire" ∷ v.width_text ∷ v.code ∷ v.name ∷ codes "$end" ∷ []
unfolding split_from
split-var_line v (w, c, n, p) =
    ap (λ l. codes "$var" ∷ codes "wire" ∷ l)
      (split-word v.width_text (v.code ++ (codes " " ++ (v.name ++ codes " $end"))) w
        ∙ ap (◌∷◌ v.width_text) (
            split-word v.code (v.name ++ codes " $end") c
            ∙ ap (◌∷◌ v.code) (split-word v.name (codes "$end") n)))

drop_last-append :
    (scopes : List (List ℕ)) (name : List ℕ) → drop_last (scopes ++ name ∷ []) ≡ scopes
unfolding drop_last
drop_last-append [] name = refl
drop_last-append (s ∷ []) name = refl
drop_last-append (s ∷ t ∷ ts) name = ap (◌∷◌ s) (drop_last-append (t ∷ ts) name)

end-Ends : Ends (codes " $end")
end-Ends = (codes " ", refl)

strip-scope_line : (name : List ℕ) → strip (scope_line name) ≡ scope_line name
strip-scope_line name =
    let text = name ++ codes " $end" in
    strip-same (codes "scope module " ++ text)
      (append-Ends (codes "scope module ") text (append-Ends name _ end-Ends))

strip-var_line : (v : Variable) → strip (var_line v) ≡ var_line v
strip-var_line v = strip-same _ (
    append-Ends (codes "var wire ") _ (
      append-Ends v.width_text _ (
        append-Ends (codes " ") _
          (append-Ends v.code _ (append-Ends (codes " ") _ (append-Ends v.name _ end-Ends))))))

-- A reader in the header.
abbrev reading : (scopes : List (List ℕ)) → List (List ℕ × Signal) → Reader
reading scopes signals = record initial { scopes = scopes; signals = signals }

read_line-scope :
    (scopes : List (List ℕ)) (m : List (List ℕ × Signal)) (name : List ℕ)
    → is_word name ≡ true
    → read_line (reading scopes m) (scope_line name) ≡ ok (reading (scopes ++ name ∷ []) m)
unfolding read_line read_stripped read_header open_scope
read_line-scope scopes m name h =
    rw (strip-scope_line, split-scope_line name h, without_spaces-same name (dark_word name h)) refl

read_line-upscope :
    (scopes : List (List ℕ)) (m : List (List ℕ × Signal)) (name : List ℕ)
    → read_line (reading (scopes ++ name ∷ []) m) (codes "$upscope $end") ≡ ok (reading scopes m)
unfolding read_line read_stripped read_header lstrip rstrip drop_last
read_line-upscope scopes m name = ap (λ s. ok (reading s m)) (drop_last-append scopes name)

declare_var-parts :
    (scopes : List (List ℕ)) (m : List (List ℕ × Signal)) (v : Variable)
    → IsVariable v
    → declare_var
        (reading scopes m)
        (codes "$var" ∷ codes "wire" ∷ v.width_text ∷ v.code ∷ v.name ∷ codes "$end" ∷ [])
      ≡ ok (reading scopes (setdefault v.code (fresh (join dot (scopes ++ v.name ∷ [])) v.width) m))
unfolding declare_var join
declare_var-parts scopes m v (w, c, n, p) =
    rw (p, without_spaces-same v.name (dark_word v.name n)) refl

read_line-var :
    (scopes : List (List ℕ)) (m : List (List ℕ × Signal)) (v : Variable)
    → IsVariable v
    → read_line (reading scopes m) (var_line v)
      ≡ ok (reading scopes (setdefault v.code (fresh (join dot (scopes ++ v.name ∷ [])) v.width) m))
unfolding read_line read_stripped read_header
read_line-var scopes m v h =
    ap (read_stripped (reading scopes m)) (strip-var_line v)
    ∙ ap (declare_var (reading scopes m)) (split-var_line v h)
    ∙ declare_var-parts scopes m v h

read_lines-lines_of :
    (h : Declarations) (scopes : List (List ℕ)) (m : List (List ℕ × Signal)) (rest : List (List ℕ))
    → AreDeclarations h
    → read_lines (reading scopes m) (lines_of h rest)
      ≡ read_lines (reading scopes (set_all m (declared scopes h))) rest
unfolding read_lines lines_of declared set_all AreDeclarations
read_lines-lines_of Declarations.done scopes m rest w = refl
read_lines-lines_of (Declarations.scope name inside next) scopes m rest (word, wi, wn) =
    let deeper = scopes ++ name ∷ [] in
    let m₁ = set_all m (declared deeper inside) in
    let others = lines_of next rest in
    ap (λ r. r >>= (λ t. read_lines t (lines_of inside (codes "$upscope $end" ∷ others))))
      (read_line-scope scopes m name word)
    ∙ read_lines-lines_of inside deeper m (codes "$upscope $end" ∷ others) wi
    ∙ ap (λ r. r >>= (λ t. read_lines t others)) (read_line-upscope scopes m₁ name)
    ∙ read_lines-lines_of next scopes m₁ rest wn
    ∙ ap (λ l. read_lines (reading scopes l) rest)
        (sym (set_all-append m (declared deeper inside) (declared scopes next)))
read_lines-lines_of (Declarations.var v next) scopes m rest (wv, wn) =
    ap (λ r. r >>= (λ t. read_lines t (lines_of next rest))) (read_line-var scopes m v wv)
    ∙ read_lines-lines_of next scopes
        (setdefault v.code (fresh (join dot (scopes ++ v.name ∷ [])) v.width) m) rest wn

-- A header written as lines of scopes, variables and ends of scopes is read back: each code gets
-- the signal that was first declared for it, with the width and with the names of the scopes
-- around and of the variable, joined by dots, as its path. The scopes are all closed at the end.
pub iter_vcd-lines_of :
    (h : Declarations)
    → AreDeclarations h
    → iter_vcd (lines_of h (codes "$enddefinitions $end" ∷ []))
      ≡ ok (record initial { signals = set_all [] (declared [] h); in_header = false })
unfolding iter_vcd read_lines read_line read_stripped read_header lstrip rstrip
iter_vcd-lines_of h w = read_lines-lines_of h [] [] (codes "$enddefinitions $end" ∷ []) w
