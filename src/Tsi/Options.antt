-- ===== src/Tsi/Options.antt =====
-- remove_vcs_simv_opt: the in-place removal beside a filter.
use thermal_placement.Base.{
  some, ltb, lt→ltb, ℕ, zero, suc, ◌+◌, ◌-◌, ◌≡◌, refl, sym, ap, ap₂, ◌∙◌, true, false, List, [],
  ◌∷◌, ◌++◌, length, set, get_or, append_assoc, arith, Bool-cases, inl, inr, length-append,
}
use thermal_placement.Tsi.{is_simv_opt, shift_down, remove_loop, remove_vcs_simv_opt}

-- The arguments that are kept, in order.
unfoldable pub kept : List (List ℕ) → List (List ℕ)
kept [] = []
kept (a ∷ args) = elim (is_simv_opt a) [ true ↦ kept args | false ↦ a ∷ kept args ]

kept-drop : (a : List ℕ) (args : List (List ℕ)) → is_simv_opt a ≡ true → kept (a ∷ args) ≡ kept args
unfolding kept
kept-drop a args e = rw (kept, e) refl

kept-keep :
    (a : List ℕ) (args : List (List ℕ)) → is_simv_opt a ≡ false → kept (a ∷ args) ≡ a ∷ kept args
unfolding kept
kept-keep a args e = rw (kept, e) refl

set_at :
    (done : List (List ℕ)) (a v : List ℕ) (xs : List (List ℕ)) (i : ℕ)
    → i ≡ length done
    → set (done ++ (a ∷ xs)) i v ≡ done ++ (v ∷ xs)
set_at [] a v xs i e = rw e
set_at (x ∷ done) a v xs zero e = absurd (omega arith)
set_at (x ∷ done) a v xs (suc i) e = ap (λ t. x ∷ t) (set_at done a v xs i (omega arith))

get_at :
    (done : List (List ℕ)) (a : List ℕ) (xs : List (List ℕ)) (i : ℕ)
    → i ≡ length done
    → get_or (done ++ (a ∷ xs)) i [] ≡ a
get_at [] a xs i e = rw e
get_at (x ∷ done) a xs zero e = absurd (omega arith)
get_at (x ∷ done) a xs (suc i) e = get_at done a xs i (omega arith)

length-snoc : (done : List (List ℕ)) (a : List ℕ) → length (done ++ (a ∷ [])) ≡ suc (length done)
length-snoc done a = omega (arith, length-append done (a ∷ []))

regroup :
    (done : List (List ℕ)) (b : List ℕ) (xs : List (List ℕ))
    → (done ++ (b ∷ [])) ++ xs ≡ done ++ (b ∷ xs)
regroup done b xs = append_assoc done (b ∷ []) xs

shift_down_step :
    (n i : ℕ) (argv : List (List ℕ)) (b : List ℕ) (moved : List (List ℕ))
    → get_or argv (suc i) [] ≡ b
    → set argv i b ≡ moved
    → shift_down (suc n) i argv ≡ shift_down n (suc i) moved
unfolding shift_down
shift_down_step n i argv b moved read wrote =
    ap (λ x. shift_down n (suc i) (set argv i x)) read ∙ ap (shift_down n (suc i)) wrote

-- Moving the entries `rest` down by one, over the entry before them.
shift_down_lem :
    (done : List (List ℕ)) (a : List ℕ) (rest more : List (List ℕ)) (i : ℕ)
    → i ≡ length done
    → (last : List ℕ) × (shift_down (length rest) i (done ++ (a ∷ (rest ++ more)))
        ≡ done ++ (rest ++ (last ∷ more)))
unfolding shift_down
shift_down_lem done a [] more i e = (a, refl)
shift_down_lem done a (b ∷ rest) more i e =
    let next = length-snoc done b in
    let after = length-snoc done a in
    let (last, moved) = shift_down_lem (done ++ (b ∷ [])) b rest more (suc i) (omega arith) in
    let read : get_or (done ++ (a ∷ (b ∷ (rest ++ more)))) (suc i) [] ≡ b =
      ap (λ l. get_or l (suc i) []) (sym (regroup done a (b ∷ (rest ++ more))))
      ∙ get_at (done ++ (a ∷ [])) b (rest ++ more) (suc i) (omega arith) in
    let wrote =
      set_at done a b (b ∷ (rest ++ more)) i e ∙ sym (regroup done b (b ∷ (rest ++ more))) in
    (
      last,
      shift_down_step (length rest) i (done ++ (a ∷ (b ∷ (rest ++ more)))) b _ read wrote
          ∙ moved
          ∙ regroup done b (rest ++ (last ∷ more)),
    )

loop-drop :
    (n idx argc : ℕ) (argv : List (List ℕ)) (a : List ℕ)
    → ltb idx argc ≡ true
    → get_or argv idx [] ≡ a
    → is_simv_opt a ≡ true
    → remove_loop (suc n) idx argc argv
      ≡ remove_loop n idx (argc - 1) (shift_down (argc - 1 - idx) idx argv)
unfolding remove_loop
loop-drop n idx argc argv a more here e = rw (remove_loop, more, here, e) refl

loop-keep :
    (n idx argc : ℕ) (argv : List (List ℕ)) (a : List ℕ)
    → ltb idx argc ≡ true
    → get_or argv idx [] ≡ a
    → is_simv_opt a ≡ false
    → remove_loop (suc n) idx argc argv ≡ remove_loop n (suc idx) argc argv
unfolding remove_loop
loop-keep n idx argc argv a more here e = rw (remove_loop, more, here, e) refl

-- What the loop leaves of `rest`, when `done` are the arguments kept before it.
Leaves : (done rest junk : List (List ℕ)) (idx argc : ℕ) → Type 0
Leaves done rest junk idx argc =
    (junk' : List (List ℕ)) × (remove_loop (suc (length rest)) idx argc (done ++ (rest ++ junk))
      ≡ some (length done + length (kept rest), done ++ (kept rest ++ junk')))

remove_loop_lem :
    (rest done junk : List (List ℕ)) (idx argc : ℕ)
    → idx ≡ length done
    → argc ≡ length done + length rest
    → Leaves done rest junk idx argc
unfolding Leaves remove_loop kept
remove_loop_lem [] done junk idx argc e c =
    let finished : ltb idx argc ≡ false = ground arith in
    (junk, rw (remove_loop, finished) (ap (λ (k : ℕ). some (k, done ++ junk)) (omega arith)))
remove_loop_lem (a ∷ rest) done junk idx argc e c =
    let here = get_at done a (rest ++ junk) idx e in
    let more : ltb idx argc ≡ true = lt→ltb idx argc (omega arith) in
    let argv = done ++ (a ∷ (rest ++ junk)) in
    elim (Bool-cases (is_simv_opt a)) [
      | inl drop_it ↦
          let (last, moved) = shift_down_lem done a rest junk idx e in
          let rounds : argc - 1 - idx ≡ length rest = omega arith in
          let (junk', out) =
            remove_loop_lem rest done (last ∷ junk) idx (argc - 1) e (omega arith) in
          (
            junk',
            loop-drop (suc (length rest)) idx argc argv a more here drop_it
                ∙ ap (λ k. remove_loop (suc (length rest)) idx (argc - 1) (shift_down k idx argv))
                    rounds
                ∙ ap (remove_loop (suc (length rest)) idx (argc - 1)) moved
                ∙ out
                ∙ ap (λ l. some (length done + length l, done ++ (l ++ junk')))
                    (sym (kept-drop a rest drop_it)),
          )
      | inr keep ↦
          let next = length-snoc done a in
          let (junk', out) =
            remove_loop_lem rest (done ++ (a ∷ [])) junk (suc idx) argc (omega arith)
              (omega arith) in
          (
            junk',
            loop-keep (suc (length rest)) idx argc argv a more here keep
                ∙ ap (remove_loop (suc (length rest)) (suc idx) argc)
                    (sym (regroup done a (rest ++ junk)))
                ∙ out
                ∙ ap₂ (λ (k : ℕ) l. some (k, l)) (omega arith) (regroup done a (kept rest ++ junk'))
                ∙ ap (λ l. some (length done + length l, done ++ (l ++ junk')))
                    (sym (kept-keep a rest keep)),
          )
    ]

-- On the `argc` arguments of an array, `remove_vcs_simv_opt` leaves in front, in their order,
-- exactly the arguments that do not look like -X…=…, and returns their number. Its loop ends.
pub remove_vcs_simv_opt_lem :
    (args junk : List (List ℕ))
    → (junk' : List (List ℕ)) × (remove_vcs_simv_opt (length args) (args ++ junk)
        ≡ some (length (kept args), kept args ++ junk'))
unfolding remove_vcs_simv_opt Leaves
remove_vcs_simv_opt_lem args junk =
    let (junk', out) = remove_loop_lem args [] junk 0 (length args) refl (omega arith) in
    (junk', out ∙ ap (λ (k : ℕ). some (k, kept args ++ junk')) (omega arith))
