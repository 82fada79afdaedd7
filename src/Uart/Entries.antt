-- ===== src/Uart/Entries.antt =====
-- The table of UARTs over sequences of calls of the two entry points.
use thermal_placement.Base.{
  arith, or_fault, guard, not, ◌||◌, subst, Bool-cases, ok-pair, ℕ, ◌≡◌, refl, true, false, List,
  [], ◌∷◌, Option, none, some, inl, inr, Result, ok, err, ◌>>=◌, >>=-eq-ok, ok-injective, ok-triple,
  aborted, ◌==◌,
}
use thermal_placement.Uart.{
  construct, file_prefix, arguments, has_pty_flag, World, Uart, Call, Reply, Files, Table,
  is_missing, put_at, tick, tick_entry, uart_init, uart_tick,
}

-- A call of an entry point.
pub data Entry : Type 0 where
  init_call : (filename : List ℕ) → (uartno forcepty : ℕ) → Entry
  tick_call : (uartno : ℕ) → Call → Entry

-- The calls in order.
unfoldable pub run_entries :
    Files → Option (List (List ℕ)) → Table → World → List Entry → Result (Table × World)
run_entries os argv t w [] = ok (t, w)
run_entries os argv t w (Entry.init_call filename uartno forcepty ∷ es) = do
  t' ← uart_init os argv t filename uartno forcepty
  run_entries os argv t' w es
run_entries os argv t w (Entry.tick_call uartno x ∷ es) = do
  (t', w', r) ← uart_tick t w uartno x
  run_entries os argv t' w' es

-- The table has an entry for the number.
IsKnown : Table → ℕ → Type 0
IsKnown t k = is_missing (t k) ≡ false

put_at-IsKnown :
    (t : Table) (j : ℕ) (entry : Option Uart) (k : ℕ)
    → IsKnown t k
    → IsKnown (put_at t j (some entry)) k
unfolding IsKnown
put_at-IsKnown t j entry k h = elim (Bool-cases (k == j)) [
  | inl same ↦ rw same refl
  | inr other ↦ rw other h
]

uart_init-IsKnown :
    (os : Files) (argv : Option (List (List ℕ))) (t : Table) (filename : List ℕ) (j forcepty k : ℕ)
    {t' : Table}
    → uart_init os argv t filename j forcepty ≡ ok t'
    → IsKnown t k
    → IsKnown t' k
unfolding uart_init
uart_init-IsKnown os argv t filename j forcepty k done h =
    let (args, given, done₁) = >>=-eq-ok (or_fault argv aborted) _ done in
    let (checked, missing, done₂) = >>=-eq-ok (guard (is_missing (t j)) aborted) _ done₁ in
    let (u, constructed, made) =
      >>=-eq-ok
        (construct os (file_prefix filename) j
          (not (forcepty == 0) || has_pty_flag (arguments args)))
        _ done₂ in
    subst (λ x. IsKnown x k) (ok-injective made) (put_at-IsKnown t j (some u) k h)

here-IsKnown : (t : Table) (j : ℕ) (entry : Option Uart) → IsKnown (put_at t j (some entry)) j
unfolding IsKnown
here-IsKnown t j entry = let same : (j == j) ≡ true = ground arith in rw same refl

entry-IsKnown : (t : Table) (j : ℕ) (entry : Option Uart) → t j ≡ some entry → IsKnown t j
unfolding IsKnown
entry-IsKnown t j entry at = rw at refl

tick_entry-IsKnown :
    (entry : Option (Option Uart)) (t : Table) (w : World) (j : ℕ) (x : Call) {t' : Table}
    {w' : World} {r : Reply}
    → t j ≡ entry
    → tick_entry entry t w j x ≡ ok (t', w', r)
    → ((k : ℕ) → IsKnown t k → IsKnown t' k) × IsKnown t' j
unfolding tick_entry
tick_entry-IsKnown none t w j x at done =
    let same = (ok-triple done).0 in
    (
      λ k h. subst (λ y. IsKnown y k) same (put_at-IsKnown t j none k h),
      subst (λ y. IsKnown y j) same (here-IsKnown t j none),
    )
tick_entry-IsKnown (some none) t w j x at done =
    let same = (ok-triple done).0 in
    (
      λ k h. subst (λ y. IsKnown y k) same h,
      subst (λ y. IsKnown y j) same (entry-IsKnown t j none at),
    )
tick_entry-IsKnown (some (some u)) t w j x at done =
    let (out, ticked, made) = >>=-eq-ok (tick u w x) _ done in
    let same = (ok-triple made).0 in
    (
      λ k h. subst (λ y. IsKnown y k) same h,
      subst (λ y. IsKnown y j) same (entry-IsKnown t j (some u) at),
    )

uart_tick-IsKnown :
    (t : Table) (w : World) (j : ℕ) (x : Call) {t' : Table} {w' : World} {r : Reply}
    → uart_tick t w j x ≡ ok (t', w', r)
    → ((k : ℕ) → IsKnown t k → IsKnown t' k) × IsKnown t' j
unfolding uart_tick
uart_tick-IsKnown t w j x done = tick_entry-IsKnown (t j) t w j x refl done

run_entries-IsKnown :
    (os : Files) (argv : Option (List (List ℕ))) (es : List Entry) (t : Table) (w : World) (k : ℕ)
    {t' : Table} {w' : World}
    → run_entries os argv t w es ≡ ok (t', w')
    → IsKnown t k
    → IsKnown t' k
unfolding run_entries
run_entries-IsKnown os argv [] t w k done h = subst (λ x. IsKnown x k) (ok-pair done).0 h
run_entries-IsKnown os argv (Entry.init_call filename j forcepty ∷ es) t w k done h =
    let (t₁, init, later) = >>=-eq-ok (uart_init os argv t filename j forcepty) _ done in
    run_entries-IsKnown os argv es t₁ w k later
      (uart_init-IsKnown os argv t filename j forcepty k init h)
run_entries-IsKnown os argv (Entry.tick_call j x ∷ es) t w k done h =
    let (out, ticked, later) = >>=-eq-ok (uart_tick t w j x) _ done in
    run_entries-IsKnown os argv es out.0 _ k later ((uart_tick-IsKnown t w j x ticked).0 k h)

known-aborts :
    (os : Files) (argv : Option (List (List ℕ))) (t : Table) (filename : List ℕ) (k forcepty : ℕ)
    → IsKnown t k
    → uart_init os argv t filename k forcepty ≡ err aborted
unfolding uart_init IsKnown
known-aborts os none t filename k forcepty h = refl
known-aborts os (some args) t filename k forcepty h = rw h refl

-- Once a tick of a number has returned, whether it had a UART or not, `uart_init` of that number
-- aborts, whatever calls came between: a tick that finds no UART takes the number.
pub init-after-tick :
    (os : Files) (argv : Option (List (List ℕ))) (t : Table) (w : World) (k : ℕ) (x : Call)
    (es : List Entry) (filename : List ℕ) (forcepty : ℕ) {t' t'' : Table} {w' w'' : World}
    {r : Reply}
    → uart_tick t w k x ≡ ok (t', w', r)
    → run_entries os argv t' w' es ≡ ok (t'', w'')
    → uart_init os argv t'' filename k forcepty ≡ err aborted
init-after-tick os argv t w k x es filename forcepty {t' = t'} {t'' = t''} {w' = w'} ticked ran =
    known-aborts os argv t'' filename k forcepty
      (run_entries-IsKnown os argv es t' w' k ran (uart_tick-IsKnown t w k x ticked).1)
