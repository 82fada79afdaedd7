-- ===== src/Uart/Stream.antt =====
-- The bytes that pass through one UART over a run of ticks.
use thermal_placement.Base.{
  ℕ, ◌≡◌, refl, sym, ap, ◌∙◌, Bool, true, false, Bool-cases, inl, inr, List, [], ◌∷◌, ◌++◌,
  append_assoc, append-nil, Option, none, some, Result, ok, ◌>>=◌, ◌==◌, if◌then◌else◌, arith,
}
use thermal_placement.Uart.{
  World, Uart, Call, Reply, put_at, next_read, later_reads, take_input, receive, transmit, reply,
  tick,
}

-- The ticks in order, and the replies.
unfoldable pub run : Uart → World → List Call → Result (World × List Reply)
run u w [] = ok (w, [])
run u w (x ∷ xs) = do (w', r) ← tick u w x; (w'', rs) ← run u w' xs; ok (w'', r ∷ rs)

abbrev pub typed : List (Option ℕ) → List ℕ
typed [] = []
typed (none ∷ rs) = typed rs
typed (some c ∷ rs) = c ∷ typed rs

abbrev pub special : ℕ → List ℕ
special c = if c == 0 then [] else c ∷ []

-- The bytes on the way to the target: the special character, then those that the reads will give.
abbrev pub pending : Uart → World → List ℕ
pending u w = special w.specialchar ++ typed (w.reads u.inputfd)

-- The bytes that the target is given.
abbrev pub received : List Reply → List ℕ
received [] = []
received (r ∷ rs) = (if r.in_valid then r.in_bits ∷ [] else []) ++ received rs

-- The bytes that the target sends.
abbrev pub sent : List Call → List ℕ
sent [] = []
sent (x ∷ xs) = (if x.out_valid then x.out_bits ∷ [] else []) ++ sent xs

abbrev byte_in : Option ℕ → List ℕ
byte_in none = []
byte_in (some c) = c ∷ []

typed-next : (rs : List (Option ℕ)) → byte_in (next_read rs) ++ typed (later_reads rs) ≡ typed rs
typed-next [] = refl
typed-next (none ∷ rs) = refl
typed-next (some c ∷ rs) = refl

put_at-here : {A : Type 0} (f : ℕ → A) (k : ℕ) (a : A) → put_at f k a k ≡ a
put_at-here f k a = let same : (k == k) ≡ true = ground arith in rw same refl

-- A byte that comes in is the first of those pending, and nothing else changes.
receive_lem :
    (u : Uart) (w : World) (in_ready : Bool)
    → (byte_in (receive u w in_ready).0 ++ pending u (receive u w in_ready).1 ≡ pending u w)
      × ((receive u w in_ready).1.written ≡ w.written)
      × ((receive u w in_ready).1.writable ≡ w.writable)
unfolding receive take_input
receive_lem u w false = (refl, refl, refl)
receive_lem u w true = elim (Bool-cases (w.specialchar == 0)) [
  | inl z ↦ rw z (
    rw (z, put_at-here w.reads u.inputfd (later_reads (w.reads u.inputfd)))
        (typed-next (w.reads u.inputfd)),
    refl,
    refl,
  )
  | inr s ↦ rw s (refl, refl, refl)
]

transmit_lem :
    (u : Uart) (w : World) (out_valid : Bool) (c : ℕ)
    → w.writable u.outputfd ≡ true
    → (w' : World) × (transmit u w out_valid c ≡ ok w')
      × (w'.written u.outputfd ≡ w.written u.outputfd ++ (if out_valid then c ∷ [] else []))
      × (w'.writable ≡ w.writable)
      × (pending u w' ≡ pending u w)
unfolding transmit
transmit_lem u w false c can_write = (w, refl, sym (append-nil (w.written u.outputfd)), refl, refl)
transmit_lem u w true c can_write = (
  record w { written = put_at w.written u.outputfd (w.written u.outputfd ++ c ∷ []) },
  rw can_write refl,
  put_at-here w.written u.outputfd (w.written u.outputfd ++ c ∷ []),
  refl,
  refl,
)

received-reply :
    (inp : Option ℕ) (old : ℕ) (rs : List Reply)
    → received (reply inp old ∷ rs) ≡ byte_in inp ++ received rs
received-reply none old rs = refl
received-reply (some c) old rs = refl

-- What a run comes to: it succeeds; what was received and what is pending after it are what was
-- pending before, and the file has grown by what was sent.
abbrev pub Passes : Uart → World → List Call → World → List Reply → Type 0
Passes u w xs w' rs =
    (run u w xs ≡ ok (w', rs))
    × (received rs ++ pending u w' ≡ pending u w)
    × (w'.written u.outputfd ≡ w.written u.outputfd ++ sent xs)

-- While its output can be written, a UART ticks on without end. No byte is lost, repeated or
-- reordered either way: the bytes that the target has received, and those still pending, are in order
-- the special character and the bytes read that were pending at the start; and the bytes that the
-- target sends are written in order.
pub run-Passes :
    (u : Uart) (w : World) (xs : List Call)
    → w.writable u.outputfd ≡ true
    → (w' : World) × (rs : List Reply) × Passes u w xs w' rs
unfolding run tick
run-Passes u w [] can_write = (w, [], (refl, refl, sym (append-nil (w.written u.outputfd))))
run-Passes u w (x ∷ xs) can_write =
    let got = receive u w x.in_ready in
    let (taken, kept, able) = receive_lem u w x.in_ready in
    let (w₁, put, grown, able₁, same) =
      transmit_lem u got.1 x.out_valid x.out_bits (ap (λ f. f u.outputfd) able ∙ can_write) in
    let (w', rs, (ran, passed, written)) =
      run-Passes u w₁ xs (ap (λ f. f u.outputfd) (able₁ ∙ able) ∙ can_write) in
    (
      w',
      reply got.0 x.in_bits ∷ rs,
      (
        rw (put, ran) refl,
        ap (λ l. l ++ pending u w') (received-reply got.0 x.in_bits rs)
            ∙ append_assoc (byte_in got.0) (received rs) (pending u w')
            ∙ ap (λ l. byte_in got.0 ++ l) (passed ∙ same)
            ∙ taken,
        written
            ∙ ap (λ l. l ++ sent xs)
                (grown
                  ∙ ap (λ f. f u.outputfd ++ (if x.out_valid then x.out_bits ∷ [] else [])) kept)
            ∙ append_assoc (w.written u.outputfd) (if x.out_valid then x.out_bits ∷ [] else [])
                (sent xs),
      ),
    )
