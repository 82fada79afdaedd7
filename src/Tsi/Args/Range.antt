-- ===== src/Tsi/Args/Range.antt =====
-- What any arguments can come to: the range of the accesses, and the one error.
use thermal_placement.Base.{
  ℕ, ◌+◌, ◌-◌, ◌%◌, ◌^◌, ◌<◌, ◌≡◌, refl, Bool, true, false, Bool-cases, inl, inr, List, [], ◌∷◌,
  ◌++◌, ok, err, thrown, >>=-eq-ok, ok-injective, or_fault, if◌then◌else◌, All, All-append, arith,
  subst, take, drop, Option-cases,
}
use thermal_placement.Base.Text.{codes, starts_with, find, strtoull16, strtoull16-lt}
use thermal_placement.Base.Text.Search.{Contains, find-Contains, Contains-find}
use thermal_placement.Tsi.{Tsi, InitAccess}
use thermal_placement.Tsi.Args.{
  write_flag, read_flag, msip_flag, push_access, parse_write, parse_read, parse_arg,
  parse_htif_args,
}

-- What the target's types hold: a 64-bit address and 32 bits of data, none for a read.
pub record IsTyped (p : InitAccess) : Type 0 where
  pub address : p.address < 2 ^ 64
  pub stdata : p.stdata < 2 ^ 32
  pub reads_nothing : p.store ≡ false → p.stdata ≡ 0

AllTyped : Tsi → Type 0
AllTyped t = All IsTyped t.init_accesses

push-AllTyped : (t : Tsi) (p : InitAccess) → AllTyped t → IsTyped p → AllTyped (push_access t p)
unfolding AllTyped
push-AllTyped t p all h = All-append IsTyped t.init_accesses (p ∷ []) all (h, tt)

parse_write-AllTyped :
    (t t' : Tsi) (arg : List ℕ) → AllTyped t → parse_write t arg ≡ ok t' → AllTyped t'
unfolding parse_write
parse_write-AllTyped t t' arg all parsed =
    let (d, found, made) = >>=-eq-ok (or_fault (find (codes ":0x") arg) thrown) _ parsed in
    subst AllTyped (ok-injective made) (
      push-AllTyped t _ all (record {
        address = strtoull16-lt (take (d - 14) (drop 14 arg));
        stdata = omega arith;
        reads_nothing = λ e. cc;
      }))

parse_read-AllTyped : (t : Tsi) (arg : List ℕ) → AllTyped t → AllTyped (parse_read t arg)
unfolding parse_read
parse_read-AllTyped t arg all = push-AllTyped t _ all (record {
  address = strtoull16-lt (drop 13 arg);
  stdata = omega arith;
  reads_nothing = λ e. refl;
})

msip-AllTyped : (t : Tsi) → AllTyped t → AllTyped (record t { write_hart0_msip = false })
unfolding AllTyped
msip-AllTyped t all = all

-- One of two outcomes that are both typed.
if-AllTyped : (b : Bool) (t u : Tsi) → AllTyped t → AllTyped u → AllTyped (if b then t else u)
if-AllTyped true t u h k = h
if-AllTyped false t u h k = k

write-AllTyped :
    (b : Bool) (t t' : Tsi) (arg : List ℕ)
    → AllTyped t
    → (if b then parse_write t arg else ok t) ≡ ok t'
    → AllTyped t'
write-AllTyped true t t' arg all parsed = parse_write-AllTyped t t' arg all parsed
write-AllTyped false t t' arg all parsed = subst AllTyped (ok-injective parsed) all

parse_arg-AllTyped :
    (t t' : Tsi) (arg : List ℕ) → AllTyped t → parse_arg t arg ≡ ok t' → AllTyped t'
unfolding parse_arg
parse_arg-AllTyped t t' arg all parsed =
    let (t₁, first, made) =
      >>=-eq-ok (if starts_with write_flag arg then parse_write t arg else ok t) _ parsed in
    let all₁ = write-AllTyped (starts_with write_flag arg) t t₁ arg all first in
    let t₂ = if starts_with read_flag arg then parse_read t₁ arg else t₁ in
    let all₂ =
      if-AllTyped (starts_with read_flag arg) (parse_read t₁ arg) t₁
        (parse_read-AllTyped t₁ arg all₁) all₁ in
    subst AllTyped (ok-injective made) (
      if-AllTyped (starts_with msip_flag arg) (record t₂ { write_hart0_msip = false }) t₂
        (msip-AllTyped t₂ all₂) all₂)

-- Whatever the arguments are, the accesses that parse_htif_args adds fit their types, and the reads
-- among them carry no data.
parse_htif_args-AllTyped :
    (args : List (List ℕ)) (t t' : Tsi)
    → All IsTyped t.init_accesses
    → parse_htif_args t args ≡ ok t'
    → All IsTyped t'.init_accesses
unfolding parse_htif_args AllTyped
parse_htif_args-AllTyped [] t t' all parsed = subst AllTyped (ok-injective parsed) all
parse_htif_args-AllTyped (arg ∷ args) t t' all parsed =
    let (t₁, first, later) = >>=-eq-ok (parse_arg t arg) _ parsed in
    parse_htif_args-AllTyped args t₁ t' (parse_arg-AllTyped t t₁ arg all first) later

-- A write argument has a :0x somewhere.
abbrev pub HasData : List ℕ → Type 0
HasData arg = starts_with write_flag arg ≡ true → Contains (codes ":0x") arg

write-ok :
    (t : Tsi) (arg : List ℕ)
    → HasData arg
    → (t' : Tsi) × ((if starts_with write_flag arg then parse_write t arg else ok t) ≡ ok t')
unfolding parse_write
write-ok t arg h = elim (Bool-cases (starts_with write_flag arg)) [
  | inl writes ↦
      let (d, at) = find-Contains (codes ":0x") arg (h writes) in
      (
        push_access t (record {
          address = strtoull16 (take (d - 14) (drop 14 arg));
          stdata = strtoull16 (drop (d + 3) arg) % 2 ^ 32;
          store = true;
        }),
        rw (writes, at) refl,
      )
  | inr other ↦ (t, rw other refl)
]

parse_arg-ok : (t : Tsi) (arg : List ℕ) → HasData arg → (t' : Tsi) × (parse_arg t arg ≡ ok t')
unfolding parse_arg
parse_arg-ok t arg h =
    let (t₁, first) = write-ok t arg h in
    let t₂ = if starts_with read_flag arg then parse_read t₁ arg else t₁ in
    (
      if starts_with msip_flag arg then record t₂ { write_hart0_msip = false } else t₂,
      rw first refl,
    )

parse_arg-thrown :
    (t : Tsi) (arg : List ℕ)
    → starts_with write_flag arg ≡ true
    → ¬ Contains (codes ":0x") arg
    → parse_arg t arg ≡ err thrown
unfolding parse_arg parse_write
parse_arg-thrown t arg writes absent = elim (Option-cases (find (codes ":0x") arg)) [
  | inl nowhere ↦ rw (parse_arg, writes, nowhere) refl
  | inr (i, at) ↦ absurd (absent (Contains-find (codes ":0x") arg i at))
]

-- When every argument that begins with +init_write=0x has a :0x in it, parse_htif_args succeeds. It
-- throws at the first one that has none, whatever follows.
pub parse_htif_args-thrown :
    (args : List (List ℕ)) (t : Tsi)
    → All HasData args
    → ((t' : Tsi) × (parse_htif_args t args ≡ ok t'))
      × ((bad : List ℕ) (rest : List (List ℕ))
          → starts_with write_flag bad ≡ true
          → ¬ Contains (codes ":0x") bad
          → parse_htif_args t (args ++ bad ∷ rest) ≡ err thrown)
unfolding parse_htif_args
parse_htif_args-thrown [] t all = (
  (t, refl),
  λ bad rest writes absent. rw (parse_htif_args, parse_arg-thrown t bad writes absent) refl,
)
parse_htif_args-thrown (arg ∷ args) t (h, all) =
    let (t₁, first) = parse_arg-ok t arg h in
    let (fine, throws) = parse_htif_args-thrown args t₁ all in
    (
      (fine.0, rw (parse_htif_args, first) fine.1),
      λ bad rest writes absent. rw (parse_htif_args, first) (throws bad rest writes absent),
    )
