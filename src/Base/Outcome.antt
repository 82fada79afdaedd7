-- ===== src/Base/Outcome.antt =====
-- What a C++ call can come to: a value, or the event that ends the simulation. Undefined behaviour
-- is such an event too, so that a theorem which excludes every fault excludes it; but for the reads
-- behind the read data in Simdram/Tick.antt, whose bytes are a parameter.
use mathlib.Core.Path.{◌≡◌, refl, ap}
use mathlib.Core.Bool.{Bool, true, false}
use thermal_placement.Base.Tests.{if◌then◌else◌}
use mathlib.Core.Option.{Option, none, some}

pub data Fault : Type 0 where
  -- `assert` fails
  assertion : Fault
  -- an access outside an array, a vector or a buffer
  out_of_bounds : Fault
  -- a signed result that its type cannot hold
  overflow : Fault
  -- a shift by the width of the type or more
  bad_shift : Fault
  div_by_zero : Fault
  -- `front` or `pop` of an empty queue
  empty_queue : Fault
  -- `abort()`
  aborted : Fault
  -- `exit(1)`
  exited : Fault
  -- a C++ exception that nothing catches
  thrown : Fault
  -- no fault: the call has not returned yet, because it waits for more events than were given
  blocked : Fault

pub data Result {ℓ} (A : Type ℓ) : Type ℓ where
  err : Fault → Result A
  ok : A → Result A

infixl 5 ◌>>=◌ ◌>>◌
abbrev pub ◌>>=◌ {ℓ κ} : {A : Type ℓ} {B : Type κ} → Result A → (A → Result B) → Result B
err fault >>= next = err fault
ok value >>= next = next value

-- A check of the source: it goes on, or ends by the fault.
abbrev pub guard : Bool → Fault → Result (Unit {0})
guard passed fault = if passed then ok tt else err fault

abbrev pub ◌>>◌ {ℓ} : {B : Type ℓ} → Result (Unit {0}) → Result B → Result B
check >> next = check >>= (λ _. next)

abbrev pub or_fault {ℓ} : {A : Type ℓ} → Option A → Fault → Result A
or_fault none e = err e
or_fault (some a) e = ok a

abbrev pub fault_of {ℓ} : {A : Type ℓ} → Result A → Option Fault
fault_of (err f) = some f
fault_of (ok x) = none

-- A bind that succeeds has succeeded at both steps.
pub >>=-eq-ok {ℓ κ} :
    {A : Type ℓ} {B : Type κ} (first : Result A) (next : A → Result B) {result : B}
    → (first >>= next) ≡ ok result
    → (value : A) × (first ≡ ok value) × (next value ≡ ok result)
>>=-eq-ok (err fault) next h = cc
>>=-eq-ok (ok value) next h = (value, refl, h)

pub guard-eq-ok : (b : Bool) (f : Fault) {u : Unit {0}} → guard b f ≡ ok u → b ≡ true
guard-eq-ok true f e = refl
guard-eq-ok false f e = cc

pub ok-injective {ℓ} : {A : Type ℓ} {a b : A} → ok a ≡ ok b → a ≡ b
ok-injective e = cc

pub ok-pair {ℓ κ} :
    {A : Type ℓ} {B : Type κ} {a a' : A} {b b' : B}
    → ◌≡◌ {A = Result (A × B)} (ok (a, b)) (ok (a', b'))
    → (a ≡ a') × (b ≡ b')
ok-pair e = let same = ok-injective e in (ap (λ p. p.0) same, ap (λ p. p.1) same)

pub ok-triple {ℓ κ μ} :
    {A : Type ℓ} {B : Type κ} {C : Type μ} {a a' : A} {b b' : B} {c c' : C}
    → ◌≡◌ {A = Result (A × B × C)} (ok (a, b, c)) (ok (a', b', c'))
    → (a ≡ a') × (b ≡ b') × (c ≡ c')
ok-triple e =
    let same = ok-injective e in (ap (λ p. p.0) same, ap (λ p. p.1) same, ap (λ p. p.2) same)
