-- ===== src/Axi/Queue.antt =====
-- The response queues: what waits is not overtaken, and what is offered stays until it is taken.
use thermal_placement.Base.{
  ℕ, ◌≡◌, refl, sym, ap, ◌∙◌, Bool, true, false, not, ◌&&◌, List, [], ◌∷◌, ◌++◌, append-nil,
  append_assoc, ok, ok-injective, length, All, All-append, subst,
}
use thermal_placement.Axi.{RResp, is_empty, front_or, front_id, front_data, front_last, pop_if}

-- The queue has only grown, at its end.
abbrev pub Grows {ℓ} : {A : Type ℓ} → List A → List A → Type ℓ
Grows {A} q q' = (more : List A) × (q' ≡ q ++ more)

module _ {ℓ} {A : Type ℓ} where
  pub Grows-refl : (q : List A) → Grows q q
  Grows-refl q = ([], sym (append-nil q))

  pub Grows-trans : (p q r : List A) → Grows p q → Grows q r → Grows p r
  Grows-trans p q r (xs, e) (ys, f) = (xs ++ ys, f ∙ ap (λ l. l ++ ys) e ∙ append_assoc p xs ys)

  no_pop :
      (live valid ready : Bool) (q q' : List A)
      → ready ≡ false
      → pop_if (live && (valid && ready)) q ≡ ok q'
      → q ≡ q'
  no_pop false valid ready q q' h e = ok-injective e
  no_pop true false ready q q' h e = ok-injective e
  no_pop true true false q q' h e = ok-injective e
  no_pop true true true q q' h e = cc

  -- A queue that is not asked for an entry.
  pub pop_if-Grows :
      (live valid ready : Bool) (q q₁ q' : List A)
      → ready ≡ false
      → Grows q q₁
      → pop_if (live && (valid && ready)) q₁ ≡ ok q'
      → Grows q q'
  pop_if-Grows live valid ready q q₁ q' h (more, g) e =
      (more, sym (no_pop live valid ready q₁ q' h e) ∙ g)

-- What a queue of beats offers, and what it offers once it has grown.
pub beats_held :
    (q q' : List RResp) (mem mem' : List ℕ)
    → not (is_empty q) ≡ true
    → Grows q q'
    → (not (is_empty q') ≡ true)
      × (front_id q' ≡ front_id q)
      × (front_data q' mem' ≡ front_data q mem)
      × (front_last q' ≡ front_last q)
beats_held [] q' mem mem' valid g = cc
beats_held (r ∷ q) q' mem mem' valid (more, e) = rw e (refl, refl, refl, refl)

pub ids_held :
    (q q' : List ℕ)
    → not (is_empty q) ≡ true
    → Grows q q'
    → (not (is_empty q') ≡ true) × (front_or q' 0 ≡ front_or q 0)
ids_held [] q' valid g = cc
ids_held (b ∷ q) q' valid (more, e) = rw e (refl, refl)

-- A beat of `w` bytes.
abbrev pub HasWidth : ℕ → RResp → Type 0
HasWidth w r = length r.bytes ≡ w

-- The queue has only grown, by beats of `w` bytes.
abbrev pub Adds : ℕ → List RResp → List RResp → Type 0
Adds w q q' = (more : List RResp) × (q' ≡ q ++ more) × All (HasWidth w) more

pub Adds-refl : (w : ℕ) (q : List RResp) → Adds w q q
Adds-refl w q = ([], sym (append-nil q), tt)

pub Adds-trans : (w : ℕ) (p q r : List RResp) → Adds w p q → Adds w q r → Adds w p r
Adds-trans w p q r (xs, e, h) (ys, f, k) =
    (xs ++ ys, f ∙ ap (λ l. l ++ ys) e ∙ append_assoc p xs ys, All-append (HasWidth w) xs ys h k)

pub Adds-Grows : (w : ℕ) (q q' : List RResp) → Adds w q q' → Grows q q'
Adds-Grows w q q' (more, e, h) = (more, e)

pub Adds-All : (w : ℕ) (q q' : List RResp) → Adds w q q' → All (HasWidth w) q → All (HasWidth w) q'
Adds-All w q q' (more, e, h) a =
    subst (All (HasWidth w)) (sym e) (All-append (HasWidth w) q more a h)

pub pop_if-All {ℓ κ} :
    {A : Type ℓ} (P : A → Type κ) (b : Bool) (q q' : List A)
    → pop_if b q ≡ ok q'
    → All P q
    → All P q'
pop_if-All P false q q' e h = subst (All P) (ok-injective e) h
pop_if-All P true [] q' e h = cc
pop_if-All P true (x ∷ q) q' e h = subst (All P) (ok-injective e) h.1
