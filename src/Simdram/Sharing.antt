-- ===== src/Simdram/Sharing.antt =====
-- The search for a buffer in the maps of the chips.
use native.Mathlib.Decide.{ℕ_discrete}
use thermal_placement.Base.{
  ℕ, zero, suc, ◌-◌, ◌<◌, ◌≡◌, refl, sym, ap, ◌∙◌, subst, true, false, List, [], ◌∷◌, ◌++◌, Option,
  none, some, ok, >>=-eq-ok, ok-injective, ok-pair, Fault, guard, or_fault, assertion,
  out_of_bounds, ◌==◌, if◌then◌else◌, length, get_elem?, set, replicate, arith,
}
use thermal_placement.Simdram.{
  Backing, Bases, Globals, Libraries, no_bases, push_maps, load_chunks, chunks_of, map_buffer,
  find_or_map, back,
}

-- The entry of a chip and a base address.
abbrev pub entry_of : Option Bases → ℕ → Option Backing
entry_of none k = none
entry_of (some bases) k = bases k

abbrev pub entry : List Bases → (chip_id mem_base : ℕ) → Option Backing
entry maps c k = entry_of (get_elem? maps c) k

-- Every entry stays, and so does every buffer that is mapped.
pub record IsKept (g g' : Globals) : Type 0 where
  pub entries :
      (c k : ℕ) (b : Backing)
      → entry g.backing_mem_data c k ≡ some b
      → entry g'.backing_mem_data c k ≡ some b
  pub contents :
      (i : ℕ) (buf : List ℕ) → get_elem? g.buffers i ≡ some buf → get_elem? g'.buffers i ≡ some buf

pub kept-trans : (f g h : Globals) → IsKept f g → IsKept g h → IsKept f h
kept-trans f g h p q = record {
  entries = λ c k b e. q.entries c k b (p.entries c k b e);
  contents = λ i buf e. q.contents i buf (p.contents i buf e);
}

get_elem?-front {ℓ} :
    {A : Type ℓ} (xs ys : List A) (i : ℕ) (v : A)
    → get_elem? xs i ≡ some v
    → get_elem? (xs ++ ys) i ≡ some v
get_elem?-front [] ys i v h = cc
get_elem?-front (x ∷ xs) ys zero v h = h
get_elem?-front (x ∷ xs) ys (suc i) v h = get_elem?-front xs ys i v h

entry-push :
    (maps : List Bases) (c k : ℕ) (b : Backing)
    → entry maps c k ≡ some b
    → entry (maps ++ no_bases ∷ []) c k ≡ some b
entry-push [] c k b h = cc
entry-push (m ∷ maps) zero k b h = h
entry-push (m ∷ maps) (suc c) k b h = entry-push maps c k b h

push_maps-entry :
    (n : ℕ) (maps : List Bases) (c k : ℕ) (b : Backing)
    → entry maps c k ≡ some b
    → entry (push_maps n maps) c k ≡ some b
unfolding push_maps
push_maps-entry zero maps c k b h = h
push_maps-entry (suc n) maps c k b h =
    push_maps-entry n (maps ++ no_bases ∷ []) c k b (entry-push maps c k b h)

entry-length :
    (maps : List Bases) (c k : ℕ) (b : Backing) → entry maps c k ≡ some b → c < length maps
entry-length [] c k b h = cc
entry-length (m ∷ maps) zero k b h = omega arith
entry-length (m ∷ maps) (suc c) k b h = omega (arith, entry-length maps c k b h)

-- A new entry at one place.
abbrev with_entry : Bases → ℕ → Backing → Bases
with_entry bases k made = λ b. if b == k then some made else bases b

set-entry :
    (maps : List Bases) (chip base : ℕ) (bases : Bases) (made : Backing)
    → get_elem? maps chip ≡ some bases
    → bases base ≡ none
    → (c k : ℕ) (b : Backing) → entry maps c k ≡ some b
    → entry (set maps chip (with_entry bases base made)) c k ≡ some b
set-entry [] chip base bases made at free c k b h = cc
set-entry (m ∷ maps) zero base bases made at free zero k b h =
    let same : m ≡ bases = cc at in
    elim (ℕ_discrete k base) [
      | yes e ↦ cc (ap (λ (f : Bases). f base) same, free, ap m e, h)
      | no ne ↦
          let other : (k == base) ≡ false = ground arith in
          rw other (sym (ap (λ (f : Bases). f k) same) ∙ h)
    ]
set-entry (m ∷ maps) zero base bases made at free (suc c) k b h = h
set-entry (m ∷ maps) (suc chip) base bases made at free zero k b h = h
set-entry (m ∷ maps) (suc chip) base bases made at free (suc c) k b h =
    set-entry maps chip base bases made at free c k b h

entry-set :
    (maps : List Bases) (chip base : ℕ) (bases : Bases) (made : Backing)
    → get_elem? maps chip ≡ some bases
    → entry (set maps chip (with_entry bases base made)) chip base ≡ some made
entry-set [] chip base bases made at = cc
entry-set (m ∷ maps) zero base bases made at =
    let same : (base == base) ≡ true = ground arith in rw same refl
entry-set (m ∷ maps) (suc chip) base bases made at = entry-set maps chip base bases made at

or_fault-eq-ok : {A : Type 0} (o : Option A) (f : Fault) (a : A) → or_fault o f ≡ ok a → o ≡ some a
or_fault-eq-ok none f a h = cc
or_fault-eq-ok (some b) f a h = ap some (ok-injective h)

-- What `back` comes to when it succeeds.
pub record IsBacked (chip base : ℕ) (g g' : Globals) (found : Backing) : Type 0 where
  pub kept : IsKept g g'
  pub present : entry g'.backing_mem_data chip base ≡ some found

find_or_map-IsBacked :
    (o : Option Backing) (lib : Libraries) (chip base size : ℕ) (bases : Bases) (g : Globals)
    {g' : Globals} {found : Backing}
    → get_elem? g.backing_mem_data chip ≡ some bases
    → bases base ≡ o
    → find_or_map o lib chip base size bases g ≡ ok (g', found)
    → IsBacked chip base g g' found
unfolding find_or_map map_buffer
find_or_map-IsBacked (some b) lib chip base size bases g {g' = g'} {found = found} at here done =
    let (checked, same_size, made) = >>=-eq-ok (guard (b.size == size) assertion) _ done in
    let (same, same_b) = ok-pair made in
    subst (λ (f : Globals). IsBacked chip base g f found) same
      (record {
        kept = record { entries = λ c k b e. e; contents = λ i buf e. e };
        present = ap (λ o. entry_of o base) at ∙ here ∙ ap some same_b;
      })
find_or_map-IsBacked none lib chip base size bases g {g' = g'} {found = found} at here done =
    let (buf, loaded, made) =
      >>=-eq-ok (load_chunks base (chunks_of lib g.loadmem_file) (replicate size 0)) _ done in
    let (same, same_b) = ok-pair made in
    let new : Backing = record { data_at = length g.buffers; size = size } in
    subst (λ (f : Globals). IsBacked chip base g f found) same
      (record {
        kept = record {
          entries = set-entry g.backing_mem_data chip base bases new at here;
          contents = get_elem?-front g.buffers (buf ∷ []);
        };
        present = entry-set g.backing_mem_data chip base bases new at ∙ ap some same_b;
      })

pub back-IsBacked :
    (lib : Libraries) (chip base size : ℕ) (g : Globals) {g' : Globals} {found : Backing}
    → back lib chip base size g ≡ ok (g', found)
    → IsBacked chip base g g' found
unfolding back
back-IsBacked lib chip base size g {g' = g'} {found = found} done =
    let n = suc chip - length g.backing_mem_data in
    let maps = push_maps n g.backing_mem_data in
    let (bases, at, made) = >>=-eq-ok (or_fault (get_elem? maps chip) out_of_bounds) _ done in
    let grown : Globals = record g { backing_mem_data = maps } in
    let b =
      find_or_map-IsBacked (bases base) lib chip base size bases grown
        (or_fault-eq-ok (get_elem? maps chip) out_of_bounds bases at) refl made in
    record {
      kept =
          kept-trans g grown g'
            (record { entries = push_maps-entry n g.backing_mem_data; contents = λ i buf e. e })
            b.kept;
      present = b.present;
    }

find_or_map-found :
    (o : Option Backing) (lib : Libraries) (chip base size : ℕ) (bases : Bases) (g : Globals)
    (b : Backing) {g' : Globals} {found : Backing}
    → o ≡ some b
    → find_or_map o lib chip base size bases g ≡ ok (g', found)
    → (found ≡ b) × (g'.buffers ≡ g.buffers)
unfolding find_or_map
find_or_map-found none lib chip base size bases g b there done = cc there
find_or_map-found (some c) lib chip base size bases g b there done =
    let (checked, same_size, made) = >>=-eq-ok (guard (c.size == size) assertion) _ done in
    let (same, same_b) = ok-pair made in
    let same_c : c ≡ b = cc there in
    (sym same_b ∙ same_c, ap (λ (f : Globals). f.buffers) (sym same))

-- An entry that is there is used as it is, and nothing changes.
pub back-again :
    (lib : Libraries) (chip base size : ℕ) (g : Globals) (b : Backing) {g' : Globals}
    {found : Backing}
    → entry g.backing_mem_data chip base ≡ some b
    → back lib chip base size g ≡ ok (g', found)
    → (found ≡ b) × (g'.buffers ≡ g.buffers)
unfolding back
back-again lib chip base size g b {g' = g'} {found = found} there done =
    let n = suc chip - length g.backing_mem_data in
    let maps = push_maps n g.backing_mem_data in
    let still = push_maps-entry n g.backing_mem_data chip base b there in
    let (bases, at, made) = >>=-eq-ok (or_fault (get_elem? maps chip) out_of_bounds) _ done in
    let here = or_fault-eq-ok (get_elem? maps chip) out_of_bounds bases at in
    find_or_map-found (bases base) lib chip base size bases (record g { backing_mem_data = maps }) b
      (sym (ap (λ o. entry_of o base) here) ∙ still) made
