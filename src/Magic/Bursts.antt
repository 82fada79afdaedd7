-- ===== src/Magic/Bursts.antt =====
-- A whole write burst on mm_magic_t: the address, then full words.
pub mod Runs
pub mod RoundTrip
mod Tests
use thermal_placement.Base.{
  ℕ, zero, suc, ◌+◌, ◌-◌, ◌*◌, ◌/◌, ◌^◌, ◌≤◌, ◌<◌, ◌≡◌, refl, sym, ap, ◌∙◌, subst, Bool, true,
  false, not, ◌&&◌, List, [], ◌∷◌, ◌++◌, append-nil, Result, ok, ◌>>=◌, guard, assertion,
  if◌then◌else◌, ◌==◌, length, length-append, add64, sub64, arith,
}
use thermal_placement.Base.Splice.{splice, splice-splice, length-splice}
use thermal_placement.Memory.{Mm, write, IsWellFormed}
use thermal_placement.Memory.Splice.{IsFull, write-splice}
use thermal_placement.Axi.{Inputs, Store, is_empty, pop_if, accept, accept_if, beat}
use thermal_placement.Axi.Burst.{accept_lem, pop_if_lem, IsWellFormed-length}
use thermal_placement.Magic.{
  Magic, aw_ready, w_ready, b_valid, r_valid, finish, write_beat, write_if, read_if, clear_if, tick,
}

-- A cycle that carries one full word of write data and asks for no read.
pub record IsBeat (w : ℕ) (x : Inputs) : Type 0 where
  pub live : x.reset ≡ false
  pub no_ar : x.ar_valid ≡ false
  pub valid : x.w_valid ≡ true
  pub width : length x.w_data ≡ w
  pub full : IsFull w x.w_strb

-- The cycles of a burst; the last one is marked.
abbrev pub IsBurst : ℕ → List Inputs → Type 0
IsBurst w [] = Unit
IsBurst w (x ∷ xs) = IsBeat w x × (x.w_last ≡ is_empty xs) × IsBurst w xs

-- The data of a burst.
abbrev pub sent : List Inputs → List ℕ
sent [] = []
sent (x ∷ xs) = x.w_data ++ sent xs

-- The tracker with `n` words to come, the next one for word `p` of the buffer.
pub record IsAt (m : Mm) (p n : ℕ) (st : Store) : Type 0 where
  pub inflight : st.store_inflight ≡ not (n == 0)
  pub count : st.store_count ≡ n
  pub sized : st.store_size ≡ m.word_size
  pub place : 0 < n → sub64 st.store_addr m.mem_base ≡ p * m.word_size

-- The tracker after a word, with `n` more to come.
abbrev pub next_store : ℕ → Store → Store
next_store n st = record st {
  store_inflight = not (n == 0);
  store_addr = add64 st.store_addr st.store_size;
  store_count = n;
}

pop_ok {ℓ} :
    {A : Type ℓ} (c b : Bool) (q : List A)
    → (q' : List A) × (pop_if (c && (not (is_empty q) && b)) q ≡ ok q')
pop_ok true b [] = ([], refl)
pop_ok false b q = (q, refl)
pop_ok true true (x ∷ q) = (q, refl)
pop_ok true false (x ∷ q) = (x ∷ q, refl)

-- The last word frees the tracker.
finish_at :
    (n : ℕ) (st : Store) (bresp : List ℕ) (w_last : Bool)
    → st.store_inflight ≡ true
    → st.store_count ≡ n
    → w_last ≡ (n == 0)
    → (more : List ℕ) × (finish st bresp w_last
        ≡ ok (record st { store_inflight = not (n == 0); store_count = n }, bresp ++ more))
unfolding finish
finish_at zero st bresp w_last busy count mark = (st.store_id ∷ [], rw (count, mark) refl)
finish_at (suc n) st bresp w_last busy count mark =
    let more : (suc n == 0) ≡ false = ground arith in
    ([], rw (count, more, busy, append-nil bresp) refl)

write_word :
    (m : Mm) (p n : ℕ) (st : Store) (mem bresp : List ℕ) (x : Inputs)
    → IsWellFormed m mem
    → IsAt m p (suc n) st
    → p * m.word_size < m.mem_size
    → suc n < 2 ^ 64
    → IsBeat m.word_size x
    → x.w_last ≡ (n == 0)
    → (more : List ℕ) × (write_beat m st mem bresp x
        ≡ ok (next_store n st, splice (p * m.word_size) x.w_data mem, bresp ++ more))
unfolding write_beat beat
write_word m p n st mem bresp x v at inside small carried mark =
    let count : sub64 st.store_count 1 ≡ n = omega (arith, at.count) in
    let wrote : write m mem st.store_addr x.w_data x.w_strb st.store_size
        ≡ ok (splice (p * m.word_size) x.w_data mem) =
      ap (write m mem st.store_addr x.w_data x.w_strb) at.sized
      ∙ write-splice m mem st.store_addr x.w_data x.w_strb p v (at.place (omega arith)) inside
          carried.width carried.full in
    let moved : Store = record st {
      store_addr = add64 st.store_addr st.store_size;
      store_count = sub64 st.store_count 1;
    } in
    let (more, done) = finish_at n moved bresp x.w_last (at.inflight ∙ ground arith) count mark in
    (more, rw (wrote, done) refl)

-- A cycle of the burst writes its word, and the tracker moves on to the next one.
pub tick-word :
    (s : Magic) (mem : List ℕ) (x : Inputs) (p n : ℕ)
    → IsWellFormed s.mm mem
    → IsAt s.mm p (suc n) s.store
    → p * s.mm.word_size < s.mm.mem_size
    → suc n < 2 ^ 64
    → IsBeat s.mm.word_size x
    → x.w_last ≡ (n == 0)
    → (s' : Magic) × (tick s mem x ≡ ok (s', splice (p * s.mm.word_size) x.w_data mem))
      × (s'.mm ≡ s.mm)
      × (s'.store ≡ next_store n s.store)
unfolding tick clear_if
tick-word s mem x p n v at inside small carried mark =
    let live = not x.reset in
    let up : live ≡ true = ap not carried.live in
    let busy : s.store_inflight ≡ true = at.inflight ∙ ground arith in
    let no_read : (live && (x.ar_valid && true)) ≡ false = rw (up, carried.no_ar) refl in
    let no_aw : (live && (x.aw_valid && aw_ready s)) ≡ false = ground (arith, busy) in
    let takes : (live && (x.w_valid && w_ready s)) ≡ true = rw (up, carried.valid, busy) refl in
    let read = ap (λ (b : Bool). read_if b s mem x) no_read in
    let kept = ap (λ (b : Bool). accept_if b s.store x) no_aw in
    let (more, wrote) = write_word s.mm p n s.store mem s.bresp x v at inside small carried mark in
    let written = ap (λ (b : Bool). write_if b s.mm s.store mem s.bresp x) takes ∙ wrote in
    let (bresp, popped) = pop_if_lem live x.b_ready s.bresp more in
    let (rresp, popped') = pop_ok live x.r_ready s.rresp in
    let next : Magic = record {
      mm = s.mm;
      store = next_store n s.store;
      bresp = bresp;
      rresp = rresp;
      cycle = add64 s.cycle 1;
    } in
    let stays = ap (λ (b : Bool). clear_if b next) carried.live in
    (next, rw (read, kept, written, popped, popped', stays) refl, refl, refl)

-- A cycle that carries a write address of words of this memory, and asks for no read.
pub record IsAddress (m : Mm) (p n : ℕ) (x : Inputs) : Type 0 where
  pub live : x.reset ≡ false
  pub no_ar : x.ar_valid ≡ false
  pub valid : x.aw_valid ≡ true
  pub words : 2 ^ x.aw_size ≡ m.word_size
  pub sizes : x.aw_size ≤ 6
  pub beats : add64 x.aw_len 1 ≡ n
  pub place : sub64 x.aw_addr m.mem_base ≡ p * m.word_size

-- The cycle of the address starts the tracker.
pub tick-address :
    (s : Magic) (mem : List ℕ) (x : Inputs) (p n : ℕ)
    → s.store_inflight ≡ false
    → IsAddress s.mm p (suc n) x
    → (s' : Magic) × (tick s mem x ≡ ok (s', mem)) × (s'.mm ≡ s.mm) × IsAt s.mm p (suc n) s'.store
unfolding tick clear_if
tick-address s mem x p n free a =
    let live = not x.reset in
    let up : live ≡ true = ap not a.live in
    let no_read : (live && (x.ar_valid && true)) ≡ false = rw (up, a.no_ar) refl in
    let starts : (live && (x.aw_valid && aw_ready s)) ≡ true = rw (up, a.valid, free) refl in
    let no_word : (live && (x.w_valid && w_ready s)) ≡ false = ground (arith, free) in
    let read = ap (λ (b : Bool). read_if b s mem x) no_read in
    let accepted = ap (λ (b : Bool). accept_if b s.store x) starts ∙ accept_lem s.store x a.sizes in
    let st : Store = record {
      store_inflight = true;
      store_addr = x.aw_addr;
      store_id = x.aw_id;
      store_size = 2 ^ x.aw_size;
      store_count = add64 x.aw_len 1;
    } in
    let unwritten = ap (λ (b : Bool). write_if b s.mm st mem s.bresp x) no_word in
    let (bresp, popped) = pop_ok live x.b_ready s.bresp in
    let (rresp, popped') = pop_ok live x.r_ready s.rresp in
    let next : Magic = record {
      mm = s.mm;
      store = st;
      bresp = bresp;
      rresp = rresp;
      cycle = add64 s.cycle 1;
    } in
    let stays = ap (λ (b : Bool). clear_if b next) a.live in
    let more : (suc n == 0) ≡ false = ground arith in
    (
      next,
      rw (read, accepted, unwritten, popped, popped', stays) refl,
      refl,
      record { inflight = rw more refl; count = a.beats; sized = a.words; place = λ _. a.place },
    )
