-- ===== src/Magic.antt =====
-- mm_magic_t (mm.h, mm.cc): the memory that answers at once.
pub mod Reads
pub mod Ticks
pub mod Trace
pub mod Idle
pub mod Hold
pub mod Widths
pub mod Bursts
pub mod Answer
mod Tests
use thermal_placement.Base.{
  ℕ, zero, suc, ◌+◌, ◌*◌, ◌/◌, Bool, true, false, not, ◌&&◌, List, [], ◌∷◌, ◌++◌, Result, ok, err,
  ◌>>=◌, ◌>>◌, guard, assertion, overflow, div_by_zero, ltb, ◌==◌, if◌then◌else◌, add64, mul_int,
  int_max,
}
use thermal_placement.Memory.{Mm, read}
use thermal_placement.Axi.{
  Inputs, RResp, Store, is_empty, front_or, front_id, front_data, front_last, pop_if, accept_if,
  beat,
}

-- The buffer is passed beside this record. Every member of `Store` but `store_inflight`, and
-- `cycle`, have no initial value in the constructor, so `init` takes them.
pub record Magic : Type 0 where
  pub mm : Mm
  pub store : Store
  pub open store use *
  pub bresp : List ℕ
  pub rresp : List RResp
  pub cycle : ℕ

unfoldable pub init : Mm → Store → ℕ → Magic
init m garbage cycle = record {
  mm = m;
  store = record garbage { store_inflight = false };
  bresp = [];
  rresp = [];
  cycle = cycle;
}

abbrev pub ar_ready : Magic → Bool
ar_ready s = true

abbrev pub aw_ready : Magic → Bool
aw_ready s = not s.store_inflight

abbrev pub w_ready : Magic → Bool
w_ready s = s.store_inflight

abbrev pub b_valid : Magic → Bool
b_valid s = not (is_empty s.bresp)

abbrev pub r_valid : Magic → Bool
r_valid s = not (is_empty s.rresp)

unfoldable pub b_id : Magic → ℕ
b_id s = front_or s.bresp 0

unfoldable pub r_id : Magic → ℕ
r_id s = front_id s.rresp

unfoldable pub r_data : Magic → List ℕ → List ℕ
r_data s mem = front_data s.rresp mem

unfoldable pub r_last : Magic → Bool
r_last s = front_last s.rresp

-- `for (int i = 0; i <= ar_len; i++)` with `n` beats left. The product and the counter are ints.
unfoldable pub push_beats :
    (n i : ℕ) → Mm → List ℕ → (start id len : ℕ) → List RResp → Result (List RResp)
push_beats zero i m mem start id len q = ok q
push_beats (suc n) i m mem start id len q = do
  offset ← mul_int i m.word_size
  dat ← read m mem (add64 start offset)
  guard (ltb i int_max) overflow
  push_beats n (suc i) m mem start id len
      (q ++ record { id = id; bytes = dat; last = i == len } ∷ [])

-- `if (ar_fire) { … }`
unfoldable pub read_burst : Mm → List ℕ → (addr id len : ℕ) → List RResp → Result (List RResp)
unfolding push_beats
read_burst m mem addr id len q = do
  guard (ltb 0 m.word_size) div_by_zero
  push_beats (suc len) 0 m mem (addr / m.word_size * m.word_size) id len q

-- `if (w_fire) { … }`: the last beat frees the tracker and pushes the response.
unfoldable pub finish : Store → List ℕ → Bool → Result (Store × List ℕ)
finish s bresp w_last =
    if s.store_count == 0
    then (do
      guard w_last assertion
      ok (record s { store_inflight = false }, bresp ++ s.store_id ∷ []))
    else ok (s, bresp)

unfoldable pub write_beat : Mm → Store → List ℕ → List ℕ → Inputs → Result (Store × List ℕ × List ℕ)
unfolding finish
write_beat m s mem bresp x = do
  (s', mem') ← beat m s mem x
  (s'', bresp') ← finish s' bresp x.w_last
  ok (s'', mem', bresp')

abbrev pub read_if : Bool → Magic → List ℕ → Inputs → Result (List RResp)
read_if fire s mem x =
    if fire then read_burst s.mm mem x.ar_addr x.ar_id x.ar_len s.rresp else ok s.rresp

abbrev pub write_if :
    Bool → Mm → Store → List ℕ → List ℕ → Inputs → Result (Store × List ℕ × List ℕ)
write_if fire m s mem bresp x = if fire then write_beat m s mem bresp x else ok (s, mem, bresp)

-- `if (reset) { … }`
pub clear_if : Bool → Magic → Magic
clear_if false s = s
clear_if true s = record s { bresp = []; rresp = []; cycle = 0 }

-- `tick`. The five `fire` flags are read before any member changes.
unfoldable pub tick : Magic → List ℕ → Inputs → Result (Magic × List ℕ)
unfolding clear_if
tick s mem x = do
  let live = not x.reset
  let ar_fire = live && (x.ar_valid && ar_ready s)
  let aw_fire = live && (x.aw_valid && aw_ready s)
  let w_fire = live && (x.w_valid && w_ready s)
  let r_fire = live && (r_valid s && x.r_ready)
  let b_fire = live && (b_valid s && x.b_ready)
  rresp ← read_if ar_fire s mem x
  store ← accept_if aw_fire s.store x
  (store', mem', bresp) ← write_if w_fire s.mm store mem s.bresp x
  bresp' ← pop_if b_fire bresp
  rresp' ← pop_if r_fire rresp
  ok (
    clear_if x.reset (record {
      mm = s.mm;
      store = store';
      bresp = bresp';
      rresp = rresp';
      cycle = add64 s.cycle 1;
    }),
    mem',
  )
