-- ===== src/Axi.antt =====
-- mm.h: the AXI channels that the two memory models share, and the part of `tick` that they have in
-- common: the tracker of the one write burst in flight (mm.cc and mm_dramsim2.cc have the same lines).
pub mod Burst
pub mod Queue
use thermal_placement.Base.{
  ℕ, ◌≤◌, ◌<◌, ◌^◌, ◌≡◌, Bool, true, false, not, ◌&&◌, List, [], ◌∷◌, Result, ok, err, ◌>>=◌,
  empty_queue, ◌==◌, if◌then◌else◌, add64, sub64, one_shl_int, ltb,
}
use thermal_placement.Memory.{Mm, write}

-- The arguments of `tick`.
pub record Inputs : Type 0 where
  pub reset : Bool
  pub ar_valid : Bool
  pub ar_addr : ℕ
  pub ar_id : ℕ
  pub ar_size : ℕ
  pub ar_len : ℕ
  pub aw_valid : Bool
  pub aw_addr : ℕ
  pub aw_id : ℕ
  pub aw_size : ℕ
  pub aw_len : ℕ
  pub w_valid : Bool
  pub w_strb : ℕ
  pub w_data : List ℕ
  pub w_last : Bool
  pub r_ready : Bool
  pub b_ready : Bool

-- `mm_rresp_t`, one beat of read data.
pub record RResp : Type 0 where
  pub id : ℕ
  pub bytes : List ℕ
  pub last : Bool

-- The members `store_inflight`, …, `store_count`.
pub record Store : Type 0 where
  pub store_inflight : Bool
  pub store_addr : ℕ
  pub store_id : ℕ
  pub store_size : ℕ
  pub store_count : ℕ

-- `pop` of a std::queue; of an empty one it is undefined.
abbrev pub pop {ℓ} : {A : Type ℓ} → List A → Result (List A)
pop [] = err empty_queue
pop (x ∷ q) = ok q

abbrev pub is_empty {ℓ} : {A : Type ℓ} → List A → Bool
is_empty [] = true
is_empty (x ∷ q) = false

abbrev pub front_or : List ℕ → ℕ → ℕ
front_or [] d = d
front_or (b ∷ q) d = b

abbrev pub front_id : List RResp → ℕ
front_id [] = 0
front_id (r ∷ q) = r.id

-- An empty queue shows the start of the whole buffer.
abbrev pub front_data : List RResp → List ℕ → List ℕ
front_data [] mem = mem
front_data (r ∷ q) mem = r.bytes

abbrev pub front_last : List RResp → Bool
front_last [] = false
front_last (r ∷ q) = r.last

-- `if (fire) q.pop();`
abbrev pub pop_if {ℓ} : {A : Type ℓ} → Bool → List A → Result (List A)
pop_if false q = ok q
pop_if true q = pop q

-- `if (aw_fire) { … }`
unfoldable pub accept : Store → Inputs → Result Store
accept s x = do
  size ← one_shl_int x.aw_size
  ok (record {
    store_inflight = true;
    store_addr = x.aw_addr;
    store_id = x.aw_id;
    store_size = size;
    store_count = add64 x.aw_len 1;
  })

abbrev pub accept_if : Bool → Store → Inputs → Result Store
accept_if fire s x = if fire then accept s x else ok s

-- `if (w_fire) { … }` up to the test `store_count == 0`: the bytes are written, and the tracker
-- moves on to the next beat.
unfoldable pub beat : Mm → Store → List ℕ → Inputs → Result (Store × List ℕ)
beat m s mem x = do
  mem' ← write m mem s.store_addr x.w_data x.w_strb s.store_size
  ok (
    record s { store_addr = add64 s.store_addr s.store_size; store_count = sub64 s.store_count 1 },
    mem',
  )

-- A burst in flight has beats to come, of at most 64 bytes, and its count is a uint64_t.
pub record IsTracked (s : Store) : Type 0 where
  pub to_come : s.store_inflight ≡ true → 0 < s.store_count
  pub is_word : s.store_count < 2 ^ 64
  pub sized : s.store_inflight ≡ true → s.store_size ≤ 64
