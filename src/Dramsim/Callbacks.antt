-- ===== src/Dramsim/Callbacks.antt =====
-- mm_dramsim2.h, mm_dramsim2.cc: the queues of mm_dramsim2_t, the choice of the request that is issued,
-- and the two callbacks of DRAMSim2.
use thermal_placement.Base.{
  ℕ, zero, suc, ◌*◌, ◌/◌, ◌%◌, ◌^◌, Bool, true, false, not, List, [], ◌∷◌, ◌++◌, Option, none, some,
  Result, ok, err, ◌>>=◌, ◌>>◌, guard, or_fault, assertion, out_of_bounds, div_by_zero, ltb, ◌==◌,
  if◌then◌else◌, length, get_elem?, set, add64, sub64,
}
use thermal_placement.Memory.{Mm, read}
use thermal_placement.Axi.{RResp}
use thermal_placement.Dramsim.Interface.{Done}

-- `mm_req_t`, a read request. `len` is the number of beats.
pub record Req : Type 0 where
  pub id : ℕ
  pub size : ℕ
  pub len : ℕ
  pub addr : ℕ

-- `std::map<uint64_t, std::queue<…>>`, where `operator[]` makes an empty queue of a missing one.
abbrev pub Queues : Type 0 → Type 0
Queues A = ℕ → List A

abbrev pub put_queue : {A : Type 0} → Queues A → ℕ → List A → Queues A
put_queue m k q = λ j. if j == k then q else m j

-- `v[i]` and `v[i] = b` of a std::vector<bool>; out of range they are undefined.
abbrev pub at_bit : List Bool → ℕ → Result Bool
at_bit v i = or_fault (get_elem? v i) out_of_bounds

abbrev pub set_bit : List Bool → ℕ → Bool → Result (List Bool)
set_bit v i b = do guard (ltb i (length v)) out_of_bounds; ok (set v i b)

-- The oldest request whose id is not busy, and the others in order.
unfoldable pub pick : List Bool → List Req → Result (Option (Req × List Req))
pick busy [] = ok none
pick busy (r ∷ rs) = do
  taken ← at_bit busy r.id
  if not taken then ok (some (r, rs)) else (do
    rest ← pick busy rs
    ok (elim rest [ none ↦ none | some (q, qs) ↦ some (q, r ∷ qs) ]))

-- The loop of `read_complete` with `n` beats left.
unfoldable pub push_words :
    (n i : ℕ) → Mm → List ℕ → (start id len : ℕ) → List RResp → Result (List RResp)
push_words zero i m mem start id len q = ok q
push_words (suc n) i m mem start id len q = do
  dat ← read m mem (add64 start (i * m.word_size % 2 ^ 64))
  push_words n (suc i) m mem start id len
      (q ++ record { id = id; bytes = dat; last = i == sub64 len 1 } ∷ [])

-- The queues and the busy ids, which the callbacks change.
pub record Tables : Type 0 where
  pub bresp : List ℕ
  pub wreq : Queues ℕ
  pub rreq : Queues Req
  pub rresp : List RResp
  pub read_id_busy : List Bool
  pub write_id_busy : List Bool

-- `read_complete`
unfoldable pub read_front : List Req → Mm → List ℕ → (address : ℕ) → Tables → Result Tables
read_front [] m mem address t = err assertion
read_front (req ∷ rest) m mem address t = do
  guard (ltb 0 m.word_size) div_by_zero
  rresp ← push_words req.len 0 m mem (req.addr / m.word_size * m.word_size) req.id req.len t.rresp
  busy ← set_bit t.read_id_busy req.id false
  ok (record t { rreq = put_queue t.rreq address rest; rresp = rresp; read_id_busy = busy })

-- `write_complete`
unfoldable pub write_front : List ℕ → (address : ℕ) → Tables → Result Tables
write_front [] address t = err assertion
write_front (b_id ∷ rest) address t = do
  busy ← set_bit t.write_id_busy b_id false
  ok (record t {
    bresp = t.bresp ++ b_id ∷ [];
    wreq = put_queue t.wreq address rest;
    write_id_busy = busy;
  })

unfoldable pub complete_as : Bool → Mm → List ℕ → (address : ℕ) → Tables → Result Tables
unfolding read_front write_front push_words
complete_as false m mem address t = read_front (t.rreq address) m mem address t
complete_as true m mem address t = write_front (t.wreq address) address t

-- The callbacks of one `update`, in order.
unfoldable pub complete : Mm → List ℕ → List Done → Tables → Result Tables
unfolding complete_as
complete m mem [] t = ok t
complete m mem (d ∷ ds) t = do t' ← complete_as d.is_write m mem d.address t; complete m mem ds t'
