-- ===== src/Dramsim.antt =====
-- mm_dramsim2_t (mm_dramsim2.h, mm_dramsim2.cc): the memory whose timing DRAMSim2 decides.
pub mod Interface
mod Callbacks
unfoldable pub use Callbacks.*
pub mod Issue
pub mod Sound
pub mod Complete
mod Grow
pub mod Taken
pub mod Hold
pub mod Bursts
pub mod Bytes
pub mod Accounted
pub mod Stages
pub mod Ticks
pub mod Tests
use thermal_placement.Base.{
  ℕ, zero, suc, ◌+◌, ◌*◌, ◌/◌, ◌%◌, ◌^◌, ◌≡◌, Bool, true, false, not, ◌&&◌, List, [], ◌∷◌, ◌++◌,
  Option, none, some, Result, ok, err, ◌>>=◌, ◌>>◌, guard, or_fault, assertion, out_of_bounds,
  div_by_zero, ltb, ◌==◌, if◌then◌else◌, length, get_elem?, set, replicate, add64, sub64,
  one_shl_int,
}
use thermal_placement.Memory.{Mm, read}
use thermal_placement.Axi.{
  Inputs, RResp, Store, front_or, front_id, front_data, front_last, is_empty, pop_if, accept_if,
  beat,
}
use Interface.{System, Done}

pub record Dram (d : System) : Type 0 where
  pub mm : Mm
  pub state : d.State
  pub store : Store
  pub open store use *
  pub tables : Tables
  pub open tables use *
  pub rreq_queue : List Req
  pub cycle : ℕ

-- The constructor. DRAMSim2 works with lines of 64 bytes and a whole number of MiB. `cycle` and the
-- members of `Store` but `store_inflight` have no initial value.
unfoldable pub init :
    (d : System) → Mm → d.State → (axi4_ids : ℕ) → Store → (garbage_cycle : ℕ) → Result (Dram d)
init d m state axi4_ids garbage garbage_cycle = do
  guard (m.line_size == 64) assertion
  guard (m.mem_size % (1024 * 1024) == 0) assertion
  ok (record {
    mm = m;
    state = state;
    store = record garbage { store_inflight = false };
    tables = record {
      bresp = [];
      wreq = λ a. [];
      rreq = λ a. [];
      rresp = [];
      read_id_busy = replicate axi4_ids false;
      write_id_busy = replicate axi4_ids false;
    };
    rreq_queue = [];
    cycle = garbage_cycle;
  })

module _ (d : System) where
  abbrev pub ar_ready : Dram d → Bool
  ar_ready s = d.will_accept s.state

  abbrev pub aw_ready : Dram d → Bool
  aw_ready s = d.will_accept s.state && not s.store_inflight

  abbrev pub w_ready : Dram d → Bool
  w_ready s = s.store_inflight

  abbrev pub b_valid : Dram d → Bool
  b_valid s = not (is_empty s.bresp)

  abbrev pub r_valid : Dram d → Bool
  r_valid s = not (is_empty s.rresp)

  unfoldable pub b_id : Dram d → ℕ
  b_id s = front_or s.bresp 0

  unfoldable pub r_id : Dram d → ℕ
  r_id s = front_id s.rresp

  unfoldable pub r_data : Dram d → List ℕ → List ℕ
  r_data s mem = front_data s.rresp mem

  unfoldable pub r_last : Dram d → Bool
  r_last s = front_last s.rresp

  -- `if (mem->willAcceptTransaction()) { … }`
  issue_picked : Dram d → Option (Req × List Req) → Result (Dram d)
  issue_picked s none = ok s
  issue_picked s (some (req, others)) = do
    busy ← set_bit s.read_id_busy req.id true
    ok (record s {
      state = d.add false req.addr s.state;
      tables = record s.tables {
        read_id_busy = busy;
        rreq = put_queue s.rreq req.addr (s.rreq req.addr ++ req ∷ []);
      };
      rreq_queue = others;
    })

  pub issue : Dram d → Result (Dram d)
  unfolding pick issue_picked
  issue s =
      if d.will_accept s.state
      then (do picked ← pick s.read_id_busy s.rreq_queue; issue_picked s picked)
      else ok s

  -- `if (ar_fire) { … }`
  pub enqueue_if : Bool → Inputs → List Req → Result (List Req)
  enqueue_if false x q = ok q
  enqueue_if true x q = do
    size ← one_shl_int x.ar_size
    ok (q ++ record { id = x.ar_id; size = size; len = add64 x.ar_len 1; addr = x.ar_addr } ∷ [])

  -- The last beat of a burst: the write goes to DRAMSim2 under the address behind the burst.
  pub finish_store : Store → d.State → Tables → (w_last : Bool) → Result (Store × d.State × Tables)
  finish_store s state t w_last =
      if s.store_count == 0
      then (do
        guard w_last assertion
        ok (
          record s { store_inflight = false },
          d.add true s.store_addr state,
          record t {
            wreq = put_queue t.wreq s.store_addr (t.wreq s.store_addr ++ s.store_id ∷ []);
          },
        ))
      else ok (s, state, t)

  -- `if (w_fire) { … }`
  pub write_beat_if :
      Bool
      → Mm
      → Store
      → List ℕ
      → d.State
      → Tables
      → Inputs
      → Result (Store × List ℕ × d.State × Tables)
  unfolding finish_store
  write_beat_if false m s mem state t x = ok (s, mem, state, t)
  write_beat_if true m s mem state t x = do
    (s', mem') ← beat m s mem x
    (s'', state', t') ← finish_store s' state t x.w_last
    ok (s'', mem', state', t')

  -- `if (reset) { … }`
  pub clear_if : Bool → Dram d → Dram d
  clear_if false s = s
  clear_if true s = record s { tables = record s.tables { bresp = []; rresp = [] }; cycle = 0 }

  -- `tick`. The five `fire` flags are read before any member changes; the callbacks run inside
  -- `mem->update()`.
  unfoldable pub tick : Dram d → List ℕ → Inputs → Result (Dram d × List ℕ)
  unfolding issue enqueue_if write_beat_if clear_if complete
  tick s mem x = do
    let live = not x.reset
    let ar_fire = live && (x.ar_valid && ar_ready s)
    let aw_fire = live && (x.aw_valid && aw_ready s)
    let w_fire = live && (x.w_valid && w_ready s)
    let r_fire = live && (r_valid s && x.r_ready)
    let b_fire = live && (b_valid s && x.b_ready)
    s₁ ← issue s
    queue ← enqueue_if ar_fire x s₁.rreq_queue
    store ← accept_if aw_fire s₁.store x
    (store', mem', state, t) ← write_beat_if w_fire s.mm store mem s₁.state s₁.tables x
    bresp ← pop_if b_fire t.bresp
    rresp ← pop_if r_fire t.rresp
    let updated = d.update state
    t' ← complete s.mm mem' updated.1 (record t { bresp = bresp; rresp = rresp })
    ok (
      clear_if x.reset (record {
        mm = s.mm;
        state = updated.0;
        store = store';
        tables = t';
        rreq_queue = queue;
        cycle = add64 s.cycle 1;
      }),
      mem',
    )
