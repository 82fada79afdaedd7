-- ===== src/Dramsim/Tests.antt =====
-- A DRAMSim2 that keeps one queue and completes its oldest transaction at each update.
use thermal_placement.Base.{
  ℕ, ◌+◌, ◌<◌, ◌≡◌, refl, Bool, true, false, ◌&&◌, List, [], ◌∷◌, ◌++◌, some, ok, err, assertion,
  if◌then◌else◌, ◌==◌, arith,
}
use thermal_placement.Memory.{Mm, IsWellFormed}
use thermal_placement.Axi.{Inputs}
use thermal_placement.Dramsim.Interface.{System, IsAccountable, Done, same, count}
use thermal_placement.Dramsim.{Req, Tables, Dram, init, pick, tick}
use thermal_placement.Dramsim.Sound.{IsServable, IsSound}
use thermal_placement.Dramsim.Complete.{IsMatched}
use thermal_placement.Dramsim.Accounted.{IsAccounted}
use thermal_placement.Dramsim.Ticks.{IsLegal, tick-IsAccounted}

abbrev complete_oldest : List Done → List Done × List Done
complete_oldest [] = ([], [])
complete_oldest (x ∷ q) = (q, x ∷ [])

abbrev pub fifo : System
fifo = record {
  State = List Done;
  will_accept = λ q. true;
  add = λ w a q. q ++ record { is_write = w; address = a } ∷ [];
  update = complete_oldest;
}

pub count-push :
    (q : List Done) (x : Done) (w : Bool) (a : ℕ)
    → count w a (q ++ x ∷ [])
      ≡ count w a q + (if same w x.is_write && (a == x.address) then 1 else 0)
count-push [] x w a = omega arith
count-push (y ∷ q) x w a = omega (arith, count-push q x w a)

pub count-oldest :
    (q : List Done) (w : Bool) (a : ℕ)
    → count w a q ≡ count w a (complete_oldest q).0 + count w a (complete_oldest q).1
count-oldest [] w a = refl
count-oldest (y ∷ q) w a = omega arith

abbrev pub fifo-IsAccountable : IsAccountable fifo
fifo-IsAccountable = record {
  pending = λ q w a. count w a q;
  pending-add = λ w a q w' a'. count-push q (record { is_write = w; address = a }) w' a';
  pending-update = λ q w a. count-oldest q w a;
}

abbrev pub small : Mm
small = record { mem_base = 16; mem_size = 8; word_size = 4; line_size = 64 }

abbrev pub cells : List ℕ
cells = 0 ∷ 1 ∷ 2 ∷ 3 ∷ 4 ∷ 5 ∷ 6 ∷ 7 ∷ []

abbrev request : ℕ → Req
request id = record { id = id; size = 4; len = 2; addr = 16 }

-- Read id 0 is out; a second read with that id and one with id 1 wait.
abbrev pub tables : Tables
tables = record {
  bresp = [];
  wreq = λ a. [];
  rreq = λ a. if a == 16 then request 0 ∷ [] else [];
  rresp = [];
  read_id_busy = true ∷ false ∷ [];
  write_id_busy = false ∷ false ∷ [];
}

abbrev pub waiting : Dram fifo
waiting = record {
  mm = small;
  state = record { is_write = false; address = 16 } ∷ [];
  store = record {
    store_inflight = false;
    store_addr = 0;
    store_id = 0;
    store_size = 0;
    store_count = 0;
  };
  tables = tables;
  rreq_queue = request 0 ∷ request 1 ∷ [];
  cycle = 5;
}

abbrev pub start_write : Inputs
start_write = record {
  reset = false;
  ar_valid = true;
  ar_addr = 16;
  ar_id = 1;
  ar_size = 2;
  ar_len = 0;
  aw_valid = true;
  aw_addr = 20;
  aw_id = 1;
  aw_size = 2;
  aw_len = 0;
  w_valid = false;
  w_strb = 15;
  w_data = 50 ∷ 51 ∷ 52 ∷ 53 ∷ [];
  w_last = true;
  r_ready = true;
  b_ready = true;
}

init_wants_mebibytes : init fifo small [] 4 waiting.store 0 ≡ err assertion
unfolding init
init_wants_mebibytes = refl

pub small-IsWellFormed : IsWellFormed small cells
small-IsWellFormed = omega arith

request-IsServable : (id : ℕ) → id < 2 → IsServable small 2 (request id)
request-IsServable id h = record { known = h; inside = omega arith }

tables-IsSound : IsSound small 2 tables
tables-IsSound = record {
  read_bits = refl;
  write_bits = refl;
  reads = λ a. ground (arith, request-IsServable 0);
  writes = λ a. tt;
}

waiting-IsMatched : IsMatched (λ w a. count w a waiting.state) [] tables
waiting-IsMatched = record { reads = λ a. ground arith; writes = λ a. ground arith }

pub waiting-IsAccounted : IsAccounted fifo fifo-IsAccountable 2 waiting cells
waiting-IsAccounted = record {
  memory = small-IsWellFormed;
  tracked = record { to_come = λ h. cc; is_word = omega arith; sized = λ h. cc };
  store_known = λ h. cc;
  sound = tables-IsSound;
  matched = waiting-IsMatched;
  waiting = (request-IsServable 0 (omega arith), (request-IsServable 1 (omega arith), tt));
}

pub start_write-IsLegal : IsLegal fifo 2 waiting start_write
start_write-IsLegal = record {
  reads = λ h. omega arith;
  write_ids = omega arith;
  ar_sizes = omega arith;
  aw_sizes = omega arith;
  lengths = omega arith;
  writes = λ h. cc;
  words = omega arith;
  marks = λ h. cc;
}

tick-IsAccounted_example :
    (s' : Dram fifo) × (mem' : List ℕ) × (tick fifo waiting cells start_write ≡ ok (s', mem'))
    × IsAccounted fifo fifo-IsAccountable 2 s' mem'
tick-IsAccounted_example =
    tick-IsAccounted fifo fifo-IsAccountable 2 waiting cells start_write waiting-IsAccounted
      start_write-IsLegal

picks_free_id : pick (true ∷ false ∷ []) waiting.rreq_queue ≡ ok (some (request 1, request 0 ∷ []))
unfolding pick
picks_free_id = refl
