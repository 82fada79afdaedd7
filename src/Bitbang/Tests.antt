-- ===== src/Bitbang/Tests.antt =====
-- A client that connects, drives the pins, samples the output and leaves.
use thermal_placement.Base.{
  ℕ, ◌≡◌, refl, true, false, List, [], ◌∷◌, ◌++◌, none, some, ok, err, replicate, map, blocked,
  arith,
}
use thermal_placement.Bitbang.{Bitbang, Read, Write, Accept, Events, Setup, init, tick, jtag_tick}
use thermal_placement.Bitbang.Commands.{tick-blocks}
use thermal_placement.Bitbang.Session.{run, run-codes}
use thermal_placement.Bitbang.Drive.{Pins, bits, drives, drives-bits}

abbrev setup : Setup
setup = record {
  socket = some 3;
  set_option = true;
  bound = true;
  listening = true;
  named = true;
  garbage = 7;
}

abbrev connected : Bitbang
connected = record {
  error = 0;
  tck = 1;
  tms = 1;
  tdi = 1;
  trstn = 1;
  tdo = 7;
  quit = 0;
  socket_fd = 3;
  client_fd = 5;
}

abbrev digits : Events
digits = record {
  accepts = [];
  reads = Read.retry ∷ Read.byte b'6' ∷ Read.nothing ∷ Read.byte b'1' ∷ [];
  writes = [];
}

abbrev sampling : Events
sampling = record {
  accepts = [];
  reads = Read.retry ∷ Read.byte b'R' ∷ [];
  writes = Write.nothing ∷ Write.sent ∷ [];
}

abbrev visit : Events
visit = record {
  accepts = Accept.retry ∷ Accept.client 5 ∷ [];
  reads = Read.byte b'5' ∷ Read.byte b'Q' ∷ [];
  writes = [];
}

abbrev asked : List Pins
asked =
    record { tck = true; tms = true; tdi = false }
    ∷ record { tck = false; tms = false; tdi = true }
    ∷ []

init_raises_pins : init setup ≡ ok (record connected { client_fd = 0 })
unfolding init
init_raises_pins = refl

drives_two : drives connected digits (0 ∷ 0 ∷ []) ≡ ok ((1, 1, 0) ∷ (0, 0, 1) ∷ [])
unfolding drives tick
drives_two = refl

tick-blocks_example :
    tick connected (record digits { reads = Read.retry ∷ Read.nothing ∷ [] }) 0 ≡ err blocked
tick-blocks_example =
    tick-blocks connected (record digits { reads = Read.retry ∷ Read.nothing ∷ [] }) 0 (omega arith)
      tt

visit_runs :
    run none setup visit (0 ∷ 0 ∷ 0 ∷ [])
    ≡ ok (
      some (record connected { tck = 1; tms = 0; tdi = 1; tdo = 0; quit = 1; client_fd = 0 }),
      record visit { accepts = []; reads = [] },
      0 ∷ 0 ∷ 1 ∷ [],
    )
unfolding run jtag_tick init tick
visit_runs = refl

run-codes_example : (m k : ℕ) × (◌≡◌ {A = List ℕ} (0 ∷ 0 ∷ 1 ∷ []) (replicate m 0 ++ replicate k 1))
run-codes_example = run-codes none setup (0 ∷ 0 ∷ 0 ∷ []) visit tt visit_runs

drives-bits_example : drives connected digits (0 ∷ 0 ∷ []) ≡ ok (map bits asked)
drives-bits_example = drives-bits asked (0 ∷ 0 ∷ []) connected digits [] refl (omega arith) refl (
  Read.retry ∷ [],
  Read.nothing ∷ Read.byte b'1' ∷ [],
  tt,
  refl,
  (Read.nothing ∷ [], [], tt, refl, refl),
)

samples :
    tick connected sampling 1
    ≡ ok (record connected { tdo = 1 }, record sampling { reads = []; writes = [] }, some b'1')
unfolding tick
samples = refl
