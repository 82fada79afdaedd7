-- ===== src/Uart/Tests.antt =====
-- Runs of the UARTs at concrete inputs.
use thermal_placement.Base.{
  ◌≡◌, refl, true, false, List, [], ◌∷◌, none, some, ok, err, aborted, ◌+◌,
}
use thermal_placement.Uart.{
  World, Uart, Call, Reply, Files, Table, put_at, no_uart, sighand, construct, uart_init, uart_tick,
}
use thermal_placement.Uart.Stream.{Passes, run-Passes}
use thermal_placement.Uart.Entries.{Entry, run_entries, init-after-tick}

-- "hi" typed after an empty read, and files that take what is written.
abbrev keyboard : World
keyboard = record {
  specialchar = 0;
  reads = λ fd. none ∷ some b'h' ∷ some b'i' ∷ [];
  written = λ fd. [];
  writable = λ fd. true;
}

-- Ctrl-C was hit.
abbrev interrupted : World
interrupted = record keyboard { specialchar = 3 }

interrupts : sighand 2 keyboard ≡ interrupted
unfolding sighand
interrupts = refl

abbrev files : Files
files = record { pty = λ k. some (10 + k); open_log = λ prefix k. 20 + k }

abbrev console : Uart
console = record { print_file = false; inputfd = 0; outputfd = 1 }

constructs : construct files none 0 false ≡ ok console
unfolding construct
constructs = refl

logs_to_file :
    construct files (some (b'u' ∷ [])) 2 false
    ≡ ok (record { print_file = true; inputfd = 12; outputfd = 22 })
unfolding construct
logs_to_file = refl

abbrev takes : Call
takes = record { out_valid = true; out_bits = b'x'; in_ready = true; in_bits = 0 }

run-Passes_example :
    (w' : World) × (rs : List Reply) × Passes console interrupted (takes ∷ takes ∷ takes ∷ []) w' rs
run-Passes_example = run-Passes console interrupted (takes ∷ takes ∷ takes ∷ []) refl

abbrev no_entries : Table
no_entries = λ k. none

-- A tick of UART 3 before it is set up, and then the set-up of UART 0.
abbrev after_tick : Table
after_tick = put_at no_entries 3 (some none)

abbrev after_init : Table
after_init = put_at after_tick 0 (some (some console))

ticks_early : uart_tick no_entries keyboard 3 takes ≡ ok (after_tick, keyboard, no_uart takes)
unfolding uart_tick
ticks_early = refl

goes_on :
    run_entries files (some []) after_tick keyboard (Entry.init_call [] 0 0 ∷ [])
    ≡ ok (after_init, keyboard)
unfolding run_entries uart_init construct
goes_on = refl

init-after-tick_example : uart_init files (some []) after_init [] 3 0 ≡ err aborted
init-after-tick_example =
    init-after-tick files (some []) no_entries keyboard 3 takes (Entry.init_call [] 0 0 ∷ []) [] 0
      ticks_early goes_on
