-- ===== src/Uart.antt =====
-- uart.h, uart.cc and SimUART.cc: the terminals of the simulated serial ports and their DPI entry
-- points. Numbers of UARTs are taken to be natural; messages to the terminal are left out.
pub mod Stream
pub mod Entries
mod Tests
use thermal_placement.Base.{
  ℕ, Bool, true, false, not, ◌&&◌, ◌||◌, List, [], ◌∷◌, ◌++◌, Option, none, some, Result, ok, err,
  ◌>>=◌, ◌>>◌, guard, or_fault, aborted, exited, ◌==◌, if◌then◌else◌,
}
use thermal_placement.Base.Text.{codes, same_text}

-- What a tick meets of the process: the global `specialchar`, the results of the reads of one byte to
-- come from each file (`none`: nothing was read, as after the end of the list), the bytes written to
-- each file, and the files that can be written.
pub record World : Type 0 where
  pub specialchar : ℕ
  pub reads : ℕ → List (Option ℕ)
  pub written : ℕ → List ℕ
  pub writable : ℕ → Bool

-- `sighand`
unfoldable pub sighand : (s : ℕ) → World → World
sighand s w = record w { specialchar = if s == 2 then 3 else 0 }

-- The members of uart_t.
pub record Uart : Type 0 where
  pub print_file : Bool
  pub inputfd : ℕ
  pub outputfd : ℕ

-- The arguments of `tick`; `in_bits` is what the caller's variable holds before the call.
pub record Call : Type 0 where
  pub out_valid : Bool
  pub out_bits : ℕ
  pub in_ready : Bool
  pub in_bits : ℕ

-- The caller's variables after the call.
pub record Reply : Type 0 where
  pub out_ready : Bool
  pub in_valid : Bool
  pub in_bits : ℕ

abbrev pub next_read : List (Option ℕ) → Option ℕ
next_read [] = none
next_read (r ∷ rs) = r

abbrev pub later_reads : List (Option ℕ) → List (Option ℕ)
later_reads [] = []
later_reads (r ∷ rs) = rs

abbrev pub put_at : {A : Type 0} → (ℕ → A) → ℕ → A → ℕ → A
put_at f k a = λ j. if j == k then a else f j

-- `if (specialchar) … else …`: the byte that comes in, if any.
take_input : Uart → World → Option ℕ × World
take_input u w =
    if w.specialchar == 0
    then (
      next_read (w.reads u.inputfd),
      record w { reads = put_at w.reads u.inputfd (later_reads (w.reads u.inputfd)) },
    )
    else (some w.specialchar, record w { specialchar = 0 })

-- `if (in_ready) { … }`
receive : Uart → World → (in_ready : Bool) → Option ℕ × World
unfolding take_input
receive u w in_ready = if in_ready then take_input u w else (none, w)

-- `if (*out_ready && out_valid) { … }`
transmit : Uart → World → (out_valid : Bool) → (out_bits : ℕ) → Result World
transmit u w false c = ok w
transmit u w true c = do
  guard (w.writable u.outputfd) exited
  ok (record w { written = put_at w.written u.outputfd (w.written u.outputfd ++ c ∷ []) })

abbrev pub reply : Option ℕ → (in_bits : ℕ) → Reply
reply none old = record { out_ready = true; in_valid = false; in_bits = old }
reply (some c) old = record { out_ready = true; in_valid = true; in_bits = c }

-- `uart_t::tick`
unfoldable pub tick : Uart → World → Call → Result (World × Reply)
unfolding receive transmit
tick u w x = do
  let got = receive u w x.in_ready
  w' ← transmit u got.1 x.out_valid x.out_bits
  ok (w', reply got.0 x.in_bits)

-- What opening the files comes to: the descriptor of a new terminal, unless its link cannot be made,
-- and the descriptor of a log file.
pub record Files : Type 0 where
  pub pty : (uartno : ℕ) → Option ℕ
  pub open_log : (prefix : List ℕ) → (uartno : ℕ) → ℕ

terminal : Files → (uartno : ℕ) → (use_pty : Bool) → Result (ℕ × ℕ)
terminal os uartno use_pty =
    if (uartno == 0) && not use_pty
    then ok (0, 1)
    else (do fd ← or_fault (os.pty uartno) exited; ok (fd, fd))

log_to : Files → Option (List ℕ) → (uartno : ℕ) → ℕ × ℕ → Uart
log_to os none uartno fds = record { print_file = false; inputfd = fds.0; outputfd = fds.1 }
log_to os (some prefix) uartno fds = record {
  print_file = true;
  inputfd = fds.0;
  outputfd = os.open_log prefix uartno;
}

-- The constructor of uart_t.
unfoldable pub construct : Files → Option (List ℕ) → (uartno : ℕ) → (use_pty : Bool) → Result Uart
unfolding terminal log_to
construct os prefix uartno use_pty = do
  fds ← terminal os uartno use_pty
  ok (log_to os prefix uartno fds)

-- `uarts`: no entry, an entry that is NULL, or a UART.
abbrev pub Table : Type 0
Table = ℕ → Option (Option Uart)

abbrev pty_flag : List ℕ
pty_flag = codes "+uart-pty"

has_pty_flag : List (List ℕ) → Bool
has_pty_flag [] = false
has_pty_flag (arg ∷ args) = same_text arg pty_flag || has_pty_flag args

abbrev pub arguments : List (List ℕ) → List (List ℕ)
arguments [] = []
arguments (program ∷ args) = args

abbrev pub is_missing : Option (Option Uart) → Bool
is_missing none = true
is_missing (some entry) = false

abbrev pub file_prefix : List ℕ → Option (List ℕ)
file_prefix [] = none
file_prefix (c ∷ cs) = some (c ∷ cs)

-- `uart_init`; `argv` is what vpi_get_vlog_info gives.
unfoldable pub uart_init :
    Files
    → (argv : Option (List (List ℕ))) → Table
    → (filename : List ℕ) → (uartno forcepty : ℕ) → Result Table
unfolding has_pty_flag
uart_init os argv t filename uartno forcepty = do
  args ← or_fault argv aborted
  guard (is_missing (t uartno)) aborted
  u ←
      construct os (file_prefix filename) uartno
        (not (forcepty == 0) || has_pty_flag (arguments args))
  ok (put_at t uartno (some (some u)))

abbrev pub no_uart : Call → Reply
no_uart x = record { out_ready = false; in_valid = false; in_bits = x.in_bits }

-- `uarts[uartno]` makes an entry with NULL where there is none.
tick_entry :
    Option (Option Uart) → Table → World → (uartno : ℕ) → Call → Result (Table × World × Reply)
tick_entry none t w uartno x = ok (put_at t uartno (some none), w, no_uart x)
tick_entry (some none) t w uartno x = ok (t, w, no_uart x)
tick_entry (some (some u)) t w uartno x = do (w', r) ← tick u w x; ok (t, w', r)

-- `uart_tick`
unfoldable pub uart_tick : Table → World → (uartno : ℕ) → Call → Result (Table × World × Reply)
unfolding tick_entry
uart_tick t w uartno x = tick_entry (t uartno) t w uartno x
