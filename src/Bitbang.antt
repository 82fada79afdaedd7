-- ===== src/Bitbang.antt =====
-- remote_bitbang.h, remote_bitbang.cc and SimJTAG.cc: the JTAG port that a remote client drives over a
-- socket, one command a tick. The results of the socket calls come from `Events`, in the order of the
-- calls; a loop that has used them up is `blocked`. The members `recv_buf`, `recv_start` and
-- `recv_end` are never read.
pub mod Commands
pub mod Session
pub mod Drive
mod Tests
use thermal_placement.Base.{
  ℕ, ◌+◌, ◌*◌, Bool, true, false, not, List, [], ◌∷◌, ◌++◌, Option, none, some, Result, ok, err,
  ◌>>=◌, ◌>>◌, guard, or_fault, aborted, blocked, ltb, ◌==◌, if◌then◌else◌,
}

pub record Bitbang : Type 0 where
  pub error : ℕ
  pub tck : ℕ
  pub tms : ℕ
  pub tdi : ℕ
  pub trstn : ℕ
  pub tdo : ℕ
  pub quit : ℕ
  pub socket_fd : ℕ
  pub client_fd : ℕ

-- `::accept`, `::read` of one byte and `::write` of one byte; `retry` is EAGAIN, `failed` any other
-- error.
pub data Accept : Type 0 where
  client : ℕ → Accept
  retry failed : Accept

pub data Read : Type 0 where
  byte : ℕ → Read
  retry nothing failed : Read

pub data Write : Type 0 where
  sent nothing failed : Write

pub record Events : Type 0 where
  pub accepts : List Accept
  pub reads : List Read
  pub writes : List Write

-- The socket calls of the constructor, and the byte that `tdo` happens to hold.
pub record Setup : Type 0 where
  pub socket : Option ℕ
  pub set_option : Bool
  pub bound : Bool
  pub listening : Bool
  pub named : Bool
  pub garbage : ℕ

unfoldable pub init : Setup → Result Bitbang
init u = do
  fd ← or_fault u.socket aborted
  guard u.set_option aborted
  guard u.bound aborted
  guard u.listening aborted
  guard u.named aborted
  ok (record {
    error = 0;
    tck = 1;
    tms = 1;
    tdi = 1;
    trstn = 1;
    tdo = u.garbage;
    quit = 0;
    socket_fd = fd;
    client_fd = 0;
  })

-- `accept()`: it tries until a client has connected.
accept : List Accept → Result (ℕ × List Accept)
accept [] = err blocked
accept (Accept.client fd ∷ es) = ok (fd, es)
accept (Accept.retry ∷ es) = accept es
accept (Accept.failed ∷ es) = err aborted

set_pins : (tck tms tdi : ℕ) → Bitbang → Bitbang
set_pins tck tms tdi b = record b { tck = tck; tms = tms; tdi = tdi }

-- The first loop of `execute_command`: it reads until it has a byte.
read_command : List Read → Result (ℕ × List Read)
read_command [] = err blocked
read_command (Read.byte c ∷ es) = ok (c, es)
read_command (Read.retry ∷ es) = read_command es
read_command (Read.nothing ∷ es) = read_command es
read_command (Read.failed ∷ es) = err aborted

-- The loop that sends a reply.
send : List Write → Result (List Write)
send [] = err blocked
send (Write.sent ∷ es) = ok es
send (Write.nothing ∷ es) = send es
send (Write.failed ∷ es) = err aborted

-- The `switch`: the new pins and `quit`, and the reply. `reset()` does nothing; an unsupported
-- command is only reported.
dispatch : (command : ℕ) → Bitbang → Bitbang × Option ℕ
unfolding set_pins
dispatch c b =
    if c == b'B'
    then (b, none)
    else if c == b'b'
    then (b, none)
    else if c == b'r'
    then (b, none)
    else if c == b'0'
    then (set_pins 0 0 0 b, none)
    else if c == b'1'
    then (set_pins 0 0 1 b, none)
    else if c == b'2'
    then (set_pins 0 1 0 b, none)
    else if c == b'3'
    then (set_pins 0 1 1 b, none)
    else if c == b'4'
    then (set_pins 1 0 0 b, none)
    else if c == b'5'
    then (set_pins 1 0 1 b, none)
    else if c == b'6'
    then (set_pins 1 1 0 b, none)
    else if c == b'7'
    then (set_pins 1 1 1 b, none)
    else if c == b'R'
    then (b, some (if b.tdo == 0 then b'0' else b'1'))
    else if c == b'Q'
    then (record b { quit = 1 }, none)
    else (b, none)

send_reply : Option ℕ → List Write → Result (List Write)
send_reply none es = ok es
send_reply (some c) es = send es

-- `if (quit) { close(client_fd); client_fd = 0; }`
hang_up : Bitbang → Bitbang
hang_up b = if b.quit == 0 then b else record b { client_fd = 0 }

-- `execute_command`, with the bytes that it sends.
execute_command : Bitbang → Events → Result (Bitbang × Events × Option ℕ)
unfolding read_command dispatch send_reply send hang_up
execute_command b e = do
  (command, reads) ← read_command e.reads
  let after = dispatch command b
  writes ← send_reply after.1 e.writes
  ok (hang_up after.0, record e { reads = reads; writes = writes }, after.1)

-- `tick`. The pins that it stores through its pointers are the members of the state after it.
unfoldable pub tick : Bitbang → Events → (jtag_tdo : ℕ) → Result (Bitbang × Events × Option ℕ)
unfolding execute_command accept
tick b e jtag_tdo =
    if ltb 0 b.client_fd then execute_command (record b { tdo = jtag_tdo }) e else (do
      (fd, accepts) ← accept e.accepts
      ok (record b { client_fd = fd }, record e { accepts = accepts }, none))

-- `exit_code() << 1 | 1` if `done()`, and otherwise 0.
abbrev pub code : Bitbang → ℕ
code b = if b.quit == 0 then 0 else 2 * b.error + 1

existing : Option Bitbang → Setup → Result Bitbang
existing none u = init u
existing (some b) u = ok b

-- `jtag_tick`: the global pointer `jtag` is set at the first call. Besides the state it gives the
-- bytes sent and the number returned.
unfoldable pub jtag_tick :
    Option Bitbang → Setup → Events → (jtag_tdo : ℕ) → Result (Bitbang × Events × Option ℕ × ℕ)
unfolding existing
jtag_tick jtag u e jtag_tdo = do
  b ← existing jtag u
  (b', e', reply) ← tick b e jtag_tdo
  ok (b', e', reply, code b')
