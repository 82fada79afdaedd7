-- ===== src/Bitbang/Commands.antt =====
-- What one command of the remote client does, after any number of empty reads.
use thermal_placement.Base.{
  ℕ, zero, suc, ◌+◌, ◌/◌, ◌%◌, ◌<◌, ◌≡◌, refl, ◌∙◌, List, [], ◌∷◌, ◌++◌, none, some, ok, err, ◌>>=◌,
  blocked, ◌==◌, if◌then◌else◌, lt→ltb, arith,
}
use thermal_placement.Bitbang.{
  Bitbang, Read, Write, Events, read_command, send, dispatch, send_reply, hang_up, execute_command,
  tick,
}

-- Reads after which the loop goes on.
abbrev pub AreEmpty : List Read → Type 0
AreEmpty [] = Unit {0}
AreEmpty (Read.byte c ∷ es) = ⊥
AreEmpty (Read.retry ∷ es) = AreEmpty es
AreEmpty (Read.nothing ∷ es) = AreEmpty es
AreEmpty (Read.failed ∷ es) = ⊥

read_command_lem :
    (pre : List Read) (c : ℕ) (rest : List Read)
    → AreEmpty pre
    → read_command (pre ++ Read.byte c ∷ rest) ≡ ok (c, rest)
unfolding read_command
read_command_lem [] c rest h = refl
read_command_lem (Read.byte d ∷ es) c rest h = absurd h
read_command_lem (Read.retry ∷ es) c rest h = read_command_lem es c rest h
read_command_lem (Read.nothing ∷ es) c rest h = read_command_lem es c rest h
read_command_lem (Read.failed ∷ es) c rest h = absurd h

read_command_blocked : (es : List Read) → AreEmpty es → read_command es ≡ err blocked
unfolding read_command
read_command_blocked [] h = refl
read_command_blocked (Read.byte d ∷ es) h = absurd h
read_command_blocked (Read.retry ∷ es) h = read_command_blocked es h
read_command_blocked (Read.nothing ∷ es) h = read_command_blocked es h
read_command_blocked (Read.failed ∷ es) h = absurd h

-- With a client connected, a tick waits inside the call for the client's next byte: while only EAGAIN
-- and empty reads come, it does not return.
pub tick-blocks :
    (b : Bitbang) (e : Events) (jtag_tdo : ℕ)
    → 0 < b.client_fd
    → AreEmpty e.reads
    → tick b e jtag_tdo ≡ err blocked
unfolding tick execute_command
tick-blocks b e jtag_tdo on h = rw (lt→ltb _ _ on, read_command_blocked e.reads h)

dispatch_digit :
    (d : ℕ) (b : Bitbang)
    → d < 8
    → dispatch (b'0' + d) b ≡ (record b { tck = d / 4; tms = d / 2 % 2; tdi = d % 2 }, none)
unfolding dispatch
dispatch_digit zero b h = refl
dispatch_digit (suc zero) b h = refl
dispatch_digit (suc (suc zero)) b h = refl
dispatch_digit (suc (suc (suc zero))) b h = refl
dispatch_digit (suc (suc (suc (suc zero)))) b h = refl
dispatch_digit (suc (suc (suc (suc (suc zero))))) b h = refl
dispatch_digit (suc (suc (suc (suc (suc (suc zero)))))) b h = refl
dispatch_digit (suc (suc (suc (suc (suc (suc (suc zero))))))) b h = refl
dispatch_digit (suc (suc (suc (suc (suc (suc (suc (suc d)))))))) b h = absurd (omega arith)

-- A tick with a client connected executes the first command that comes.
tick_command :
    (b : Bitbang) (e : Events) (jtag_tdo c : ℕ) (pre rest : List Read)
    → 0 < b.client_fd
    → AreEmpty pre
    → e.reads ≡ pre ++ Read.byte c ∷ rest
    → let after = dispatch c (record b { tdo = jtag_tdo }) in
      tick b e jtag_tdo ≡ (
        send_reply after.1 e.writes >>= λ writes.
        ok (hang_up after.0, record e { reads = rest; writes = writes }, after.1))
unfolding tick execute_command
tick_command b e jtag_tdo c pre rest on quiet came =
    rw (lt→ltb _ _ on, came, read_command_lem pre c rest quiet)

-- A digit command drives the three pins by its bits, keeps all else but the sampled `tdo`, and sends
-- nothing.
pub tick-pins :
    (b : Bitbang) (e : Events) (jtag_tdo d : ℕ) (pre rest : List Read)
    → 0 < b.client_fd
    → b.quit ≡ 0
    → d < 8
    → AreEmpty pre
    → e.reads ≡ pre ++ Read.byte (b'0' + d) ∷ rest
    → tick b e jtag_tdo
      ≡ ok (
        record b { tdo = jtag_tdo; tck = d / 4; tms = d / 2 % 2; tdi = d % 2 },
        record e { reads = rest },
        none,
      )
unfolding send_reply hang_up
tick-pins b e jtag_tdo d pre rest on live small quiet came =
    tick_command b e jtag_tdo (b'0' + d) pre rest on quiet came
    ∙ rw (dispatch_digit d (record b { tdo = jtag_tdo }) small) (ground arith)

-- Writes after which the loop goes on.
abbrev pub AreStalled : List Write → Type 0
AreStalled [] = Unit {0}
AreStalled (Write.sent ∷ es) = ⊥
AreStalled (Write.nothing ∷ es) = AreStalled es
AreStalled (Write.failed ∷ es) = ⊥

send_lem : (pre rest : List Write) → AreStalled pre → send (pre ++ Write.sent ∷ rest) ≡ ok rest
unfolding send
send_lem [] rest h = refl
send_lem (Write.sent ∷ es) rest h = absurd h
send_lem (Write.nothing ∷ es) rest h = send_lem es rest h
send_lem (Write.failed ∷ es) rest h = absurd h

-- `R` answers the bit that the tick sampled, `1` for any value but 0, however often the write stalls.
-- It keeps the pins.
tick-sample :
    (b : Bitbang) (e : Events) (jtag_tdo : ℕ) (pre rest : List Read) (stalls left : List Write)
    → 0 < b.client_fd
    → b.quit ≡ 0
    → AreEmpty pre
    → AreStalled stalls
    → e.reads ≡ pre ++ Read.byte b'R' ∷ rest
    → e.writes ≡ stalls ++ Write.sent ∷ left
    → tick b e jtag_tdo
      ≡ ok (
        record b { tdo = jtag_tdo },
        record e { reads = rest; writes = left },
        some (if jtag_tdo == 0 then b'0' else b'1'),
      )
unfolding dispatch send_reply hang_up
tick-sample b e jtag_tdo pre rest stalls left on live quiet stall came goes =
    tick_command b e jtag_tdo b'R' pre rest on quiet came
    ∙ rw (goes, send_lem stalls left stall) (ground arith)

-- `Q` raises `quit` and drops the client. It keeps the pins and sends nothing.
tick-quit :
    (b : Bitbang) (e : Events) (jtag_tdo : ℕ) (pre rest : List Read)
    → 0 < b.client_fd
    → AreEmpty pre
    → e.reads ≡ pre ++ Read.byte b'Q' ∷ rest
    → tick b e jtag_tdo
      ≡ ok (record b { tdo = jtag_tdo; quit = 1; client_fd = 0 }, record e { reads = rest }, none)
unfolding dispatch send_reply hang_up
tick-quit b e jtag_tdo pre rest on quiet came =
    tick_command b e jtag_tdo b'Q' pre rest on quiet came
