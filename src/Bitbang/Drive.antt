-- ===== src/Bitbang/Drive.antt =====
-- A client that bit-bangs the JTAG pins.
use thermal_placement.Base.{
  ℕ, ◌+◌, ◌*◌, ◌/◌, ◌%◌, ◌<◌, ◌≡◌, refl, Bool, true, false, List, [], ◌∷◌, ◌++◌, Result, length,
  map, ok, ◌>>=◌, arith,
}
use thermal_placement.Bitbang.{Bitbang, Read, Events, tick}
use thermal_placement.Bitbang.Commands.{AreEmpty, tick-pins}

-- The pins that a client asks for, and the command that asks for them.
pub record Pins : Type 0 where
  pub tck : Bool
  pub tms : Bool
  pub tdi : Bool

abbrev bit : Bool → ℕ
bit true = 1
bit false = 0

abbrev pub command : Pins → ℕ
command p = b'0' + (4 * bit p.tck + 2 * bit p.tms + bit p.tdi)

-- The client's commands in order, behind some empty reads each.
abbrev pub Sends : List Pins → List Read → List Read → Type 0
Sends [] es rest = es ≡ rest
Sends (p ∷ ps) es rest =
    (pre more : List Read) × AreEmpty pre
    × (es ≡ pre ++ Read.byte (command p) ∷ more)
    × Sends ps more rest

-- The pins after each tick.
unfoldable pub drives : Bitbang → Events → List ℕ → Result (List (ℕ × ℕ × ℕ))
drives b e [] = ok []
drives b e (jtag_tdo ∷ tdos) = do
  (b', e', reply) ← tick b e jtag_tdo
  rest ← drives b' e' tdos
  ok ((b'.tck, b'.tms, b'.tdi) ∷ rest)

abbrev pub bits : Pins → ℕ × ℕ × ℕ
bits p = (bit p.tck, bit p.tms, bit p.tdi)

decode :
    (p : Pins)
    → let d = 4 * bit p.tck + 2 * bit p.tms + bit p.tdi in
      (d < 8) × (d / 4 ≡ bit p.tck) × (d / 2 % 2 ≡ bit p.tms) × (d % 2 ≡ bit p.tdi)
decode p = ground arith

-- While `quit` is 0, so that no Q command has come before, a connected client that sends one pin
-- command for each tick drives the target's pins through exactly the settings that it encoded, in
-- order, however many empty reads come between.
pub drives-bits :
    (ps : List Pins) (tdos : List ℕ) (b : Bitbang) (e : Events) (rest : List Read)
    → length tdos ≡ length ps
    → 0 < b.client_fd
    → b.quit ≡ 0
    → Sends ps e.reads rest
    → drives b e tdos ≡ ok (map bits ps)
unfolding drives
drives-bits [] [] b e rest l on live s = refl
drives-bits [] (t ∷ tdos) b e rest l on live s = absurd (omega arith)
drives-bits (p ∷ ps) [] b e rest l on live s = absurd (omega arith)
drives-bits (p ∷ ps) (t ∷ tdos) b e rest l on live (pre, more, quiet, came, later) =
    let d = 4 * bit p.tck + 2 * bit p.tms + bit p.tdi in
    let (small, tck_is, tms_is, tdi_is) = decode p in
    let b' : Bitbang = record b { tdo = t; tck = d / 4; tms = d / 2 % 2; tdi = d % 2 } in
    let after =
      drives-bits ps tdos b' (record e { reads = more }) rest (omega arith) on live later in
    rw (tick-pins b e t d pre more on live small quiet came, after, tck_is, tms_is, tdi_is)
