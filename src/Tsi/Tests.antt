-- ===== src/Tsi/Tests.antt =====
-- Runs of the serial host at concrete inputs, on a target that keeps a log of its chunks.
use thermal_placement.Base.{
  ℕ, zero, suc, ap, ◌-◌, ◌≡◌, refl, true, false, List, [], ◌∷◌, ◌++◌, none, some, length, arith,
  ◌^◌,
}
use thermal_placement.Tsi.{
  Host, Tsi, line_of, le_bytes, is_simv_opt, flush_line, flush_cache_lines, reset,
  remove_vcs_simv_opt,
}
use thermal_placement.Tsi.Flush.{
  lines_touched, flush_lines, IsCovered, flush_cache_lines_lem, flush_cache_lines_never,
}
use thermal_placement.Tsi.Accesses.{accessed_all, reset_lem}
use thermal_placement.Tsi.Load.{Loader, load_program, stored, load_program_lem}
use thermal_placement.Tsi.Options.{kept, remove_vcs_simv_opt_lem}

-- The chunks written, the last one first, and an empty one for each time the target has run; a read
-- gives zeros.
abbrev logged : Host
logged = record {
  State = List (ℕ × List ℕ);
  write_chunk = λ taddr src log. (taddr, src) ∷ log;
  read_chunk = λ taddr nbytes log. (log, le_bytes nbytes 0);
  reset = λ log. (0x2000000, 1 ∷ []) ∷ log;
  switch_to_target = λ log. (0, []) ∷ log;
}

abbrev host : Tsi
host = record {
  has_loadmem = false;
  is_loadmem = false;
  cflush_addr = 0x2010200;
  write_hart0_msip = true;
  init_accesses =
      record { address = 0x1000; stdata = 258; store = true }
      ∷ record { address = 0x2000; stdata = 0; store = false }
      ∷ [];
}

two_lines : lines_touched 120 16 ≡ 2
two_lines = refl

flush_cache_lines_lem_example :
    (flush_cache_lines logged 3 host 120 16 []
      ≡ some (flush_lines logged (lines_touched 120 16) (line_of 120) 0x2010200 []))
    × IsCovered 120 16
flush_cache_lines_lem_example =
    flush_cache_lines_lem logged 3 host 120 16 [] (omega arith) (omega arith) (omega arith)

flushes_two :
    flush_lines logged 2 64 0x2010200 []
    ≡ (0x2010200, 128 ∷ 0 ∷ 0 ∷ 0 ∷ 0 ∷ 0 ∷ 0 ∷ 0 ∷ [])
      ∷ (0x2010200, 64 ∷ 0 ∷ 0 ∷ 0 ∷ 0 ∷ 0 ∷ 0 ∷ 0 ∷ [])
      ∷ []
unfolding flush_line
flushes_two = refl

flush_cache_lines_never_example : flush_cache_lines logged 5 host (2 ^ 64 - 32) 8 [] ≡ none
flush_cache_lines_never_example =
    flush_cache_lines_never logged 5 host (2 ^ 64 - 32) 8 [] (omega arith) (omega arith)
      (omega arith) (omega arith)

reset_lem_example :
    reset logged 3 host [] ≡ some (logged.reset (accessed_all logged host host.init_accesses []))
reset_lem_example = reset_lem logged host 3 [] refl (omega arith) (omega arith, (omega arith, tt))

-- "-a=1", "--b=1", "x"
abbrev words : List (List ℕ)
words =
    (b'-' ∷ b'a' ∷ b'=' ∷ b'1' ∷ []) ∷ (b'-' ∷ b'-' ∷ b'b' ∷ b'=' ∷ b'1' ∷ []) ∷ (b'x' ∷ []) ∷ []

keeps_two : kept words ≡ (b'-' ∷ b'-' ∷ b'b' ∷ b'=' ∷ b'1' ∷ []) ∷ (b'x' ∷ []) ∷ []
unfolding kept is_simv_opt
keeps_two = refl

remove_vcs_simv_opt_lem_example :
    (junk' : List (List ℕ)) × (remove_vcs_simv_opt 3 (words ++ [])
      ≡ some (length (kept words), kept words ++ junk'))
remove_vcs_simv_opt_lem_example = remove_vcs_simv_opt_lem words []

-- It reads 4 bytes, and writes them to the next line behind a step of its own and a first chunk.
abbrev course : Loader logged.State
course = Loader.write 0x1000 (1 ∷ 2 ∷ []) (
    Loader.own_step (λ log. (1, []) ∷ log)
      (Loader.read 0x2000 (7 ∷ 7 ∷ 7 ∷ 7 ∷ []) (λ bytes. Loader.write 0x2040 bytes Loader.done)))

length-zeros : (n : ℕ) → length (le_bytes n 0) ≡ n
length-zeros zero = refl
length-zeros (suc n) = ap suc (length-zeros n)

load_program_lem_example :
    load_program logged 3 host course [] ≡ some (host, stored logged host course ((0, []) ∷ []))
load_program_lem_example =
    load_program_lem logged 3 host course [] (λ taddr n s. length-zeros n)
      (
        (omega arith, omega arith),
        ((omega arith, omega arith), λ bytes e. ((omega (arith, e), omega (arith, e)), tt)),
      )
