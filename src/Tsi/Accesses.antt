-- ===== src/Tsi/Accesses.antt =====
-- The accesses that +init_write and +init_read ask for, and the reset that performs them.
use thermal_placement.Base.{
  ℕ, ◌+◌, ◌-◌, ◌^◌, ◌≤◌, ◌<◌, ◌≡◌, ◌≢◌, refl, true, false, Bool-cases, inl, inr, List, [], ◌∷◌,
  some, All, arith, ◌==◌, if◌then◌else◌,
}
use thermal_placement.Tsi.{
  Host, Tsi, InitAccess, line, line_of, le_bytes, flush_cache_lines, write_chunk, read_chunk,
  perform_one, perform_init_accesses, reset,
}
use thermal_placement.Tsi.Flush.{lines_touched, flush_lines, flush_cache_lines_lem}

-- The 4 bytes end at least a line below 2 ^ 64.
abbrev pub IsInRange : InitAccess → Type 0
IsInRange p = p.address + 4 ≤ 2 ^ 64 - line

module _ (h : Host) (t : Tsi) where
  -- The target after the flush of the lines of the `n` bytes at `taddr`, when one is asked for.
  abbrev pub flushed : (taddr n : ℕ) → h.State → h.State
  flushed taddr n s =
      if t.cflush_addr == 0
      then s
      else flush_lines h (lines_touched taddr n) (line_of taddr) t.cflush_addr s

  -- The target after one access.
  abbrev pub accessed : InitAccess → h.State → h.State
  accessed p s =
      if p.store
      then h.write_chunk p.address (le_bytes 4 p.stdata) (flushed p.address 4 s)
      else (h.read_chunk p.address 4 (flushed p.address 4 s)).0

  -- The target after all of them, the first one first.
  abbrev pub accessed_all : List InitAccess → h.State → h.State
  accessed_all [] s = s
  accessed_all (p ∷ ps) s = accessed_all ps (accessed p s)

  flush_off :
      (fuel taddr n : ℕ) (s : h.State)
      → (t.cflush_addr == 0) ≡ true
      → flush_cache_lines h fuel t taddr n s ≡ some s
  unfolding flush_cache_lines
  flush_off fuel taddr n s off = rw off refl

  pub flush_total :
      (fuel taddr n : ℕ) (s : h.State)
      → taddr + n ≤ 2 ^ 64 - line
      → lines_touched taddr n < fuel
      → flush_cache_lines h fuel t taddr n s ≡ some (flushed taddr n s)
  flush_total fuel taddr n s room f = elim (Bool-cases (t.cflush_addr == 0)) [
    | inl off ↦ rw off (flush_off fuel taddr n s off)
    | inr on ↦
        let asked : t.cflush_addr ≢ 0 = ground arith in
        rw on (flush_cache_lines_lem h fuel t taddr n s asked room f).0
  ]

  perform_one_lem :
      (fuel : ℕ) (p : InitAccess) (s : h.State)
      → t.is_loadmem ≡ false
      → p.address + 4 ≤ 2 ^ 64 - line
      → 2 < fuel
      → perform_one h fuel t p s ≡ some (accessed p s)
  unfolding perform_one write_chunk read_chunk
  perform_one_lem fuel p s slow room f =
      let flush = flush_total fuel p.address 4 s room (omega arith) in
      elim (Bool-cases p.store) [
        | inl w ↦ rw (w, slow, flush) refl
        | inr r ↦ rw (r, slow, flush) refl
      ]

  perform_lem :
      (fuel : ℕ) (ps : List InitAccess) (s : h.State)
      → t.is_loadmem ≡ false
      → 2 < fuel
      → All IsInRange ps
      → perform_init_accesses h fuel t ps s ≡ some (accessed_all ps s)
  unfolding perform_init_accesses
  perform_lem fuel [] s slow f ranges = refl
  perform_lem fuel (p ∷ ps) s slow f ranges =
      let here = perform_one_lem fuel p s slow ranges.0 f in
      let later = perform_lem fuel ps (accessed p s) slow f ranges.1 in
      rw (perform_init_accesses, here) later

  -- Outside a memory load, for accesses that end at least a line below 2 ^ 64, and with fuel for three
  -- rounds, `reset` ends: it performs all the accesses asked for, in their order, each after the flush
  -- of its cache lines when a flush address is set, and then resets the target just when
  -- `write_hart0_msip` is set.
  pub reset_lem :
      (fuel : ℕ) (s : h.State)
      → t.is_loadmem ≡ false
      → 2 < fuel
      → All IsInRange t.init_accesses
      → reset h fuel t s
        ≡ some (
            if t.write_hart0_msip
            then h.reset (accessed_all t.init_accesses s)
            else accessed_all t.init_accesses s)
  unfolding reset
  reset_lem fuel s slow f ranges = rw (perform_lem fuel t.init_accesses s slow f ranges) refl
