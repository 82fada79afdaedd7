-- ===== src/Tsi/Flush.antt =====
-- The cache-line flush before each chunk.
use thermal_placement.Base.{
  ℕ, zero, suc, ◌+◌, ◌-◌, ◌*◌, ◌/◌, ◌%◌, ◌^◌, ◌≤◌, ◌<◌, ◌≡◌, ◌≢◌, refl, true, false, none, some,
  ltb, lt→ltb, arith, add64, ◌==◌,
}
use thermal_placement.Tsi.{Host, Tsi, line, line_of, flush_line, flush_loop, flush_cache_lines}

-- The lines that hold a byte of `taddr`, …, `taddr + nbytes - 1`, counted from the line of `taddr`; an
-- empty range inside a line counts that line.
abbrev pub lines_touched : (taddr nbytes : ℕ) → ℕ
lines_touched taddr nbytes = (taddr % line + nbytes + (line - 1)) / line

-- Byte `i` of a range lies in one of the lines counted, and each of them holds an address between
-- the start of the first line and the end of the range.
pub record IsCovered (taddr nbytes : ℕ) : Type 0 where
  pub each_byte :
      (i : ℕ)
      → i < nbytes
      → (j : ℕ) × (j < lines_touched taddr nbytes)
        × (line_of taddr + j * line ≤ taddr + i)
        × (taddr + i < line_of taddr + j * line + line)
  pub each_line :
      (j : ℕ) → j < lines_touched taddr nbytes → line_of taddr + j * line < taddr + nbytes

covered : (taddr nbytes : ℕ) → IsCovered taddr nbytes
covered taddr nbytes = record {
  each_byte = λ i h. ((taddr % line + i) / line, omega arith, omega arith, omega arith);
  each_line = λ j h. omega arith;
}

module _ (h : Host) where
  -- `k` flushes of successive lines.
  abbrev pub flush_lines : (k base cflush_addr : ℕ) → h.State → h.State
  flush_lines zero base cflush_addr s = s
  flush_lines (suc k) base cflush_addr s =
      flush_lines k (base + line) cflush_addr (flush_line h cflush_addr base s)

  flush_loop_ends :
      (k fuel base end cflush_addr : ℕ) (s : h.State)
      → k < fuel
      → end ≤ base + k * line
      → base + k * line < end + line
      → base + k * line < 2 ^ 64
      → flush_loop h fuel base end cflush_addr s ≡ some (flush_lines k base cflush_addr s)
  unfolding flush_loop
  flush_loop_ends k zero base end cflush_addr s f above below word = elim f [ ]
  flush_loop_ends zero (suc fuel) base end cflush_addr s f above below word =
      let done : ltb base end ≡ false = ground arith in rw (done, flush_loop)
  flush_loop_ends (suc k) (suc fuel) base end cflush_addr s f above below word =
      let more : ltb base end ≡ true = lt→ltb base end (omega arith) in
      let next : add64 base line ≡ base + line = omega arith in
      rw (more, flush_loop, next)
        (flush_loop_ends k fuel (base + line) end cflush_addr (flush_line h cflush_addr base s)
          (omega arith) (omega arith) (omega arith) (omega arith))

  -- With a flush address, a range that ends at least a line below 2 ^ 64, and fuel for a round more
  -- than the lines that the range touches, the flush ends: it sends
  -- the address of each line that the range touches to the flush address, once and in order. Every
  -- byte of the range lies in a line that is sent.
  pub flush_cache_lines_lem :
      (fuel : ℕ) (t : Tsi) (taddr nbytes : ℕ) (s : h.State)
      → t.cflush_addr ≢ 0
      → taddr + nbytes ≤ 2 ^ 64 - line
      → lines_touched taddr nbytes < fuel
      → (flush_cache_lines h fuel t taddr nbytes s
          ≡ some (flush_lines (lines_touched taddr nbytes) (line_of taddr) t.cflush_addr s))
        × IsCovered taddr nbytes
  unfolding flush_cache_lines
  flush_cache_lines_lem fuel t taddr nbytes s on room f =
      let end : add64 taddr nbytes ≡ taddr + nbytes = omega arith in
      let asked : (t.cflush_addr == 0) ≡ false = ground arith in
      (
        rw (asked, end)
            (flush_loop_ends (lines_touched taddr nbytes) fuel (line_of taddr) (taddr + nbytes)
              t.cflush_addr s f (omega arith) (omega arith) (omega arith)),
        covered taddr nbytes,
      )

  flush_loop_never :
      (fuel base end cflush_addr : ℕ) (s : h.State)
      → base % line ≡ 0
      → base < 2 ^ 64
      → 2 ^ 64 - line < end
      → flush_loop h fuel base end cflush_addr s ≡ none
  unfolding flush_loop
  flush_loop_never zero base end cflush_addr s whole word high = refl
  flush_loop_never (suc fuel) base end cflush_addr s whole word high =
      let more : ltb base end ≡ true = lt→ltb base end (omega arith) in
      rw (more, flush_loop)
        (flush_loop_never fuel (add64 base line) end cflush_addr (flush_line h cflush_addr base s)
          (omega arith) (omega arith) high)

  -- With a flush address, the flush of a range that ends inside the last line below 2 ^ 64 is never
  -- done: the line address wraps to 0 before it reaches the end, so that no number of rounds is
  -- enough.
  pub flush_cache_lines_never :
      (fuel : ℕ) (t : Tsi) (taddr nbytes : ℕ) (s : h.State)
      → t.cflush_addr ≢ 0
      → taddr < 2 ^ 64
      → 2 ^ 64 - line < taddr + nbytes
      → taddr + nbytes < 2 ^ 64
      → flush_cache_lines h fuel t taddr nbytes s ≡ none
  unfolding flush_cache_lines
  flush_cache_lines_never fuel t taddr nbytes s on word high fits =
      let end : add64 taddr nbytes ≡ taddr + nbytes = omega arith in
      let asked : (t.cflush_addr == 0) ≡ false = ground arith in
      rw (asked, end)
        (flush_loop_never fuel (line_of taddr) (taddr + nbytes) t.cflush_addr s (omega arith)
          (omega arith) high)
