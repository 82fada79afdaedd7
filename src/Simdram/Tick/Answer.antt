-- ===== src/Simdram/Tick/Answer.antt =====
-- What memory_tick replies for an immediate memory that has been asked for words.
use thermal_placement.Base.{
  ℕ, zero, suc, ◌+◌, ◌%◌, ◌≤◌, All, ◌*◌, ◌/◌, ◌<◌, ◌≡◌, refl, sym, ap, ◌∙◌, subst, true, false,
  List, [], ◌∷◌, map, some, ok, ◌==◌, length, get_elem?, take, drop, sub64, >>=-eq-ok, ok-injective,
  ok-triple, arith,
}
use thermal_placement.Base.Ints.{IsInt, to_u64, to_int, to_int-to_u64}
use thermal_placement.Axi.{RResp, front_data}
use thermal_placement.Magic
use thermal_placement.Magic.{Magic}
use thermal_placement.Magic.Answer.{tick-first}
use thermal_placement.Dramsim.Interface.{System, IsAccountable}
use thermal_placement.Simdram.{Backing, Made, immediate}
use thermal_placement.Simdram.Tick.{
  Simulator, Call, Reply, inputs, truth, char_of, memory_tick, put_elems, dispatch_tick, outputs,
}
use thermal_placement.Simdram.Tick.Elems.{
  overrun, IsByteArray, IsByte, put_elems-low, low_bytes, All-take, All-drop,
}
use thermal_placement.Simdram.Tick.Served.{copy_elems-some, IsServed}
use thermal_placement.Simdram.Tick.Shared.{memory_tick-IsHeld}

take-take : (n : ℕ) (xs : List ℕ) → take n (take n xs) ≡ take n xs
take-take zero xs = refl
take-take (suc n) [] = refl
take-take (suc n) (x ∷ xs) = ap (λ l. x ∷ l) (take-take n xs)

zero_test : (n : ℕ) → (0 == n) ≡ (n == 0)
zero_test n = ground arith

module _ (sim : Simulator) (d : System) where
  -- The reply shows the first beat that waits.
  abbrev Shows : Reply → (r_data_bytes : ℕ) → RResp → Type 0
  Shows reply n b =
      (reply.r_valid ≡ 1)
      × (reply.r_id ≡ to_int b.id)
      × (reply.r_last ≡ char_of b.last)
      × (reply.r_data ≡ map (λ v. v % 256) (take n b.bytes))

  outputs-Shows :
      (s : Magic) (mem : List ℕ) (n : ℕ) (reply : Reply) (b : RResp) (rest : List RResp)
      → IsByteArray sim
      → n ≤ length b.bytes
      → outputs sim d (immediate s) mem n ≡ ok reply
      → s.rresp ≡ b ∷ rest
      → Shows reply n b
  unfolding outputs Magic.r_id Magic.r_data Magic.r_last
  outputs-Shows s mem n reply b rest array short e first =
      let (bytes, put, made) = >>=-eq-ok (put_elems sim n (front_data s.rresp mem)) _ e in
      let shown = put_elems-low sim n b.bytes bytes array short (rw first at put) in
      subst (λ (r : Reply). Shows r n b) (ok-injective made)
        (rw first refl, rw first refl, rw first refl, shown)

  -- The tick behind a call that returns.
  memory_tick-eq-ok :
      (found : Backing) (s : Magic) (buffers buffers' : List (List ℕ)) (c : Call) (dat mem : List ℕ)
      (made' : Made d) (reply : Reply)
      → memory_tick sim d found (immediate s) buffers c ≡ ok (made', buffers', reply)
      → c.w_data ≡ map some dat
      → get_elem? buffers found.data_at ≡ some mem
      → (s' : Magic) × (mem' : List ℕ) × (Magic.tick s mem (inputs c dat) ≡ ok (s', mem'))
        × (outputs sim d (immediate s') mem' c.r_data_bytes ≡ ok reply)
  unfolding memory_tick dispatch_tick
  memory_tick-eq-ok found s buffers buffers' c dat mem made' reply e copied here =
      let e₀ = rw (copied, copy_elems-some dat, here) at e in
      let (out, ticked, e₁) = >>=-eq-ok (dispatch_tick d (immediate s) mem (inputs c dat)) _ e₀ in
      let (pair, ticks, e₂) = >>=-eq-ok (Magic.tick s mem (inputs c dat)) _ ticked in
      let (r, replied, e₃) = >>=-eq-ok (outputs sim d out.0 out.1 c.r_data_bytes) _ e₁ in
      (
        pair.0,
        pair.1,
        ticks,
        subst (λ (o : Made d × List ℕ). outputs sim d o.0 o.1 c.r_data_bytes ≡ ok reply)
            (sym (ok-injective e₂)) (replied ∙ ap ok (ok-triple e₃).2),
      )

module _ (sim : Simulator) (d : System) (acc : IsAccountable d) where
  -- A legal call outside reset that asks an immediate memory for a burst returns, when the memory is in
  -- order, its buffer holds bytes and is not empty, none of its beats waits, the id is an int, the reply
  -- has a whole word, the elements of the reply's array keep the low byte of what they are given, and a
  -- simulation by Verilator has three bytes to read behind the read data. The reply offers a beat with
  -- the id that was asked for, a negative one too, and the bytes that the word of the address had before
  -- the call; it is marked `last` when the burst has no other beat.
  pub memory_tick-reads :
      (found : Backing) (s : Magic) (buffers : List (List ℕ)) (mem : List ℕ) (c : Call)
      (w_data_arr : List ℕ)
      → overrun sim ≤ length sim.behind
      → IsByteArray sim
      → All IsByte mem
      → get_elem? buffers found.data_at ≡ some mem
      → 0 < length mem
      → Magic.Ticks.IsGood s mem
      → s.rresp ≡ []
      → c.w_data ≡ map some w_data_arr
      → c.r_data_bytes ≡ s.mm.word_size
      → Magic.Ticks.IsLegal s (inputs c w_data_arr)
      → truth c.reset ≡ false
      → truth c.ar_valid ≡ true
      → IsInt c.ar_id
      → (made' : Made d) × (buffers' : List (List ℕ)) × (reply : Reply) × (memory_tick sim d found
            (immediate s)
            buffers
            c
          ≡ ok (made', buffers', reply))
        × (reply.r_valid ≡ 1)
        × (reply.r_id ≡ c.ar_id)
        × (reply.r_last ≡ char_of (to_u64 c.ar_len == 0))
        × (reply.r_data
            ≡ take s.mm.word_size (
                drop
                  (sub64 (to_u64 c.ar_addr / s.mm.word_size * s.mm.word_size) s.mm.mem_base)
                  mem))
  memory_tick-reads found s buffers mem c dat room array in_bytes here some_bytes g idle copied
        width legal live asked int =
      let served : IsServed d acc 0 (immediate s) mem = record {
        settled = g;
        widths = rw idle tt;
      } in
      let (made', buffers', reply, called, _, _) =
        memory_tick-IsHeld sim d acc 0 found (immediate s) buffers c dat [] room
          (mem, here, some_bytes, served) copied (omega (arith, width)) legal tt in
      let (s', mem', ticks, replied) =
        memory_tick-eq-ok sim d found s buffers buffers' c dat mem made' reply called copied here in
      let w = s.mm.word_size in
      let o = sub64 (to_u64 c.ar_addr / w * w) s.mm.mem_base in
      let (rest, first) =
        tick-first s s' mem mem' (inputs c dat) ticks live asked idle g.memory
          (legal.reads asked) in
      let (_, widths) = Magic.Widths.tick-widths s s' mem mem' (inputs c dat) ticks (rw idle tt) in
      let filled = (rw first at widths).0 in
      let (valid, id, last, bytes) =
        outputs-Shows sim d s' mem' c.r_data_bytes reply _ rest array (omega (arith, filled, width))
          replied first in
      let same : o + 0 * w ≡ o = omega arith in
      let shown = take w (drop o mem) in
      let lows =
        low_bytes shown (All-take IsByte w (drop o mem) (All-drop IsByte o mem in_bytes)) in
      (
        made',
        buffers',
        reply,
        called,
        valid,
        id ∙ to_int-to_u64 c.ar_id int,
        last ∙ ap char_of (zero_test (to_u64 c.ar_len)),
        bytes ∙ rw (width, same, take-take w (drop o mem)) lows,
      )
