-- ===== src/Dramsim/Stages.antt =====
-- The stages of mm_dramsim2_t::tick that take read addresses and write beats.
use native.Mathlib.Decide.{ℕ_discrete}
use thermal_placement.Base.{
  ℕ, ◌+◌, ◌*◌, ◌/◌, ◌^◌, ◌≤◌, ◌<◌, ◌≡◌, refl, Bool, true, false, List, [], ◌∷◌, ◌++◌, ok, length,
  All, All-append, arith, lt→ltb, sub64, add64,
}
use thermal_placement.Memory.{Mm, IsWellFormed}
use thermal_placement.Axi.{Inputs, Store, IsTracked}
use thermal_placement.Axi.Burst.{beat_lem, IsWellFormed-length}
use thermal_placement.Dramsim.Interface.{System, IsAccountable}
use thermal_placement.Dramsim.{Req, Tables, put_queue, enqueue_if, finish_store, write_beat_if}
use thermal_placement.Dramsim.Sound.{IsServable, IsSound}
use thermal_placement.Dramsim.Complete.{IsMatched}
use thermal_placement.Dramsim.Accounted.{put-push-All, length-put-push}

module _ (d : System) (acc : IsAccountable d) where
  open acc use {pending, pending-add}

  pub enqueue_if-All :
      (b : Bool) (m : Mm) (ids : ℕ) (x : Inputs) (q : List Req)
      → x.ar_size ≤ 6
      → (b ≡ true
          → (x.ar_id < ids)
            × (sub64 (x.ar_addr / m.word_size * m.word_size) m.mem_base
                  + add64 x.ar_len 1 * m.word_size
                ≤ m.mem_size))
      → All (IsServable m ids) q
      → (q' : List Req) × (enqueue_if d b x q ≡ ok q') × All (IsServable m ids) q'
  unfolding enqueue_if
  enqueue_if-All false m ids x q size h all = (q, refl, all)
  enqueue_if-All true m ids x q size h all =
      let small : x.ar_size < 31 = omega arith in
      let new : Req = record {
        id = x.ar_id;
        size = 2 ^ x.ar_size;
        len = add64 x.ar_len 1;
        addr = x.ar_addr;
      } in
      let servable : IsServable m ids new = record { known = (h refl).0; inside = (h refl).1 } in
      (
        q ++ new ∷ [],
        rw (lt→ltb _ _ small),
        All-append (IsServable m ids) q (new ∷ []) all (servable, tt),
      )

  -- What the write stage leaves.
  pub record IsWritten (m : Mm) (ids : ℕ) (t : Tables) (s' : Store) (state' : d.State) (t' : Tables)
      : Type 0 where
    pub tracked : IsTracked s'
    pub known : s'.store_inflight ≡ true → s'.store_id < ids
    pub sound : IsSound m ids t'
    pub matched : IsMatched (pending state') [] t'
    pub same_bresp : t'.bresp ≡ t.bresp
    pub same_rresp : t'.rresp ≡ t.rresp

  finish_store-IsWritten :
      (m : Mm) (ids : ℕ) (s : Store) (state : d.State) (t : Tables) (w_last : Bool)
      → (s.store_count ≡ 0 → w_last ≡ true)
      → s.store_count < 2 ^ 64
      → s.store_size ≤ 64
      → s.store_id < ids
      → IsSound m ids t
      → IsMatched (pending state) [] t
      → (s' : Store) × (state' : d.State) × (t' : Tables) × (finish_store d s state t w_last
          ≡ ok (s', state', t'))
        × IsWritten m ids t s' state' t'
  unfolding finish_store
  finish_store-IsWritten m ids s state t w_last last word size known sound h =
      elim (ℕ_discrete s.store_count 0) [
        | yes e ↦
            let k = s.store_addr in
            let t' : Tables = record t {
              wreq = put_queue t.wreq k (t.wreq k ++ s.store_id ∷ []);
            } in
            (
              record s { store_inflight = false },
              d.add true k state,
              t',
              ground (arith, last e),
              record {
                tracked = record { to_come = λ h. cc; is_word = word; sized = λ _. size };
                known = λ _. known;
                sound = record {
                  read_bits = sound.read_bits;
                  write_bits = sound.write_bits;
                  reads = sound.reads;
                  writes =
                      put-push-All (λ (id : ℕ). id < ids) t.wreq k s.store_id sound.writes known;
                };
                matched = record {
                  reads = λ a. ground (arith, pending-add true k state false a, h.reads a);
                  writes = λ a. ground (
                    arith,
                    length-put-push t.wreq k s.store_id a,
                    pending-add true k state true a,
                    h.writes a,
                  );
                };
                same_bresp = refl;
                same_rresp = refl;
              },
            )
        | no ne ↦ (
          s,
          state,
          t,
          ground arith,
          record {
            tracked = record { to_come = λ _. omega arith; is_word = word; sized = λ _. size };
            known = λ _. known;
            sound = sound;
            matched = h;
            same_bresp = refl;
            same_rresp = refl;
          },
        )
      ]

  pub write_stage :
      (b : Bool) (m : Mm) (ids : ℕ) (s : Store) (mem : List ℕ) (state : d.State) (t : Tables)
      (x : Inputs)
      → IsWellFormed m mem
      → IsTracked s
      → (s.store_inflight ≡ true → s.store_id < ids)
      → (b ≡ true
          → (s.store_inflight ≡ true)
            × (sub64 s.store_addr m.mem_base < m.mem_size)
            × (s.store_count ≡ 1 → x.w_last ≡ true))
      → m.word_size ≤ length x.w_data
      → IsSound m ids t
      → IsMatched (pending state) [] t
      → (s' : Store) × (mem' : List ℕ) × (state' : d.State) × (t' : Tables) × (write_beat_if d b m s
            mem state t x
          ≡ ok (s', mem', state', t'))
        × IsWellFormed m mem'
        × IsWritten m ids t s' state' t'
  unfolding write_beat_if
  write_stage false m ids s mem state t x v tr known fits data_fits sound h = (
    s,
    mem,
    state,
    t,
    refl,
    v,
    record {
      tracked = tr;
      known = known;
      sound = sound;
      matched = h;
      same_bresp = refl;
      same_rresp = refl;
    },
  )
  write_stage true m ids s mem state t x v tr known fits data_fits sound h =
      let (inflight, here, mark) = fits refl in
      let count_pos = tr.to_come inflight in
      let word = tr.is_word in
      let (mem', _, moved, kept) = beat_lem m s mem x v here (tr.sized inflight) data_fits in
      let s₁ : Store = record s {
        store_addr = add64 s.store_addr s.store_size;
        store_count = sub64 s.store_count 1;
      } in
      let (s', state', t', done, w) =
        finish_store-IsWritten m ids s₁ state t x.w_last (λ e. mark (omega arith)) (omega arith)
          (tr.sized inflight) (known inflight) sound h in
      (s', mem', state', t', rw (moved, done), IsWellFormed-length m mem mem' kept v, w)
