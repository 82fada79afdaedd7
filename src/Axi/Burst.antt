-- ===== src/Axi/Burst.antt =====
-- The write-burst tracker: what accepting an address and each beat do to it.
use thermal_placement.Base.{
  Bool, false, not, ◌&&◌, [], ◌∷◌, ◌++◌, refl, ◌-◌, if◌then◌else◌, ℕ, ◌^◌, ◌≤◌, ◌<◌, ◌≡◌, true,
  List, ok, length, add64, sub64, arith, lt→ltb,
}
use thermal_placement.Memory.{Mm, write, IsWellFormed}
use thermal_placement.Memory.Write.{write_lem}
use thermal_placement.Axi.{Inputs, Store, is_empty, pop_if, accept, beat, IsTracked}
use native.Mathlib.Nat.{pow-le-pow_right}

-- An accepted address starts a burst of `aw_len + 1` beats of `2 ^ aw_size` bytes.
pub accept_lem :
    (s : Store) (x : Inputs)
    → x.aw_size ≤ 6
    → accept s x
      ≡ ok (record {
        store_inflight = true;
        store_addr = x.aw_addr;
        store_id = x.aw_id;
        store_size = 2 ^ x.aw_size;
        store_count = add64 x.aw_len 1;
      })
unfolding accept
accept_lem s x h = let small : x.aw_size < 31 = omega arith in rw (lt→ltb _ _ small)

pub size_small : (k : ℕ) → k ≤ 6 → 2 ^ k ≤ 64
size_small k h = pow-le-pow_right {n = 2} (omega arith) {i = k} {j = 6} h

-- A beat in range writes its word and moves the tracker on.
pub beat_lem :
    (m : Mm) (s : Store) (mem : List ℕ) (x : Inputs)
    → IsWellFormed m mem
    → sub64 s.store_addr m.mem_base < m.mem_size
    → s.store_size ≤ 64
    → m.word_size ≤ length x.w_data
    → (mem' : List ℕ) × (write m mem s.store_addr x.w_data x.w_strb s.store_size ≡ ok mem')
      × (beat m s mem x
          ≡ ok (
            record s {
              store_addr = add64 s.store_addr s.store_size;
              store_count = sub64 s.store_count 1;
            },
            mem',
          ))
      × (length mem' ≡ length mem)
unfolding beat
beat_lem m s mem x v h size d =
    let (mem', wrote, same, _) =
      write_lem m mem s.store_addr x.w_data x.w_strb s.store_size v h size d in
    (mem', wrote, rw wrote, same)

pub IsWellFormed-length :
    (m : Mm) (mem mem' : List ℕ)
    → length mem' ≡ length mem
    → IsWellFormed m mem
    → IsWellFormed m mem'
IsWellFormed-length m mem mem' e v = omega arith

-- A pop under a flag that asks for a waiting entry, also when entries came in meanwhile.
pub pop_if_lem {ℓ} :
    {A : Type ℓ} (c b : Bool) (q extra : List A)
    → (q' : List A) × (pop_if (c && (not (is_empty q) && b)) (q ++ extra) ≡ ok q')
pop_if_lem true b [] extra = (extra, refl)
pop_if_lem false b [] extra = (extra, refl)
pop_if_lem true true (x ∷ q) extra = (q ++ extra, refl)
pop_if_lem true false (x ∷ q) extra = (x ∷ q ++ extra, refl)
pop_if_lem false b (x ∷ q) extra = (x ∷ q ++ extra, refl)

-- Accepting under a flag keeps the tracker in order.
pub accept_stage :
    (b : Bool) (s : Store) (x : Inputs)
    → x.aw_size ≤ 6
    → x.aw_len < 2 ^ 64 - 1
    → IsTracked s
    → (s' : Store) × ((if b then accept s x else ok s) ≡ ok s')
      × IsTracked s'
      × (b ≡ false → s' ≡ s)
      × (b ≡ true → s'.store_id ≡ x.aw_id)
accept_stage true s x size len t = (
  _,
  accept_lem s x size,
  record {
    to_come = λ _. omega arith;
    is_word = omega arith;
    sized = λ _. size_small x.aw_size size;
  },
  λ e. cc,
  λ e. refl,
)
accept_stage false s x size len t = (s, refl, t, λ e. refl, λ e. cc)
