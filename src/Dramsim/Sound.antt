-- ===== src/Dramsim/Sound.antt =====
-- One callback on tables that hold servable requests.
use native.Mathlib.Decide.{ℕ_discrete}
use thermal_placement.Base.{
  ℕ, zero, suc, ◌+◌, ◌*◌, ◌/◌, ◌%◌, ◌^◌, ◌≤◌, ◌<◌, ◌≡◌, refl, ap, ◌∙◌, subst, Bool, true, false,
  List, [], ◌∷◌, ◌++◌, ok, if◌then◌else◌, ◌==◌, length, set, length-set, All, arith, lt→ltb, sub64,
  add64,
}
use thermal_placement.Memory.{Mm, IsWellFormed}
use thermal_placement.Memory.Read.{read_lem}
use thermal_placement.Axi.{RResp}
use thermal_placement.Dramsim.Interface.{same}
use thermal_placement.Dramsim.{Req, Tables, put_queue, set_bit, push_words, read_front, write_front}

-- A read request that the tables can serve: its id has a busy bit, and its beats lie in the memory.
pub record IsServable (m : Mm) (ids : ℕ) (r : Req) : Type 0 where
  pub known : r.id < ids
  pub inside :
      sub64 (r.addr / m.word_size * m.word_size) m.mem_base + r.len * m.word_size ≤ m.mem_size

-- The tables hold servable requests only, and a busy bit for each id.
pub record IsSound (m : Mm) (ids : ℕ) (t : Tables) : Type 0 where
  pub read_bits : length t.read_id_busy ≡ ids
  pub write_bits : length t.write_id_busy ≡ ids
  pub reads : (a : ℕ) → All (IsServable m ids) (t.rreq a)
  pub writes : (a : ℕ) → All (λ id. id < ids) (t.wreq a)

word_inside : (i len w o size : ℕ) → i < len → o + len * w ≤ size → o + i * w + w ≤ size
word_inside i len w o size h fits = grind arith

word_offset :
    (base size start off w : ℕ)
    → base + size ≤ 2 ^ 64
    → 0 < w
    → sub64 start base + off + w ≤ size
    → sub64 (add64 start (off % 2 ^ 64)) base ≡ sub64 start base + off
word_offset base size start off w fits pos h = omega arith

push_words_lem :
    (n i : ℕ) (m : Mm) (mem : List ℕ) (start id len : ℕ) (q : List RResp)
    → IsWellFormed m mem
    → sub64 start m.mem_base + len * m.word_size ≤ m.mem_size
    → i + n ≡ len
    → (q' : List RResp) × (push_words n i m mem start id len q ≡ ok q')
unfolding push_words
push_words_lem zero i m mem start id len q v h e = (q, refl)
push_words_lem (suc n) i m mem start id len q v h e =
    let off = i * m.word_size in
    let o = sub64 start m.mem_base in
    let room = word_inside i len m.word_size o m.mem_size (omega arith) h in
    let pos : 0 < m.word_size = v.word_pos in
    let shift = word_offset m.mem_base m.mem_size start off m.word_size v.base_fits pos room in
    let here : sub64 (add64 start (off % 2 ^ 64)) m.mem_base + m.word_size ≤ m.mem_size =
      omega arith in
    let (dat, got, _, _) = read_lem m mem (add64 start (off % 2 ^ 64)) pos v.buffer here in
    let (q', pushed) =
      push_words_lem n (suc i) m mem start id len
        (q ++ record { id = id; bytes = dat; last = i == sub64 len 1 } ∷ []) v h (omega arith) in
    (q', rw got pushed)

pub if-All {κ} :
    {A : Type 0} (P : A → Type κ) (b : Bool) (q r : List A)
    → All P q
    → All P r
    → All P (if b then q else r)
if-All P true q r h k = h
if-All P false q r h k = k

-- One of an entry's queue, or none.
abbrev pub taken : ℕ → ℕ → ℕ
taken k a = if a == k then 1 else 0

length-put :
    {A : Type 0} (f : ℕ → List A) (k : ℕ) (x : A) (q : List A)
    → f k ≡ x ∷ q
    → (a : ℕ) → length (put_queue f k q a) + taken k a ≡ length (f a)
length-put f k x q e a = elim (ℕ_discrete a k) [
  | yes same_key ↦ ground (arith, ap length e, ap (λ (t : ℕ). length (f t)) same_key)
  | no other ↦ ground arith
]

pub set_bit_lem : (v : List Bool) (i : ℕ) (b : Bool) → i < length v → set_bit v i b ≡ ok (set v i b)
set_bit_lem v i b h = rw (lt→ltb _ _ h)

-- What a callback leaves: sound tables with one entry less under its kind and address.
pub record IsServed (m : Mm) (ids : ℕ) (w : Bool) (k : ℕ) (t t' : Tables) : Type 0 where
  pub sound : IsSound m ids t'
  pub reads :
      (a : ℕ) → length (t'.rreq a) + (if same false w then taken k a else 0) ≡ length (t.rreq a)
  pub writes :
      (a : ℕ) → length (t'.wreq a) + (if same true w then taken k a else 0) ≡ length (t.wreq a)

pub read_front_lem :
    (q : List Req) (m : Mm) (mem : List ℕ) (ids k : ℕ) (t : Tables)
    → IsWellFormed m mem
    → IsSound m ids t
    → t.rreq k ≡ q
    → 0 < length q
    → (t' : Tables) × (read_front q m mem k t ≡ ok t') × IsServed m ids false k t t'
unfolding read_front
read_front_lem [] m mem ids k t v s e h = elim h [ ]
read_front_lem (req ∷ rest) m mem ids k t v s e h =
    let entries = subst (All (IsServable m ids)) e (s.reads k) in
    let servable : IsServable m ids req = entries.0 in
    let start = req.addr / m.word_size * m.word_size in
    let (rresp, pushed) =
      push_words_lem req.len 0 m mem start req.id req.len t.rresp v servable.inside (omega arith) in
    let has_bit : req.id < length t.read_id_busy = omega (arith, s.read_bits, servable.known) in
    let freed = set_bit_lem t.read_id_busy req.id false has_bit in
    (
      record t {
        rreq = put_queue t.rreq k rest;
        rresp = rresp;
        read_id_busy = set t.read_id_busy req.id false;
      },
      rw (lt→ltb _ _ v.word_pos, pushed, freed),
      record {
        sound = record {
          read_bits = length-set t.read_id_busy req.id false ∙ s.read_bits;
          write_bits = s.write_bits;
          reads = λ a. if-All (IsServable m ids) (a == k) rest (t.rreq a) entries.1 (s.reads a);
          writes = s.writes;
        };
        reads = length-put t.rreq k req rest e;
        writes = λ a. omega arith;
      },
    )

pub write_front_lem :
    (q : List ℕ) (m : Mm) (mem : List ℕ) (ids k : ℕ) (t : Tables)
    → IsSound m ids t
    → t.wreq k ≡ q
    → 0 < length q
    → (t' : Tables) × (write_front q k t ≡ ok t') × IsServed m ids true k t t'
unfolding write_front
write_front_lem [] m mem ids k t s e h = elim h [ ]
write_front_lem (b_id ∷ rest) m mem ids k t s e h =
    let entries = subst (All (λ (id : ℕ). id < ids)) e (s.writes k) in
    let has_bit : b_id < length t.write_id_busy = omega (arith, s.write_bits, entries.0) in
    let freed = set_bit_lem t.write_id_busy b_id false has_bit in
    (
      record t {
        bresp = t.bresp ++ b_id ∷ [];
        wreq = put_queue t.wreq k rest;
        write_id_busy = set t.write_id_busy b_id false;
      },
      rw freed,
      record {
        sound = record {
          read_bits = s.read_bits;
          write_bits = length-set t.write_id_busy b_id false ∙ s.write_bits;
          reads = s.reads;
          writes =
              λ a. if-All (λ (id : ℕ). id < ids) (a == k) rest (t.wreq a) entries.1 (s.writes a);
        };
        reads = λ a. omega arith;
        writes = length-put t.wreq k b_id rest e;
      },
    )
