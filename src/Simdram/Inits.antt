-- ===== src/Simdram/Inits.antt =====
-- The buffers over sequences of calls of memory_init.
use thermal_placement.Base.{
  ℕ, ◌≡◌, refl, ap, ap₂, ◌∙◌, subst, List, [], ◌∷◌, Option, some, Result, ok, ◌>>=◌, >>=-eq-ok,
  ok-injective, ok-triple, guard, or_fault, aborted, bad_shift, ltb, get_elem?,
}
use thermal_placement.Memory
use thermal_placement.Axi.{Store}
use thermal_placement.Simdram.{
  Backing, Globals, Libraries, Request, Made, back, scan_arg, scan_args, arguments, default_ini_dir,
  masked, make, memory_init,
}
use thermal_placement.Simdram.Sharing.{
  entry, IsKept, kept-trans, IsBacked, back-IsBacked, back-again,
}

scan_args-same :
    (args : List (List ℕ)) (settings : Globals × List ℕ)
    → ((scan_args args settings).0.backing_mem_data ≡ settings.0.backing_mem_data)
      × ((scan_args args settings).0.buffers ≡ settings.0.buffers)
unfolding scan_args scan_arg
scan_args-same [] settings = (refl, refl)
scan_args-same (arg ∷ args) settings = scan_args-same args (scan_arg arg settings)

-- What memory_init did when it succeeded.
record IsInit (lib : Libraries) (r : Request) (g g' : Globals) (found : Backing) : Type 0 where
  scanned : Globals
  same_maps : scanned.backing_mem_data ≡ g.backing_mem_data
  same_buffers : scanned.buffers ≡ g.buffers
  backed : back lib r.chip_id (masked r) r.mem_size scanned ≡ ok (g', found)

memory_init-IsInit :
    (lib : Libraries) (argv : Option (List (List ℕ))) (garbage : Store × ℕ) (r : Request)
    (g : Globals) {g' : Globals} {found : Backing} {made : Made lib.dramsim}
    → memory_init lib argv garbage r g ≡ ok (g', found, made)
    → IsInit lib r g g' found
unfolding memory_init
memory_init-IsInit lib argv garbage r g {g' = g'} {found = found} done =
    let (checked, _, done₁) = >>=-eq-ok (guard (ltb r.addr_bits 64) bad_shift) _ done in
    let (args, _, done₂) = >>=-eq-ok (or_fault argv aborted) _ done₁ in
    let settings = scan_args (arguments args) (g, default_ini_dir) in
    let same = scan_args-same (arguments args) (g, default_ini_dir) in
    let (out, backed, done₃) =
      >>=-eq-ok (back lib r.chip_id (masked r) r.mem_size settings.0) _ done₂ in
    let (m, _, done₄) =
      >>=-eq-ok (Memory.init (masked r) r.mem_size r.word_size r.line_size (out.1).size) _ done₃ in
    let (made, _, last) = >>=-eq-ok (make lib (out.0).use_dramsim m r settings.1 garbage) _ done₄ in
    let ends = ok-triple last in
    record {
      scanned = settings.0;
      same_maps = same.0;
      same_buffers = same.1;
      backed = backed ∙ ap₂ (λ (x : Globals) (y : Backing). ok (x, y)) ends.0 ends.1;
    }

init-IsBacked :
    (lib : Libraries) (r : Request) (g g' : Globals) (b : Backing)
    → IsInit lib r g g' b
    → IsBacked r.chip_id (masked r) g g' b
init-IsBacked lib r g g' b i =
    let bk = back-IsBacked lib r.chip_id (masked r) r.mem_size i.scanned i.backed in
    record {
      kept =
          kept-trans g i.scanned g'
            (record {
              entries = λ c k x e. ap (λ m. entry m c k) i.same_maps ∙ e;
              contents = λ j buf e. ap (λ l. get_elem? l j) i.same_buffers ∙ e;
            })
            bk.kept;
      present = bk.present;
    }

-- The calls in order.
unfoldable pub run_inits :
    (lib : Libraries) → Option (List (List ℕ)) → Store × ℕ → List Request → Globals → Result Globals
run_inits lib argv garbage [] g = ok g
run_inits lib argv garbage (r ∷ rs) g = do
  (g', found, made) ← memory_init lib argv garbage r g
  run_inits lib argv garbage rs g'

run_inits-IsKept :
    (lib : Libraries) (argv : Option (List (List ℕ))) (garbage : Store × ℕ) (rs : List Request)
    (g : Globals) {g' : Globals}
    → run_inits lib argv garbage rs g ≡ ok g'
    → IsKept g g'
unfolding run_inits
run_inits-IsKept lib argv garbage [] g ran =
    subst (λ (x : Globals). IsKept g x) (ok-injective ran)
      (record { entries = λ c k b e. e; contents = λ j buf e. e })
run_inits-IsKept lib argv garbage (r ∷ rs) g {g' = g'} ran =
    let (out, first, later) = >>=-eq-ok (memory_init lib argv garbage r g) _ ran in
    let b = init-IsBacked lib r g out.0 out.1 (memory_init-IsInit lib argv garbage r g first) in
    kept-trans g out.0 g' b.kept (run_inits-IsKept lib argv garbage rs out.0 later)

-- Once memory_init has returned for a chip and a base address, a later call for the two that returns
-- uses the same buffer, whatever calls came between. It maps no buffer and loads nothing, and every
-- buffer still has the contents that the first call left.
pub memory_init-shares :
    (lib : Libraries) (argv : Option (List (List ℕ))) (garbage : Store × ℕ) (r r' : Request)
    (rs : List Request) (g g₁ g₂ g₃ : Globals) (b b' : Backing) {made made' : Made lib.dramsim}
    → memory_init lib argv garbage r g ≡ ok (g₁, b, made)
    → run_inits lib argv garbage rs g₁ ≡ ok g₂
    → memory_init lib argv garbage r' g₂ ≡ ok (g₃, b', made')
    → r'.chip_id ≡ r.chip_id
    → masked r' ≡ masked r
    → (b' ≡ b)
      × (g₃.buffers ≡ g₂.buffers)
      × ((j : ℕ) (buf : List ℕ)
          → get_elem? g₁.buffers j ≡ some buf
          → get_elem? g₃.buffers j ≡ some buf)
memory_init-shares lib argv garbage r r' rs g g₁ g₂ g₃ b b' first between last chip base =
    let made = init-IsBacked lib r g g₁ b (memory_init-IsInit lib argv garbage r g first) in
    let kept = run_inits-IsKept lib argv garbage rs g₁ between in
    let i = memory_init-IsInit lib argv garbage r' g₂ last in
    let there = kept.entries r.chip_id (masked r) b made.present in
    let there' =
      ap₂ (λ (c k : ℕ). entry i.scanned.backing_mem_data c k) chip base
      ∙ ap (λ m. entry m r.chip_id (masked r)) i.same_maps
      ∙ there in
    let (same, unchanged) =
      back-again lib r'.chip_id (masked r') r'.mem_size i.scanned b there' i.backed in
    let same_buffers = unchanged ∙ i.same_buffers in
    (same, same_buffers, λ j buf e. ap (λ l. get_elem? l j) same_buffers ∙ kept.contents j buf e)
