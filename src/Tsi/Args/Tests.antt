-- ===== src/Tsi/Args/Tests.antt =====
-- Arguments of the host, parsed.
use thermal_placement.Base.{
  ℕ, ◌≡◌, refl, true, false, List, [], ◌∷◌, ◌++◌, map, ok, err, thrown, All, arith,
}
use thermal_placement.Base.Text.{codes, find, strtoull16}
use thermal_placement.Base.Text.Search.{Contains, find-Contains}
use thermal_placement.Tsi.{InitAccess}
use thermal_placement.Tsi.Args.{parse_htif_args, defaults, construct}
use thermal_placement.Tsi.Args.RoundTrip.{written, IsWritable, construct-written}
use thermal_placement.Tsi.Args.Range.{parse_htif_args-thrown, HasData}

abbrev two_accesses : List InitAccess
two_accesses =
    record { address = 16; stdata = 511; store = true }
    ∷ record { address = 8; stdata = 0; store = false }
    ∷ []

abbrev two_arguments : List (List ℕ)
two_arguments = codes "+init_write=0x10:0x1ff" ∷ codes "+init_read=0x8" ∷ []

parses_all :
    construct (codes "sim" ∷ codes "+cflush_addr=0x2010200" ∷ two_arguments) true
    ≡ ok (record defaults { cflush_addr = 0x2010200; init_accesses = two_accesses })
unfolding construct strtoull16 find
parses_all = refl

two_accesses-IsWritable : All (IsWritable 3 3) two_accesses
two_accesses-IsWritable = (
  record {
    address_digits = omega arith;
    address_fits = omega arith;
    stdata_digits = omega arith;
    stdata_fits = omega arith;
    reads_nothing = λ e. cc;
  },
  (
    record {
      address_digits = omega arith;
      address_fits = omega arith;
      stdata_digits = omega arith;
      stdata_fits = omega arith;
      reads_nothing = λ e. refl;
    },
    tt,
  ),
)

construct-written_example :
    construct (codes "sim" ∷ map (written 3 3) two_accesses) true
    ≡ ok (record defaults { init_accesses = two_accesses })
construct-written_example =
    construct-written 3 3 (codes "sim") two_accesses true two_accesses-IsWritable

parses_two :
    parse_htif_args defaults two_arguments ≡ ok (record defaults { init_accesses = two_accesses })
unfolding parse_htif_args strtoull16 find
parses_two = refl

abbrev no_data : List ℕ
no_data = codes "+init_write=0x10"

lacks_data : ¬ Contains (codes ":0x") no_data
unfolding find
lacks_data h = let (i, at) = find-Contains (codes ":0x") no_data h in cc at

two_arguments-HasData : All HasData two_arguments
two_arguments-HasData = (λ e. (codes "+init_write=0x10", codes "1ff", refl), (λ e. cc, tt))

throws : parse_htif_args defaults (two_arguments ++ no_data ∷ []) ≡ err thrown
throws =
    (parse_htif_args-thrown two_arguments defaults two_arguments-HasData).1 no_data [] refl
      lacks_data
