-- ===== src/Memory/Tests.antt =====
-- A memory of four words of four bytes at address 16, and the theorems at it.
use thermal_placement.Base.{
  ℕ, ◌+◌, ◌-◌, ◌/◌, ◌<◌, ◌≡◌, refl, ◌&&◌, List, [], ◌∷◌, ok, err, assertion, ltb, leb, ◌==◌,
  if◌then◌else◌, length, get_elem?, arith,
}
use thermal_placement.Base.Bits.{and64}
use thermal_placement.Memory.{Mm, init, write, read, IsWellFormed}
use thermal_placement.Memory.Write.{stores_lane, write_lem}
use thermal_placement.Memory.Read.{read-write}

abbrev small : Mm
small = record { mem_base = 16; mem_size = 16; word_size = 4; line_size = 64 }

abbrev cells : List ℕ
cells = 0 ∷ 1 ∷ 2 ∷ 3 ∷ 4 ∷ 5 ∷ 6 ∷ 7 ∷ 8 ∷ 9 ∷ 10 ∷ 11 ∷ 12 ∷ 13 ∷ 14 ∷ 15 ∷ []

abbrev word : List ℕ
word = 100 ∷ 101 ∷ 102 ∷ 103 ∷ []

small-IsWellFormed : IsWellFormed small cells
small-IsWellFormed = omega arith

init_checks_size : (init 16 16 4 64 16 ≡ ok small) × (init 16 16 4 64 15 ≡ err assertion)
unfolding init
init_checks_size = (refl, refl)

-- Lanes 1 and 2 are strobed; the transfer of 2 bytes at offset 5 covers lanes 1 and 2.
write_two_lanes :
    write small cells 21 word 0b0111 2
    ≡ ok (0 ∷ 1 ∷ 2 ∷ 3 ∷ 4 ∷ 101 ∷ 102 ∷ 7 ∷ 8 ∷ 9 ∷ 10 ∷ 11 ∷ 12 ∷ 13 ∷ 14 ∷ 15 ∷ [])
unfolding write and64
write_two_lanes = refl

read_unaligned : read small cells 18 ≡ ok (2 ∷ 3 ∷ 4 ∷ 5 ∷ [])
unfolding read
read_unaligned = refl

write_lem_example :
    (mem' : List ℕ) × (write small cells 21 word 0b0111 2 ≡ ok mem')
    × (length mem' ≡ length cells)
    × ((j : ℕ)
        → get_elem? mem' j ≡ (
            if leb 4 j && (ltb j (4 + 4) && stores_lane small 5 0b0111 2 (j - 4))
            then get_elem? word (j - 4)
            else get_elem? cells j))
write_lem_example =
    write_lem small cells 21 word 0b0111 2 small-IsWellFormed (omega arith) (omega arith)
      (omega arith)

read-write_example :
    (mem' before after : List ℕ) × (write small cells 21 word 0b0111 2 ≡ ok mem')
    × (read small cells 20 ≡ ok before)
    × (read small mem' 20 ≡ ok after)
    × ((i : ℕ)
        → i < 4
        → get_elem? after i ≡ (
            if (5 / 4 == 1) && stores_lane small 5 0b0111 2 i
            then get_elem? word i
            else get_elem? before i))
read-write_example =
    read-write small cells 21 word 0b0111 2 20 1 small-IsWellFormed (omega arith) (omega arith)
      (omega arith) (omega arith) (omega arith)
