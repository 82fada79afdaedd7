-- ===== src/Magic/Hold/Tests.antt =====
-- Responses of a memory of four words that wait over a tick.
use thermal_placement.Base.{◌≡◌, refl, true, false, [], ◌∷◌, ok}
use thermal_placement.Memory.{read}
use thermal_placement.Axi.{Inputs}
use thermal_placement.Magic.{Magic, r_valid, r_id, r_data, r_last, read_burst, tick}
use thermal_placement.Magic.Hold.{tick_holds_beat}
use thermal_placement.Magic.Tests.{small, cells, idle_store, nothing}

-- A read beat and two write responses wait.
abbrev waiting : Magic
waiting = record {
  mm = small;
  store = idle_store;
  bresp = 7 ∷ 8 ∷ [];
  rresp = record { id = 3; bytes = 8 ∷ 9 ∷ 10 ∷ 11 ∷ []; last = true } ∷ [];
  cycle = 1;
}

-- A read of the word at 20 while neither response is taken.
abbrev stalled : Inputs
stalled = record nothing {
  ar_valid = true;
  ar_addr = 20;
  ar_id = 5;
  r_ready = false;
  b_ready = false;
}

abbrev after : Magic
after = record waiting {
  rresp =
      record { id = 3; bytes = 8 ∷ 9 ∷ 10 ∷ 11 ∷ []; last = true }
      ∷ record { id = 5; bytes = 4 ∷ 5 ∷ 6 ∷ 7 ∷ []; last = true }
      ∷ [];
  cycle = 2;
}

ticked : tick waiting cells stalled ≡ ok (after, cells)
unfolding tick read_burst read
ticked = refl

offers_again :
    (r_valid after ≡ true)
    × (r_id after ≡ r_id waiting)
    × (r_data after cells ≡ r_data waiting cells)
    × (r_last after ≡ r_last waiting)
offers_again = tick_holds_beat waiting after cells cells stalled ticked refl refl refl
