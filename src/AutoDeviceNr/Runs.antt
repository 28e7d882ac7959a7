-- ===== src/AutoDeviceNr/Runs.antt =====
-- code/ioc_auto_device_nr.c: a table of two rows, of which one is used.
use iocom.Base.{
  ℕ, ◌<◌, ◌≡◌, suc, zero, refl, true, false, none, some, List, [], ◌∷◌, at, All, arith,
}
use iocom.AutoDeviceNr.{
  Saved, AutoNr, is_same_id, find_row, reserve_from, row_to_use, use_row, reserve_or_find,
  get_reserved_autonr, choose_row, choose_ahead, choose_behind, first_choice,
  get_automatic_device_nr, has_bits, pick_random, is_used, count_number,
}
use iocom.AutoDeviceNr.Chosen.{AreSmall}
use iocom.AutoDeviceNr.Reserved.{
  IsTable, IsKnown, requests, table_of, get_reserved_autonr-IsTable, get_reserved_autonr-again,
}

abbrev two_rows : Saved
two_rows = record {
  reserve_auto_device_nr = 9002;
  device_nr = 9001 ∷ 0 ∷ [];
  unique_id_bin = (1 ∷ 2 ∷ []) ∷ (0 ∷ 0 ∷ []) ∷ [];
}

abbrev not_loaded : AutoNr
not_loaded = record { auto_device_nr = 40001; data_loaded = false; saved = two_rows }

abbrev as_it_is : Saved → Saved
as_it_is d = d

abbrev new_id : List ℕ
new_id = 3 ∷ 4 ∷ []

-- The free row gets the number.
get_reserved_autonr_run : get_automatic_device_nr as_it_is [] [] (some new_id) not_loaded ≡ (
  9002,
  record {
    auto_device_nr = 40001;
    data_loaded = true;
    saved = record {
      reserve_auto_device_nr = 9003;
      device_nr = 9001 ∷ 9002 ∷ [];
      unique_id_bin = (1 ∷ 2 ∷ []) ∷ (3 ∷ 4 ∷ []) ∷ [];
    };
  },
)
unfolding get_automatic_device_nr has_bits get_reserved_autonr find_row is_same_id reserve_or_find
    reserve_from use_row row_to_use choose_row choose_ahead choose_behind first_choice
get_reserved_autonr_run = refl

-- Without an identifier the next number is counted, and a random one returned.
get_automatic_device_nr_run :
    get_automatic_device_nr as_it_is (12345 ∷ []) [] none not_loaded
    ≡ (12345, record { auto_device_nr = 40002; data_loaded = false; saved = two_rows })
unfolding get_automatic_device_nr pick_random is_used count_number
get_automatic_device_nr_run = refl

two_rows-small : AreSmall (9001 ∷ 0 ∷ [])
unfolding AreSmall
two_rows-small zero k_in = omega arith
two_rows-small (suc zero) k_in = omega arith
two_rows-small (suc (suc k)) k_in = absurd (omega arith)

two_rows-distinct :
    (j k : ℕ)
    → j < 2
    → k < 2
    → at (9001 ∷ 0 ∷ []) j ≡ at (9001 ∷ 0 ∷ []) k
    → 0 < at (9001 ∷ 0 ∷ []) j
    → j ≡ k
two_rows-distinct zero zero j_in k_in e used = refl
two_rows-distinct zero (suc zero) j_in k_in e used = omega arith
two_rows-distinct zero (suc (suc k)) j_in k_in e used = absurd (omega arith)
two_rows-distinct (suc zero) k j_in k_in e used = absurd (omega arith)
two_rows-distinct (suc (suc j)) k j_in k_in e used = absurd (omega arith)

two_rows-IsTable : IsTable (table_of as_it_is not_loaded)
unfolding table_of
two_rows-IsTable = record {
  rows = omega arith;
  same_length = refl;
  small = two_rows-small;
  distinct = two_rows-distinct;
}

get_reserved_autonr-IsTable_example :
    IsTable (get_reserved_autonr as_it_is new_id not_loaded).1.saved
get_reserved_autonr-IsTable_example =
    get_reserved_autonr-IsTable as_it_is new_id not_loaded two_rows-IsTable

-- The identifiers of the table after `new_id` has got a number.
abbrev both_ids : List (List ℕ)
both_ids = (1 ∷ 2 ∷ []) ∷ new_id ∷ (1 ∷ 2 ∷ []) ∷ []

both_ids-IsKnown : All (IsKnown (get_reserved_autonr as_it_is new_id not_loaded).1.saved) both_ids
unfolding IsKnown get_reserved_autonr find_row is_same_id reserve_or_find reserve_from use_row
    row_to_use choose_row choose_ahead choose_behind first_choice
both_ids-IsKnown = ((9001, refl), ((9002, refl), ((9001, refl), tt)))

get_reserved_autonr-again_example :
    get_reserved_autonr as_it_is new_id
      (requests as_it_is both_ids (get_reserved_autonr as_it_is new_id not_loaded).1)
    ≡ get_reserved_autonr as_it_is new_id not_loaded
get_reserved_autonr-again_example =
    get_reserved_autonr-again as_it_is as_it_is new_id both_ids not_loaded two_rows-IsTable
      both_ids-IsKnown
