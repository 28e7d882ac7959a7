-- ===== src/AutoDeviceNr.antt =====
-- code/ioc_auto_device_nr.c: numbers for devices that have none.
pub mod Chosen
pub mod Reserved
mod Runs
use iocom.Base.{
  ℕ, ◌+◌, ◌-◌, ◌%◌, ◌^◌, Bool, true, false, not, ◌&&◌, ◌||◌, Option, none, some, List, [], ◌∷◌, ltb,
  leb, ◌==◌, if◌then◌else◌, set, at,
}

-- IOC_RESERVED_AUTO_DEVICE_NR_START
abbrev pub reserved_start : ℕ
reserved_start = 9000 + 1

-- IOC_AUTO_DEVICE_NR_START
abbrev pub nr_start : ℕ
nr_start = 9000 + 31001

-- `iocSavedAutoNrData`: row `i` of the table is element `i` of both lists.
pub record Saved : Type 0 where
  pub reserve_auto_device_nr : ℕ
  pub device_nr : List ℕ
  pub unique_id_bin : List (List ℕ)

-- `iocAutoDeviceNrState`
pub record AutoNr : Type 0 where
  pub auto_device_nr : ℕ
  pub data_loaded : Bool
  pub saved : Saved

-- `os_memcmp` of identifiers of one length.
unfoldable pub is_same_id : List ℕ → List ℕ → Bool
is_same_id [] [] = true
is_same_id [] (y ∷ ys) = false
is_same_id (x ∷ xs) [] = false
is_same_id (x ∷ xs) (y ∷ ys) = x == y && is_same_id xs ys

-- The first row with an identifier.
unfoldable pub find_row : List ℕ → List ℕ → List (List ℕ) → Option ℕ
find_row unique_id [] ids = none
find_row unique_id (nr ∷ nrs) [] = none
find_row unique_id (nr ∷ nrs) (row_id ∷ ids) =
    let rest = find_row unique_id nrs ids in if is_same_id unique_id row_id then some nr else rest

-- The number to give next, in range.
unfoldable pub reserve_from : ℕ → ℕ
reserve_from nr = if ltb nr reserved_start || ltb (nr_start - 2) nr then reserved_start else nr

-- A row, and its number as a distance that rolls around.
pub record Choice : Type 0 where
  pub smallest_i : ℕ
  pub id : ℕ

unfoldable pub first_choice : ℕ → ℕ → Choice
first_choice reserve nr = record {
  smallest_i = 0;
  id = if ltb nr reserve then (nr + nr_start) % 2 ^ 32 else nr;
}

unfoldable pub choose_ahead : ℕ → ℕ → ℕ → Choice → Choice
choose_ahead reserve i nr c =
    if leb reserve nr && ltb nr c.id then record { smallest_i = i; id = nr } else c

unfoldable pub choose_behind : ℕ → ℕ → Choice → Choice
choose_behind i nr c =
    if ltb ((nr + nr_start) % 2 ^ 32) c.id
    then record { smallest_i = i; id = (nr + nr_start) % 2 ^ 32 }
    else c

unfoldable pub choose_row : ℕ → ℕ → Choice → List ℕ → Choice
choose_row reserve i c [] = c
choose_row reserve i c (nr ∷ nrs) =
    choose_row reserve (i + 1) (choose_behind i nr (choose_ahead reserve i nr c)) nrs

unfoldable pub row_to_use : ℕ → List ℕ → ℕ
row_to_use reserve nrs = (choose_row reserve 0 (first_choice reserve (at nrs 0)) nrs).smallest_i

-- A row gets the next number.
unfoldable pub use_row : List ℕ → ℕ → Saved → ℕ × Saved
use_row unique_id reserve d =
    let i = row_to_use reserve d.device_nr in
    (
      reserve,
      record {
        reserve_auto_device_nr = reserve + 1;
        device_nr = set d.device_nr i reserve;
        unique_id_bin = set d.unique_id_bin i unique_id;
      },
    )

unfoldable pub reserve_or_find : List ℕ → Option ℕ → Saved → ℕ × Saved
reserve_or_find unique_id none d = use_row unique_id (reserve_from d.reserve_auto_device_nr) d
reserve_or_find unique_id (some nr) d = (nr, d)

-- `ioc_get_reserved_autonr`: `stored` is what `os_load_persistent` makes of the table. The save is
-- left out.
unfoldable pub get_reserved_autonr : (Saved → Saved) → List ℕ → AutoNr → ℕ × AutoNr
get_reserved_autonr stored unique_id a =
    let d = if a.data_loaded then a.saved else stored a.saved in
    let r = reserve_or_find unique_id (find_row unique_id d.device_nr d.unique_id_bin) d in
    (r.0, record a { data_loaded = true; saved = r.1 })

-- Whether a connection has the number: `cons` are the numbers of the connections.
unfoldable pub is_used : ℕ → List ℕ → Bool
is_used id [] = false
is_used id (c ∷ cs) = id == c || is_used id cs

-- Random numbers, as many as are tried, until one is not used.
unfoldable pub pick_random : List ℕ → List ℕ → ℕ
pick_random cons [] = 1
pick_random cons (id ∷ ids) =
    let rest = pick_random cons ids in if is_used id cons then rest else id

unfoldable pub has_bits : List ℕ → Bool
has_bits [] = false
has_bits (b ∷ bs) = not (b == 0) || has_bits bs

-- The next number is counted, but not used.
unfoldable pub count_number : AutoNr → AutoNr
count_number a =
    if not (a.auto_device_nr == 0)
    then record a { auto_device_nr = (a.auto_device_nr + 1) % 2 ^ 32 }
    else a

-- `ioc_get_automatic_device_nr`: `rands` are the 100000 numbers of `osal_rand`.
unfoldable pub get_automatic_device_nr :
    (Saved → Saved) → List ℕ → List ℕ → Option (List ℕ) → AutoNr → ℕ × AutoNr
get_automatic_device_nr stored rands cons none a = (pick_random cons rands, count_number a)
get_automatic_device_nr stored rands cons (some unique_id) a =
    if has_bits unique_id
    then get_reserved_autonr stored unique_id a
    else (pick_random cons rands, count_number a)
