-- ===== src/AutoDeviceNr/Reserved.antt =====
-- code/ioc_auto_device_nr.c: the table of numbers that are given to devices.
use iocom.Base.{
  ℕ, ◌-◌, ◌<◌, ◌≡◌, ◌∙◌, suc, zero, refl, sym, ap, subst, Bool, true, false, List, [], ◌∷◌,
  if◌then◌else◌, set, at, at-set, length, length-set, arith, All, Option, none, some,
}
use iocom.AutoDeviceNr.{
  nr_start, Saved, AutoNr, is_same_id, find_row, reserve_from, row_to_use, use_row, reserve_or_find,
  get_reserved_autonr,
}
use iocom.AutoDeviceNr.Chosen.{AreSmall, row_to_use-IsSoonest, row_to_use-taken}

is_same_id_refl : (id : List ℕ) → is_same_id id id ≡ true
unfolding is_same_id
is_same_id_refl [] = refl
is_same_id_refl (x ∷ xs) = let rest = is_same_id_refl xs in ground arith

find_rest :
    (b : Bool) (n : ℕ) (old new wanted : Option ℕ)
    → (if b then some n else old) ≡ none
    → (old ≡ none → new ≡ wanted)
    → (if b then some n else new) ≡ wanted
find_rest true n old new wanted e h = ground arith
find_rest false n old new wanted e h = h e

-- A row that is given to an identifier is found, if none was.
find_row-set :
    (id : List ℕ) (nrs : List ℕ) (ids : List (List ℕ)) (i nr : ℕ)
    → find_row id nrs ids ≡ none
    → i < length nrs
    → length ids ≡ length nrs
    → find_row id (set nrs i nr) (set ids i id) ≡ some nr
unfolding find_row
find_row-set id [] ids i nr e i_in same = absurd (omega arith)
find_row-set id (n ∷ nrs) [] i nr e i_in same = absurd (omega arith)
find_row-set id (n ∷ nrs) (d ∷ ids) zero nr e i_in same =
    ap (λ b. if b then some nr else find_row id nrs ids) (is_same_id_refl id)
find_row-set id (n ∷ nrs) (d ∷ ids) (suc i) nr e i_in same =
    find_rest (is_same_id id d) n (find_row id nrs ids) _ (some nr) e
      (λ h. find_row-set id nrs ids i nr h (omega arith) (omega arith))

-- The table: no two rows have the same number, but for those that are not used.
pub record IsTable (d : Saved) : Type 0 where
  pub rows : 0 < length d.device_nr
  pub same_length : length d.unique_id_bin ≡ length d.device_nr
  pub small : AreSmall d.device_nr
  pub distinct :
      (j k : ℕ)
      → j < length d.device_nr
      → k < length d.device_nr
      → at d.device_nr j ≡ at d.device_nr k
      → 0 < at d.device_nr j
      → j ≡ k

reserve_from-near : (nr : ℕ) → (0 < reserve_from nr) × (reserve_from nr < nr_start - 1)
unfolding reserve_from
reserve_from-near nr = (ground arith, ground arith)

set-distinct :
    (nrs : List ℕ) (i nr j k : ℕ)
    → ((j k : ℕ) → j < length nrs → k < length nrs → at nrs j ≡ at nrs k → 0 < at nrs j → j ≡ k)
    → ((k : ℕ) → k < length nrs → at nrs k ≡ nr → k ≡ i)
    → j < length nrs
    → k < length nrs
    → at (set nrs i nr) j ≡ at (set nrs i nr) k
    → 0 < at (set nrs i nr) j
    → j ≡ k
set-distinct nrs i nr j k distinct only j_in k_in e used =
    let hj = at-set nrs i j nr in
    let hk = at-set nrs i k nr in
    let d = distinct j k j_in k_in in let oj = only j j_in in let ok = only k k_in in ground arith

use_row-IsTable :
    (id : List ℕ) (reserve : ℕ) (d : Saved)
    → 0 < reserve
    → reserve < nr_start - 1
    → IsTable d
    → IsTable (use_row id reserve d).1
unfolding use_row AreSmall
use_row-IsTable id reserve d positive near t = record {
  rows = subst (λ z. 0 < z) (sym (length-set d.device_nr i reserve)) t.rows;
  same_length =
      length-set d.unique_id_bin i id ∙ t.same_length ∙ sym (length-set d.device_nr i reserve);
  small = λ k k_in.
      (let e = at-set d.device_nr i k reserve in
        let h = t.small k (subst (λ z. k < z) (length-set d.device_nr i reserve) k_in) in
        ground arith);
  distinct = λ j k j_in k_in.
      (set-distinct d.device_nr i reserve j k t.distinct only
        (subst (λ z. j < z) (length-set d.device_nr i reserve) j_in)
        (subst (λ z. k < z) (length-set d.device_nr i reserve) k_in));
}
  where
    i : ℕ
    i = row_to_use reserve d.device_nr

    -- The only row with the number is the one that gets it.
    only : (k : ℕ) → k < length d.device_nr → at d.device_nr k ≡ reserve → k ≡ i
    only k k_in e =
        let same = row_to_use-taken reserve d.device_nr k t.rows t.small (omega arith) k_in e in
        let i_in = (row_to_use-IsSoonest reserve d.device_nr t.rows t.small (omega arith)).inside in
        t.distinct k i k_in i_in (e ∙ sym same) (omega arith)

reserve_or_find-IsTable :
    (id : List ℕ) (row : Option ℕ) (d : Saved) → IsTable d → IsTable (reserve_or_find id row d).1
unfolding reserve_or_find
reserve_or_find-IsTable id none d t =
    let near = reserve_from-near d.reserve_auto_device_nr in
    use_row-IsTable id (reserve_from d.reserve_auto_device_nr) d near.0 near.1 t
reserve_or_find-IsTable id (some nr) d t = t

-- What a table answers after a number was given.
reserve_or_find-found :
    (id : List ℕ) (row : Option ℕ) (d : Saved)
    → find_row id d.device_nr d.unique_id_bin ≡ row
    → IsTable d
    → (let r = reserve_or_find id row d in find_row id r.1.device_nr r.1.unique_id_bin ≡ some r.0)
unfolding reserve_or_find use_row
reserve_or_find-found id none d e t =
    let reserve = reserve_from d.reserve_auto_device_nr in
    let near = reserve_from-near d.reserve_auto_device_nr in
    let near1 = near.1 in
    let soonest = row_to_use-IsSoonest reserve d.device_nr t.rows t.small (omega arith) in
    find_row-set id d.device_nr d.unique_id_bin _ reserve e soonest.inside t.same_length
reserve_or_find-found id (some nr) d e t = e

-- The table that a call works on.
unfoldable pub table_of : (Saved → Saved) → AutoNr → Saved
table_of stored a = if a.data_loaded then a.saved else stored a.saved

-- Two devices do not get one number. If the table that is loaded or stored has at least a row, as
-- many identifiers as numbers, no number of IOC_AUTO_DEVICE_NR_START or more, and no number but 0
-- twice, then so it is after `ioc_get_reserved_autonr`, also when the numbers start over.
pub get_reserved_autonr-IsTable :
    (stored : Saved → Saved) (id : List ℕ) (a : AutoNr)
    → IsTable (table_of stored a)
    → IsTable (get_reserved_autonr stored id a).1.saved
unfolding get_reserved_autonr table_of
get_reserved_autonr-IsTable stored id a t =
    let d = table_of stored a in
    reserve_or_find-IsTable id (find_row id d.device_nr d.unique_id_bin) d t

-- Requests, one for each identifier.
abbrev pub requests : (Saved → Saved) → List (List ℕ) → AutoNr → AutoNr
requests stored [] a = a
requests stored (id ∷ ids) a = requests stored ids (get_reserved_autonr stored id a).1

-- An identifier has a row.
unfoldable pub IsKnown : Saved → List ℕ → Type 0
IsKnown d id = (nr : ℕ) × (find_row id d.device_nr d.unique_id_bin ≡ some nr)

-- A request of an identifier that has a row changes nothing in a table that is loaded.
get_reserved_autonr-known :
    (stored : Saved → Saved) (id : List ℕ) (a : AutoNr)
    → a.data_loaded ≡ true
    → IsKnown a.saved id
    → (get_reserved_autonr stored id a).1 ≡ a
unfolding get_reserved_autonr reserve_or_find IsKnown
get_reserved_autonr-known stored id a loaded (nr, row) = rw (loaded, row) refl

requests-known :
    (stored : Saved → Saved) (ids : List (List ℕ)) (a : AutoNr)
    → a.data_loaded ≡ true
    → All (IsKnown a.saved) ids
    → requests stored ids a ≡ a
requests-known stored [] a loaded known = refl
requests-known stored (id ∷ ids) a loaded known =
    ap (requests stored ids) (get_reserved_autonr-known stored id a loaded known.0)
    ∙ requests-known stored ids a loaded known.1

asked_twice :
    (stored later : Saved → Saved) (id : List ℕ) (a : AutoNr)
    → IsTable (table_of stored a)
    → (let r = get_reserved_autonr stored id a in get_reserved_autonr later id r.1 ≡ r)
unfolding get_reserved_autonr table_of reserve_or_find
asked_twice stored later id a t =
    ap
      (λ row.
        (let s = reserve_or_find id row r.1 in (s.0, record a { data_loaded = true; saved = s.1 })))
      (reserve_or_find-found id (find_row id d.device_nr d.unique_id_bin) d refl t)
  where
    d : Saved
    d = table_of stored a

    r : ℕ × Saved
    r = reserve_or_find id (find_row id d.device_nr d.unique_id_bin) d

get_reserved_autonr-loads :
    (stored : Saved → Saved) (id : List ℕ) (a : AutoNr)
    → (get_reserved_autonr stored id a).1.data_loaded ≡ true
unfolding get_reserved_autonr
get_reserved_autonr-loads stored id a = refl

-- A device that asks again gets the number that it has, if since then only devices with a row in the
-- table have asked, any number of times: a new device may take its row. If the table that is loaded
-- or stored has at least a row, as many identifiers as numbers, no number of
-- IOC_AUTO_DEVICE_NR_START or more, and no number but 0 twice, then after `ioc_get_reserved_autonr`
-- and those requests a further call for the same identifier gives the same number, and all of them
-- change nothing, whatever is stored by then.
pub get_reserved_autonr-again :
    (stored later : Saved → Saved) (id : List ℕ) (others : List (List ℕ)) (a : AutoNr)
    → IsTable (table_of stored a)
    → All (IsKnown (get_reserved_autonr stored id a).1.saved) others
    → (let r = get_reserved_autonr stored id a in
        get_reserved_autonr later id (requests later others r.1) ≡ r)
get_reserved_autonr-again stored later id others a t known =
    let b = (get_reserved_autonr stored id a).1 in
    ap (get_reserved_autonr later id)
      (requests-known later others b (get_reserved_autonr-loads stored id a) known)
    ∙ asked_twice stored later id a t
