-- ===== src/AutoDeviceNr/Chosen.antt =====
-- code/ioc_auto_device_nr.c: the row that gets the next number. It is the one whose own number
-- would be given again soonest.
use iocom.Base.{
  ℕ, ◌+◌, ◌-◌, ◌<◌, ◌≤◌, ◌≡◌, ◌∙◌, suc, zero, refl, sym, ap, subst, Bool, true, false, List, [],
  ◌∷◌, ltb, if◌then◌else◌, at, length, arith, ◌⊎◌, inl, inr,
}
use iocom.AutoDeviceNr.{
  nr_start, Choice, first_choice, choose_ahead, choose_behind, choose_row, row_to_use,
}

-- How far ahead a number is, rolling around.
abbrev pub distance : ℕ → ℕ → ℕ
distance reserve nr = if ltb nr reserve then nr + nr_start else nr

-- Every number of a table is one that it can have.
unfoldable pub AreSmall : List ℕ → Type 0
AreSmall nrs = (k : ℕ) → k < length nrs → at nrs k < nr_start

-- One row is looked at.
choose_step :
    (reserve i nr : ℕ) (c : Choice)
    → nr < nr_start
    → reserve < nr_start
    → choose_behind i nr (choose_ahead reserve i nr c) ≡ (
        if ltb (distance reserve nr) c.id
        then record { smallest_i = i; id = distance reserve nr }
        else c)
unfolding choose_behind choose_ahead
choose_step reserve i nr c small near = ground arith

-- What the loop has found, from row `i` on.
record IsChosen (reserve i : ℕ) (c : Choice) (nrs : List ℕ) (r : Choice) : Type 0 where
  pub below : r.id ≤ c.id
  pub least : (k : ℕ) → k < length nrs → r.id ≤ distance reserve (at nrs k)
  pub found :
      (r ≡ c)
      ⊎ ((i ≤ r.smallest_i)
          × (r.smallest_i < i + length nrs)
          × (r.id ≡ distance reserve (at nrs (r.smallest_i - i))))

later_row :
    (reserve i nr : ℕ) (nrs : List ℕ) (r : Choice)
    → (i + 1 ≤ r.smallest_i)
      × (r.smallest_i < i + 1 + length nrs)
      × (r.id ≡ distance reserve (at nrs (r.smallest_i - (i + 1))))
    → (i ≤ r.smallest_i)
      × (r.smallest_i < i + length (nr ∷ nrs))
      × (r.id ≡ distance reserve (at (nr ∷ nrs) (r.smallest_i - i)))
later_row reserve i nr nrs r h =
    let h0 = h.0 in
    let h1 = h.1 in
    (omega arith, omega arith, h.2 ∙ ap (λ k. distance reserve (at (nr ∷ nrs) k)) (sym moved))
  where
    moved : r.smallest_i - i ≡ suc (r.smallest_i - (i + 1))
    moved = let h0 = h.0 in omega arith

this_row :
    (reserve i nr : ℕ) (nrs : List ℕ) (r : Choice)
    → r ≡ record { smallest_i = i; id = distance reserve nr }
    → (i ≤ r.smallest_i)
      × (r.smallest_i < i + length (nr ∷ nrs))
      × (r.id ≡ distance reserve (at (nr ∷ nrs) (r.smallest_i - i)))
this_row reserve i nr nrs r e =
    let s = ap (λ c. c.smallest_i) e in
    (
      omega arith,
      omega arith,
      ap (λ c. c.id) e ∙ ap (λ k. distance reserve (at (nr ∷ nrs) k)) (sym none_before),
    )
  where
    none_before : r.smallest_i - i ≡ 0
    none_before = let s : r.smallest_i ≡ i = ap (λ c. c.smallest_i) e in omega arith

each_row :
    (reserve nr : ℕ) (nrs : List ℕ) (r : Choice)
    → r.id ≤ distance reserve nr
    → ((k : ℕ) → k < length nrs → r.id ≤ distance reserve (at nrs k))
    → (k : ℕ) → k < length (nr ∷ nrs)
    → r.id ≤ distance reserve (at (nr ∷ nrs) k)
each_row reserve nr nrs r first rest zero k_in = first
each_row reserve nr nrs r first rest (suc k) k_in = rest k (omega arith)

step_if :
    (b : Bool) (reserve i nr : ℕ) (c : Choice) (nrs : List ℕ) (r : Choice)
    → ltb (distance reserve nr) c.id ≡ b
    → IsChosen reserve
        (i + 1)
        (if b then record { smallest_i = i; id = distance reserve nr } else c)
        nrs
        r
    → IsChosen reserve i c (nr ∷ nrs) r
step_if true reserve i nr c nrs r e h = record {
  below = let below = h.below in ground arith;
  least = each_row reserve nr nrs r h.below h.least;
  found = elim (h.found) [
    | inl same ↦ inr (this_row reserve i nr nrs r same)
    | inr later ↦ inr (later_row reserve i nr nrs r later)
  ];
}
step_if false reserve i nr c nrs r e h = record {
  below = h.below;
  least = let below = h.below in each_row reserve nr nrs r (ground arith) h.least;
  found = elim (h.found) [
    | inl same ↦ inl same
    | inr later ↦ inr (later_row reserve i nr nrs r later)
  ];
}

choose_row-IsChosen :
    (reserve i : ℕ) (c : Choice) (nrs : List ℕ)
    → AreSmall nrs
    → reserve < nr_start
    → IsChosen reserve i c nrs (choose_row reserve i c nrs)
unfolding choose_row AreSmall
choose_row-IsChosen reserve i c [] small near = record {
  below = omega arith;
  least = λ k k_in. absurd (omega arith);
  found = inl refl;
}
choose_row-IsChosen reserve i c (nr ∷ nrs) small near =
    step_if (ltb (distance reserve nr) c.id) reserve i nr c nrs _ refl (
      subst (λ z. IsChosen reserve (i + 1) z nrs (choose_row reserve (i + 1) next nrs))
        (choose_step reserve i nr c (small 0 (omega arith)) near)
        (choose_row-IsChosen reserve (i + 1) next nrs (λ k k_in. small (suc k) (omega arith)) near))
  where
    next : Choice
    next = choose_behind i nr (choose_ahead reserve i nr c)

-- The row that is used is in the table, and no number comes round sooner than its.
pub record IsSoonest (reserve : ℕ) (nrs : List ℕ) (i : ℕ) : Type 0 where
  pub inside : i < length nrs
  pub soonest : (k : ℕ) → k < length nrs → distance reserve (at nrs i) ≤ distance reserve (at nrs k)

start_id :
    (reserve : ℕ) (nrs : List ℕ)
    → at nrs 0 < nr_start
    → (first_choice reserve (at nrs 0)).id ≡ distance reserve (at nrs 0)
unfolding first_choice
start_id reserve nrs small = ground arith

chosen-IsSoonest :
    (reserve : ℕ) (nrs : List ℕ) (r : Choice)
    → 0 < length nrs
    → at nrs 0 < nr_start
    → IsChosen reserve 0 (first_choice reserve (at nrs 0)) nrs r
    → IsSoonest reserve nrs r.smallest_i
unfolding first_choice
chosen-IsSoonest reserve nrs r rows small h = elim (h.found) [
  | inl same ↦
      let at_start : r.smallest_i ≡ 0 = ap (λ c. c.smallest_i) same in
      let id = ap (λ c. c.id) same ∙ start_id reserve nrs small in
      record {
        inside = omega arith;
        soonest = λ k k_in.
            (subst (λ z. z ≤ distance reserve (at nrs k))
              (id ∙ ap (λ z. distance reserve (at nrs z)) (sym at_start)) (h.least k k_in));
      }
  | inr found ↦
      let inside = found.1 in
      let here : r.smallest_i - 0 ≡ r.smallest_i = omega arith in
      record {
        inside = omega arith;
        soonest = λ k k_in.
            (subst (λ z. z ≤ distance reserve (at nrs k))
              (found.2 ∙ ap (λ z. distance reserve (at nrs z)) here) (h.least k k_in));
      }
]

pub row_to_use-IsSoonest :
    (reserve : ℕ) (nrs : List ℕ)
    → 0 < length nrs
    → AreSmall nrs
    → reserve < nr_start
    → IsSoonest reserve nrs (row_to_use reserve nrs)
unfolding row_to_use AreSmall
row_to_use-IsSoonest reserve nrs rows small near =
    chosen-IsSoonest reserve nrs _ rows (small 0 rows)
      (choose_row-IsChosen reserve 0 (first_choice reserve (at nrs 0)) nrs small near)

-- If the number to give stands in the table, then in the row that gets it.
pub row_to_use-taken :
    (reserve : ℕ) (nrs : List ℕ) (k : ℕ)
    → 0 < length nrs
    → AreSmall nrs
    → reserve < nr_start
    → k < length nrs
    → at nrs k ≡ reserve
    → at nrs (row_to_use reserve nrs) ≡ reserve
row_to_use-taken reserve nrs k rows small near k_in e =
    let h = row_to_use-IsSoonest reserve nrs rows small near in
    let least = h.soonest k k_in in ground arith
