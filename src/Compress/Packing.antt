-- ===== src/Compress/Packing.antt =====
-- What the packing loop of code/ioc_compress.c stores.
use iocom.Base.{
  ℕ, zero, suc, ◌+◌, ◌-◌, ◌≤◌, ◌<◌, min, Bool, true, false, not, some, List, [], ◌∷◌, ◌++◌, ◌≡◌,
  refl, ap, ap₂, ◌∙◌, sym, ltb, leb, ◌==◌, if◌then◌else◌, length, get_elem?, take, drop, replicate,
  length-take, length-take_fits, length-append, inl, inr, Bool-cases, ==_iff, ==_ne, ◌≢◌, take-add,
  length-drop, ==→eq, subst, subst₂, append_assoc, Run, done, leb_false→lt, Returns, returns,
  Returns-bind, arith,
}
use iocom.Compress.{
  count_on, read, literal_test, literal_run, zero_run, Packed, no_more, pack_zeros, pack_literals,
  pack_loop,
}
use iocom.Compress.Format.{Packs, nothing, literals, group}

read-Returns :
    (p : List ℕ) (i : ℕ) → i < length p → Returns (λ x. get_elem? p i ≡ some x) (read p i)
read-Returns [] i h = absurd (omega arith)
read-Returns (x ∷ p) zero h = returns refl
read-Returns (x ∷ p) (suc i) h = read-Returns p i (omega arith)

-- The test reads at most one byte past the `left` bytes that it is about.
literal_test-Returns :
    (left : ℕ) (p : List ℕ)
    → left < length p
    → Returns (λ t. (t ≡ false) → get_elem? p 0 ≡ some 0) (literal_test left p)
unfolding literal_test
literal_test-Returns left [] h = absurd (omega arith)
literal_test-Returns left (x ∷ p) h = elim (Bool-cases (x == 0)) [
  | inr nz ↦ rw nz (returns (λ e. cc))
  | inl z ↦ rw z (
      Returns-bind (λ (y : ℕ). done (not (y == 0)))
        (read-Returns (x ∷ p) (if ltb 1 left then 1 else 0) (ground arith))
        (λ y e. returns (λ t. ap some (==→eq x 0 z))))
]

-- What a count of literals tells.
abbrev Literals : ℕ → List ℕ → ℕ → Type 0
Literals left p n = (n ≤ left) × (n ≡ 0 → 0 < left → get_elem? p 0 ≡ some 0)

literal_run-Returns :
    (left : ℕ) (p : List ℕ) → left < length p → Returns (Literals left p) (literal_run left p)
unfolding literal_run
literal_run-Returns zero p h =
    Returns-bind (λ (t : Bool). done 0) (literal_test-Returns zero p h)
      (λ t e. returns (omega arith, λ z l. absurd (omega arith)))
literal_run-Returns (suc left) p h =
    Returns-bind (count_on (literal_run left (drop 1 p))) (literal_test-Returns (suc left) p h)
      (elim [
        | false ↦ λ e. returns (omega arith, λ z l. e refl)
        | true ↦ λ e.
            Returns-bind (λ n. done (suc n))
              (literal_run-Returns left (drop 1 p) (omega (arith, length-drop 1 p)))
              (λ n r. returns (omega arith, λ z. absurd (omega arith)))
      ])

-- What a count of zeros tells.
abbrev Zeros : ℕ → List ℕ → ℕ → Type 0
Zeros left p n =
    (n ≤ left) × (take n p ≡ replicate n 0) × (get_elem? p 0 ≡ some 0 → 0 < left → 0 < n)

zero_run-Returns :
    (left : ℕ) (p : List ℕ) → left < length p → Returns (Zeros left p) (zero_run left p)
unfolding zero_run
zero_run-Returns left [] h = absurd (omega arith)
zero_run-Returns zero (x ∷ p) h = returns (omega arith, refl, λ e l. absurd (omega arith))
zero_run-Returns (suc left) (x ∷ p) h = elim (Bool-cases (x == 0)) [
  | inl z ↦ rw z (
      Returns-bind (λ n. done (suc n)) (zero_run-Returns left p (omega arith))
        (λ n r. returns (omega arith, ap₂ ◌∷◌ (==→eq x 0 z) r.1, λ e l. omega arith)))
  | inr nz ↦ rw nz (returns (omega arith, refl, λ e. ground arith))
]

-- What one call of the packing loop guarantees of the bytes at `p`.
pub record IsPacked (bytes room : ℕ) (p : List ℕ) (r : Packed) : Type 0 where
  pub packs : Packs r.stored (take r.used p)
  pub within : r.used ≤ bytes
  pub in_room : length r.stored ≤ room

no_more-IsPacked : (bytes room : ℕ) (p : List ℕ) → IsPacked bytes room p no_more
no_more-IsPacked bytes room p = record {
  packs = nothing;
  within = omega arith;
  in_room = omega arith;
}

literals-IsPacked :
    (bytes room count : ℕ) (p : List ℕ)
    → count < 256
    → count ≤ length p
    → count ≤ bytes
    → count < room
    → IsPacked bytes room p (record { stored = count ∷ take count p; used = count })
literals-IsPacked bytes room count p small fits low space =
    let e = length-take_fits count p fits in
    record {
      packs =
          subst (λ n. Packs (n ∷ take count p) (take count p)) e
            (literals (take count p) (omega (arith, e)));
      within = low;
      in_room = omega (arith, e);
    }

module _ (p : List ℕ) (count zeros : ℕ) (small : count < 256) (zsmall : zeros < 256)
    (fits : count + zeros ≤ length p)
    (are_zero : take zeros (drop count p) ≡ replicate zeros 0) where
  group-Packs :
      (r : Packed)
      → Packs r.stored (take r.used (drop (count + zeros) p))
      → Packs (count ∷ (take count p ++ (zeros ∷ r.stored))) (take (count + zeros + r.used) p)
  group-Packs r h =
      let e : length (take count p) ≡ count = length-take_fits count p (omega arith) in
      subst₂ (λ n ys. Packs (n ∷ (take count p ++ (zeros ∷ r.stored))) ys) e (sym split)
        (group (take count p) zeros (omega (arith, e)) zsmall h)
    where
      split :
          take (count + zeros + r.used) p
          ≡ take count p ++ (replicate zeros 0 ++ take r.used (drop (count + zeros) p))
      split =
          take-add (count + zeros) r.used p
          ∙ ap (λ ys. ys ++ take r.used (drop (count + zeros) p))
              (take-add count zeros p ∙ ap (λ ys. take count p ++ ys) are_zero)
          ∙ append_assoc (take count p) (replicate zeros 0) (take r.used (drop (count + zeros) p))

  pack_zeros-Returns :
      (again : ℕ → ℕ → List ℕ → Run Packed) (after room : ℕ)
      → zeros ≤ after
      → Returns
          (IsPacked (after - zeros) (room - 1) (drop (count + zeros) p))
          (again (after - zeros) (room - 1) (drop (count + zeros) p))
      → Returns
          (IsPacked (count + after) (count + 1 + room) p)
          (pack_zeros again after room p count zeros)
  unfolding pack_zeros
  pack_zeros-Returns again after room low ih = elim (Bool-cases (leb room 0)) [
    | inl full ↦ rw full (
        returns (
          literals-IsPacked (count + after) (count + 1 + room) count p small (omega arith)
            (omega arith) (omega arith)))
    | inr space ↦ rw space (
        Returns-bind _ ih (λ r q. returns (record {
          packs = group-Packs r q.packs;
          within = omega (arith, q.within);
          in_room = omega (
            arith,
            q.in_room,
            leb_false→lt room 0 space,
            length-append (take count p) (zeros ∷ r.stored),
            length-take count p,
          );
        })))
  ]

-- The rest of a round, where `again` packs what is shorter.
pack_literals-Returns :
    (again : ℕ → ℕ → List ℕ → Run Packed) (bytes room count : ℕ) (p : List ℕ)
    → bytes < length p
    → 0 < bytes
    → ((n m : ℕ) (q : List ℕ) → n < bytes → n < length q → Returns (IsPacked n m q) (again n m q))
    → Literals (min bytes 255) p count
    → Returns (IsPacked bytes room p) (pack_literals again bytes room p count)
unfolding pack_literals
pack_literals-Returns again bytes room count p fits pos ih c = elim (Bool-cases (leb room count)) [
  | inl full ↦ rw full (returns (no_more-IsPacked bytes room p))
  | inr space ↦ rw space (elim (Bool-cases (bytes - count == 0)) [
    | inl last ↦ rw last (
        returns (
          literals-IsPacked bytes room count p (omega arith) (omega arith) (omega arith)
            (leb_false→lt room count space)))
    | inr more ↦ rw more (
        Returns-bind _
          (zero_run-Returns (min (bytes - count) 255) (drop count p)
            (omega (arith, length-drop count p)))
          (then_zeros (leb_false→lt room count space) (==_ne (bytes - count) 0 more)))
  ])
]
  where
    then_zeros :
        count < room
        → bytes - count ≢ 0
        → (zeros : ℕ) → Zeros (min (bytes - count) 255) (drop count p) zeros
        → Returns
            (IsPacked bytes room p)
            (pack_zeros again (bytes - count) (room - (count + 1)) p count zeros)
    then_zeros space more zeros z =
        let e : count + (bytes - count) ≡ bytes = omega arith in
        let e' : count + 1 + (room - (count + 1)) ≡ room = omega arith in
        subst₂
          (λ n m.
            Returns (IsPacked n m p)
              (pack_zeros again (bytes - count) (room - (count + 1)) p count zeros))
          e e'
          (pack_zeros-Returns p count zeros (omega arith) (omega arith) (omega arith) z.1 again
            (bytes - count) (room - (count + 1)) (omega arith)
            (ih _ _ _ progress (omega (arith, length-drop (count + zeros) p))))
      where
        progress : bytes - count - zeros < bytes
        progress = elim (Bool-cases (count == 0)) [
          | inr counted ↦ omega (arith, ==_ne count 0 counted)
          | inl nothing_counted ↦
              let e : count ≡ 0 = ==→eq count 0 nothing_counted in
              omega (arith, z.2 (rw e (c.1 e (omega arith))) (omega arith))
        ]

-- The packing loop returns, given one byte after those that it packs.
pub pack_loop-Returns :
    (fuel bytes room : ℕ) (p : List ℕ)
    → bytes ≤ fuel
    → bytes < length p
    → Returns (IsPacked bytes room p) (pack_loop fuel bytes room p)
unfolding pack_loop
pack_loop-Returns zero bytes room p h fits =
    rw ((==_iff bytes 0).1 (omega arith)) (returns (no_more-IsPacked bytes room p))
pack_loop-Returns (suc fuel) bytes room p h fits = elim (Bool-cases (bytes == 0)) [
  | inl none_left ↦ rw none_left (returns (no_more-IsPacked bytes room p))
  | inr some_left ↦ rw some_left (
      Returns-bind (pack_literals (pack_loop fuel) bytes room p)
        (literal_run-Returns (min bytes 255) p (omega arith))
        (λ count.
          pack_literals-Returns (pack_loop fuel) bytes room count p fits
            (omega (arith, ==_ne bytes 0 some_left))
            (λ n m q l. pack_loop-Returns fuel n m q (omega arith))))
]
