-- ===== src/Compress/Overread.antt =====
-- code/ioc_compress.c: the packing loop reads one byte past the last one that it is to pack.
use iocom.Base.{
  ℕ, zero, suc, ◌+◌, ◌-◌, ◌*◌, ◌≤◌, ◌<◌, min, Bool, true, false, not, some, List, [], ◌∷◌, ◌≡◌,
  refl, ap, sym, ltb, leb, ◌==◌, if◌then◌else◌, length, drop, get_elem?, inl, inr, Bool-cases,
  length-drop, ==→eq, ==_ne, subst, Run, done, fault, FaultsOr, faults, gives, FaultsOr-bind,
  FaultsOr-fault, FaultsOr-mono, arith,
}
use iocom.Compress.{
  count_on, read, literal_test, literal_run, zero_run, Packed, pack_zeros, pack_literals, pack_loop,
  compress,
}

read-FaultsOr :
    (p : List ℕ) (i : ℕ) → FaultsOr (λ x. (i < length p) × (get_elem? p i ≡ some x)) (read p i)
read-FaultsOr [] i = faults
read-FaultsOr (x ∷ p) zero = gives (omega arith, refl)
read-FaultsOr (x ∷ p) (suc i) = FaultsOr-mono (read-FaultsOr p i) λ y h. (omega arith, h.1)

literal_test-FaultsOr :
    (left : ℕ) (p : List ℕ)
    → FaultsOr (λ t. (0 < length p) × (t ≡ false → get_elem? p 0 ≡ some 0)) (literal_test left p)
unfolding literal_test
literal_test-FaultsOr left [] = faults
literal_test-FaultsOr left (x ∷ p) = elim (Bool-cases (x == 0)) [
  | inr nz ↦ rw nz (gives (omega arith, λ e. cc))
  | inl z ↦ rw z (
      FaultsOr-bind (λ (y : ℕ). done (not (y == 0)))
        (read-FaultsOr (x ∷ p) (if ltb 1 left then 1 else 0))
        (λ y e. gives (omega arith, λ t. ap some (==→eq x 0 z))))
]

-- A count of literals at `p` that ends did not reach the end of the array.
abbrev Counted : ℕ → List ℕ → ℕ → Type 0
Counted left p n = (n ≤ left) × (n < length p) × (n ≡ 0 → 0 < left → get_elem? p 0 ≡ some 0)

literal_run-FaultsOr : (left : ℕ) (p : List ℕ) → FaultsOr (Counted left p) (literal_run left p)
unfolding literal_run
literal_run-FaultsOr zero p =
    FaultsOr-bind (λ (t : Bool). done 0) (literal_test-FaultsOr zero p)
      (λ t e. gives (omega arith, e.0, λ z l. absurd (omega arith)))
literal_run-FaultsOr (suc left) p =
    FaultsOr-bind (count_on (literal_run left (drop 1 p))) (literal_test-FaultsOr (suc left) p)
      (elim [
        | false ↦ λ e. gives (omega arith, e.0, λ z l. e.1 refl)
        | true ↦ λ e.
            FaultsOr-bind (λ n. done (suc n)) (literal_run-FaultsOr left (drop 1 p))
              (λ n r.
                gives (omega arith, omega (arith, length-drop 1 p), λ z. absurd (omega arith)))
      ])

-- So too a count of zeros.
abbrev CountedZeros : ℕ → List ℕ → ℕ → Type 0
CountedZeros left p n = (n ≤ left) × (n < length p) × (get_elem? p 0 ≡ some 0 → 0 < left → 0 < n)

zero_run-FaultsOr : (left : ℕ) (p : List ℕ) → FaultsOr (CountedZeros left p) (zero_run left p)
unfolding zero_run
zero_run-FaultsOr zero [] = faults
zero_run-FaultsOr (suc left) [] = faults
zero_run-FaultsOr zero (x ∷ p) = gives (omega arith, omega arith, λ e l. absurd (omega arith))
zero_run-FaultsOr (suc left) (x ∷ p) = elim (Bool-cases (x == 0)) [
  | inl z ↦ rw z (
      FaultsOr-bind (λ n. done (suc n)) (zero_run-FaultsOr left p)
        (λ n r. gives (omega arith, omega arith, λ e l. omega arith)))
  | inr nz ↦ rw nz (gives (omega arith, omega arith, λ e. ground arith))
]

module _ (again : ℕ → ℕ → List ℕ → Run Packed) (bytes room : ℕ) (p : List ℕ)
    (whole : length p ≡ bytes) (pos : 0 < bytes) (space : 3 * bytes ≤ room)
    (ih : (n m : ℕ) (q : List ℕ)
      → length q ≡ n
      → 0 < n
      → n < bytes
      → 3 * n ≤ m
      → again n m q ≡ fault) where
  pack_zeros-fault :
      (count zeros : ℕ)
      → count < bytes
      → Counted (min bytes 255) p count
      → CountedZeros (min (bytes - count) 255) (drop count p) zeros
      → pack_zeros again (bytes - count) (room - (count + 1)) p count zeros ≡ fault
  unfolding pack_zeros
  pack_zeros-fault count zeros less c z =
      rw
        (
          has_room,
          ih (bytes - count - zeros) (room - (count + 1) - 1) (drop (count + zeros) p)
              (omega (arith, rest)) (omega (arith, here)) (omega (arith, progress))
              (omega (arith, progress)),
        )
        refl
    where
      has_room : leb (room - (count + 1)) 0 ≡ false
      has_room = ground arith

      here : length (drop count p) ≡ length p - count
      here = length-drop count p

      rest : length (drop (count + zeros) p) ≡ length p - (count + zeros)
      rest = length-drop (count + zeros) p

      progress : 0 < count + zeros
      progress = elim (Bool-cases (count == 0)) [
        | inr counted ↦ omega (arith, ==_ne count 0 counted)
        | inl no_literal ↦
            let e : count ≡ 0 = ==→eq count 0 no_literal in
            omega (arith, z.2 (rw e (c.2 e (omega arith))) (omega arith))
      ]

  pack_literals-fault :
      (count : ℕ) → Counted (min bytes 255) p count → pack_literals again bytes room p count ≡ fault
  unfolding pack_literals
  pack_literals-fault count c =
      rw (has_room, more)
        (FaultsOr-fault (
          FaultsOr-bind (pack_zeros again (bytes - count) (room - (count + 1)) p count)
            (zero_run-FaultsOr (min (bytes - count) 255) (drop count p))
            (λ zeros z.
              subst (FaultsOr _) (sym (pack_zeros-fault count zeros (omega arith) c z)) faults)))
    where
      has_room : leb room count ≡ false
      has_room = ground arith

      more : (bytes - count == 0) ≡ false
      more = ground arith

-- Where the bytes to pack end with their array, the loop always reads past it.
pack_loop-fault :
    (fuel bytes room : ℕ) (p : List ℕ)
    → length p ≡ bytes
    → 0 < bytes
    → bytes ≤ fuel
    → 3 * bytes ≤ room
    → pack_loop fuel bytes room p ≡ fault
unfolding pack_loop
pack_loop-fault zero bytes room p whole pos enough space = absurd (omega arith)
pack_loop-fault (suc fuel) bytes room p whole pos enough space = rw some_left (
    FaultsOr-fault (
      FaultsOr-bind (pack_literals (pack_loop fuel) bytes room p)
        (literal_run-FaultsOr (min bytes 255) p)
        (λ count c.
          subst (FaultsOr (λ _. ⊥))
            (sym (
              pack_literals-fault (pack_loop fuel) bytes room p whole pos space
                (λ n m q w l less. pack_loop-fault fuel n m q w l (omega arith)) count c))
            faults)))
  where
    some_left : (bytes == 0) ≡ false
    some_left = ground arith

-- Packing up to the last byte of an array reads one byte past the array, whatever the bytes are, if
-- there are at least four and `dst_sz` is three times their number.
pub compress-fault :
    (srcbuf : List ℕ) (start_addr end_addr dst_sz : ℕ)
    → end_addr + 1 ≡ length srcbuf
    → start_addr + 3 ≤ end_addr
    → 3 * (end_addr + 1 - start_addr) ≤ dst_sz
    → compress srcbuf start_addr end_addr dst_sz ≡ fault
unfolding compress
compress-fault srcbuf start_addr end_addr dst_sz whole long space =
    rw
      (
        long_enough,
        pack_loop-fault bytes bytes dst_sz (drop start_addr srcbuf)
            (omega (arith, length-drop start_addr srcbuf)) (omega arith) (omega arith) space,
      )
      refl
  where
    bytes : ℕ
    bytes = end_addr + 1 - start_addr

    long_enough : ltb end_addr (start_addr + 3) ≡ false
    long_enough = ground arith
