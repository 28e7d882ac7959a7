-- ===== src/Compress/Format.antt =====
-- The stored form of code/ioc_compress.c, apart from the code that writes and reads it.
use iocom.Base.{
  ℕ, zero, suc, ◌+◌, ◌-◌, ◌%◌, ◌≤◌, ◌<◌, min, Bool, true, false, some, List, [], ◌∷◌, ◌++◌, ◌≡◌,
  refl, ap, ap₂, ◌∙◌, sym, ltb, if◌then◌else◌, length, take, drop, replicate, All, length-append,
  length-drop, take-append, drop-append, length-replicate, append-nil, Run, done, arith,
}
use iocom.Compress.{
  apply, read_bytes, Unpacked, unpack_literals, fill_zeros, unpack_zeros, unpack_loop,
}

abbrev pub IsByte : ℕ → Type 0
IsByte b = b < 256

-- `Packs stored source`: reading `stored` gives the bytes `source`.
pub data Packs : List ℕ → List ℕ → Type 0 where
  nothing : Packs [] []
  literals : (xs : List ℕ) → length xs < 256 → Packs (length xs ∷ xs) xs
  group :
      (xs : List ℕ) (z : ℕ) {stored ys : List ℕ}
      → length xs < 256
      → z < 256
      → Packs stored ys
      → Packs (length xs ∷ (xs ++ (z ∷ stored))) (xs ++ (replicate z 0 ++ ys))

pub apply-nil : (delta : Bool) (xs : List ℕ) → apply delta xs [] ≡ []
unfolding apply
apply-nil delta [] = refl
apply-nil delta (x ∷ xs) = refl

pub apply-append :
    (delta : Bool) (xs ys mem : List ℕ)
    → apply delta (xs ++ ys) mem
      ≡ apply delta xs (take (length xs) mem) ++ apply delta ys (drop (length xs) mem)
unfolding apply
apply-append delta [] ys mem = refl
apply-append delta (x ∷ xs) ys [] = sym (apply-nil delta ys)
apply-append delta (x ∷ xs) ys (m ∷ mem) = rw (apply-append delta xs ys mem)

pub apply-take :
    (delta : Bool) (xs mem : List ℕ)
    → apply delta xs (take (length xs) mem) ++ drop (length xs) mem ≡ apply delta xs mem
unfolding apply
apply-take delta [] mem = refl
apply-take delta (x ∷ xs) [] = refl
apply-take delta (x ∷ xs) (m ∷ mem) = rw (apply-take delta xs mem)

pub length-apply : (delta : Bool) (xs mem : List ℕ) → length (apply delta xs mem) ≡ length mem
unfolding apply
length-apply delta [] mem = refl
length-apply delta (x ∷ xs) [] = refl
length-apply delta (x ∷ xs) (m ∷ mem) = ap suc (length-apply delta xs mem)

-- What a count of zeros does to the destination.
pub apply-replicate :
    (delta : Bool) (z : ℕ) (mem : List ℕ)
    → All IsByte mem
    → z ≤ length mem
    → apply delta (replicate z 0) (take z mem) ≡ (if delta then take z mem else replicate z 0)
unfolding apply
apply-replicate true zero mem b h = refl
apply-replicate false zero mem b h = refl
apply-replicate delta (suc z) [] b h = absurd (omega arith)
apply-replicate true (suc z) (m ∷ mem) b h =
    ground (arith, apply-replicate true z mem b.1 (omega arith))
apply-replicate false (suc z) (m ∷ mem) b h =
    ground (arith, apply-replicate false z mem b.1 (omega arith))

pub All-drop {ℓ κ} :
    {A : Type ℓ} (P : A → Type κ) (n : ℕ) (xs : List A) → All P xs → All P (drop n xs)
All-drop P zero xs h = h
All-drop P (suc n) [] h = h
All-drop P (suc n) (x ∷ xs) h = All-drop P n xs h.1

-- One round of the reading loop, where the literals are all there.
unpack_loop_round :
    (fuel : ℕ) (delta : Bool) (xs rest : List ℕ) (m : ℕ) (mem : List ℕ)
    → length xs < 256
    → length xs ≤ length (m ∷ mem)
    → unpack_loop (suc fuel) delta (length xs ∷ (xs ++ rest)) (m ∷ mem)
      ≡ unpack_literals
          (unpack_zeros (unpack_loop fuel delta) delta)
          delta
          (length xs)
          (xs ++ rest)
          (m ∷ mem)
unfolding unpack_loop
unpack_loop_round fuel delta xs rest m mem small fits = rw (not_short, count)
  where
    count : min (length xs % 256) (length (m ∷ mem)) ≡ length xs
    count = omega arith

    not_short : ltb (length (xs ++ rest)) (length xs % 256) ≡ false
    not_short = ground (arith, length-append xs rest)

-- A normal return of `n` bytes.
abbrev pub unpacks : ℕ → List ℕ → Run Unpacked
unpacks n mem = done (record { rval = some n; mem = mem })

unpack_loop-nil :
    (fuel : ℕ) (delta : Bool) (stored : List ℕ) → unpack_loop fuel delta stored [] ≡ unpacks 0 []
unfolding unpack_loop
unpack_loop-nil fuel delta [] = refl
unpack_loop-nil fuel delta (c ∷ stored) = refl

unpacks_eq : {n k : ℕ} {xs ys : List ℕ} → n ≡ k → xs ≡ ys → unpacks n xs ≡ unpacks k ys
unpacks_eq p q = ap₂ unpacks p q

unpacks-nil :
    (delta : Bool) (xs : List ℕ)
    → length xs ≤ 0
    → unpacks 0 [] ≡ unpacks (length xs) (apply delta xs [])
unpacks-nil delta xs h = unpacks_eq (omega arith) (sym (apply-nil delta xs))

length-replicate-append : (z : ℕ) (ys : List ℕ) → length (replicate z 0 ++ ys) ≡ z + length ys
length-replicate-append z ys =
    omega (arith, length-append (replicate z 0) ys, length-replicate {A = ℕ} z 0)

fill_zeros_lem :
    (again : List ℕ → List ℕ → Run Unpacked) (delta : Bool) (z : ℕ) (stored ys mem : List ℕ)
    → All IsByte mem
    → z + length ys ≤ length mem
    → again stored (drop z mem) ≡ unpacks (length ys) (apply delta ys (drop z mem))
    → fill_zeros again delta z stored mem
      ≡ unpacks (length (replicate z 0 ++ ys)) (apply delta (replicate z 0 ++ ys) mem)
unfolding fill_zeros
fill_zeros_lem again delta z stored ys mem b fits e =
    rw e (unpacks_eq (sym (length-replicate-append z ys)) zeros)
  where
    zeros :
        (if delta then take z mem else replicate z 0) ++ apply delta ys (drop z mem)
        ≡ apply delta (replicate z 0 ++ ys) mem
    zeros = rw (apply-append, length-replicate, apply-replicate delta z mem b (omega arith)) refl

unpack_zeros_lem :
    (again : List ℕ → List ℕ → Run Unpacked) (delta : Bool) (z : ℕ) (stored ys mem : List ℕ)
    → All IsByte mem
    → z < 256
    → z + length ys ≤ length mem
    → again stored (drop z mem) ≡ unpacks (length ys) (apply delta ys (drop z mem))
    → unpack_zeros again delta (z ∷ stored) mem
      ≡ unpacks (length (replicate z 0 ++ ys)) (apply delta (replicate z 0 ++ ys) mem)
unfolding unpack_zeros
unpack_zeros_lem again delta z stored ys [] b small fits e =
    unpacks-nil delta (replicate z 0 ++ ys) (omega (arith, length-replicate-append z ys))
unpack_zeros_lem again delta z stored ys (m ∷ mem) b small fits e =
    rw count (fill_zeros_lem again delta z stored ys (m ∷ mem) b fits e)
  where
    count : min (z % 256) (length (m ∷ mem)) ≡ z
    count = omega arith

-- Bytes that the array has are read.
pub read_bytes_inside : (n : ℕ) (p : List ℕ) → n ≤ length p → read_bytes n p ≡ done (take n p)
unfolding read_bytes
read_bytes_inside n p h = ground arith

module _ (again : List ℕ → List ℕ → Run Unpacked) (delta : Bool) (xs rest ys mem : List ℕ) where
  unpack_literals_lem :
      again rest (drop (length xs) mem)
        ≡ unpacks (length ys) (apply delta ys (drop (length xs) mem))
      → unpack_literals again delta (length xs) (xs ++ rest) mem
        ≡ unpacks (length (xs ++ ys)) (apply delta (xs ++ ys) mem)
  unfolding unpack_literals
  unpack_literals_lem e =
      rw
        (
          read_bytes_inside (length xs) (xs ++ rest) (omega (arith, length-append xs rest)),
          drop-append xs rest,
          take-append xs rest,
          e,
        )
        (unpacks_eq (sym (length-append xs ys)) (sym (apply-append delta xs ys mem)))

-- Reading a stored form gives the bytes that it stands for, over the destination.
pub unpack_loop-Packs :
    (fuel : ℕ) (delta : Bool) {stored source : List ℕ} (mem : List ℕ)
    → Packs stored source
    → length stored ≤ fuel
    → length source ≤ length mem
    → All IsByte mem
    → unpack_loop fuel delta stored mem ≡ unpacks (length source) (apply delta source mem)
unpack_loop-Packs fuel delta {source = source} [] p f h b =
    unpack_loop-nil fuel delta _ ∙ unpacks-nil delta source h
unpack_loop-Packs fuel delta (m ∷ mem) nothing f h b = unfold unpack_loop apply in refl
unpack_loop-Packs zero delta (m ∷ mem) (literals xs small) f h b = absurd (omega arith)
unpack_loop-Packs (suc fuel) delta (m ∷ mem) (literals xs small) f h b =
    ap (λ r. unpack_loop (suc fuel) delta (length xs ∷ r) (m ∷ mem)) (sym (append-nil xs))
    ∙ rw (unpack_loop_round fuel delta xs [] m mem small h)
        (unpack_literals_lem _ delta xs [] [] (m ∷ mem) (unfold unpack_zeros apply in refl))
    ∙ ap (λ (ys : List ℕ). unpacks (length ys) (apply delta ys (m ∷ mem))) (append-nil xs)
unpack_loop-Packs zero delta (m ∷ mem) (group xs z small zsmall p) f h b = absurd (omega arith)
unpack_loop-Packs (suc fuel) delta (m ∷ mem) (group xs z {stored = stored} {ys = ys} small zsmall p)
      f h b =
    rw (unpack_loop_round fuel delta xs (z ∷ stored) m mem small (omega (arith, len))) (
      unpack_literals_lem _ delta xs (z ∷ stored) (replicate z 0 ++ ys) (m ∷ mem) (
        unpack_zeros_lem _ delta z stored ys mem' b' zsmall (omega (arith, len, len')) (
          unpack_loop-Packs fuel delta (drop z mem') p
            (omega (arith, length-append xs (z ∷ stored)))
            (omega (arith, len, len', length-drop z mem')) (All-drop IsByte z mem' b'))))
  where
    mem' : List ℕ
    mem' = drop (length xs) (m ∷ mem)

    b' : All IsByte mem'
    b' = All-drop IsByte (length xs) (m ∷ mem) b

    len : length (xs ++ (replicate z 0 ++ ys)) ≡ length xs + (z + length ys)
    len = omega (arith, length-append xs (replicate z 0 ++ ys), length-replicate-append z ys)

    len' : length mem' ≡ length (m ∷ mem) - length xs
    len' = length-drop (length xs) (m ∷ mem)
