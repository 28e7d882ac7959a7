-- ===== src/Base/Memory.antt =====
-- Stores into a range of an array: copies, clears and counted loops.
use Prim.Native.Nat.{ℕ, zero, suc, ◌+◌, ◌-◌, ◌<◌}
use mathlib.Core.Path.{◌≡◌, ap, refl, ap₂, ◌∙◌}
use mathlib.Core.List.{List, [], ◌∷◌}
use mathlib.Core.Bool.{Bool, ◌&&◌}
use native.Mathlib.Omega.{arith}
use iocom.Base.Lists.{All, length, get_or, set, length-set}
use mathlib.Core.Logic.{inl, inr}
use iocom.Base.Tests.{Bool-cases, ltb, leb, ◌==◌, if◌then◌else◌}

-- The byte at index `i`, 0 out of range.
abbrev pub at : List ℕ → ℕ → ℕ
at xs i = get_or xs i 0

-- for (j = i; j < i + n; j++) xs[j] = f(j);
unfoldable pub fill : ℕ → ℕ → (ℕ → ℕ) → List ℕ → List ℕ
fill zero i f xs = xs
fill (suc n) i f xs = fill n (i + 1) f (set xs i (f i))

-- os_memcpy(dst + d, src + s, n)
unfoldable pub mem_copy : List ℕ → ℕ → List ℕ → ℕ → ℕ → List ℕ
mem_copy dst d src s n = fill n d (λ j. at src (s + (j - d))) dst

-- os_memclear(dst + d, n)
unfoldable pub mem_clear : List ℕ → ℕ → ℕ → List ℕ
mem_clear dst d n = fill n d (λ _. 0) dst

abbrev pub in_range : ℕ → ℕ → ℕ → Bool
in_range i n j = leb i j && ltb j (i + n)

pub length-fill : (n i : ℕ) (f : ℕ → ℕ) (xs : List ℕ) → length (fill n i f xs) ≡ length xs
unfolding fill
length-fill zero i f xs = refl
length-fill (suc n) i f xs = length-fill n (i + 1) f (set xs i (f i)) ∙ length-set xs i (f i)

pub at-set :
    (xs : List ℕ) (i j v : ℕ)
    → at (set xs i v) j ≡ (if i == j && ltb j (length xs) then v else at xs j)
at-set [] i j v = ground arith
at-set (x ∷ xs) zero zero v = ground arith
at-set (x ∷ xs) zero (suc j) v = ground arith
at-set (x ∷ xs) (suc i) zero v = ground arith
at-set (x ∷ xs) (suc i) (suc j) v = ground (arith, at-set xs i j v)

pub at-fill :
    (n i : ℕ) (f : ℕ → ℕ) (xs : List ℕ) (j : ℕ)
    → at (fill n i f xs) j ≡ (if in_range i n j && ltb j (length xs) then f j else at xs j)
unfolding fill
at-fill zero i f xs j = ground arith
at-fill (suc n) i f xs j =
    ground
      (arith, at-fill n (i + 1) f (set xs i (f i)) j, at-set xs i j (f i), length-set xs i (f i))

pub length-mem_copy :
    (dst : List ℕ) (d : ℕ) (src : List ℕ) (s n : ℕ) → length (mem_copy dst d src s n) ≡ length dst
unfolding mem_copy
length-mem_copy dst d src s n = length-fill n d (λ j. at src (s + (j - d))) dst

pub at-mem_copy :
    (dst : List ℕ) (d : ℕ) (src : List ℕ) (s n j : ℕ)
    → at (mem_copy dst d src s n) j
      ≡ (if in_range d n j && ltb j (length dst) then at src (s + (j - d)) else at dst j)
unfolding mem_copy
at-mem_copy dst d src s n j = at-fill n d (λ j. at src (s + (j - d))) dst j

pub length-mem_clear : (dst : List ℕ) (d n : ℕ) → length (mem_clear dst d n) ≡ length dst
unfolding mem_clear
length-mem_clear dst d n = length-fill n d (λ _. 0) dst

pub at-mem_clear :
    (dst : List ℕ) (d n j : ℕ)
    → at (mem_clear dst d n) j ≡ (if in_range d n j && ltb j (length dst) then 0 else at dst j)
unfolding mem_clear
at-mem_clear dst d n j = at-fill n d (λ _. 0) dst j

-- Arrays of one length with the same bytes are equal.
pub at_ext :
    (xs ys : List ℕ)
    → length xs ≡ length ys
    → ((i : ℕ) → i < length xs → at xs i ≡ at ys i)
    → xs ≡ ys
at_ext [] [] e h = refl
at_ext [] (y ∷ ys) e h = absurd (omega arith)
at_ext (x ∷ xs) [] e h = absurd (omega arith)
at_ext (x ∷ xs) (y ∷ ys) e h =
    ap₂ ◌∷◌ (h 0 (omega arith)) (at_ext xs ys (omega arith) (λ i l. h (suc i) (omega arith)))

-- A copy to the same place of another array.
pub at-mem_copy_same :
    (dst : List ℕ) (d : ℕ) (src : List ℕ) (n j : ℕ)
    → at (mem_copy dst d src d n) j
      ≡ (if in_range d n j && ltb j (length dst) then at src j else at dst j)
at-mem_copy_same dst d src n j = elim (Bool-cases (in_range d n j && ltb j (length dst))) [
  | inl here ↦
      at-mem_copy dst d src d n j
      ∙ rw here (ap (at src) (let e : d + (j - d) ≡ j = ground arith in e))
  | inr there ↦ at-mem_copy dst d src d n j ∙ rw there refl
]

-- A copy or a clear leaves what stands before its range.
pub at-mem_copy_below :
    (dst : List ℕ) (d : ℕ) (src : List ℕ) (s n j : ℕ)
    → j < d
    → at (mem_copy dst d src s n) j ≡ at dst j
at-mem_copy_below dst d src s n j h = ground (arith, at-mem_copy dst d src s n j)

pub at-mem_clear_below : (dst : List ℕ) (d n j : ℕ) → j < d → at (mem_clear dst d n) j ≡ at dst j
at-mem_clear_below dst d n j h = ground (arith, at-mem_clear dst d n j)

-- A byte of an array of bytes, or the 0 read out of range.
pub at-lt : (xs : List ℕ) → All (λ b. b < 256) xs → (k : ℕ) → at xs k < 256
at-lt [] h k = omega arith
at-lt (x ∷ xs) h zero = h.0
at-lt (x ∷ xs) h (suc k) = at-lt xs h.1 k
