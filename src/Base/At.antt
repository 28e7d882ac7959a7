-- ===== src/Base/At.antt =====
-- Bytes of parts of an array.
use Prim.Native.Nat.{ℕ, zero, suc, ◌+◌, ◌-◌, ◌<◌}
use mathlib.Core.Path.{◌≡◌, refl}
use mathlib.Core.List.{List, [], ◌∷◌, ◌++◌}
use native.Mathlib.Nat.{zero-add, suc-add}
use native.Mathlib.Omega.{arith}
use iocom.Base.Lists.{All, length, take, drop}
use iocom.Base.Memory.{at}
use iocom.Base.Tests.{ltb, if◌then◌else◌}

pub at-drop : (n : ℕ) (xs : List ℕ) (j : ℕ) → at (drop n xs) j ≡ at xs (n + j)
at-drop zero xs j = rw zero-add refl
at-drop (suc n) [] j = refl
at-drop (suc n) (x ∷ xs) j = rw suc-add (at-drop n xs j)

pub at-take : (n : ℕ) (xs : List ℕ) (j : ℕ) → j < n → at (take n xs) j ≡ at xs j
at-take zero xs j h = absurd (omega arith)
at-take (suc n) [] j h = refl
at-take (suc n) (x ∷ xs) zero h = refl
at-take (suc n) (x ∷ xs) (suc j) h = at-take n xs j (omega arith)

pub at-append :
    (xs ys : List ℕ) (j : ℕ)
    → at (xs ++ ys) j ≡ (if ltb j (length xs) then at xs j else at ys (j - length xs))
at-append [] ys j = ground arith
at-append (x ∷ xs) ys zero = ground arith
at-append (x ∷ xs) ys (suc j) = ground (arith, at-append xs ys j)

-- What holds of each byte by its index.
pub All-at {κ} : (P : ℕ → Type κ) (xs : List ℕ) → ((j : ℕ) → j < length xs → P (at xs j)) → All P xs
All-at P [] h = tt
All-at P (x ∷ xs) h = (h 0 (omega arith), All-at P xs (λ j less. h (suc j) (omega arith)))
