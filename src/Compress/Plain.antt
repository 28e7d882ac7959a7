-- ===== src/Compress/Plain.antt =====
-- code/ioc_compress.c: `ioc_uncompress` of bytes that are not packed.
use iocom.Base.{
  ℕ, zero, suc, ◌<◌, at, ◌+◌, ◌%◌, ◌≤◌, ◌≡◌, ◌∙◌, refl, ap, min, Bool, false, List, [], ◌∷◌, ◌++◌,
  if◌then◌else◌, length, take, take_all, drop, arith,
}
use iocom.Compress.{apply, uncompress}
use iocom.Compress.Format.{unpacks, read_bytes_inside}

apply_rest :
    (delta : Bool) (xs mem : List ℕ)
    → length xs ≤ length mem
    → apply delta xs (take (length xs) mem) ++ drop (length xs) mem ≡ apply delta xs mem
unfolding apply
apply_rest delta [] mem h = refl
apply_rest delta (x ∷ xs) [] h = absurd (omega arith)
apply_rest delta (x ∷ xs) (m ∷ mem) h =
    ap (λ ys. (if delta then (m + x) % 256 else x) ∷ ys) (apply_rest delta xs mem (omega arith))

-- Without packing, `ioc_uncompress` adds or copies the bytes as they are.
pub uncompress_plain :
    (delta : Bool) (xs mem : List ℕ)
    → length xs ≤ length mem
    → uncompress false delta xs mem ≡ unpacks (length xs) (apply delta xs mem)
unfolding uncompress
uncompress_plain delta xs mem h =
    let e : min (length xs) (length mem) ≡ length xs = omega arith in
    rw (e, read_bytes_inside (length xs) xs (omega arith))
      (ap
          (λ ys.
            unpacks (length xs) (apply delta ys (take (length xs) mem) ++ drop (length xs) mem))
          (take_all (length xs) xs (omega arith))
        ∙ ap (unpacks (length xs)) (apply_rest delta xs mem h))

-- What `ioc_uncompress` makes of one byte.
pub at-apply :
    (delta : Bool) (xs mem : List ℕ) (j : ℕ)
    → j < length xs
    → j < length mem
    → at (apply delta xs mem) j ≡ (if delta then (at mem j + at xs j) % 256 else at xs j)
unfolding apply
at-apply delta [] mem j h k = absurd (omega arith)
at-apply delta (x ∷ xs) [] j h k = absurd (omega arith)
at-apply delta (x ∷ xs) (m ∷ mem) zero h k = refl
at-apply delta (x ∷ xs) (m ∷ mem) (suc j) h k = at-apply delta xs mem j (omega arith) (omega arith)

pub at-apply_behind :
    (delta : Bool) (xs mem : List ℕ) (j : ℕ) → length xs ≤ j → at (apply delta xs mem) j ≡ at mem j
unfolding apply
at-apply_behind delta [] mem j h = refl
at-apply_behind delta (x ∷ xs) [] j h = refl
at-apply_behind delta (x ∷ xs) (m ∷ mem) zero h = absurd (omega arith)
at-apply_behind delta (x ∷ xs) (m ∷ mem) (suc j) h = at-apply_behind delta xs mem j (omega arith)
