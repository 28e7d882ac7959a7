-- ===== src/Compress/Safety.antt =====
-- code/ioc_compress.c: `ioc_uncompress` on any input, a corrupted frame included.
use iocom.Base.{
  ℕ, zero, suc, ◌+◌, ◌%◌, ◌≤◌, ◌<◌, min, Bool, true, false, some, List, [], ◌∷◌, ◌++◌, ◌≡◌, refl,
  ap, ◌∙◌, sym, ltb, if◌then◌else◌, length, take, drop, length-append, inl, inr, Bool-cases,
  Option-cases, length-drop, subst, length-take_fits, length-replicate, replicate, drop-drop,
  drop-append_add, Run, Returns, returns, Returns-bind, ltb_false→le, arith,
}
use native.Mathlib.Nat.{add-zero}
use iocom.Compress.{
  Unpacked, behind, uncompress, apply, unpack_literals, fill_zeros, unpack_zeros, unpack_loop,
}
use iocom.Compress.Format.{length-apply, read_bytes_inside}

-- No byte is stored past `dst_end`, and those past the count returned stay as they were.
pub record IsInside (dst : List ℕ) (r : Unpacked) : Type 0 where
  pub same_length : length r.mem ≡ length dst
  pub rest : (n : ℕ) → r.rval ≡ some n → (n ≤ length dst) × (drop n r.mem ≡ drop n dst)

nothing_done : (dst : List ℕ) → IsInside dst (record { rval = some 0; mem = dst })
nothing_done dst = record { same_length = refl; rest = λ n e. (ground arith, refl) }

-- The count of a round and of the rounds after it.
rval-behind :
    (n : ℕ) (front : List ℕ) (r : Unpacked) {k : ℕ}
    → (behind n front r).rval ≡ some k
    → (m : ℕ) × (r.rval ≡ some m) × (k ≡ n + m)
rval-behind n front r h = elim (Option-cases (r.rval)) [
  | inl e ↦ ground (arith, e)
  | inr (m, e) ↦ (m, e, ground (arith, e))
]

behind-IsInside :
    (n : ℕ) (front dst : List ℕ) (r : Unpacked)
    → length front ≡ n
    → n ≤ length dst
    → IsInside (drop n dst) r
    → IsInside dst (behind n front r)
behind-IsInside n front dst r e fits q = record {
  same_length = omega (arith, length-append front r.mem, q.same_length, length-drop n dst);
  rest = λ k h.
      let (m, v, s) = rval-behind n front r h in
      let (le, same) = q.rest m v in
      rw s (
        omega (arith, length-drop n dst),
        ap (λ i. drop (i + m) (front ++ r.mem)) (sym e)
            ∙ drop-append_add m front r.mem
            ∙ same
            ∙ drop-drop m n dst,
      );
}

unpack_literals-IsInside :
    (again : List ℕ → List ℕ → Run Unpacked) (delta : Bool) (n : ℕ) (src dst : List ℕ)
    → n ≤ length src
    → n ≤ length dst
    → Returns (IsInside (drop n dst)) (again (drop n src) (drop n dst))
    → Returns (IsInside dst) (unpack_literals again delta n src dst)
unfolding unpack_literals
unpack_literals-IsInside again delta n src dst hs hd q = rw (read_bytes_inside n src hs) (
    Returns-bind _ q λ r i. returns (
      behind-IsInside n (apply delta (take n src) (take n dst)) dst r
        (length-apply delta (take n src) (take n dst) ∙ length-take_fits n dst hd) hd i))

fill_zeros-IsInside :
    (again : List ℕ → List ℕ → Run Unpacked) (delta : Bool) (n : ℕ) (src dst : List ℕ)
    → n ≤ length dst
    → Returns (IsInside (drop n dst)) (again src (drop n dst))
    → Returns (IsInside dst) (fill_zeros again delta n src dst)
unfolding fill_zeros
fill_zeros-IsInside again delta n src dst hd q =
    Returns-bind _ q λ r i. returns (behind-IsInside n _ dst r (length_front delta) hd i)
  where
    length_front : (d : Bool) → length (if d then take n dst else replicate n 0) ≡ n
    length_front true = length-take_fits n dst hd
    length_front false = length-replicate n 0

unpack_zeros-IsInside :
    (again : List ℕ → List ℕ → Run Unpacked) (delta : Bool) (src dst : List ℕ)
    → ((src' dst' : List ℕ) → length src' < length src → Returns (IsInside dst') (again src' dst'))
    → Returns (IsInside dst) (unpack_zeros again delta src dst)
unfolding unpack_zeros
unpack_zeros-IsInside again delta [] dst ih = returns (nothing_done dst)
unpack_zeros-IsInside again delta (z ∷ src) [] ih = returns (nothing_done [])
unpack_zeros-IsInside again delta (z ∷ src) (m ∷ dst) ih =
    fill_zeros-IsInside again delta _ src (m ∷ dst) (omega arith) (ih src _ (omega arith))

unpack_loop-IsInside :
    (fuel : ℕ) (delta : Bool) (src dst : List ℕ)
    → length src ≤ fuel
    → Returns (IsInside dst) (unpack_loop fuel delta src dst)
unfolding unpack_loop
unpack_loop-IsInside fuel delta [] dst h = returns (nothing_done dst)
unpack_loop-IsInside fuel delta (c ∷ src) [] h = returns (nothing_done [])
unpack_loop-IsInside zero delta (c ∷ src) (m ∷ dst) h = absurd (omega arith)
unpack_loop-IsInside (suc fuel) delta (c ∷ src) (m ∷ dst) h =
    elim (Bool-cases (ltb (length src) (c % 256))) [
      | inl short ↦ rw short (returns (record { same_length = refl; rest = λ n e. cc }))
      | inr there ↦ rw there (
          unpack_literals-IsInside (unpack_zeros (unpack_loop fuel delta) delta) delta _ src
            (m ∷ dst) (omega (arith, ltb_false→le _ _ there)) (omega arith)
            (unpack_zeros-IsInside (unpack_loop fuel delta) delta _ _ λ src' dst' less.
              unpack_loop-IsInside fuel delta src' dst'
                (omega (arith, length-drop (min (c % 256) (length (m ∷ dst))) src))))
    ]

-- `ioc_uncompress` returns on every input, packed or not: it reads nothing past `src_bytes`, since a
-- read there is a `fault`. It stores nothing past `dst_sz`, and where it answers a count, that is at
-- most `dst_sz` and the bytes after it are as they were.
pub uncompress-IsInside :
    (compressed delta : Bool) (src dst : List ℕ)
    → Returns (IsInside dst) (uncompress compressed delta src dst)
unfolding uncompress
uncompress-IsInside true delta src dst =
    unpack_loop-IsInside (length src) delta src dst (omega arith)
uncompress-IsInside false delta src dst =
    let n : ℕ = min (length src) (length dst) in
    let front : List ℕ = apply delta (take n src) (take n dst) in
    let len : length front ≡ n =
      length-apply delta (take n src) (take n dst) ∙ length-take_fits n dst (omega arith) in
    rw (read_bytes_inside n src (omega arith)) (
      returns (
        subst (λ k. IsInside dst (record { rval = some k; mem = front ++ drop n dst })) (add-zero n)
          (behind-IsInside n front dst _ len (omega arith) (nothing_done (drop n dst)))))
