-- ===== src/Frame/Stored.antt =====
-- code/ioc_connection_receive.c: what `ioc_store_data_frame` makes of the content of a data frame.
use iocom.Base.{
  ℕ, ◌+◌, ◌-◌, ◌%◌, ◌<◌, ◌≤◌, ◌≡◌, ◌⊎◌, ◌∙◌, refl, sym, subst, ap, ap₂, Bool, false, Bool-cases,
  inl, inr, List, ◌++◌, ltb, ◌==◌, if◌then◌else◌, length, length-append, length-take_fits,
  length-drop, take, drop, at, at-drop, at-take, at-append, All, All-at, done, arith,
}
use iocom.Compress.{apply, uncompress}
use iocom.Compress.Format.{IsByte, unpacks, length-apply}
use iocom.Compress.Plain.{at-apply, at-apply_behind}
use iocom.Compress.RoundTrip.{slice}
use iocom.TargetBuffer.{TargetBuffer, invalidate, synchronize}
use iocom.Frame.{has_flag}
use iocom.Frame.Data.{stored, mark_stored, newdata_after, store_data_frame}

-- The bytes from `addr` on that the frame may change.
abbrev pub open_part : ℕ → TargetBuffer → List ℕ
open_part addr t = take (t.nbytes - addr) (drop addr t.newdata)

-- newdata after `n` of the bytes came, for the addresses from `addr` on.
abbrev pub filled : TargetBuffer → ℕ → ℕ → Bool → List ℕ → List ℕ
filled t addr n delta bytes =
    newdata_after addr (apply delta (slice bytes addr n) (open_part addr t)) t

module _ (t : TargetBuffer) (addr n : ℕ) (delta : Bool) (bytes : List ℕ)
    (whole : length t.newdata ≡ t.nbytes) (fits : addr + n ≤ t.nbytes)
    (enough : addr + n ≤ length bytes) where
  pub length-open_part : length (open_part addr t) ≡ t.nbytes - addr
  length-open_part =
      length-take_fits (t.nbytes - addr) (drop addr t.newdata)
        (omega (arith, length-drop addr t.newdata))

  length-slice : length (slice bytes addr n) ≡ n
  length-slice = length-take_fits n (drop addr bytes) (omega (arith, length-drop addr bytes))

  front_size : length (take addr t.newdata) ≡ addr
  front_size = length-take_fits addr t.newdata (omega arith)

  middle_size : length (apply delta (slice bytes addr n) (open_part addr t)) ≡ t.nbytes - addr
  middle_size = length-apply delta (slice bytes addr n) (open_part addr t) ∙ length-open_part

  pub length-filled : length (filled t addr n delta bytes) ≡ length t.newdata
  unfolding newdata_after
  length-filled =
      let middle = apply delta (slice bytes addr n) (open_part addr t) in
      omega (
        arith,
        length-append (take addr t.newdata) (middle ++ drop t.nbytes t.newdata),
        length-append middle (drop t.nbytes t.newdata),
        length-drop t.nbytes t.newdata,
        front_size,
        middle_size,
      )

  -- A byte in front of the content, in it, and behind it.
  at-filled_front : (k : ℕ) → k < addr → at (filled t addr n delta bytes) k ≡ at t.newdata k
  unfolding newdata_after
  at-filled_front k h = ground (
    arith,
    at-append (take addr t.newdata)
        (apply delta (slice bytes addr n) (open_part addr t) ++ drop t.nbytes t.newdata) k,
    front_size,
    at-take addr t.newdata k h,
  )

  at-filled_middle :
      (k : ℕ)
      → addr ≤ k
      → k < t.nbytes
      → at (filled t addr n delta bytes) k
        ≡ at (apply delta (slice bytes addr n) (open_part addr t)) (k - addr)
  unfolding newdata_after
  at-filled_middle k h l =
      let middle = apply delta (slice bytes addr n) (open_part addr t) in
      ground (
        arith,
        at-append (take addr t.newdata) (middle ++ drop t.nbytes t.newdata) k,
        at-append middle (drop t.nbytes t.newdata) (k - addr),
        front_size,
        middle_size,
      )

  at-open_part :
      (k : ℕ) → addr ≤ k → k < t.nbytes → at (open_part addr t) (k - addr) ≡ at t.newdata k
  at-open_part k h l =
      at-take (t.nbytes - addr) (drop addr t.newdata) (k - addr) (omega arith)
      ∙ at-drop addr t.newdata (k - addr)
      ∙ ap (at t.newdata) (omega arith)

  pub at-filled :
      (k : ℕ)
      → addr ≤ k
      → k < addr + n
      → at (filled t addr n delta bytes) k
        ≡ (if delta then (at t.newdata k + at bytes k) % 256 else at bytes k)
  at-filled k h l =
      let part = slice bytes addr n in
      let content : at part (k - addr) ≡ at bytes k =
        at-take n (drop addr bytes) (k - addr) (omega arith)
        ∙ at-drop addr bytes (k - addr)
        ∙ ap (at bytes) (omega arith) in
      at-filled_middle k h (omega arith)
      ∙ at-apply delta part (open_part addr t) (k - addr) (omega (arith, length-slice))
          (omega (arith, length-open_part))
      ∙ ap₂ (λ x y. if delta then (x + y) % 256 else y) (at-open_part k h (omega arith)) content

  pub at-filled_outside :
      (k : ℕ)
      → k < t.nbytes
      → (k < addr) ⊎ (addr + n ≤ k)
      → at (filled t addr n delta bytes) k ≡ at t.newdata k
  at-filled_outside k l (inl before) = at-filled_front k before
  at-filled_outside k l (inr behind) =
      at-filled_middle k (omega arith) l
      ∙ at-apply_behind delta (slice bytes addr n) (open_part addr t) (k - addr)
          (omega (arith, length-slice))
      ∙ at-open_part k (omega arith) l

  pub open_part-IsBytes :
      ((k : ℕ) → k < length t.newdata → at t.newdata k < 256) → All IsByte (open_part addr t)
  open_part-IsBytes b = All-at IsByte (open_part addr t) (λ j h.
      let e : at (open_part addr t) j ≡ at t.newdata (addr + j) =
        at-take (t.nbytes - addr) (drop addr t.newdata) j (omega (arith, length-open_part))
        ∙ at-drop addr t.newdata j in
      subst (λ v. v < 256) (sym e) (b (addr + j) (omega (arith, length-open_part))))

  -- The buffer after a frame of `n` bytes, whether or not it was the last one.
  pub store_data_frame-filled :
      (content : List ℕ) (flags : ℕ)
      → 0 < n
      → uncompress (has_flag flags 2) (has_flag flags 1) content (open_part addr t)
        ≡ unpacks n (apply delta (slice bytes addr n) (open_part addr t))
      → let marked =
          invalidate addr (addr + n - 1) (record t { newdata = filled t addr n delta bytes }) in
        store_data_frame t addr content flags
        ≡ done (stored, if has_flag flags 16 then synchronize marked else marked)
  unfolding store_data_frame mark_stored
  store_data_frame-filled content flags more_than_none e =
      let a : ltb t.nbytes addr ≡ false = ground arith in
      let b : (n == 0) ≡ false = ground arith in
      rw (a, e, b)
        (elim (Bool-cases (has_flag flags 16)) [
          | inl last ↦ rw last refl
          | inr more ↦ rw more refl
        ])
