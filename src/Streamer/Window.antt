-- ===== src/Streamer/Window.antt =====
-- code/ioc_streamer.c: what a ring buffer holds, from `tail` to before `head`.
use iocom.Base.{
  ℕ, zero, suc, ◌+◌, ◌-◌, ◌<◌, ◌≤◌, ◌≡◌, ◌∙◌, refl, sym, ap, ap₂, List, [], ◌∷◌, ◌++◌, ltb, leb,
  if◌then◌else◌, Bool-cases, inl, inr, length, take, drop, at, take-append, arith,
}
use native.Mathlib.Nat.{zero-add, suc-add}
use iocom.Streamer.Ring.{slice}

-- The index `d` places after `i`, for `d` up to the size of the buffer.
abbrev pub forward : ℕ → ℕ → ℕ → ℕ
forward sz i d = if ltb (i + d) sz then i + d else i + d - sz

-- How many places `head` is after `tail`.
abbrev pub distance : ℕ → ℕ → ℕ → ℕ
distance sz tail head = if leb tail head then head - tail else head + sz - tail

-- The `n` bytes from index `i` on.
unfoldable pub window : List ℕ → ℕ → ℕ → ℕ → List ℕ
window ring sz i zero = []
window ring sz i (suc n) = at ring i ∷ window ring sz (forward sz i 1) n

-- What the ring holds.
unfoldable pub contents : List ℕ → ℕ → ℕ → ℕ → List ℕ
contents ring sz tail head = window ring sz tail (distance sz tail head)

take-drop-suc :
    (xs : List ℕ) (i n : ℕ)
    → i < length xs
    → take (suc n) (drop i xs) ≡ at xs i ∷ take n (drop (i + 1) xs)
take-drop-suc [] i n h = absurd (omega arith)
take-drop-suc (x ∷ xs) zero n h = refl
take-drop-suc (x ∷ xs) (suc i) n h = rw suc-add (take-drop-suc xs i n (omega arith))

module _ (ring : List ℕ) (sz : ℕ) where
  pub length-window : (i n : ℕ) → length (window ring sz i n) ≡ n
  unfolding window
  length-window i zero = refl
  length-window i (suc n) = ap suc (length-window (forward sz i 1) n)

  pub forward-forward :
      (i a b : ℕ) → i < sz → a + b ≤ sz → forward sz (forward sz i a) b ≡ forward sz i (a + b)
  forward-forward i a b h k = ground arith

  forward_zero : (i : ℕ) → i < sz → forward sz i 0 ≡ i
  forward_zero i h = ground arith

  pub forward-lt : (i d : ℕ) → i < sz → d ≤ sz → forward sz i d < sz
  forward-lt i d h k = ground arith

  pub window-add :
      (i n k : ℕ)
      → i < sz
      → n + k ≤ sz
      → window ring sz i (n + k) ≡ window ring sz i n ++ window ring sz (forward sz i n) k
  unfolding window
  window-add i zero k h fits = rw (zero-add, forward_zero i h) refl
  window-add i (suc n) k h fits = rw suc-add (
      ap (λ xs. at ring i ∷ xs)
        (window-add (forward sz i 1) n k (forward-lt i 1 h (omega arith)) (omega arith)
          ∙ ap (λ j. window ring sz (forward sz i 1) n ++ window ring sz j k)
              (forward-forward i 1 n h (omega arith) ∙ ap (forward sz i) (omega arith))))

  pub drop-window :
      (i d n : ℕ)
      → i < sz
      → d ≤ n
      → n ≤ sz
      → drop d (window ring sz i n) ≡ window ring sz (forward sz i d) (n - d)
  unfolding window
  drop-window i zero n h le fits = ap₂ (window ring sz) (sym (forward_zero i h)) (omega arith)
  drop-window i (suc d) zero h le fits = absurd (omega arith)
  drop-window i (suc d) (suc n) h le fits =
      drop-window (forward sz i 1) d n (forward-lt i 1 h (omega arith)) (omega arith) (omega arith)
      ∙ ap₂ (window ring sz)
          (forward-forward i 1 d h (omega arith) ∙ ap (forward sz i) (omega arith)) (omega arith)

  pub take-window :
      (i d n : ℕ) → i < sz → d ≤ n → n ≤ sz → take d (window ring sz i n) ≡ window ring sz i d
  take-window i d n h le fits =
      ap (λ k. take d (window ring sz i k)) (let e : n ≡ d + (n - d) = omega arith in e)
      ∙ ap (take d) (window-add i d (n - d) h (omega arith))
      ∙ ap (λ k. take k (window ring sz i d ++ window ring sz (forward sz i d) (n - d)))
          (sym (length-window i d))
      ∙ take-append (window ring sz i d) (window ring sz (forward sz i d) (n - d))

  -- A window that does not wrap is a slice.
  pub window-slice : (i n : ℕ) → length ring ≡ sz → i + n ≤ sz → window ring sz i n ≡ slice ring i n
  unfolding window slice
  window-slice i zero e fits = refl
  window-slice i (suc n) e fits = elim (Bool-cases (ltb (i + 1) sz)) [
    | inl more ↦
        ap (λ xs. at ring i ∷ xs) (rw more (window-slice (i + 1) n e (omega arith)))
        ∙ sym (take-drop-suc ring i n (omega arith))
    | inr last ↦
        let none : n ≡ 0 = ground arith in rw none (sym (take-drop-suc ring i 0 (omega arith)))
  ]

-- The windows of two rings are the same if their bytes are.
pub window_ext :
    (r q : List ℕ) (sz i n : ℕ)
    → i < sz
    → n ≤ sz
    → ((j : ℕ) → j < n → at r (forward sz i j) ≡ at q (forward sz i j))
    → window r sz i n ≡ window q sz i n
unfolding window
window_ext r q sz i zero h fits e = refl
window_ext r q sz i (suc n) h fits e =
    ap₂ ◌∷◌
      (ap (at r) (sym (forward_zero r sz i h))
        ∙ e 0 (omega arith)
        ∙ ap (at q) (forward_zero q sz i h))
      (window_ext r q sz (forward sz i 1) n (forward-lt r sz i 1 h (omega arith)) (omega arith)
        (λ j less.
          let step : forward sz (forward sz i 1) j ≡ forward sz i (suc j) =
            forward-forward r sz i 1 j h (omega arith) ∙ ap (forward sz i) (omega arith) in
          ap (at r) step ∙ e (suc j) (omega arith) ∙ ap (at q) (sym step)))
