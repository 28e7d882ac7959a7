-- ===== src/SourceBuffer/Trimming.antt =====
-- code/ioc_source_buffer.c: the loops that leave out what is the same at both ends of a range.
use iocom.Base.{
  ℕ, zero, suc, ◌+◌, ◌-◌, ◌≤◌, ◌<◌, ◌≡◌, inl, inr, false, Option, none, some, List, ◌==◌, at, arith,
  Bool-cases, ==→eq, ==_ne,
}
use iocom.SourceBuffer.{differs, trim_start, trim_end, skip_same, trim_range}

-- The bytes from `i` up to and without `j` are the same in both arrays.
abbrev pub Same : List ℕ → List ℕ → ℕ → ℕ → Type 0
Same buf sync i j = (k : ℕ) → i ≤ k → k < j → at buf k ≡ at sync k

pub differs_not : (buf sync : List ℕ) (i : ℕ) → differs buf sync i ≡ false → at buf i ≡ at sync i
differs_not buf sync i h = ground arith

Same-cons :
    (buf sync : List ℕ) (i j : ℕ)
    → at buf i ≡ at sync i
    → Same buf sync (i + 1) j
    → Same buf sync i j
Same-cons buf sync i j e h k a b = elim (Bool-cases (k == i)) [
  | inl here ↦ rw (==→eq k i here) e
  | inr later ↦ h k (omega (arith, ==_ne k i later)) b
]

pub skip_same_lem :
    (buf sync : List ℕ) (left i : ℕ)
    → (i ≤ skip_same buf sync left i)
      × (skip_same buf sync left i ≤ i + left)
      × Same buf sync i (skip_same buf sync left i)
unfolding skip_same
skip_same_lem buf sync zero i = (omega arith, omega arith, λ k h l. absurd (omega arith))
skip_same_lem buf sync (suc left) i = elim (Bool-cases (differs buf sync i)) [
  | inl d ↦ rw d (omega arith, omega arith, λ k h l. absurd (omega arith))
  | inr e ↦
      let (a, b, c) = skip_same_lem buf sync left (i + 1) in
      rw e (omega arith, omega arith, Same-cons buf sync i _ (differs_not buf sync i e) c)
]

pub trim_end_lem :
    (buf sync : List ℕ) (left j : ℕ)
    → (trim_end buf sync left j ≤ j)
      × (j ≤ trim_end buf sync left j + left)
      × Same buf sync (trim_end buf sync left j + 1) (j + 1)
unfolding trim_end
trim_end_lem buf sync zero j = (omega arith, omega arith, λ k h l. absurd (omega arith))
trim_end_lem buf sync (suc left) j = elim (Bool-cases (differs buf sync j)) [
  | inl d ↦ rw d (omega arith, omega arith, λ k h l. absurd (omega arith))
  | inr e ↦
      let (a, b, c) = trim_end_lem buf sync left (j - 1) in
      rw e (
        omega arith,
        omega arith,
        λ k h l. elim (Bool-cases (k == j)) [
          | inl here ↦ rw (==→eq k j here) (differs_not buf sync j e)
          | inr earlier ↦ c k h (omega (arith, ==_ne k j earlier))
        ],
      )
]

-- What `trim_start` tells of a range up to `j` that is not empty.
abbrev Trimmed : List ℕ → List ℕ → ℕ → ℕ → Option ℕ → Type 0
Trimmed buf sync i j none = Same buf sync i (j + 1)
Trimmed buf sync i j (some m) = (i ≤ m) × Same buf sync i m

Trimmed-cons :
    (buf sync : List ℕ) (i j : ℕ) (o : Option ℕ)
    → at buf i ≡ at sync i
    → Trimmed buf sync (i + 1) j o
    → Trimmed buf sync i j o
Trimmed-cons buf sync i j none e h = Same-cons buf sync i (j + 1) e h
Trimmed-cons buf sync i j (some m) e h = (omega (arith, h.0), Same-cons buf sync i m e h.1)

trim_start_lem :
    (buf sync : List ℕ) (left i j : ℕ)
    → i + left ≡ j + 1
    → Trimmed buf sync i j (trim_start buf sync left i j)
unfolding trim_start
trim_start_lem buf sync zero i j h = (omega arith, λ k a b. absurd (omega arith))
trim_start_lem buf sync (suc left) i j h = elim (Bool-cases (differs buf sync i)) [
  | inl d ↦ rw d (omega arith, λ k a b. absurd (omega arith))
  | inr e ↦ elim (Bool-cases (i == j)) [
    | inl last ↦
        let q = ==→eq i j last in
        rw (e, last)
          (Same-cons buf sync i (j + 1) (differs_not buf sync i e) λ k a b. absurd (omega arith))
    | inr more ↦
        rw (e, more)
          (Trimmed-cons buf sync i j _ (differs_not buf sync i e)
            (trim_start_lem buf sync left (i + 1) j (omega arith)))
  ]
]

-- What trimming both ends tells: outside the range that is left nothing differs.
abbrev pub TrimmedRange : List ℕ → List ℕ → ℕ → ℕ → Option (ℕ × ℕ) → Type 0
TrimmedRange buf sync i j none = Same buf sync i (j + 1)
TrimmedRange buf sync i j (some (m, n)) =
    (i ≤ m) × (n ≤ j) × Same buf sync i m × Same buf sync (n + 1) (j + 1)

pub trim_range_lem :
    (buf sync : List ℕ) (i j : ℕ) → i ≤ j → TrimmedRange buf sync i j (trim_range buf sync i j)
unfolding trim_range
trim_range_lem buf sync i j h =
    from_start (trim_start buf sync (j + 1 - i) i j)
      (trim_start_lem buf sync (j + 1 - i) i j (omega arith))
  where
    from_start :
        (o : Option ℕ)
        → Trimmed buf sync i j o
        → TrimmedRange buf sync i j
            (elim o [ none ↦ none | some m ↦ some (m, trim_end buf sync (j - m) j) ])
    from_start none t = t
    from_start (some m) t =
        let (le, far, same) = trim_end_lem buf sync (j - m) j in (t.0, le, t.1, same)
