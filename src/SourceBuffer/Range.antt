-- ===== src/SourceBuffer/Range.antt =====
-- code/ioc_source_buffer.c: no change of the memory block is lost between two transfers.
use iocom.Base.{
  ℕ, ◌+◌, ◌-◌, ◌/◌, ◌≤◌, ◌<◌, ◌≡◌, ◌≢◌, ◌⊎◌, inl, inr, refl, sym, ap, ◌∙◌, bit_or, Bool, true,
  false, ◌&&◌, ◌||◌, Option, none, some, List, ltb, leb, ◌==◌, if◌then◌else◌, length, at, arith,
  at-fill, Bool-cases,
}
use iocom.SourceBuffer.{
  SourceBuffer, start_mask, end_mask, or_range, mark_bits, invalidate_bytes, add_range, trim_range,
  invalidate,
}
use iocom.SourceBuffer.Trimming.{TrimmedRange, trim_range_lem}

-- Every byte that the other end does not have is in the changed range, unless all are to be sent.
unfoldable pub Covers : List ℕ → SourceBuffer → Type 0
Covers buf s =
    (k : ℕ)
    → k < length buf
    → at buf k ≢ at s.buf k
    → (s.make_keyframe ≡ true)
      ⊎ ((s.range_set ≡ true) × (s.changed_start ≤ k) × (k ≤ s.changed_end))

-- A write to the bytes from `i` to `j`.
pub record IsWrite (old new : List ℕ) (i j : ℕ) : Type 0 where
  pub same_length : length new ≡ length old
  pub ordered : i ≤ j
  pub inside : j < length old
  pub outside : (k : ℕ) → (k < i) ⊎ (j < k) → at new k ≡ at old k

add_range_lem :
    (i j k : ℕ) (s : SourceBuffer)
    → ((i ≤ k) × (k ≤ j)) ⊎ ((s.range_set ≡ true) × (s.changed_start ≤ k) × (k ≤ s.changed_end))
    → ((add_range i j s).range_set ≡ true)
      × ((add_range i j s).changed_start ≤ k)
      × (k ≤ (add_range i j s).changed_end)
unfolding add_range
add_range_lem i j k s h = ground arith

add_range_keeps :
    (i j : ℕ) (s : SourceBuffer)
    → ((add_range i j s).buf ≡ s.buf) × ((add_range i j s).make_keyframe ≡ s.make_keyframe)
unfolding add_range
add_range_keeps i j s = ground arith

-- Growing the range keeps what it covered, and covers the new bytes inside.
Covers-add_range :
    (old new : List ℕ) (m n : ℕ) (s : SourceBuffer)
    → length new ≡ length old
    → Covers old s
    → ((k : ℕ)
        → k < length new
        → at new k ≢ at s.buf k
        → ((m ≤ k) × (k ≤ n)) ⊎ (at new k ≡ at old k))
    → Covers new (add_range m n s)
unfolding Covers
Covers-add_range old new m n s len c h k l d =
    let (same_buf, same_key) = add_range_keeps m n s in
    let d' : at new k ≢ at s.buf k = λ e. d (e ∙ ap (λ xs. at xs k) (sym same_buf)) in
    elim (h k l d') [
      | inl inside ↦ inr (add_range_lem m n k s (inl inside))
      | inr same ↦ elim (c k (omega (arith, len)) (λ e. d' (same ∙ e))) [
        | inl key ↦ inl (same_key ∙ key)
        | inr r ↦ inr (add_range_lem m n k s (inr r))
      ]
    ]

or_range-below :
    (n p mask : ℕ) (bytes : List ℕ) (k : ℕ) → k < p → at (or_range n p mask bytes) k ≡ at bytes k
unfolding or_range
or_range-below n p mask bytes k h =
    ground (arith, at-fill n p (λ j. bit_or (at bytes j) mask) bytes k)

-- The marks stand behind the data.
pub mark_bits-below :
    (ndata i j : ℕ) (bytes : List ℕ) (k : ℕ)
    → k < ndata
    → at (mark_bits ndata i j bytes) k ≡ at bytes k
unfolding mark_bits
mark_bits-below ndata i j bytes k h = elim (Bool-cases (i / 8 == j / 8)) [
  | inl one ↦ rw one (or_range-below 1 (ndata + i / 8) _ bytes k (omega arith))
  | inr more ↦ rw more (
      or_range-below 1 (ndata + j / 8) (end_mask j) _ k (omega arith)
      ∙ or_range-below (j / 8 - i / 8 - 1) (ndata + i / 8 + 1) 0xff _ k (omega arith)
      ∙ or_range-below 1 (ndata + i / 8) (start_mask i) bytes k (omega arith))
]

Covers-marked :
    (buf : List ℕ) (i j : ℕ) (s : SourceBuffer)
    → length buf ≤ s.ndata
    → Covers buf s
    → Covers buf (record s { buf = mark_bits s.ndata i j s.buf })
unfolding Covers
Covers-marked buf i j s fits c k l d =
    c k l (λ e. d (e ∙ sym (mark_bits-below s.ndata i j s.buf k (omega arith))))

Covers-if :
    (buf : List ℕ) (b : Bool) (s t : SourceBuffer)
    → Covers buf s
    → Covers buf t
    → Covers buf (if b then s else t)
Covers-if buf true s t c d = c
Covers-if buf false s t c d = d

Covers-invalidate_bytes :
    (buf : List ℕ) (i j : ℕ) (s : SourceBuffer)
    → length buf ≤ s.ndata
    → Covers buf s
    → Covers buf (invalidate_bytes i j s)
unfolding invalidate_bytes
Covers-invalidate_bytes buf i j s fits c = Covers-if buf _ s _ c (Covers-marked buf i j s fits c)

ndata-add_range : (i j : ℕ) (s : SourceBuffer) → (add_range i j s).ndata ≡ s.ndata
unfolding add_range
ndata-add_range i j s = ground arith

module _ (old new : List ℕ) (i j : ℕ) (s : SourceBuffer) (w : IsWrite old new i j)
    (c : Covers old s) where
  written : (k : ℕ) → ((i ≤ k) × (k ≤ j)) ⊎ (at new k ≡ at old k)
  written k = elim (Bool-cases (leb i k && leb k j)) [
    | inl inside ↦ inl (ground arith)
    | inr outside ↦ inr (w.outside k (ground arith))
  ]

  Covers-untrimmed : Covers new (add_range i j s)
  Covers-untrimmed = Covers-add_range old new i j s w.same_length c (λ k l d. written k)

  Covers-trimmed :
      (o : Option (ℕ × ℕ))
      → TrimmedRange new s.buf i j o
      → Covers new (elim o [ none ↦ s | some (m, n) ↦ add_range m n s ])
  unfolding Covers
  Covers-trimmed none t = λ k l d. elim (written k) [
    | inl inside ↦ absurd (d (t k inside.0 (omega arith)))
    | inr same ↦ c k (omega (arith, w.same_length)) (λ e. d (same ∙ e))
  ]
  Covers-trimmed (some (m, n)) t = Covers-add_range old new m n s w.same_length c λ k l d.
      elim (written k) [
        | inr same ↦ inr same
        | inl inside ↦ elim (Bool-cases (ltb k m || ltb n k)) [
          | inr kept ↦ inl (ground arith)
          | inl cut ↦ absurd (
              d (elim (Bool-cases (ltb k m)) [
                | inl before ↦ t.2 k inside.0 (ground arith)
                | inr after ↦ t.3 k (ground arith) (omega arith)
              ]))
        ]
      ]

  -- If the changed range covers what the other end lacks of the old bytes, it covers what it lacks
  -- of the new ones after `ioc_sbuf_invalidate` of a range in the memory block outside of which they
  -- are the same. This holds in each mode of the buffer: bidirectional, static, and with the range
  -- trimmed or not.
  pub invalidate-Covers : length old ≤ s.ndata → Covers new (invalidate new i j s)
  unfolding invalidate
  invalidate-Covers fits =
      Covers-if new s.bidirectional _ _
        (Covers-invalidate_bytes new i j (add_range i j s)
          (omega (arith, w.same_length, ndata-add_range i j s)) Covers-untrimmed)
        (Covers-if new (s.allocated && ltb (j - i) 256) _ _
          (Covers-trimmed (trim_range new s.buf i j) (trim_range_lem new s.buf i j w.ordered))
          Covers-untrimmed)

-- Where nothing has changed, any range may be added, and be in no order.
pub invalidate-same :
    (buf : List ℕ) (i j : ℕ) (s : SourceBuffer)
    → length buf ≤ s.ndata
    → Covers buf s
    → Covers buf (invalidate buf i j s)
unfolding invalidate
invalidate-same buf i j s fits c =
    Covers-if buf s.bidirectional _ _
      (Covers-invalidate_bytes buf i j (add_range i j s) (omega (arith, ndata-add_range i j s))
        (grown i j))
      (Covers-if buf (s.allocated && ltb (j - i) 256) _ _ (trimmed (trim_range buf s.buf i j))
        (grown i j))
  where
    grown : (m n : ℕ) → Covers buf (add_range m n s)
    grown m n = Covers-add_range buf buf m n s refl c (λ k l d. inr refl)

    trimmed :
        (o : Option (ℕ × ℕ)) → Covers buf (elim o [ none ↦ s | some (m, n) ↦ add_range m n s ])
    trimmed none = c
    trimmed (some (m, n)) = grown m n

ndata-invalidate_bytes : (i j : ℕ) (s : SourceBuffer) → (invalidate_bytes i j s).ndata ≡ s.ndata
unfolding invalidate_bytes
ndata-invalidate_bytes i j s = ground arith

ndata-trimmed :
    (o : Option (ℕ × ℕ)) (s : SourceBuffer)
    → (elim o as (λ _. SourceBuffer) [ none ↦ s | some (m, n) ↦ add_range m n s ]).ndata ≡ s.ndata
ndata-trimmed none s = refl
ndata-trimmed (some (m, n)) s = ndata-add_range m n s

-- Invalidating changes no sizes.
pub ndata-invalidate :
    (buf : List ℕ) (i j : ℕ) (s : SourceBuffer) → (invalidate buf i j s).ndata ≡ s.ndata
unfolding invalidate
ndata-invalidate buf i j s =
    ndata-if s.bidirectional _ _
      (ndata-invalidate_bytes i j (add_range i j s) ∙ ndata-add_range i j s)
      (ndata-if (s.allocated && ltb (j - i) 256) _ _ (ndata-trimmed (trim_range buf s.buf i j) s)
        (ndata-add_range i j s))
  where
    ndata-if :
        (b : Bool) (x y : SourceBuffer)
        → x.ndata ≡ s.ndata
        → y.ndata ≡ s.ndata
        → (if b then x else y).ndata ≡ s.ndata
    ndata-if true x y h k = h
    ndata-if false x y h k = k
