-- ===== src/SourceBuffer/Synchronized.antt =====
-- code/ioc_source_buffer.c: what `ioc_sbuf_synchronize` sets up for sending.
use iocom.Base.{
  ℕ, ◌+◌, ◌-◌, ◌≤◌, ◌<◌, ◌≡◌, ◌≢◌, inl, inr, refl, sym, ◌∙◌, true, false, List, ltb, if◌then◌else◌,
  length, set, at, arith, at-fill, at-mem_copy_same, Bool-cases, ltb→lt, ltb_false→le,
}
use native.Mathlib.Decide.{ℕ_discrete}
use iocom.SourceBuffer.{
  SourceBuffer, skip_same, success, pending, real_start, real_end, delta_byte, key_frame,
  delta_frame, take_range, synchronize,
}
use iocom.SourceBuffer.Trimming.{Same, skip_same_lem, trim_end_lem}
use iocom.SourceBuffer.Range.{Covers}
use iocom.SourceBuffer.Frame.{IsReady, Sends, HasCopy, take_range-Sends, take_range-fields}

-- Nothing is waiting to be sent, and nothing is set up.
pub record IsIdle (mblk old : List ℕ) (t : SourceBuffer) : Type 0 where
  pub not_used : t.used ≡ false
  pub untaken : t.range_set ≡ false
  pub up_to_date : (k : ℕ) → k < length mblk → (at t.buf k ≡ at mblk k) × (at old k ≡ at mblk k)

module _ (mblk : List ℕ) (s : SourceBuffer) (r : IsReady mblk s) (c : Covers mblk s)
    (free : s.used ≡ false) where
  key_frame-Sends : Sends mblk s.buf (take_range mblk 0 (length mblk - 1) (key_frame mblk s))
  unfolding key_frame
  key_frame-Sends =
      take_range-Sends mblk 0 (length mblk - 1) (key_frame mblk s) has_copy refl (omega arith)
        (omega (arith, r.data_bytes, r.some_data))
        (λ e. (
          refl,
          omega (arith, r.data_bytes, r.some_data),
          λ k h. ground (
            arith,
            r.copied,
            r.data_bytes,
            r.delta_bytes,
            r.room,
            at-mem_copy_same s.delta 0 mblk (length mblk) k,
          ),
        ))
        (λ e. cc) (λ k h o. absurd (omega arith))
    where
      has_copy : HasCopy mblk (key_frame mblk s)
      has_copy = record {
        copied = r.copied;
        data_bytes = r.data_bytes;
        room = omega (arith, r.room, r.sync_bytes);
      }

-- The bounds that are left of the changed range, with what is cut off the same in both arrays.
real_bounds :
    (mblk : List ℕ) (s : SourceBuffer)
    → (s.changed_start ≤ real_start mblk s)
      × (real_end mblk s ≤ s.changed_end)
      × Same s.buf mblk s.changed_start (real_start mblk s)
      × Same s.buf mblk (real_end mblk s + 1) (s.changed_end + 1)
unfolding real_start real_end
real_bounds mblk s = elim (Bool-cases (s.bidirectional)) [
  | inl two_way ↦
      rw two_way
        (omega arith, omega arith, λ k h l. absurd (omega arith), λ k h l. absurd (omega arith))
  | inr one_way ↦
      let rounds : ℕ = s.changed_end + 1 - s.changed_start in
      let (a, b, c) = skip_same_lem s.buf mblk rounds s.changed_start in
      let (e, f, g) =
        trim_end_lem s.buf mblk (s.changed_end + 1 - skip_same s.buf mblk rounds s.changed_start)
          s.changed_end in
      rw one_way (a, e, c, g)
]

module _ (mblk : List ℕ) (s : SourceBuffer) (r : IsReady mblk s) (c : Covers mblk s)
    (no_key : s.make_keyframe ≡ false) where
  -- Without a key frame to make, what differs lies between the bounds that are left.
  differing :
      (k : ℕ)
      → k < length mblk
      → at mblk k ≢ at s.buf k
      → (s.range_set ≡ true) × (real_start mblk s ≤ k) × (k ≤ real_end mblk s)
  unfolding Covers
  differing k h d = elim (c k h d) [
    | inl key ↦ cc
    | inr (set, low, high) ↦
        let (a, b, f, g) = real_bounds mblk s in
        (
          set,
          elim (Bool-cases (ltb k (real_start mblk s))) [
            | inl before ↦ absurd (d (sym (f k low (ltb→lt k _ before))))
            | inr there ↦ ltb_false→le k _ there
          ],
          elim (Bool-cases (ltb (real_end mblk s) k)) [
            | inl after ↦ absurd (d (sym (g k (omega (arith, ltb→lt _ k after)) (omega arith))))
            | inr there ↦ ltb_false→le _ k there
          ],
        )
  ]

  same_outside :
      (k : ℕ)
      → k < length mblk
      → ((s.range_set ≡ true) × (real_start mblk s ≤ k) × (k ≤ real_end mblk s) → ⊥)
      → at s.buf k ≡ at mblk k
  same_outside k h out = elim (ℕ_discrete (at mblk k) (at s.buf k)) [
    | yes e ↦ sym e
    | no ne ↦ absurd (out (differing k h ne))
  ]

  delta_frame-Sends :
      s.range_set ≡ true
      → real_start mblk s ≤ real_end mblk s
      → Sends mblk s.buf
          (take_range mblk (real_start mblk s) (real_end mblk s) (delta_frame mblk s))
  unfolding delta_frame
  delta_frame-Sends set le =
      take_range-Sends mblk (real_start mblk s) (real_end mblk s) (delta_frame mblk s) has_copy refl
        le in_block (λ e. cc)
        (λ e k a b. ground (
          arith,
          at-fill (real_end mblk s + 1 - real_start mblk s) (real_start mblk s)
              (delta_byte mblk s.buf) s.delta k,
          r.mblk_IsBytes k,
          r.sync_IsBytes k,
          r.delta_bytes,
          r.data_bytes,
          r.room,
          in_block,
        ))
        (λ k h o.
          same_outside k h
            λ (_, low, high). elim o [ inl before ↦ omega arith | inr after ↦ omega arith ])
    where
      in_block : real_end mblk s < length mblk
      in_block =
          let (a, b, f, g) = real_bounds mblk s in omega (arith, (r.range set).1, r.data_bytes)

      has_copy : HasCopy mblk (delta_frame mblk s)
      has_copy = record {
        copied = r.copied;
        data_bytes = r.data_bytes;
        room = omega (arith, r.room, r.sync_bytes);
      }

-- What a call of `ioc_sbuf_synchronize` that is not held up gives: everything that differs is set
-- up for sending, or nothing differs.
pub data IsSynchronized (mblk : List ℕ) (s t : SourceBuffer) : Type 0 where
  sends : Sends mblk s.buf t → t.make_keyframe ≡ false → IsSynchronized mblk s t
  idle : IsIdle mblk s.buf t → t.make_keyframe ≡ false → IsSynchronized mblk s t

synchronize_key :
    (mblk : List ℕ) (s : SourceBuffer)
    → s.used ≡ false
    → s.make_keyframe ≡ true
    → synchronize mblk s ≡ (success, take_range mblk 0 (length mblk - 1) (key_frame mblk s))
unfolding synchronize
synchronize_key mblk s free key = ground arith

synchronize_nothing :
    (mblk : List ℕ) (s : SourceBuffer)
    → s.used ≡ false
    → s.make_keyframe ≡ false
    → s.range_set ≡ false
    → synchronize mblk s ≡ (success, s)
unfolding synchronize
synchronize_nothing mblk s free no_key unset = ground arith

synchronize_same :
    (mblk : List ℕ) (s : SourceBuffer)
    → s.used ≡ false
    → s.make_keyframe ≡ false
    → s.range_set ≡ true
    → s.allocated ≡ true
    → real_end mblk s < real_start mblk s
    → synchronize mblk s ≡ (success, record s { range_set = false })
unfolding synchronize
synchronize_same mblk s free no_key range copied h = ground arith

synchronize_delta :
    (mblk : List ℕ) (s : SourceBuffer)
    → s.used ≡ false
    → s.make_keyframe ≡ false
    → s.range_set ≡ true
    → s.allocated ≡ true
    → ltb (real_end mblk s) (real_start mblk s) ≡ false
    → synchronize mblk s
      ≡ (success, take_range mblk (real_start mblk s) (real_end mblk s) (delta_frame mblk s))
unfolding synchronize
synchronize_delta mblk s free no_key range copied h = ground arith

-- If the buffer is well formed and its synchronization buffer free, and the changed range covers
-- what the other end lacks, `ioc_sbuf_synchronize` succeeds and leaves no difference behind: every byte that the other end lacks is in the range to be sent, with the right delta or
-- in a key frame, and otherwise there is none.
pub synchronize-IsSynchronized :
    (mblk : List ℕ) (s : SourceBuffer)
    → IsReady mblk s
    → Covers mblk s
    → s.used ≡ false
    → ((synchronize mblk s).0 ≡ success) × IsSynchronized mblk s (synchronize mblk s).1
unfolding synchronize
synchronize-IsSynchronized mblk s r c free = elim (Bool-cases (s.make_keyframe)) [
  | inl key ↦ rw (synchronize_key mblk s free key) (
    refl,
    sends (key_frame-Sends mblk s r c free) (
        (take_range-fields mblk 0 (length mblk - 1) (key_frame mblk s)).5
        ∙ unfold key_frame in refl),
  )
  | inr no_key ↦ elim (Bool-cases (s.range_set)) [
    | inl range ↦ elim (Bool-cases (ltb (real_end mblk s) (real_start mblk s))) [
      | inr some_left ↦ rw (synchronize_delta mblk s free no_key range r.copied some_left) (
        refl,
        sends (delta_frame-Sends mblk s r c no_key range (ltb_false→le _ _ some_left)) (
            (take_range-fields mblk (real_start mblk s) (real_end mblk s) (delta_frame mblk s)).5
            ∙ unfold delta_frame in no_key),
      )
      | inl none_left ↦
          rw (synchronize_same mblk s free no_key range r.copied (ltb→lt _ _ none_left)) (
            refl,
            idle
                (record {
                  not_used = free;
                  untaken = refl;
                  up_to_date = λ k h.
                      let e =
                        same_outside mblk s r c no_key k h
                          (λ (_, a, b). absurd (omega (arith, ltb→lt _ _ none_left))) in
                      (e, e);
                })
                no_key,
          )
    ]
    | inr unset ↦ rw (synchronize_nothing mblk s free no_key unset) (
      refl,
      idle
          (record {
            not_used = free;
            untaken = unset;
            up_to_date =
                λ k h. let e = same_outside mblk s r c no_key k h (λ (a, _, _). cc) in (e, e);
          })
          no_key,
    )
  ]
]

-- A buffer whose last range is still being sent is left as it is, and says whether more is waiting.
pub synchronize_busy :
    (mblk : List ℕ) (s : SourceBuffer)
    → s.used ≡ true
    → synchronize mblk s ≡ (if s.range_set then pending else success, s)
unfolding synchronize
synchronize_busy mblk s u = ground arith
