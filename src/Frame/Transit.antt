-- ===== src/Frame/Transit.antt =====
-- code/ioc_connection_send.c and code/ioc_connection_receive.c: a changed range on its way from a
-- source buffer to the target buffer at the other end, frame by frame.
use iocom.Base.{
  ℕ, ◌+◌, ◌-◌, ◌%◌, ◌<◌, ◌≤◌, ◌≡◌, ◌⊎◌, ◌∙◌, refl, sym, subst, ap, ap₂, true, false, ◌&&◌,
  Bool-cases, inl, inr, List, ltb, leb, if◌then◌else◌, length, at, arith,
}
use iocom.SourceBuffer.{SourceBuffer}
use iocom.TargetBuffer.{TargetBuffer, invalidate, synchronize}
use iocom.TargetBuffer.Received.{
  Pending, invalidate_keeps, invalidate_nbytes, invalidate-Pending, Untaken,
}
use iocom.TargetBuffer.Moved.{synchronize-IsMoved}
use iocom.Frame.Data.{delta_bytes, is_delta}
use iocom.Frame.Stored.{filled, length-filled, at-filled, at-filled_outside}

-- What is left of a range to be sent turns what the other end has into the bytes `goal`, and beyond
-- the range the other end has them.
pub record Transit (goal mblk : List ℕ) (s : SourceBuffer) (t : TargetBuffer) : Type 0 where
  pub in_use : s.used ≡ true
  pub one_range : s.bidir_range_set ≡ false
  pub ordered : s.start_addr ≤ s.end_addr
  pub inside : s.end_addr < length goal
  pub has_bytes : s.end_addr < length (delta_bytes mblk s)
  pub source_size : s.ndata ≡ length goal
  pub target_size : t.ndata ≡ length goal
  pub room : t.ndata ≤ t.nbytes
  pub whole : length t.newdata ≡ t.nbytes
  pub goal_IsBytes : (k : ℕ) → k < length goal → at goal k < 256
  pub target_IsBytes : (k : ℕ) → k < length t.newdata → at t.newdata k < 256
  pub pending : Pending t
  pub to_come :
      (k : ℕ)
      → s.start_addr ≤ k
      → k ≤ s.end_addr
      → (if is_delta s
          then (at t.newdata k + at (delta_bytes mblk s) k) % 256
          else at (delta_bytes mblk s) k)
        ≡ at goal k
  pub has_come :
      (k : ℕ) → k < length goal → (k < s.start_addr) ⊎ (s.end_addr < k) → at t.newdata k ≡ at goal k

-- All has come, and has been moved to `buf`.
pub record Arrived (goal : List ℕ) (s : SourceBuffer) (t : TargetBuffer) : Type 0 where
  pub not_used : s.used ≡ false
  pub received : (k : ℕ) → k < length goal → at t.newdata k ≡ at goal k
  pub moved : (k : ℕ) → k < length goal → at t.buf k ≡ at goal k

module _ (goal mblk : List ℕ) (s : SourceBuffer) (t : TargetBuffer) (p : Transit goal mblk s t)
    (next : ℕ) (goes_on : s.start_addr < next) (within : next ≤ s.end_addr + 1) where
  abbrev pub count : ℕ
  count = next - s.start_addr

  abbrev pub new_bytes : List ℕ
  new_bytes = filled t s.start_addr count (is_delta s) (delta_bytes mblk s)

  abbrev pub marked : TargetBuffer
  marked = invalidate s.start_addr (s.start_addr + count - 1) (record t { newdata = new_bytes })

  pub fits : s.start_addr + count ≤ t.nbytes
  fits = omega (arith, p.inside, p.target_size, p.room)

  pub enough : s.start_addr + count ≤ length (delta_bytes mblk s)
  enough = omega (arith, p.has_bytes)

  -- The bytes that came are right, and the others are as they were.
  came : (k : ℕ) → s.start_addr ≤ k → k < next → at new_bytes k ≡ at goal k
  came k h l =
      at-filled t s.start_addr count (is_delta s) (delta_bytes mblk s) p.whole fits enough k h
        (omega arith)
      ∙ p.to_come k h (omega arith)

  stayed :
      (k : ℕ) → k < t.nbytes → (k < s.start_addr) ⊎ (next ≤ k) → at new_bytes k ≡ at t.newdata k
  stayed k h (inl before) =
      at-filled_outside t s.start_addr count (is_delta s) (delta_bytes mblk s) p.whole fits enough k
        h (inl before)
  stayed k h (inr behind) =
      at-filled_outside t s.start_addr count (is_delta s) (delta_bytes mblk s) p.whole fits enough k
        h (inr (omega arith))

  new_size : length new_bytes ≡ length t.newdata
  new_size =
      length-filled t s.start_addr count (is_delta s) (delta_bytes mblk s) p.whole fits enough

  new_IsBytes : (k : ℕ) → k < length new_bytes → at new_bytes k < 256
  new_IsBytes k h = elim (Bool-cases (leb s.start_addr k && ltb k next)) [
    | inl inside ↦
        subst (λ v. v < 256) (sym (came k (ground arith) (ground arith)))
          (p.goal_IsBytes k (ground (arith, p.inside)))
    | inr outside ↦
        subst (λ v. v < 256) (sym (stayed k (omega (arith, new_size, p.whole)) (ground arith)))
          (p.target_IsBytes k (omega (arith, new_size)))
  ]

  marked-Pending : Pending marked
  marked-Pending =
      invalidate-Pending s.start_addr (s.start_addr + count - 1) new_bytes t p.pending new_size
        (λ k h o.
          stayed k (omega (arith, p.room))
            (elim o [ inl before ↦ inl before | inr behind ↦ inr (omega arith) ]))

  marked_keeps :
      (marked.newdata ≡ new_bytes)
      × (marked.buf ≡ t.buf)
      × (marked.ndata ≡ t.ndata)
      × (marked.nbytes ≡ t.nbytes)
  marked_keeps =
      let k =
        invalidate_keeps s.start_addr (s.start_addr + count - 1)
          (record t { newdata = new_bytes }) in
      (
        k.0,
        k.1,
        k.2,
        invalidate_nbytes s.start_addr (s.start_addr + count - 1)
            (record t { newdata = new_bytes }),
      )

  -- What stands in newdata where the frame did not end the range.
  same_delta : next ≤ s.end_addr → is_delta (record s { start_addr = next }) ≡ is_delta s
  unfolding is_delta
  same_delta more = ground (arith, p.inside, p.source_size)

  at-marked : (k : ℕ) → at marked.newdata k ≡ at new_bytes k
  at-marked k = ap (λ xs. at xs k) marked_keeps.0

  come : (k : ℕ) → k < length goal → (k < next) ⊎ (s.end_addr < k) → at marked.newdata k ≡ at goal k
  come k h o = at-marked k ∙ elim (Bool-cases (leb s.start_addr k && ltb k next)) [
    | inl inside ↦ came k (ground arith) (ground arith)
    | inr outside ↦
        stayed k (omega (arith, p.target_size, p.room)) (ground arith)
        ∙ p.has_come k h (ground (arith, o, outside))
  ]

  pub still-Transit : next ≤ s.end_addr → Transit goal mblk (record s { start_addr = next }) marked
  unfolding delta_bytes
  still-Transit more =
      let keeps = marked_keeps in
      record {
        in_use = p.in_use;
        one_range = p.one_range;
        ordered = more;
        inside = p.inside;
        has_bytes = p.has_bytes;
        source_size = p.source_size;
        target_size = keeps.2 ∙ p.target_size;
        room = omega (arith, keeps.2, keeps.3, p.room);
        whole = ap length keeps.0 ∙ new_size ∙ p.whole ∙ sym keeps.3;
        goal_IsBytes = p.goal_IsBytes;
        target_IsBytes = λ k h.
            subst (λ v. v < 256) (sym (at-marked k))
              (new_IsBytes k (omega (arith, ap length keeps.0)));
        pending = marked-Pending;
        to_come = λ k h l.
            ap₂
              (λ b v.
                if b then (v + at (delta_bytes mblk s) k) % 256 else at (delta_bytes mblk s) k)
              (same_delta more)
              (at-marked k ∙ stayed k (omega (arith, p.inside, p.target_size, p.room)) (inr h))
            ∙ p.to_come k (omega arith) l;
        has_come = come;
      }

  all_come : s.end_addr < next → (k : ℕ) → k < length goal → at marked.newdata k ≡ at goal k
  all_come last k h = come k h (elim (Bool-cases (ltb k next)) [
    | inl before ↦ inl (ground arith)
    | inr behind ↦ inr (ground arith)
  ])

  pub now-Arrived :
      s.end_addr < next
      → Arrived goal (record s { start_addr = next; used = false }) (synchronize marked)
  unfolding Untaken
  now-Arrived last =
      let keeps = marked_keeps in
      let q = synchronize-IsMoved marked.buf marked marked-Pending (λ k h d. absurd (d refl)) in
      record {
        not_used = refl;
        received = λ k h. ap (λ xs. at xs k) q.same_newdata ∙ all_come last k h;
        moved = λ k h. q.current k (omega (arith, keeps.2, p.target_size)) ∙ all_come last k h;
      }
