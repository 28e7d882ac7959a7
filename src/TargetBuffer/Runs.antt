-- ===== src/TargetBuffer/Runs.antt =====
-- Runs of the code of code/ioc_target_buffer.c, and its theorems at such inputs.
use iocom.Base.{
  subst, ℕ, zero, suc, ◌<◌, ◌≡◌, refl, true, false, [], ◌∷◌, at, arith, ◌⊎◌, fill, mem_copy,
}
use iocom.SourceBuffer.{trim_end, skip_same}
use iocom.TargetBuffer.{
  TargetBuffer, invalidate, new_start, new_end, move_range, mark_used, synchronize,
}
use iocom.TargetBuffer.Received.{Pending, Untaken, invalidate-Pending}
use iocom.TargetBuffer.Moved.{IsMoved, synchronize-IsMoved}

-- Three bytes, up to date.
abbrev pub quiet : TargetBuffer
quiet = record {
  buf = 1 ∷ 2 ∷ 3 ∷ [];
  newdata = 1 ∷ 2 ∷ 3 ∷ [];
  nbytes = 3;
  ndata = 3;
  bidirectional = false;
  buf_start_addr = 0;
  buf_end_addr = 0;
  buf_used = false;
  has_new_data = false;
  newdata_start_addr = 0;
  newdata_end_addr = 0;
}

-- Two bytes have come, the second of them new.
abbrev arrived : TargetBuffer
arrived = record quiet {
  newdata = 1 ∷ 9 ∷ 3 ∷ [];
  has_new_data = true;
  newdata_start_addr = 0;
  newdata_end_addr = 1;
}

invalidate_runs : invalidate 0 1 (record quiet { newdata = 1 ∷ 9 ∷ 3 ∷ [] }) ≡ arrived
unfolding invalidate
invalidate_runs = refl

synchronize_runs : synchronize arrived ≡ record arrived {
  buf = 1 ∷ 9 ∷ 3 ∷ [];
  has_new_data = false;
  buf_used = true;
  buf_start_addr = 1;
  buf_end_addr = 1;
}
unfolding synchronize new_start new_end skip_same trim_end move_range mark_used fill mem_copy
synchronize_runs = refl

pub quiet-Pending : Pending quiet
quiet-Pending = record { range = λ k h d. absurd (d refl); same_length = refl; room = omega arith }

same_after : (k : ℕ) → k < 3 → (k < 0) ⊎ (1 < k) → at (1 ∷ 9 ∷ 3 ∷ []) k ≡ at quiet.newdata k
same_after zero h o = absurd (omega arith)
same_after (suc zero) h o = absurd (omega arith)
same_after (suc (suc k)) h o = refl

invalidate-Pending_example : Pending (invalidate 0 1 (record quiet { newdata = 1 ∷ 9 ∷ 3 ∷ [] }))
invalidate-Pending_example =
    invalidate-Pending 0 1 (1 ∷ 9 ∷ 3 ∷ []) quiet quiet-Pending refl same_after

quiet-Untaken : Untaken quiet.buf arrived
unfolding Untaken
quiet-Untaken k h d = absurd (d refl)

synchronize-IsMoved_example : IsMoved quiet.buf arrived (synchronize arrived)
synchronize-IsMoved_example =
    synchronize-IsMoved quiet.buf arrived (subst Pending invalidate_runs invalidate-Pending_example)
      quiet-Untaken
