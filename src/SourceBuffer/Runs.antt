-- ===== src/SourceBuffer/Runs.antt =====
-- Runs of the code of code/ioc_source_buffer.c, and its theorems at such inputs.
use iocom.Base.{
  ℕ, zero, suc, ◌<◌, ◌≡◌, refl, true, false, at-lt, subst, List, [], ◌∷◌, at, arith, ◌⊎◌, fill,
  subst, at-lt, mem_copy,
}
use iocom.SourceBuffer.{
  SourceBuffer, add_range, trim_range, trim_start, trim_end, skip_same, invalidate, success,
  real_start, real_end, delta_frame, take_range, synchronize,
}
use iocom.SourceBuffer.Range.{Covers, IsWrite, invalidate-Covers}
use iocom.SourceBuffer.Frame.{IsReady}
use iocom.SourceBuffer.Synchronized.{IsSynchronized, synchronize-IsSynchronized}

-- Three bytes that the other end has as 1, 2 and 3.
abbrev fresh : SourceBuffer
fresh = record {
  range_set = false;
  changed_start = 0;
  changed_end = 0;
  allocated = true;
  buf = 1 ∷ 2 ∷ 3 ∷ [];
  delta = 0 ∷ 0 ∷ 0 ∷ [];
  nbytes = 3;
  ndata = 3;
  bidirectional = false;
  used = false;
  make_keyframe = false;
  is_keyframe = false;
  start_addr = 0;
  end_addr = 0;
  bidir_start_addr = 0;
  bidir_end_addr = 0;
  bidir_range_set = false;
}

abbrev before : List ℕ
before = 1 ∷ 2 ∷ 3 ∷ []

-- The first two bytes are written, and one of them has changed.
abbrev pub after : List ℕ
after = 1 ∷ 0 ∷ 3 ∷ []

abbrev pub changed : SourceBuffer
changed = record fresh { range_set = true; changed_start = 1; changed_end = 1 }

invalidate_trims : invalidate after 0 1 fresh ≡ changed
unfolding invalidate trim_range trim_start trim_end add_range
invalidate_trims = refl

synchronize_test : synchronize after changed ≡ (
  success,
  record fresh {
    changed_start = 1;
    changed_end = 1;
    buf = after;
    delta = 0 ∷ 254 ∷ 0 ∷ [];
    used = true;
    start_addr = 1;
    end_addr = 1;
  },
)
unfolding synchronize take_range delta_frame real_start real_end skip_same trim_end fill mem_copy
synchronize_test = refl

fresh-Covers : Covers before fresh
unfolding Covers
fresh-Covers k l d = absurd (d refl)

after-IsWrite : IsWrite before after 0 1
after-IsWrite = record {
  same_length = refl;
  ordered = omega arith;
  inside = omega arith;
  outside = outside;
}
  where
    outside : (k : ℕ) → (k < 0) ⊎ (1 < k) → at after k ≡ at before k
    outside zero o = absurd (omega arith)
    outside (suc zero) o = absurd (omega arith)
    outside (suc (suc k)) o = refl

invalidate-Covers_example : Covers after (invalidate after 0 1 fresh)
invalidate-Covers_example =
    invalidate-Covers before after 0 1 fresh after-IsWrite fresh-Covers (omega arith)

pub changed-IsReady : IsReady after changed
changed-IsReady = record {
  copied = refl;
  data_bytes = refl;
  some_data = omega arith;
  room = omega arith;
  sync_bytes = refl;
  delta_bytes = refl;
  mblk_IsBytes = λ k h. at-lt after (omega arith) k;
  sync_IsBytes = λ k h. at-lt before (omega arith) k;
  range = λ e. omega arith;
}

pub changed-Covers : Covers after changed
changed-Covers =
    subst (Covers after) invalidate_trims
      (invalidate-Covers before after 0 1 fresh after-IsWrite fresh-Covers (omega arith))

synchronize-IsSynchronized_example :
    ((synchronize after changed).0 ≡ success)
    × IsSynchronized after changed (synchronize after changed).1
synchronize-IsSynchronized_example =
    synchronize-IsSynchronized after changed changed-IsReady changed-Covers refl
