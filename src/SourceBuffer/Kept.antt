-- ===== src/SourceBuffer/Kept.antt =====
-- code/ioc_source_buffer.c: what `ioc_sbuf_synchronize` does not change.
use iocom.Base.{
  ℕ, ◌+◌, ◌-◌, ◌/◌, ◌≡◌, refl, ◌∙◌, Bool, true, false, not, List, if◌then◌else◌, length,
  length-mem_copy, length-fill, mem_copy, arith,
}
use iocom.SourceBuffer.{
  SourceBuffer, Status, take_range, real_start, real_end, delta_byte, key_frame, delta_frame,
  synchronize,
}

module _ (mblk : List ℕ) (s : SourceBuffer) where
  take_range-size : (i j : ℕ) → length (take_range mblk i j s).delta ≡ length s.delta
  unfolding take_range
  take_range-size i j =
      let sync = mem_copy s.buf i mblk i (j + 1 - i) in
      ground (
        arith,
        length-mem_copy s.delta (s.ndata + i / 8) sync (s.ndata + i / 8) (j / 8 + 1 - i / 8),
      )

  take_range_keeps :
      (i j : ℕ)
      → s.bidirectional ≡ false
      → ((take_range mblk i j s).allocated ≡ s.allocated)
        × ((take_range mblk i j s).ndata ≡ s.ndata)
        × ((take_range mblk i j s).bidir_range_set ≡ false)
  unfolding take_range
  take_range_keeps i j one_way = ground (arith, one_way)

-- What a synchronized buffer keeps, and that it has one range.
pub record Keeps (s u : SourceBuffer) : Type 0 where
  pub allocated : u.allocated ≡ s.allocated
  pub ndata : u.ndata ≡ s.ndata
  pub delta_size : length u.delta ≡ length s.delta
  pub one_range : u.bidir_range_set ≡ false

taken-Keeps :
    (mblk : List ℕ) (s u : SourceBuffer) (i j : ℕ)
    → u.bidirectional ≡ false
    → u.allocated ≡ s.allocated
    → u.ndata ≡ s.ndata
    → length u.delta ≡ length s.delta
    → Keeps s (take_range mblk i j u)
taken-Keeps mblk s u i j one_way a b c =
    let k = take_range_keeps mblk u i j one_way in
    record {
      allocated = k.0 ∙ a;
      ndata = k.1 ∙ b;
      delta_size = take_range-size mblk u i j ∙ c;
      one_range = k.2;
    }

Keeps-if :
    (s : SourceBuffer) (b : Bool) (x y : Status × SourceBuffer)
    → Keeps s x.1
    → Keeps s y.1
    → Keeps s (if b then x else y).1
Keeps-if s true x y k l = k
Keeps-if s false x y k l = l

module _ (mblk : List ℕ) (s : SourceBuffer) where
  key_frame_keeps :
      ((key_frame mblk s).bidirectional ≡ s.bidirectional)
      × ((key_frame mblk s).allocated ≡ s.allocated)
      × ((key_frame mblk s).ndata ≡ s.ndata)
      × (length (key_frame mblk s).delta ≡ length s.delta)
  unfolding key_frame
  key_frame_keeps = ground (arith, length-mem_copy s.delta 0 mblk 0 (length mblk))

  delta_frame_keeps :
      ((delta_frame mblk s).bidirectional ≡ s.bidirectional)
      × ((delta_frame mblk s).allocated ≡ s.allocated)
      × ((delta_frame mblk s).ndata ≡ s.ndata)
      × (length (delta_frame mblk s).delta ≡ length s.delta)
  unfolding delta_frame
  delta_frame_keeps = (
    refl,
    refl,
    refl,
    length-fill (real_end mblk s + 1 - real_start mblk s) (real_start mblk s)
        (delta_byte mblk s.buf) s.delta,
  )

-- A buffer that is not bidirectional keeps the number of its bytes, and has no second range.
pub synchronize-Keeps :
    (mblk : List ℕ) (s : SourceBuffer)
    → s.bidirectional ≡ false
    → s.bidir_range_set ≡ false
    → Keeps s (synchronize mblk s).1
unfolding synchronize
synchronize-Keeps mblk s one_way one_range =
    let same : Keeps s s = record {
      allocated = refl;
      ndata = refl;
      delta_size = refl;
      one_range = one_range;
    } in
    let unset : Keeps s (record s { range_set = false }) = record {
      allocated = refl;
      ndata = refl;
      delta_size = refl;
      one_range = one_range;
    } in
    let whole = key_frame_keeps mblk s in
    let part = delta_frame_keeps mblk s in
    Keeps-if s _ _ _ same (
      Keeps-if s s.make_keyframe _ _
        (taken-Keeps mblk s (key_frame mblk s) _ _ (whole.0 ∙ one_way) whole.1 whole.2 whole.3)
        (Keeps-if s (not s.allocated) _ _
          (taken-Keeps mblk s (record s { range_set = false; is_keyframe = false }) _ _ one_way refl
            refl refl)
          (Keeps-if s _ _ _ unset
            (taken-Keeps mblk s (delta_frame mblk s) _ _ (part.0 ∙ one_way) part.1 part.2 part.3))))
