-- ===== src/MemoryBlock/Taken.antt =====
-- code/ioc_memory_block.c: what `ioc_receive` takes over from target buffers that are not
-- bidirectional.
use iocom.Base.{
  ℕ, ◌+◌, ◌-◌, ◌<◌, ◌≤◌, ◌≡◌, ◌∙◌, inl, inr, refl, sym, ap, true, false, List, [], ◌∷◌, map, subst,
  Bool-cases, length, All, mem_copy, length-mem_copy, at-mem_copy_same, arith,
}
use iocom.SourceBuffer.Range.{IsWrite}
use iocom.TargetBuffer.{TargetBuffer}
use iocom.MemoryBlock.{MemoryBlock, Target, mblk_invalidate}
use iocom.MemoryBlock.Received.{
  take_over, receive_target, receive_targets, receive_mblk, release_used,
}
use iocom.MemoryBlock.Written.{IsCovered, mblk_invalidate-IsCovered}

-- A target buffer in one direction, whose range, if it has one, is in the memory block.
unfoldable pub IsPlain : ℕ → Target → Type 0
IsPlain n t =
    (t.tbuf.bidirectional ≡ false)
    × (t.tbuf.buf_used ≡ true
        → (t.tbuf.buf_start_addr ≤ t.tbuf.buf_end_addr) × (t.tbuf.buf_end_addr < n))

-- The three cases of a target buffer.
receive_target_unused :
    (t : Target) (m : MemoryBlock) → t.tbuf.buf_used ≡ false → receive_target t m ≡ m
unfolding receive_target
receive_target_unused t m unused = ground arith

receive_target_plain :
    (t : Target) (m : MemoryBlock)
    → t.tbuf.buf_used ≡ true
    → t.tbuf.bidirectional ≡ false
    → receive_target t m
      ≡ mblk_invalidate t.tbuf.buf_start_addr t.tbuf.buf_end_addr
          (record m { buf = take_over t.tbuf m.buf })
unfolding receive_target
receive_target_plain t m used one = ground arith

-- It writes its range.
take_over-IsWrite :
    (b : TargetBuffer) (buf : List ℕ)
    → b.bidirectional ≡ false
    → b.buf_start_addr ≤ b.buf_end_addr
    → b.buf_end_addr < length buf
    → IsWrite buf (take_over b buf) b.buf_start_addr b.buf_end_addr
unfolding take_over
take_over-IsWrite b buf one ordered inside =
    subst (λ new. IsWrite buf new b.buf_start_addr b.buf_end_addr) (sym (plain b buf one))
      (record {
        same_length = length-mem_copy buf i b.buf i n;
        ordered = ordered;
        inside = inside;
        outside = λ k out. ground (arith, at-mem_copy_same buf i b.buf n k);
      })
  where
    i : ℕ
    i = b.buf_start_addr

    n : ℕ
    n = b.buf_end_addr + 1 - b.buf_start_addr

    plain :
        (b : TargetBuffer) (buf : List ℕ)
        → b.bidirectional ≡ false
        → take_over b buf
          ≡ mem_copy buf b.buf_start_addr b.buf b.buf_start_addr
              (b.buf_end_addr + 1 - b.buf_start_addr)
    plain b buf one = ground arith

length-receive_target :
    (t : Target) (m : MemoryBlock)
    → IsPlain (length m.buf) t
    → length (receive_target t m).buf ≡ length m.buf
unfolding IsPlain mblk_invalidate
length-receive_target t m (one, range) = elim (Bool-cases (t.tbuf.buf_used)) [
  | inl used ↦
      ap (λ x. length x.buf) (receive_target_plain t m used one)
      ∙ (take_over-IsWrite t.tbuf m.buf one (range used).0 (range used).1).same_length
  | inr unused ↦ ap (λ x. length x.buf) (receive_target_unused t m unused)
]

receive_target-IsCovered :
    (t : Target) (m : MemoryBlock)
    → IsPlain (length m.buf) t
    → IsCovered m
    → IsCovered (receive_target t m)
unfolding IsPlain
receive_target-IsCovered t m (one, range) c = elim (Bool-cases (t.tbuf.buf_used)) [
  | inl used ↦ subst IsCovered (sym (receive_target_plain t m used one)) (
      mblk_invalidate-IsCovered m (take_over t.tbuf m.buf) t.tbuf.buf_start_addr t.tbuf.buf_end_addr
        (take_over-IsWrite t.tbuf m.buf one (range used).0 (range used).1) c)
  | inr unused ↦ subst IsCovered (sym (receive_target_unused t m unused)) c
]

receive_targets-IsCovered :
    (ts : List Target) (m : MemoryBlock) (n : ℕ)
    → n ≡ length m.buf
    → All (IsPlain n) ts
    → IsCovered m
    → IsCovered (receive_targets ts m)
unfolding receive_targets
receive_targets-IsCovered [] m n e a c = c
receive_targets-IsCovered (t ∷ ts) m n e (p, a) c =
    let q : IsPlain (length m.buf) t = subst (λ k. IsPlain k t) e p in
    receive_targets-IsCovered ts (receive_target t m) n (e ∙ sym (length-receive_target t m q)) a
      (receive_target-IsCovered t m q c)

-- What `ioc_receive` takes over from target buffers in one direction is passed on: if the changed
-- range of every source buffer of the memory block covers what its other end lacks, it does so
-- afterwards too, however many target buffers have new data, if their ranges are in the memory
-- block.
pub receive_mblk-IsCovered :
    (m : MemoryBlock)
    → All (IsPlain (length m.buf)) m.targets
    → IsCovered m
    → IsCovered (receive_mblk m)
unfolding receive_mblk IsCovered
receive_mblk-IsCovered m a c = elim (Bool-cases (m.static)) [
  | inl fixed ↦ subst IsCovered (sym (static_block m fixed)) c
  | inr free ↦
      subst IsCovered (sym (other_block m free))
        (receive_targets-IsCovered m.targets m (length m.buf) refl a c)
]
  where
    static_block : (m : MemoryBlock) → m.static ≡ true → receive_mblk m ≡ m
    static_block m fixed = ground arith

    other_block :
        (m : MemoryBlock)
        → m.static ≡ false
        → receive_mblk m
          ≡ record (receive_targets m.targets m) { targets = map release_used m.targets }
    other_block m free = ground arith
