-- ===== src/MemoryBlock/Received.antt =====
-- code/ioc_memory_block.c: `ioc_receive`, which takes over what the target buffers hold and passes
-- it on to the source buffers. The callback is left out.
use iocom.Base.{
  ℕ, zero, suc, ◌+◌, ◌-◌, ◌/◌, ◌%◌, ◌^◌, Bool, false, not, ◌&&◌, Option, none, some, List, [], ◌∷◌,
  map, ◌==◌, if◌then◌else◌, at, fill, mem_copy, mem_clear,
}
use iocom.SourceBuffer
use iocom.SourceBuffer.{SourceBuffer}
use iocom.TargetBuffer.{TargetBuffer}
use iocom.MemoryBlock.{MemoryBlock, Source, Target, invalidate_source, mblk_invalidate}

-- (bits[i >> 3] >> (i & 7)) & 1
unfoldable pub is_marked : TargetBuffer → ℕ → Bool
is_marked t i = at t.buf (t.ndata + i / 8) / 2 ^ (i % 8) % 2 == 1

-- The bytes of the memory block after those of the target buffer are taken over: the marked ones
-- if it is bidirectional.
unfoldable pub take_over : TargetBuffer → List ℕ → List ℕ
take_over t buf =
    let n = t.buf_end_addr + 1 - t.buf_start_addr in
    if t.bidirectional
    then fill n t.buf_start_addr (λ i. if is_marked t i then at t.buf i else at buf i) buf
    else mem_copy buf t.buf_start_addr t.buf t.buf_start_addr n

-- for (i = start_addr; i <= end_addr; ++i), invalidate what is marked.
unfoldable pub invalidate_marked : TargetBuffer → List ℕ → ℕ → ℕ → SourceBuffer → SourceBuffer
invalidate_marked t buf zero i s = s
invalidate_marked t buf (suc n) i s =
    invalidate_marked t buf n (i + 1)
      (if is_marked t i then SourceBuffer.invalidate buf i i s else s)

-- Whether a source buffer leads back, downwards, to where the data comes from.
unfoldable pub is_echo : Target → Source → Bool
is_echo t s =
    if s.con == t.con then s.remote_mblk_id == t.remote_mblk_id && not s.connect_up else false

-- One source buffer, for a bidirectional target buffer.
unfoldable pub pass_on : Target → List ℕ → Source → Source
pass_on t buf s =
    let b = t.tbuf in
    if is_echo t s
    then s
    else if s.sbuf.bidirectional
    then record s {
      sbuf =
          invalidate_marked b buf (b.buf_end_addr + 1 - b.buf_start_addr) b.buf_start_addr s.sbuf;
    }
    else invalidate_source buf b.buf_start_addr b.buf_end_addr s

-- The target buffer afterwards: it is not used, and its mark bits in the range are clear.
unfoldable pub release_target : Target → Target
release_target t =
    let b = t.tbuf in
    let bits = b.buf_start_addr / 8 in
    let cleared = mem_clear b.buf (b.ndata + bits) (b.buf_end_addr / 8 - bits + 1) in
    record t {
      tbuf = record b { buf_used = false; buf = if b.bidirectional then cleared else b.buf };
    }

-- What one target buffer does to the memory block's bytes and source buffers.
unfoldable pub receive_target : Target → MemoryBlock → MemoryBlock
receive_target t m =
    let b = t.tbuf in
    if not b.buf_used
    then m
    else let n = record m { buf = take_over b m.buf } in
      if b.bidirectional
      then record n { sources = map (pass_on t n.buf) n.sources }
      else mblk_invalidate b.buf_start_addr b.buf_end_addr n

-- The loop over the target buffers.
unfoldable pub receive_targets : List Target → MemoryBlock → MemoryBlock
receive_targets [] m = m
receive_targets (t ∷ ts) m = receive_targets ts (receive_target t m)

unfoldable pub release_used : Target → Target
release_used t = if t.tbuf.buf_used then release_target t else t

-- `ioc_receive_nolock`
unfoldable pub receive_mblk : MemoryBlock → MemoryBlock
receive_mblk m =
    if m.static
    then m
    else record (receive_targets m.targets m) { targets = map release_used m.targets }

-- `ioc_receive`
pub receive : Option MemoryBlock → Option MemoryBlock
receive none = none
receive (some m) = some (receive_mblk m)
