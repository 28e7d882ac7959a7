-- ===== src/TargetBuffer.antt =====
-- code/ioc_target_buffer.c: what a connection has received for a memory block.
-- A read out of range gives 0 and a store out of range is lost; the theorems are about ranges
-- inside.
pub mod Received
pub mod Moved
pub mod Runs
use iocom.Base.{
  ℕ, ◌+◌, ◌-◌, ◌/◌, bit_or, Bool, true, false, not, List, ltb, leb, if◌then◌else◌, at, fill,
  mem_copy,
}
use iocom.SourceBuffer.{skip_same, trim_end}

-- `iocTargetBuffer`, without its links. `buf` is never OS_NULL, since a target buffer for which it
-- cannot be allocated is not made; `bidirectional` is the flag IOC_BIDIRECTIONAL.
pub record TargetBuffer : Type 0 where
  pub buf : List ℕ
  pub newdata : List ℕ
  pub nbytes : ℕ
  pub ndata : ℕ
  pub bidirectional : Bool
  pub buf_start_addr : ℕ
  pub buf_end_addr : ℕ
  pub buf_used : Bool
  pub has_new_data : Bool
  pub newdata_start_addr : ℕ
  pub newdata_end_addr : ℕ

-- `ioc_tbuf_invalidate`. The trigger callback is left out.
pub invalidate : ℕ → ℕ → TargetBuffer → TargetBuffer
invalidate start_addr end_addr t =
    if leb t.ndata start_addr
    then t
    else if not t.has_new_data
    then record t {
      newdata_start_addr = start_addr;
      newdata_end_addr = end_addr;
      has_new_data = true;
    }
    else record t {
      newdata_start_addr =
          if ltb start_addr t.newdata_start_addr then start_addr else t.newdata_start_addr;
      newdata_end_addr = if ltb t.newdata_end_addr end_addr then end_addr else t.newdata_end_addr;
    }

-- The bounds that are left of the new range: the loops are those of `ioc_sbuf_synchronize`.
pub new_start : TargetBuffer → ℕ
new_start t =
    if t.bidirectional
    then t.newdata_start_addr
    else skip_same t.buf t.newdata (t.newdata_end_addr + 1 - t.newdata_start_addr)
        t.newdata_start_addr

pub new_end : TargetBuffer → ℕ
new_end t =
    if t.bidirectional
    then t.newdata_end_addr
    else trim_end t.buf t.newdata (t.newdata_end_addr + 1 - new_start t) t.newdata_end_addr

-- The data bytes of the range, and in a bidirectional buffer its mark bits too, go to `buf`.
pub move_range : ℕ → ℕ → TargetBuffer → List ℕ
move_range start_addr end_addr t =
    let moved = mem_copy t.buf start_addr t.newdata start_addr (end_addr + 1 - start_addr) in
    let pos = t.ndata + start_addr / 8 in
    if t.bidirectional
    then fill (end_addr / 8 + 1 - start_addr / 8) pos (λ j. bit_or (at moved j) (at t.newdata j))
        moved
    else moved

-- The range of `buf` that the memory block does not have yet grows.
pub mark_used : ℕ → ℕ → TargetBuffer → TargetBuffer
mark_used start_addr end_addr t =
    if t.buf_used
    then record t {
      buf_start_addr = if ltb start_addr t.buf_start_addr then start_addr else t.buf_start_addr;
      buf_end_addr = if ltb t.buf_end_addr end_addr then end_addr else t.buf_end_addr;
    }
    else record t { buf_start_addr = start_addr; buf_end_addr = end_addr; buf_used = true }

-- `ioc_tbuf_synchronize`
pub synchronize : TargetBuffer → TargetBuffer
synchronize t =
    if not t.has_new_data
    then t
    else if ltb (new_end t) (new_start t)
    then record t { has_new_data = false }
    else mark_used (new_start t) (new_end t)
        (record t { has_new_data = false; buf = move_range (new_start t) (new_end t) t })
