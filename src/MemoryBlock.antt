-- ===== src/MemoryBlock.antt =====
-- code/ioc_memory_block.c: writing and reading a memory block, and the transfer of snapshots.
-- The processor is little endian, as for OSAL_SMALL_ENDIAN, so that `ioc_byte_ordered_copy` copies.
-- Addresses are not negative. A handle whose memory block is gone is `none`.
pub mod Received
pub mod Written
pub mod Taken
mod Runs
use iocom.Base.{
  ℕ, zero, suc, ◌+◌, ◌-◌, ◌*◌, ◌/◌, ◌%◌, ◌^◌, min, Bool, true, false, not, ◌&&◌, ◌||◌, Option, none,
  some, List, [], ◌∷◌, map, ltb, leb, ◌==◌, if◌then◌else◌, length, set, at, drop, fill, mem_copy,
  mem_clear,
}
use iocom.SourceBuffer
use iocom.SourceBuffer.{SourceBuffer}
use iocom.TargetBuffer.{TargetBuffer}

-- A source buffer or a target buffer in the lists of a memory block, with its connection, the
-- identifier of the memory block at the other end, and for the connection the flag IOC_CONNECT_UP.
pub record Source : Type 0 where
  pub sbuf : SourceBuffer
  pub con : ℕ
  pub remote_mblk_id : ℕ
  pub connect_up : Bool

pub record Target : Type 0 where
  pub tbuf : TargetBuffer
  pub con : ℕ
  pub remote_mblk_id : ℕ

-- `iocMemoryBlock`: its bytes, of which there are `nbytes`, the flag IOC_STATIC and its buffers.
pub record MemoryBlock : Type 0 where
  pub buf : List ℕ
  pub static : Bool
  pub sources : List Source
  pub targets : List Target

-- ioc_sbuf_invalidate(sbuf, start_addr, end_addr)
unfoldable pub invalidate_source : List ℕ → ℕ → ℕ → Source → Source
invalidate_source buf start_addr end_addr s = record s {
  sbuf = SourceBuffer.invalidate buf start_addr end_addr s.sbuf;
}

-- `ioc_mblk_invalidate`
unfoldable pub mblk_invalidate : ℕ → ℕ → MemoryBlock → MemoryBlock
mblk_invalidate start_addr end_addr m = record m {
  sources = map (invalidate_source m.buf start_addr end_addr) m.sources;
}

-- What is written: the bytes of a string up to its '\0', zeros, or bytes.
pub data Content : Type 0 where
  string : List ℕ → Content
  cleared : Content
  bytes : List ℕ → Content

-- The store of `n` bytes, which fit.
unfoldable pub store_content : Content → ℕ → ℕ → List ℕ → List ℕ
store_content (string str) addr n buf =
    let count = min (length str) n in
    mem_clear (mem_copy buf addr str 0 count) (addr + count) (n - count)
store_content cleared addr n buf = mem_clear buf addr n
store_content (bytes src) addr n buf = mem_copy buf addr src 0 n

-- `ioc_write`, on the memory block of a handle.
unfoldable pub write_mblk : ℕ → Content → ℕ → MemoryBlock → MemoryBlock
write_mblk addr content n m =
    if leb (length m.buf) addr
    then m
    else let count = min n (length m.buf - addr) in
      mblk_invalidate addr (addr + count - 1)
        (record m { buf = store_content content addr count m.buf })

pub write : ℕ → Content → ℕ → Option MemoryBlock → Option MemoryBlock
write addr content n none = none
write addr content n (some m) = some (write_mblk addr content n m)

-- `ioc_clear`
pub clear : ℕ → ℕ → Option MemoryBlock → Option MemoryBlock
clear addr n m = write addr cleared n m

-- while (count > 0 && *p != '\0') { … }: the bytes that it copies.
unfoldable pub string_at : ℕ → List ℕ → List ℕ
string_at zero p = []
string_at (suc count) [] = []
string_at (suc count) (x ∷ p) = let rest = string_at count p in if x == 0 then [] else x ∷ rest

-- `ioc_read`, for the `n` bytes of the caller's buffer.
unfoldable pub read_mblk : ℕ → Bool → ℕ → MemoryBlock → List ℕ → List ℕ
read_mblk addr is_string n m dst =
    if leb (length m.buf) addr
    then dst
    else let max_n = length m.buf - addr in
      let count = min n max_n in
      let rest = if ltb max_n n then mem_clear dst max_n (n - max_n) else dst in
      if is_string
      then (let str = string_at (count - 1) (drop addr m.buf) in
          if count == 0 then rest else set (mem_copy rest 0 str 0 (length str)) (length str) 0)
      else mem_copy rest 0 m.buf addr count

pub read : ℕ → Bool → ℕ → Option MemoryBlock → List ℕ → List ℕ
read addr is_string n none dst = mem_clear dst 0 n
read addr is_string n (some m) dst = read_mblk addr is_string n m dst

-- `ioc_send`
unfoldable pub send_source : List ℕ → Source → Source
send_source buf s = record s { sbuf = (SourceBuffer.synchronize buf s.sbuf).1 }

pub send : Option MemoryBlock → Option MemoryBlock
send none = none
send (some m) = some (record m { sources = map (send_source m.buf) m.sources })
