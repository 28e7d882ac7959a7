-- ===== src/SourceBuffer.antt =====
-- code/ioc_source_buffer.c: what a memory block has to send over one connection.
-- The `buf` arguments are the memory block's bytes, `mblk->buf`. A read out of range gives 0 and a
-- store out of range is lost; the theorems are about ranges inside.
pub mod Trimming
pub mod Range
pub mod Kept
pub mod Frame
pub mod Synchronized
pub mod Runs
use iocom.Base.{
  ℕ, zero, suc, ◌+◌, ◌-◌, ◌*◌, ◌/◌, ◌%◌, ◌^◌, min, max, bit_and, bit_or, Bool, true, false, not,
  ◌&&◌, ◌||◌, Option, none, some, List, ltb, leb, ◌==◌, if◌then◌else◌, length, set, at, fill,
  mem_copy, mem_clear,
}

-- `iocSourceBuffer`, without its links. `buf` and `delta` are the halves of one allocation, and
-- `allocated` is false where they are OS_NULL, for IOC_STATIC; `bidirectional` is that flag.
pub record SourceBuffer : Type 0 where
  pub range_set : Bool
  pub changed_start : ℕ
  pub changed_end : ℕ
  pub allocated : Bool
  pub buf : List ℕ
  pub delta : List ℕ
  pub nbytes : ℕ
  pub ndata : ℕ
  pub bidirectional : Bool
  pub used : Bool
  pub make_keyframe : Bool
  pub is_keyframe : Bool
  pub start_addr : ℕ
  pub end_addr : ℕ
  pub bidir_start_addr : ℕ
  pub bidir_end_addr : ℕ
  pub bidir_range_set : Bool

-- `buf[i] != syncbuf[i]`
abbrev pub differs : List ℕ → List ℕ → ℕ → Bool
differs buf sync i = not (at buf i == at sync i)

-- for (k = 0; k < n; k++) p[k] |= mask;
pub or_range : ℕ → ℕ → ℕ → List ℕ → List ℕ
or_range n p mask bytes = fill n p (λ j. bit_or (at bytes j) mask) bytes

-- The two masks, as `os_uchar`.
abbrev pub start_mask : ℕ → ℕ
start_mask start_addr = 0xff * 2 ^ (start_addr % 8) % 256

abbrev pub end_mask : ℕ → ℕ
end_mask end_addr = 0xff / 2 ^ (7 - end_addr % 8)

-- The mark bits from index `ndata` on.
pub mark_bits : ℕ → ℕ → ℕ → List ℕ → List ℕ
mark_bits ndata start_addr end_addr bytes =
    let first = start_addr / 8 in
    let last = end_addr / 8 in
    if first == last
    then or_range 1 (ndata + first) (bit_and (start_mask start_addr) (end_mask end_addr)) bytes
    else or_range 1 (ndata + last) (end_mask end_addr) (
        or_range (last - first - 1) (ndata + first + 1) 0xff
          (or_range 1 (ndata + first) (start_mask start_addr) bytes))

-- `ioc_sbuf_invalidate_bytes`
pub invalidate_bytes : ℕ → ℕ → SourceBuffer → SourceBuffer
invalidate_bytes start_addr end_addr s =
    if ltb end_addr start_addr || not s.allocated
    then s
    else record s { buf = mark_bits s.ndata start_addr end_addr s.buf }

-- while (start_addr <= end_addr) { … }, with `end_addr + 1 - start_addr` rounds left. `none` is the
-- return from within the loop, where nothing has changed.
pub trim_start : List ℕ → List ℕ → ℕ → ℕ → ℕ → Option ℕ
trim_start buf sync zero i end_addr = some i
trim_start buf sync (suc left) i end_addr =
    let rest = trim_start buf sync left (i + 1) end_addr in
    if differs buf sync i then some i else if i == end_addr then none else rest

-- while (end_addr > start_addr) { … }, with `end_addr - start_addr` rounds left; and with one more,
-- while (end_addr >= start_addr) { … } of `ioc_sbuf_synchronize`.
unfoldable pub trim_end : List ℕ → List ℕ → ℕ → ℕ → ℕ
trim_end buf sync zero i = i
trim_end buf sync (suc left) i =
    let rest = trim_end buf sync left (i - 1) in if differs buf sync i then i else rest

-- while (start_addr <= sbuf->changed.end_addr) { … }
unfoldable pub skip_same : List ℕ → List ℕ → ℕ → ℕ → ℕ
skip_same buf sync zero i = i
skip_same buf sync (suc left) i =
    let rest = skip_same buf sync left (i + 1) in if differs buf sync i then i else rest

-- The changed range grows by another.
pub add_range : ℕ → ℕ → SourceBuffer → SourceBuffer
add_range start_addr end_addr s =
    if not s.range_set
    then record s { range_set = true; changed_start = start_addr; changed_end = end_addr }
    else record s {
      changed_start = if ltb start_addr s.changed_start then start_addr else s.changed_start;
      changed_end = if ltb s.changed_end end_addr then end_addr else s.changed_end;
    }

pub trim_range : List ℕ → List ℕ → ℕ → ℕ → Option (ℕ × ℕ)
trim_range buf sync start_addr end_addr =
    elim (trim_start buf sync (end_addr + 1 - start_addr) start_addr end_addr) [
      | none ↦ none
      | some i ↦ some (i, trim_end buf sync (end_addr - i) end_addr)
    ]

-- `ioc_sbuf_invalidate`
pub invalidate : List ℕ → ℕ → ℕ → SourceBuffer → SourceBuffer
invalidate buf start_addr end_addr s =
    if s.bidirectional
    then invalidate_bytes start_addr end_addr (add_range start_addr end_addr s)
    else if s.allocated && ltb (end_addr - start_addr) 256
    then elim (trim_range buf s.buf start_addr end_addr) [
      | none ↦ s
      | some (i, j) ↦ add_range i j s
    ]
    else add_range start_addr end_addr s

pub data Status : Type 0 where
  success pending : Status

-- The end of `ioc_sbuf_synchronize`, for the range that was found.
pub take_range : List ℕ → ℕ → ℕ → SourceBuffer → SourceBuffer
take_range buf start_addr end_addr s =
    let ready = record s {
      start_addr = start_addr;
      end_addr = end_addr;
      used = true;
      bidir_range_set = false;
    } in
    let sync = mem_copy s.buf start_addr buf start_addr (end_addr + 1 - start_addr) in
    let pos = s.ndata + start_addr / 8 in
    let count = end_addr / 8 + 1 - start_addr / 8 in
    if not s.allocated
    then ready
    else if not s.bidirectional
    then record ready { buf = sync }
    else record ready {
      delta = mem_copy s.delta pos sync pos count;
      buf = mem_clear sync pos count;
      bidir_start_addr = pos;
      bidir_end_addr = pos + count - 1;
      bidir_range_set = true;
    }

-- The bounds that are left of the changed range.
pub real_start : List ℕ → SourceBuffer → ℕ
real_start buf s =
    if s.bidirectional
    then s.changed_start
    else skip_same s.buf buf (s.changed_end + 1 - s.changed_start) s.changed_start

pub real_end : List ℕ → SourceBuffer → ℕ
real_end buf s =
    if s.bidirectional
    then s.changed_end
    else trim_end s.buf buf (s.changed_end + 1 - real_start buf s) s.changed_end

-- delta[i] = buf[i] - syncbuf[i], as `os_char`
abbrev pub delta_byte : List ℕ → List ℕ → ℕ → ℕ
delta_byte buf sync i = (at buf i + 256 - at sync i) % 256

-- The delta buffer is the whole memory block.
pub key_frame : List ℕ → SourceBuffer → SourceBuffer
key_frame buf s = record s {
  range_set = false;
  delta = if s.allocated then mem_copy s.delta 0 buf 0 (length buf) else s.delta;
  make_keyframe = false;
  is_keyframe = true;
}

-- The loop that writes the delta buffer.
pub delta_frame : List ℕ → SourceBuffer → SourceBuffer
delta_frame buf s = record s {
  range_set = false;
  delta =
      fill (real_end buf s + 1 - real_start buf s) (real_start buf s) (delta_byte buf s.buf)
        s.delta;
  is_keyframe = false;
}

-- `ioc_sbuf_synchronize`. The trigger of the communication thread is left out.
pub synchronize : List ℕ → SourceBuffer → Status × SourceBuffer
synchronize buf s =
    if not s.range_set && not s.make_keyframe || s.used
    then (if s.range_set then pending else success, s)
    else if s.make_keyframe
    then (success, take_range buf 0 (length buf - 1) (key_frame buf s))
    else if not s.allocated
    then (
      success,
      take_range buf s.changed_start s.changed_end
          (record s { range_set = false; is_keyframe = false }),
    )
    else if ltb (real_end buf s) (real_start buf s)
    then (success, record s { range_set = false })
    else (success, take_range buf (real_start buf s) (real_end buf s) (delta_frame buf s))
