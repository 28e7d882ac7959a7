-- ===== src/Frame/Data.antt =====
-- code/ioc_connection_send.c and code/ioc_connection_receive.c: data frames,
-- `ioc_make_data_frame` and `ioc_store_data_frame`.
use iocom.Base.{
  ℕ, ◌+◌, ◌-◌, min, Bool, true, false, not, ◌&&◌, Option, none, some, List, [], ◌++◌, ltb, ◌==◌,
  if◌then◌else◌, length, take, drop, Run, done, ◌>>=◌,
}
use iocom.Compress.{Compressed, compress, Unpacked, uncompress}
use iocom.SourceBuffer.{SourceBuffer}
use iocom.TargetBuffer.{TargetBuffer, invalidate, synchronize}
use iocom.Frame.{
  Connection, Header, generate_header, delta_encoded, compressed_data, sync_complete, has_flag,
  or_flag, store_size, store_checksum, is_blocked, next_frame_nr,
}

-- The bytes to be sent: the memory block itself, if there is no delta buffer.
unfoldable pub delta_bytes : List ℕ → SourceBuffer → List ℕ
delta_bytes mblk s = if s.allocated then s.delta else mblk

-- Whether they are added to what the other end has.
unfoldable pub is_delta : SourceBuffer → Bool
is_delta s = s.allocated && not s.is_keyframe && ltb s.start_addr s.ndata

-- ioc_compress, which the bytes of a memory block without a delta buffer do not go through. `beyond`
-- is what memory has behind the delta buffer.
unfoldable pub compress_data : List ℕ → SourceBuffer → ℕ → Run Compressed
compress_data beyond s max_dst_bytes =
    if s.allocated
    then compress (s.delta ++ beyond) s.start_addr s.end_addr max_dst_bytes
    else done (record { rval = none; dst = []; start_addr = s.start_addr })

-- The content of the frame, and the address of the next one.
pub record Content : Type 0 where
  pub is_compressed : Bool
  pub content : List ℕ
  pub next_addr : ℕ

-- For the number of bytes that `ioc_compress` stored, or none.
unfoldable pub content_of : Option ℕ → List ℕ → SourceBuffer → ℕ → Compressed → Content
content_of none mblk s max_dst_bytes r =
    let src_bytes = min (s.end_addr + 1 - s.start_addr) max_dst_bytes in
    record {
      is_compressed = false;
      content = take src_bytes (drop s.start_addr (delta_bytes mblk s));
      next_addr = s.start_addr + src_bytes;
    }
content_of (some n) mblk s max_dst_bytes r = record {
  is_compressed = true;
  content = r.dst;
  next_addr = r.start_addr;
}

unfoldable pub choose_content : List ℕ → SourceBuffer → ℕ → Compressed → Content
choose_content mblk s max_dst_bytes r = content_of r.rval mblk s max_dst_bytes r

-- Whether IOC_SYNC_COMPLETE is set, and the buffer afterwards. In a bidirectional buffer the mark
-- bits come next.
unfoldable pub completes : ℕ → SourceBuffer → Bool
completes next_addr s = ltb s.end_addr next_addr && not s.bidir_range_set

unfoldable pub advance : ℕ → SourceBuffer → SourceBuffer
advance next_addr s =
    if not (ltb s.end_addr next_addr)
    then record s { start_addr = next_addr }
    else if s.bidir_range_set
    then record s {
      start_addr = s.bidir_start_addr;
      end_addr = s.bidir_end_addr;
      bidir_range_set = false;
    }
    else record s { start_addr = next_addr; used = false }

-- The whole frame.
unfoldable pub seal_data : (List ℕ → ℕ) → Header → Bool → Bool → Content → List ℕ
seal_data os_checksum h delta complete x = store_checksum os_checksum h (
    or_flag h complete sync_complete (
      store_size h (length x.content) (
        or_flag h x.is_compressed compressed_data
          (or_flag h delta delta_encoded (h.hdr ++ x.content)))))

-- What `ioc_make_data_frame` leaves: the frame to send, or none if the flow control cancels it.
pub record DataFrame : Type 0 where
  pub frame : Option (List ℕ)
  pub connection : Connection
  pub sbuf : SourceBuffer

unfoldable pub place_content :
    (List ℕ → ℕ) → Connection → SourceBuffer → Header → Content → DataFrame
place_content os_checksum c s h x =
    if is_blocked (length x.content + h.header_sz) c
    then record { frame = none; connection = c; sbuf = s }
    else record {
      frame = some (seal_data os_checksum h (is_delta s) (completes x.next_addr s) x);
      connection = record c { frame_out_nr = next_frame_nr c.frame_out_nr };
      sbuf = advance x.next_addr s;
    }

-- `ioc_make_data_frame`, for the identifier that the memory block has at the other end. The trigger
-- callback is left out.
unfoldable pub make_data_frame :
    (List ℕ → ℕ) → List ℕ → List ℕ → Connection → ℕ → SourceBuffer → Run DataFrame
make_data_frame os_checksum beyond mblk c remote_mblk_id s = do
  h ← generate_header (some c) remote_mblk_id s.start_addr
  let max_dst_bytes = c.dst_frame_sz - h.header_sz
  r ← compress_data beyond s max_dst_bytes
  done (place_content os_checksum c s h (choose_content mblk s max_dst_bytes r))

pub data StoreStatus : Type 0 where
  stored corrupted : StoreStatus

-- The end of `ioc_store_data_frame`, after ioc_uncompress.
unfoldable pub mark_stored : ℕ → ℕ → Unpacked → TargetBuffer → StoreStatus × TargetBuffer
mark_stored addr flags r t = elim (r.rval) [
  | none ↦ (corrupted, t)
  | some n ↦
      if n == 0
      then (stored, t)
      else if has_flag flags sync_complete
      then (stored, synchronize (invalidate addr (addr + n - 1) t))
      else (stored, invalidate addr (addr + n - 1) t)
]

-- newdata, with the bytes from `addr` on that `ioc_uncompress` left.
unfoldable pub newdata_after : ℕ → List ℕ → TargetBuffer → List ℕ
newdata_after addr mem t = take addr t.newdata ++ (mem ++ drop t.nbytes t.newdata)

-- `ioc_store_data_frame`
unfoldable pub store_data_frame : TargetBuffer → ℕ → List ℕ → ℕ → Run (StoreStatus × TargetBuffer)
store_data_frame t addr content flags = if ltb t.nbytes addr then done (corrupted, t) else do
  r ←
      uncompress (has_flag flags compressed_data) (has_flag flags delta_encoded) content
        (take (t.nbytes - addr) (drop addr t.newdata))
  done (mark_stored addr flags r (record t { newdata = newdata_after addr r.mem t }))
