-- ===== src/Frame/Receive.antt =====
-- code/ioc_connection_receive.c: reading a frame from the stream, and its parts.
use iocom.Base.{
  ℕ, zero, suc, ◌+◌, ◌-◌, ◌*◌, ◌%◌, ◌^◌, bit_or, Bool, not, ◌&&◌, Option, none, some, List, ◌++◌,
  ltb, leb, ◌==◌, if◌then◌else◌, length, set, at, take, drop, Run, done, stuck, ◌>>=◌,
}
use iocom.Message.{get_uint}
use iocom.Frame.{
  Connection, has_flag, addr_has_two_bytes, mblk_has_two_bytes, has_extra_flags,
  addr_has_four_bytes, mblk_has_four_bytes,
}

-- `iocReadFrameState`. `buf` holds the bytes that were read, so that `n` is its length.
pub record ReadFrameState : Type 0 where
  pub buf : List ℕ
  pub needed : ℕ
  pub frame_sz : ℕ
  pub data_sz : ℕ
  pub frame_nr : ℕ
  pub serial : Bool
  pub flags : ℕ
  pub extra_flags : ℕ

-- How many bytes the identifier and the address take beyond the first of each.
unfoldable pub more_bytes : ℕ → ℕ → ℕ
more_bytes flags extra_flags =
    (if has_flag extra_flags mblk_has_four_bytes
      then 3
      else if has_flag flags mblk_has_two_bytes
      then 1
      else 0)
    + (if has_flag extra_flags addr_has_four_bytes
        then 3
        else if has_flag flags addr_has_two_bytes
        then 1
        else 0)

-- The size of a frame whose header has come: `none` if it is too big. `fixed` is the size of a
-- header with one byte for the identifier and one for the address.
unfoldable pub size_known : ℕ → ℕ → ℕ → ℕ → ReadFrameState → Option ReadFrameState
size_known data_sz flags extra_pos fixed s =
    let extra = has_flag flags has_extra_flags in
    let extra_flags = if extra then at s.buf extra_pos else s.extra_flags in
    let needed = data_sz + fixed + (if extra then 1 else 0) + more_bytes flags extra_flags in
    if ltb s.frame_sz needed
    then none
    else some
        (record s { data_sz = data_sz; needed = needed; flags = flags; extra_flags = extra_flags })

-- How many bytes are needed at least to complete a frame.
unfoldable pub size_frame : ReadFrameState → Option ReadFrameState
size_frame s =
    let n = length s.buf in
    if at s.buf 0 == 255 && leb 1 n
    then some (record s { data_sz = 0; needed = if s.serial then 3 else 4; flags = 0 })
    else if leb (if s.serial then 6 else 5) n
    then if s.serial
      then size_known (at s.buf 4) (at s.buf 3) 5 7 s
      else size_known (bit_or (at s.buf 2) (at s.buf 3 * 2 ^ 8)) (at s.buf 1) 4 6 s
    else if leb 1 n
    then some (record s { data_sz = 0xffff; needed = if s.serial then 7 else 6; flags = 0 })
    else some (record s { data_sz = 0xffff; needed = if s.serial then 3 else 4; flags = 0 })

-- `osal_stream_read` is a parameter: from the stream and the room in the buffer to the bytes read
-- and the stream afterwards, or `none` for an error.
module _ {ℓ} {S : Type ℓ} (stream_read : S → ℕ → Option (List ℕ × S)) where
  -- After a read of `bytes`.
  unfoldable pub take_bytes :
      (ReadFrameState → S → Run (Option (ReadFrameState × S)))
      → ReadFrameState
      → List ℕ
      → S
      → Run (Option (ReadFrameState × S))
  take_bytes again s bytes stream =
      let t = record s { buf = s.buf ++ bytes } in
      if not (length bytes == 0) && not (at t.buf 0 == 255) && not (at t.buf 0 == s.frame_nr)
      then done none
      else if length t.buf == t.needed && t.data_sz == 0xffff
      then again t stream
      else done (some (t, stream))

  -- `ioc_read_frame`, with at most `fuel` rounds of its loop.
  unfoldable pub read_frame : ℕ → ReadFrameState → S → Run (Option (ReadFrameState × S))
  read_frame zero s stream = stuck
  read_frame (suc fuel) s stream = elim (size_frame s) [
    | none ↦ done none
    | some t ↦
        if t.needed == length t.buf
        then done (some (t, stream))
        else elim (stream_read stream (t.needed - length t.buf)) [
          | none ↦ done none
          | some (bytes, rest) ↦ take_bytes (read_frame fuel) t bytes rest
        ]
  ]

-- What a whole frame holds.
pub record Parts : Type 0 where
  pub mblk_id : ℕ
  pub addr : ℕ
  pub data_sz : ℕ
  pub flags : ℕ
  pub content : List ℕ

-- The identifier and the address at `q`, and what follows them.
unfoldable pub read_parts : ReadFrameState → List ℕ → Run Parts
read_parts s q = do
  (mblk_id, q) ←
      get_uint q (has_flag s.flags mblk_has_two_bytes) (has_flag s.extra_flags mblk_has_four_bytes)
  (addr, q) ←
      get_uint q (has_flag s.flags addr_has_two_bytes) (has_flag s.extra_flags addr_has_four_bytes)
  done
      (record { mblk_id = mblk_id; addr = addr; data_sz = s.data_sz; flags = s.flags; content = q })

-- They stand behind the fixed part of the header and the extra flags.
unfoldable pub find_parts : ReadFrameState → Run Parts
find_parts s =
    let p = drop (if s.serial then 5 else 4) s.buf in
    read_parts s (if s.extra_flags == 0 then p else drop 1 p)

-- `ioc_connection_receive`, from a whole frame other than an acknowledgement up to its processing:
-- its parts, or `none` if the check sum is wrong, and the connection that expects the next frame.
unfoldable pub open_frame :
    (List ℕ → ℕ) → Connection → ReadFrameState → Run (Option Parts × Connection)
open_frame os_checksum c s =
    let cleared = if s.serial then set (set s.buf 1 0) 2 0 else s.buf in
    let crc = bit_or (at s.buf 1) (at s.buf 2 * 2 ^ 8) in
    if s.serial && not (crc == os_checksum (take s.needed cleared)) then done (none, c) else do
      parts ← find_parts (record s { buf = cleared })
      done (
        some parts,
        record c {
          frame_in_nr = if ltb 200 ((at s.buf 0 + 1) % 256) then 1 else (at s.buf 0 + 1) % 256;
        },
      )
