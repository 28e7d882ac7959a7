-- ===== src/Streamer/Ring.antt =====
-- code/ioc_streamer.c: the ring buffer, as one end sees it. The `buf` signal is a list of the
-- `buf_sz` bytes. The end that writes moves `head`, the end that reads moves `tail`.
use iocom.Base.{
  ℕ, ◌+◌, ◌-◌, min, ◌&&◌, List, [], ◌++◌, ltb, leb, ◌==◌, if◌then◌else◌, length, take, drop,
  mem_copy,
}

-- What `ioc_streamer_write_internal` leaves: the bytes, `*head`, and the return value.
pub record Put : Type 0 where
  pub ring : List ℕ
  pub head : ℕ
  pub nbytes : ℕ

-- The bytes up to the end of the buffer, one less if `tail` is at its start.
unfoldable pub put_to_end : List ℕ → List ℕ → ℕ → ℕ → ℕ → Put
put_to_end ring src buf_sz head tail =
    let room = if tail == 0 then buf_sz - head - 1 else buf_sz - head in
    let wrnow = min room (length src) in
    record {
      ring = mem_copy ring head src 0 wrnow;
      head = if ltb 0 wrnow && leb buf_sz (head + wrnow) then 0 else head + wrnow;
      nbytes = wrnow;
    }

-- The bytes up to the one before `tail`.
unfoldable pub put_to_tail : List ℕ → List ℕ → ℕ → ℕ → Put
put_to_tail ring src head tail =
    let wrnow = min (tail - head - 1) (length src) in
    record { ring = mem_copy ring head src 0 wrnow; head = head + wrnow; nbytes = wrnow }

-- `ioc_streamer_write_internal`, for the `n` bytes `src`.
unfoldable pub write_internal : List ℕ → List ℕ → ℕ → ℕ → ℕ → Put
write_internal ring src buf_sz head tail =
    let first =
      if leb tail head
      then put_to_end ring src buf_sz head tail
      else record { ring = ring; head = head; nbytes = 0 } in
    let second = put_to_tail first.ring (drop first.nbytes src) first.head tail in
    if ltb first.head tail then record second { nbytes = first.nbytes + second.nbytes } else first

-- What `ioc_streamer_read_internal` has copied, and `ltail`.
pub record Got : Type 0 where
  pub bytes : List ℕ
  pub tail : ℕ

-- ioc_move_array(signals->buf, ltail, buf, rdnow, …), for reading.
unfoldable pub slice : List ℕ → ℕ → ℕ → List ℕ
slice ring tail n = take n (drop tail ring)

unfoldable pub get_to_end : List ℕ → ℕ → ℕ → ℕ → Got
get_to_end ring buf_sz n tail =
    let rdnow = min (buf_sz - tail) n in
    record {
      bytes = slice ring tail rdnow;
      tail = if ltb 0 rdnow && leb buf_sz (tail + rdnow) then 0 else tail + rdnow;
    }

unfoldable pub get_to_head : List ℕ → ℕ → ℕ → ℕ → Got
get_to_head ring n head tail =
    let rdnow = min (head - tail) n in record { bytes = slice ring tail rdnow; tail = tail + rdnow }

-- `ioc_streamer_read_internal` of at most `n` bytes, where the state bits of the buffer are good,
-- without IOC_STREAM_PEEK: the bytes and `*tail`.
unfoldable pub read_internal : List ℕ → ℕ → ℕ → ℕ → ℕ → Got
read_internal ring buf_sz n head tail =
    let first =
      if ltb head tail then get_to_end ring buf_sz n tail else record { bytes = []; tail = tail } in
    let second = get_to_head ring (n - length first.bytes) head first.tail in
    if ltb first.tail head
    then record { bytes = first.bytes ++ second.bytes; tail = second.tail }
    else first
