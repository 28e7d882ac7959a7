-- ===== src/Streamer/Link.antt =====
-- code/ioc_streamer.c: a stream between two ends. Each end has its own copy of the memory block:
-- the one that writes sets `buf` and `head` and has a `tail` that is old, the one that reads sets
-- `tail` and has a `buf` and a `head` that are old. In between are the values that were sent last
-- and have not arrived.
use iocom.Base.{ℕ, List, [], ◌++◌, take}
use iocom.Streamer.Ring.{write_internal, read_internal}

-- The memory blocks of the two ends and what is on its way, with the bytes written and read so far.
pub record Link : Type 0 where
  pub buf : List ℕ
  pub head : ℕ
  pub old_tail : ℕ
  pub sent_buf : List ℕ
  pub sent_head : ℕ
  pub old_buf : List ℕ
  pub old_head : ℕ
  pub tail : ℕ
  pub sent_tail : ℕ
  pub all_written : List ℕ
  pub all_read : List ℕ

-- After both ends have opened the stream, with the bytes of `buf`.
unfoldable pub opened : List ℕ → Link
opened buf = record {
  buf = buf;
  head = 0;
  old_tail = 0;
  sent_buf = buf;
  sent_head = 0;
  old_buf = buf;
  old_head = 0;
  tail = 0;
  sent_tail = 0;
  all_written = [];
  all_read = [];
}

module _ (buf_sz : ℕ) where
  -- A call to write `src`.
  unfoldable pub write_some : List ℕ → Link → Link
  write_some src l =
      let r = write_internal l.buf src buf_sz l.head l.old_tail in
      record l { buf = r.ring; head = r.head; all_written = l.all_written ++ take r.nbytes src }

  -- A call to read at most `n` bytes.
  unfoldable pub read_some : ℕ → Link → Link
  read_some n l =
      let r = read_internal l.old_buf buf_sz n l.old_head l.tail in
      record l { tail = r.tail; all_read = l.all_read ++ r.bytes }

-- The end that writes sends its bytes, and they arrive.
unfoldable pub send_bytes : Link → Link
send_bytes l = record l { sent_buf = l.buf; sent_head = l.head }

unfoldable pub receive_bytes : Link → Link
receive_bytes l = record l { old_buf = l.sent_buf; old_head = l.sent_head }

-- The end that reads sends `tail`, and it arrives.
unfoldable pub send_tail : Link → Link
send_tail l = record l { sent_tail = l.tail }

unfoldable pub receive_tail : Link → Link
receive_tail l = record l { old_tail = l.sent_tail }

-- What can happen, in any order.
pub data Step (buf_sz : ℕ) : Link → Link → Type 0 where
  write_step : (l : Link) (src : List ℕ) → Step buf_sz l (write_some buf_sz src l)
  read_step : (l : Link) (n : ℕ) → Step buf_sz l (read_some buf_sz n l)
  send_bytes_step : (l : Link) → Step buf_sz l (send_bytes l)
  receive_bytes_step : (l : Link) → Step buf_sz l (receive_bytes l)
  send_tail_step : (l : Link) → Step buf_sz l (send_tail l)
  receive_tail_step : (l : Link) → Step buf_sz l (receive_tail l)

pub data Reach (buf_sz : ℕ) (from : Link) : Link → Type 0 where
  here : Reach buf_sz from from
  next : {l m : Link} → Reach buf_sz from l → Step buf_sz l m → Reach buf_sz from m
