-- ===== src/Frame/Runs.antt =====
-- Runs of the code of code/ioc_connection_send.c and code/ioc_connection_receive.c on frames, and
-- the theorems at such inputs.
use iocom.Base.{
  ℕ, ◌≡◌, refl, true, false, Option, none, some, List, [], ◌∷◌, length, take, drop, done, arith,
}
use iocom.Message.{set_uint, deref}
use iocom.Frame.{
  Connection, is_serial, Header, fixed_part, header, extra_part, generate_header, poke, or_flag,
  store_size, store_checksum, finish_frame, is_blocked, next_frame_nr, serial_to, frame_nr_to,
  needs_extra, in_air,
}
use iocom.Frame.Receive.{size_frame, size_known, more_bytes, take_bytes, read_frame}
use iocom.Frame.Sized.{arrived}
use iocom.Frame.System.{IsReceived, open_frame-finish_frame}

abbrev con : Connection
con = record {
  socket = true;
  serial = false;
  frame_out_nr = 200;
  frame_in_nr = 3;
  dst_frame_sz = 464;
  frame_sz = 464;
  max_in_air = 4000;
  bytes_sent = 10;
  processed_bytes = 4;
}

abbrev con_after : Connection
con_after = record con { frame_out_nr = 1 }

abbrev header_bytes : List ℕ
header_bytes = 200 ∷ 132 ∷ 0 ∷ 0 ∷ 130 ∷ 112 ∷ 17 ∷ 1 ∷ 0 ∷ 44 ∷ 1 ∷ []

abbrev made : Header
made = record {
  hdr = header_bytes;
  checksum_low = none;
  checksum_high = none;
  flags = 1;
  data_sz_low = 2;
  data_sz_high = some 3;
  header_sz = 11;
}

abbrev content : List ℕ
content = 1 ∷ 2 ∷ 3 ∷ []

abbrev frame : List ℕ
frame = 200 ∷ 164 ∷ 3 ∷ 0 ∷ 130 ∷ 112 ∷ 17 ∷ 1 ∷ 0 ∷ 44 ∷ 1 ∷ content

-- The length stands for the check sum.
abbrev any_checksum : List ℕ → ℕ
any_checksum f = 5

make_header : generate_header (some con) 70000 300 ≡ done made
unfolding generate_header set_uint deref header fixed_part extra_part serial_to frame_nr_to
    is_serial needs_extra
make_header = refl

finish_header : finish_frame any_checksum con made content ≡ (some frame, con_after)
unfolding finish_frame is_blocked in_air store_checksum or_flag store_size poke next_frame_nr
finish_header = refl

-- A stream that delivers at most five bytes at a time.
abbrev read_five : List ℕ → ℕ → Option (List ℕ × List ℕ)
read_five bytes n = some (take 5 (take n bytes), drop (length (take 5 (take n bytes))) bytes)

-- After four bytes and two more the size is known, and the next five do not complete the frame.
read_some :
    read_frame read_five 4 (arrived false [] 464 200 0 0 0) frame
    ≡ done (
        some (
          record (arrived false (take 11 frame) 464 200 14 3 164) { extra_flags = 130 },
          drop 11 frame,
        ))
unfolding read_frame take_bytes size_frame size_known more_bytes
read_some = refl

open_frame-finish_frame_example :
    IsReceived any_checksum con (arrived false frame 464 200 4 0xffff 0) 70000 300 content 1
unfolding is_serial
open_frame-finish_frame_example =
    open_frame-finish_frame any_checksum con con 70000 300 content frame con_after made 200 464 4
      0xffff 0 (λ g. omega arith) (omega arith) (omega arith) (omega arith) (omega arith)
      make_header finish_header (omega arith)
