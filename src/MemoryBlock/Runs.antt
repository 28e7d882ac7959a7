-- ===== src/MemoryBlock/Runs.antt =====
-- Runs of the code of code/ioc_memory_block.c, and its theorems at such inputs.
use iocom.Base.{
  All, length, ℕ, ◌≡◌, refl, true, false, List, [], ◌∷◌, arith, mem_copy, mem_clear, fill,
}
use iocom.SourceBuffer.{SourceBuffer}
use iocom.TargetBuffer.{TargetBuffer}
use iocom.SourceBuffer.Range.{Covers}
use iocom.MemoryBlock.{
  MemoryBlock, string, bytes, store_content, mblk_invalidate, write_mblk, string_at, read_mblk,
}
use iocom.MemoryBlock.Received.{is_marked, take_over, receive_target, receive_targets, receive_mblk}
use iocom.MemoryBlock.Taken.{IsPlain, receive_mblk-IsCovered}
use iocom.MemoryBlock.Written.{
  IsCovered, content_bytes, HasBytes, write_mblk-IsCovered, read_mblk-write_mblk,
}

abbrev start : List ℕ
start = 1 ∷ 2 ∷ 3 ∷ 4 ∷ []

-- A source buffer that has sent the whole memory block.
abbrev sent_all : SourceBuffer
sent_all = record {
  range_set = false;
  changed_start = 0;
  changed_end = 0;
  allocated = true;
  buf = start;
  delta = 0 ∷ 0 ∷ 0 ∷ 0 ∷ [];
  nbytes = 4;
  ndata = 4;
  bidirectional = false;
  used = false;
  make_keyframe = false;
  is_keyframe = false;
  start_addr = 0;
  end_addr = 0;
  bidir_start_addr = 0;
  bidir_end_addr = 0;
  bidir_range_set = false;
}

abbrev block : MemoryBlock
block = record {
  buf = start;
  static = false;
  sources = record { sbuf = sent_all; con = 1; remote_mblk_id = 2; connect_up = true } ∷ [];
  targets = [];
}

-- A string that does not fit is cut, without the '\0' at its end.
cut_string : (write_mblk 2 (string (7 ∷ 8 ∷ 9 ∷ [])) 10 block).buf ≡ 1 ∷ 2 ∷ 7 ∷ 8 ∷ []
unfolding write_mblk store_content mblk_invalidate mem_copy mem_clear fill
cut_string = refl

-- A string is read up to its '\0', and one is put behind it.
get_string :
    read_mblk 0 true 6 (record block { buf = 7 ∷ 8 ∷ 0 ∷ 9 ∷ [] }) (5 ∷ 5 ∷ 5 ∷ 5 ∷ 5 ∷ 5 ∷ [])
    ≡ 7 ∷ 8 ∷ 0 ∷ 5 ∷ 0 ∷ 0 ∷ []
unfolding read_mblk string_at mem_copy mem_clear fill
get_string = refl

-- A bidirectional target buffer of four bytes, in which the last two are marked.
abbrev marked : TargetBuffer
marked = record {
  buf = 10 ∷ 20 ∷ 30 ∷ 40 ∷ 12 ∷ [];
  newdata = 10 ∷ 20 ∷ 30 ∷ 40 ∷ 0 ∷ [];
  nbytes = 5;
  ndata = 4;
  bidirectional = true;
  buf_start_addr = 1;
  buf_end_addr = 3;
  buf_used = true;
  has_new_data = false;
  newdata_start_addr = 0;
  newdata_end_addr = 0;
}

receive_marked :
    (receive_mblk
      (record block { targets = record { tbuf = marked; con = 3; remote_mblk_id = 4 } ∷ [] })).buf
    ≡ 1 ∷ 2 ∷ 30 ∷ 40 ∷ []
unfolding receive_mblk receive_targets receive_target take_over is_marked fill
receive_marked = refl

block-IsCovered : IsCovered block
unfolding IsCovered Covers
block-IsCovered = ((λ k h d. absurd (d refl), omega arith), tt)

write_mblk-IsCovered_example : IsCovered (write_mblk 1 (bytes (5 ∷ 6 ∷ [])) 2 block)
write_mblk-IsCovered_example =
    write_mblk-IsCovered 1 (bytes (5 ∷ 6 ∷ [])) 2 block (omega arith) block-IsCovered

read_mblk-write_mblk_example :
    read_mblk 1 false 2 (write_mblk 1 (bytes (5 ∷ 6 ∷ [])) 2 block) (0 ∷ 0 ∷ []) ≡ 5 ∷ 6 ∷ []
unfolding content_bytes HasBytes
read_mblk-write_mblk_example =
    read_mblk-write_mblk 1 (bytes (5 ∷ 6 ∷ [])) 2 (0 ∷ 0 ∷ []) block (omega arith) (omega arith)
      (omega arith) refl

-- A string that is shorter than its room.
read_mblk_string :
    read_mblk 0 false 4 (write_mblk 0 (string (65 ∷ 66 ∷ [])) 4 block) (9 ∷ 9 ∷ 9 ∷ 9 ∷ [])
    ≡ 65 ∷ 66 ∷ 0 ∷ 0 ∷ []
unfolding content_bytes HasBytes
read_mblk_string =
    read_mblk-write_mblk 0 (string (65 ∷ 66 ∷ [])) 4 (9 ∷ 9 ∷ 9 ∷ 9 ∷ []) block (omega arith)
      (omega arith) tt refl

-- A target buffer in one direction, with two new bytes.
abbrev plain : TargetBuffer
plain = record marked { bidirectional = false }

abbrev receiving : MemoryBlock
receiving = record block { targets = record { tbuf = plain; con = 3; remote_mblk_id = 4 } ∷ [] }

receiving-IsPlain : All (IsPlain (length receiving.buf)) receiving.targets
unfolding IsPlain
receiving-IsPlain = ((refl, λ used. (omega arith, omega arith)), tt)

receive_mblk-IsCovered_example : IsCovered (receive_mblk receiving)
unfolding IsCovered
receive_mblk-IsCovered_example = receive_mblk-IsCovered receiving receiving-IsPlain block-IsCovered
