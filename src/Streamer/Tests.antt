-- ===== src/Streamer/Tests.antt =====
-- code/ioc_streamer.c: the theorems at work, and runs.
use iocom.Base.{
  ℕ, ◌+◌, ◌≤◌, ◌≡◌, ◌≢◌, refl, true, false, List, [], ◌∷◌, ◌++◌, length, take, fill, mem_copy,
  arith,
}
use iocom.Streamer.Ring.{
  put_to_end, put_to_tail, write_internal, slice, get_to_end, get_to_head, read_internal,
}
use iocom.Streamer.Machine.{Clock, bytes_of, end_of_data, pending}
use iocom.Streamer.Written.{IsWritten, write_internal-IsWritten}
use iocom.Streamer.Taken.{IsTaken, read_internal-IsTaken}
use iocom.Streamer.Link.{
  Link, opened, write_some, send_bytes, receive_bytes, read_some, write_step, send_bytes_step,
  receive_bytes_step, read_step, Reach, here, next,
}
use iocom.Streamer.Fifo.{FifoStep, queue, Step-FifoStep, catch_up, catch_up-IsRead}
use iocom.Streamer.Session.{
  Session, Event, Events, unused_block, opened_session, device_writes, controller_reads,
  device_sends, controller_receives, controller_sends, device_receives,
}
use iocom.Streamer.Transfer.{is_idle_set, put_bytes, get_bytes}
use iocom.Streamer.Device.{
  device_lost, write_stuck, device_put, device_write_data, device_write_step, device_write,
}
use iocom.Streamer.Controller.{
  controller_lost, controller_got, controller_read_data, controller_read_step, controller_read,
}
use iocom.Streamer.Calls.{Block, write_stream, read_stream, Stream, open_stream}
use iocom.Streamer.Ends.{
  WriteCall, FlushCall, flush_call, flush_calls, write_calls, flush_stream-Ends,
}
use iocom.Streamer.Advance.{stream_stage, call-Advances}
use iocom.Streamer.Prefix.{Events-IsPrefix}

abbrev ring : List ℕ
ring = 0 ∷ 0 ∷ 0 ∷ 0 ∷ []

abbrev three : List ℕ
three = 7 ∷ 8 ∷ 9 ∷ []

abbrev sum : List ℕ → ℕ → ℕ
sum bytes c = c + length bytes

-- A clock on which no timer elapses, and one on which each does.
abbrev early_clock : Clock
early_clock = record { get_timer = 1; has_elapsed = λ timer ms. false }

abbrev late_clock : Clock
late_clock = record { get_timer = 2; has_elapsed = λ timer ms. true }

-- Two bytes go round the end of the ring.
wraps :
    write_internal (1 ∷ 2 ∷ 3 ∷ 4 ∷ []) three 4 3 2
    ≡ record { ring = 8 ∷ 2 ∷ 3 ∷ 7 ∷ []; head = 1; nbytes = 2 }
unfolding write_internal put_to_end put_to_tail mem_copy fill
wraps = refl

write_internal-IsWritten_example :
    IsWritten (1 ∷ 2 ∷ 3 ∷ 4 ∷ []) three 4 3 2 (write_internal (1 ∷ 2 ∷ 3 ∷ 4 ∷ []) three 4 3 2)
write_internal-IsWritten_example =
    write_internal-IsWritten (1 ∷ 2 ∷ 3 ∷ 4 ∷ []) three 4 3 2 refl (omega arith) (omega arith)

read_internal-IsTaken_example :
    IsTaken (8 ∷ 2 ∷ 3 ∷ 7 ∷ []) 4 9 1 2 (read_internal (8 ∷ 2 ∷ 3 ∷ 7 ∷ []) 4 9 1 2)
read_internal-IsTaken_example =
    read_internal-IsTaken (8 ∷ 2 ∷ 3 ∷ 7 ∷ []) 4 9 1 2 refl (omega arith) (omega arith)

abbrev link : Link
link = receive_bytes (send_bytes (write_some 4 three (opened ring)))

link-Reach : Reach 4 (opened ring) link
link-Reach =
    next (next (next here (write_step (opened ring) three)) (send_bytes_step _))
      (receive_bytes_step _)

Step-FifoStep_example : FifoStep 3 (queue link) (queue (read_some 4 2 link))
Step-FifoStep_example = Step-FifoStep ring (omega arith) link-Reach (read_step link 2)

catch_up-IsRead_example :
    ((catch_up 4 link).all_read ≡ link.all_written)
    × ((write_some 4 (5 ∷ 6 ∷ []) (catch_up 4 link)).all_written ≡ link.all_written ++ (5 ∷ 6 ∷ []))
catch_up-IsRead_example = catch_up-IsRead ring (5 ∷ 6 ∷ []) link-Reach (omega arith)

-- The controller asks for a transfer, and the device writes.
abbrev asked_for : Session
asked_for =
    device_receives
      (controller_sends (controller_reads early_clock 4 false (opened_session 0 false 6 ring)))

abbrev first_sent : Session
first_sent =
    controller_receives
      (device_sends (device_writes sum early_clock (bytes_of three) false asked_for))

abbrev first_read : Session
first_read = controller_reads early_clock 2 false (controller_reads early_clock 2 false first_sent)

first_read-run : (first_read.all_written ≡ three) × (first_read.all_read ≡ 7 ∷ 8 ∷ [])
unfolding mem_copy fill put_to_end put_to_tail write_internal slice get_to_end get_to_head
    read_internal is_idle_set put_bytes get_bytes device_lost write_stuck device_put
    device_write_data device_write_step device_write controller_lost controller_got
    controller_read_data controller_read_step controller_read open_stream opened_session
    device_writes controller_reads device_sends controller_receives controller_sends device_receives
first_read-run = (refl, refl)

first_read-Events : Events sum (opened_session 0 false 6 ring) first_read
first_read-Events =
    Events.then
      (Events.then
        (Events.then
          (Events.then
            (Events.then
              (Events.then
                (Events.then (Events.then Events.start (Event.reads _ early_clock 4 false))
                  (Event.asks _))
                (Event.hears _))
              (Event.writes _ early_clock (bytes_of three) false))
            (Event.shows _))
          (Event.sees _))
        (Event.reads _ early_clock 2 false))
      (Event.reads _ early_clock 2 false)

Events-IsPrefix_example :
    (take (length first_read.all_read) first_read.all_written ≡ first_read.all_read)
    × (length first_read.all_written ≤ length first_read.all_read + 3)
Events-IsPrefix_example = Events-IsPrefix sum 0 false 6 ring (omega arith) first_read-Events

-- The controller end of a write, where the device has set its command and its tail.
abbrev answered : ℕ → ℕ → Block
answered cmd tail =
    let none_set = unused_block ring in
    record none_set { tod = record (none_set.tod) { cmd = cmd; tail = tail } }

abbrev three_written : WriteCall
three_written = record {
  block = answered 1 0;
  content = bytes_of three;
  interrupt = false;
  clock = early_clock;
}

abbrev late_call : ℕ → FlushCall
late_call cmd = record { block = answered cmd 2; interrupt = false; clock = late_clock }

flush_stream-Ends_example :
    (flush_call sum (late_call 2) (
      flush_calls sum (late_call 1 ∷ late_call 3 ∷ late_call 0 ∷ []) (
        write_calls sum
          (three_written ∷ [])
          (open_stream 0 false false true false 6 (unused_block ring))))).status
    ≢ pending
flush_stream-Ends_example =
    flush_stream-Ends sum 0 false false true false 6 (unused_block ring) (three_written ∷ [])
      (late_call 1 ∷ late_call 3 ∷ late_call 0 ∷ []) (late_call 2)
      (λ t m. refl, (λ t m. refl, (λ t m. refl, tt))) (λ t m. refl) (omega arith)

abbrev closing : Stream
closing =
    write_calls sum (record three_written { content = end_of_data } ∷ [])
      (open_stream 0 false false true false 6 (unused_block ring))

call-Advances_example :
    (stream_stage closing
      ≤ stream_stage (write_stream sum late_clock (bytes_of three) false closing).stream)
    × (stream_stage closing
        ≤ stream_stage (read_stream sum (λ c. c) 9 late_clock 3 false false closing).stream)
call-Advances_example =
    call-Advances sum (λ c. c) 9 late_clock false closing (bytes_of three) 3 false
