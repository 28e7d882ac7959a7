-- ===== src/Streamer/Advance.antt =====
-- code/ioc_streamer.c: the calls of the stream interface take a transfer forward only.
use iocom.Base.{ℕ, ◌≤◌, ◌≡◌, refl, Bool, true, false, List, if◌then◌else◌, arith}
use iocom.Streamer.Machine.{stage_number, Clock, Content, negative, Status}
use iocom.Streamer.Calls.{
  Stream, write_device, write_controller, write_stream, ReadResult, read_device, read_controller,
  sum_read, verify_checksum, check_read, read_stream,
}
use iocom.Streamer.Progress.{
  device_write-Advances, device_read-Advances, controller_write-Advances, controller_read-Advances,
}

-- The number of the step of a stream.
abbrev pub stream_stage : Stream → ℕ
stream_stage s = stage_number s.streamer.step

stage-if :
    (b : Bool) (r q : ReadResult) (s : Stream)
    → stream_stage r.stream ≡ stream_stage s
    → stream_stage q.stream ≡ stream_stage s
    → stream_stage (if b then r else q).stream ≡ stream_stage s
stage-if true r q s e f = e
stage-if false r q s e f = f

module _ (os_checksum : List ℕ → ℕ → ℕ) (checksum_of_fault : ℕ → ℕ) (checksum_error_code : ℕ) where
  verify_checksum-stage :
      (status : Status) (r : ReadResult)
      → stream_stage
          (verify_checksum os_checksum checksum_of_fault checksum_error_code status r).stream
        ≡ stream_stage r.stream
  unfolding verify_checksum
  verify_checksum-stage status r = ground arith

  check_read-stage :
      (r : ReadResult)
      → stream_stage (check_read os_checksum checksum_of_fault checksum_error_code r).stream
        ≡ stream_stage r.stream
  unfolding check_read
  check_read-stage r =
      let summed = record r {
        stream = record r.stream {
          streamer = record r.stream.streamer {
            checksum =
                sum_read os_checksum checksum_of_fault checksum_error_code r.bytes
                  r.stream.streamer.checksum;
          };
        };
      } in
      stage-if r.stream.streamer.disable_checksum r _ r.stream refl
        (verify_checksum-stage r.status summed)

  module _ (clock : Clock) (interrupt : Bool) (s : Stream) where
    write_stream-Advances :
        (content : Content)
        → stream_stage s ≤ stream_stage (write_stream os_checksum clock content interrupt s).stream
    unfolding write_stream write_device write_controller
    write_stream-Advances negative = omega arith
    write_stream-Advances content =
        let d = device_write-Advances os_checksum clock content interrupt s.streamer s.block.frd in
        let c =
          controller_write-Advances os_checksum clock content interrupt s.streamer s.block.tod in
        ground (arith, d, c)

    -- No call of the stream interface takes a transfer back to an earlier step: `ioc_streamer_write` of
    -- bytes, of their end or of a number below -1, and `ioc_streamer_read`, with any flags, of a stream of
    -- either end, leave a step whose number in `iocStreamerStep` is not below that of the step before.
    pub call-Advances :
        (content : Content) (n : ℕ) (peek : Bool)
        → (stream_stage s
            ≤ stream_stage (write_stream os_checksum clock content interrupt s).stream)
          × (stream_stage s
              ≤ stream_stage
                  (read_stream os_checksum checksum_of_fault checksum_error_code clock n peek
                    interrupt s).stream)
    unfolding read_stream read_device read_controller
    call-Advances content n peek =
        let d = device_read-Advances clock n peek interrupt s.streamer s.block.tod in
        let c = controller_read-Advances clock n peek interrupt s.streamer s.block.frd in
        let e = check_read-stage (read_device clock n peek interrupt s) in
        let f = check_read-stage (read_controller clock n peek interrupt s) in
        (write_stream-Advances content, ground (arith, c, d, e, f))
