-- ===== src/Streamer/Calls.antt =====
-- code/ioc_streamer.c: the functions of the stream interface: open, close, write, read and flush.
use iocom.Base.{ℕ, Bool, true, false, not, Option, none, some, List, ◌==◌, if◌then◌else◌}
use iocom.Streamer.Machine.{
  initialized, stream_idle, streamer_timeout, Signals, Streamer, Clock, Content, end_of_data,
  negative, Status, success, completed_status, pending, status_failed, checksum_error, set_state,
  set_cmd,
}
use iocom.Streamer.Transfer.{device_status, controller_write_status, controller_read_status}
use iocom.Streamer.Device.{device_write, device_read}
use iocom.Streamer.Controller.{controller_write, controller_read}

-- iocStreamerParams: the signals of both directions.
pub record Block : Type 0 where
  pub frd : Signals
  pub tod : Signals

-- A stream and the memory blocks of its end.
pub record Stream : Type 0 where
  pub streamer : Streamer
  pub block : Block

-- The start of a transfer in one direction, and the end of it.
abbrev pub reset_reading : Bool → Block → Block
reset_reading is_device block =
    if is_device
    then record block { tod = record (set_state stream_idle block.tod) { tail = 0 } }
    else record block { frd = record (set_cmd stream_idle block.frd) { tail = 0 } }

abbrev pub reset_writing : Bool → Block → Block
reset_writing is_device block =
    if is_device
    then record block { frd = record (set_state stream_idle block.frd) { head = 0 } }
    else record block { tod = record (set_cmd stream_idle block.tod) { head = 0 } }

abbrev pub reset_checksum : Bool → Block → Block
reset_checksum is_device block =
    if is_device
    then record block { frd = record block.frd { cs = 0 } }
    else record block { tod = record block.tod { cs = 0 } }

-- `ioc_set_streamer_error` of a device, for a status that is to be set: `code` is its number.
abbrev pub set_error : ℕ → Bool → Bool → Block → Block
set_error code is_device reads block =
    if not is_device
    then block
    else if reads
    then record block { tod = record block.tod { err = code } }
    else record block { frd = record block.frd { err = code } }

-- `ioc_streamer_open`: `checksum_init` is OSAL_CHECKSUM_INIT, and `reads`, `writes` and
-- `disable_checksum` are the flags.
unfoldable pub open_stream : ℕ → Bool → Bool → Bool → Bool → ℕ → Block → Stream
open_stream checksum_init is_device reads writes disable_checksum select block =
    let a = set_error 0 is_device reads block in
    let b = if reads then reset_reading is_device a else a in
    let c = if writes then reset_checksum is_device (reset_writing is_device b) else b in
    record {
      streamer = record {
        is_device = is_device;
        step = initialized;
        select = select;
        head = 0;
        tail = 0;
        reads = reads;
        writes = writes;
        disable_checksum = disable_checksum;
        mytimer = 0;
        used = true;
        checksum = checksum_init;
        read_timeout_ms = streamer_timeout;
        write_timeout_ms = streamer_timeout;
      };
      block = c;
    }

-- `ioc_streamer_close`.
unfoldable pub close_stream : Stream → Stream
close_stream stream =
    let s = stream.streamer in
    let a = if s.reads then reset_reading s.is_device stream.block else stream.block in
    let b = if s.writes then reset_writing s.is_device a else a in
    if s.used then record { streamer = record s { used = false }; block = b } else stream

-- What a call of the interface returns, with the stream after it.
pub record Written : Type 0 where
  pub stream : Stream
  pub n_written : ℕ
  pub status : Status

unfoldable pub flush_status : Status → Status
flush_status success = pending
flush_status completed_status = success
flush_status s = s

module _ (os_checksum : List ℕ → ℕ → ℕ) (clock : Clock) where
  unfoldable pub write_device : Content → Bool → Stream → Written
  write_device content interrupt stream =
      let r = device_write os_checksum clock content interrupt stream.streamer stream.block.frd in
      record {
        stream = record { streamer = r.streamer; block = record stream.block { frd = r.signals } };
        n_written = r.nbytes;
        status = device_status r.streamer.step;
      }

  unfoldable pub write_controller : Content → Bool → Stream → Written
  write_controller content interrupt stream =
      let r =
        controller_write os_checksum clock content interrupt stream.streamer stream.block.tod in
      record {
        stream = record { streamer = r.streamer; block = record stream.block { tod = r.signals } };
        n_written = r.nbytes;
        status = controller_write_status r.streamer.step;
      }

  -- `ioc_streamer_write`.
  unfoldable pub write_stream : Content → Bool → Stream → Written
  write_stream negative interrupt stream = record {
    stream = stream;
    n_written = 0;
    status = status_failed;
  }
  write_stream content interrupt stream =
      if stream.streamer.is_device
      then write_device content interrupt stream
      else write_controller content interrupt stream

  -- `ioc_streamer_flush`, with OSAL_STREAM_FINAL_HANDSHAKE or without.
  unfoldable pub flush_stream : Bool → Bool → Stream → Written
  flush_stream false interrupt stream = record { stream = stream; n_written = 0; status = success }
  flush_stream true interrupt stream =
      let r = write_stream end_of_data interrupt stream in
      record r { status = flush_status r.status }

-- What a read returns: `n_read` is -1 if there is no list.
pub record ReadResult : Type 0 where
  pub stream : Stream
  pub bytes : Option (List ℕ)
  pub status : Status

unfoldable pub read_device : Clock → ℕ → Bool → Bool → Stream → ReadResult
read_device clock n peek interrupt stream =
    let r = device_read clock n peek interrupt stream.streamer stream.block.tod in
    record {
      stream = record { streamer = r.streamer; block = record stream.block { tod = r.signals } };
      bytes = r.stored;
      status = device_status r.streamer.step;
    }

unfoldable pub read_controller : Clock → ℕ → Bool → Bool → Stream → ReadResult
read_controller clock n peek interrupt stream =
    let r = controller_read clock n peek interrupt stream.streamer stream.block.frd in
    record {
      stream = record { streamer = r.streamer; block = record stream.block { frd = r.signals } };
      bytes = r.stored;
      status = controller_read_status r.streamer.step;
    }

-- The signals that a stream reads from.
abbrev pub read_signals : Stream → Signals
read_signals stream = if stream.streamer.is_device then stream.block.tod else stream.block.frd

module _ (os_checksum : List ℕ → ℕ → ℕ) (checksum_of_fault : ℕ → ℕ) (checksum_error_code : ℕ) where
  -- os_checksum(buf, *n_read, &streamer->checksum), also where *n_read is -1.
  unfoldable pub sum_read : Option (List ℕ) → ℕ → ℕ
  sum_read none checksum = checksum_of_fault checksum
  sum_read (some bytes) checksum = os_checksum bytes checksum

  unfoldable pub verify_checksum : Status → ReadResult → ReadResult
  verify_checksum completed_status r =
      if r.stream.streamer.checksum == (read_signals r.stream).cs then r else record r {
        stream = record r.stream {
          block =
              set_error checksum_error_code r.stream.streamer.is_device r.stream.streamer.reads
                r.stream.block;
        };
        status = checksum_error;
      }
  verify_checksum _ r = r

  unfoldable pub check_read : ReadResult → ReadResult
  check_read r =
      if r.stream.streamer.disable_checksum
      then r
      else verify_checksum r.status (record r {
        stream = record r.stream {
          streamer = record r.stream.streamer {
            checksum = sum_read r.bytes r.stream.streamer.checksum;
          };
        };
      })

  -- `ioc_streamer_read`, of a number of bytes that is not negative.
  unfoldable pub read_stream : Clock → ℕ → Bool → Bool → Stream → ReadResult
  read_stream clock n peek interrupt stream =
      if stream.streamer.is_device
      then check_read (read_device clock n peek interrupt stream)
      else check_read (read_controller clock n peek interrupt stream)
