-- ===== src/Streamer/Transfer.antt =====
-- code/ioc_streamer.c: what the calls of a device and of a controller have in common.
use iocom.Base.{
  ℕ, Bool, true, false, not, Option, none, some, List, [], ◌==◌, if◌then◌else◌, length,
}
use iocom.Streamer.Ring.{write_internal, read_internal}
use iocom.Streamer.Machine.{
  Stage, initialized2, transfer_data, transfer_done, transfer_done2, all_completed, failed, failed2,
  failed_and_idle_set, Signals, Streamer, Clock, Status, success, completed_status, status_failed,
  Done,
}

-- Whether a streamer has failed and shows it no more.
unfoldable pub is_idle_set : Stage → Bool
is_idle_set failed_and_idle_set = true
is_idle_set _ = false

-- `buf` is the bytes of the signal, of which there are signals->buf->n.
abbrev pub buf_sz : Signals → ℕ
buf_sz signals = length signals.buf

-- os_checksum unless OSAL_STREAM_DISABLE_CHECKSUM is set.
abbrev pub add_checksum : (List ℕ → ℕ → ℕ) → List ℕ → Streamer → Streamer
add_checksum os_checksum bytes streamer = record streamer {
  checksum =
      if streamer.disable_checksum then streamer.checksum else os_checksum bytes streamer.checksum;
}

-- `ioc_streamer_write_internal` on the signals: `head` is set if there are bytes.
unfoldable pub put_bytes : List ℕ → Streamer → Signals → Done
put_bytes src streamer signals =
    let r = write_internal signals.buf src (buf_sz signals) streamer.head signals.tail in
    record {
      streamer = record streamer { head = r.head };
      signals = record signals {
        buf = r.ring;
        head = if r.nbytes == 0 then signals.head else r.head;
      };
      nbytes = r.nbytes;
    }

-- What a reading call leaves: the bytes that it stored in the caller's buffer too, or `nbytes` below 0.
pub record Read : Type 0 where
  pub streamer : Streamer
  pub signals : Signals
  pub stored : Option (List ℕ)

-- `ioc_streamer_read_internal`: bytes of a buffer that is not connected make the call fail, and with
-- OSAL_STREAM_PEEK the tail stays.
unfoldable pub get_bytes : ℕ → Bool → Streamer → Signals → Read
get_bytes n peek streamer signals =
    let r = read_internal signals.buf (buf_sz signals) n signals.head streamer.tail in
    if length r.bytes == 0
    then record { streamer = streamer; signals = signals; stored = some [] }
    else if not signals.buf_connected
    then record { streamer = streamer; signals = signals; stored = none }
    else if peek
    then record { streamer = streamer; signals = signals; stored = some r.bytes }
    else record {
      streamer = record streamer { tail = r.tail };
      signals = record signals { tail = r.tail };
      stored = some r.bytes;
    }

abbrev pub read_break : Streamer → Signals → Read
read_break streamer signals = record { streamer = streamer; signals = signals; stored = some [] }

abbrev pub read_goto : Stage → Streamer → Signals → Read
read_goto step streamer signals = read_break (record streamer { step = step }) signals

abbrev pub read_goto_timed : Stage → Clock → Streamer → Signals → Read
read_goto_timed step clock streamer signals =
    read_break (record streamer { step = step; mytimer = clock.get_timer }) signals

-- The status that a step has at the end of a device's call.
unfoldable pub device_status : Stage → Status
device_status transfer_data = success
device_status transfer_done = success
device_status failed = success
device_status failed2 = success
device_status all_completed = completed_status
device_status _ = status_failed

-- The same for a controller that writes, and for one that reads.
unfoldable pub controller_write_status : Stage → Status
controller_write_status initialized2 = success
controller_write_status transfer_data = success
controller_write_status transfer_done = success
controller_write_status failed = success
controller_write_status failed2 = success
controller_write_status all_completed = completed_status
controller_write_status _ = status_failed

unfoldable pub controller_read_status : Stage → Status
controller_read_status initialized2 = success
controller_read_status transfer_data = success
controller_read_status transfer_done2 = success
controller_read_status transfer_done = success
controller_read_status failed = success
controller_read_status failed2 = success
controller_read_status all_completed = completed_status
controller_read_status _ = status_failed
