-- ===== src/Streamer/Device.antt =====
-- code/ioc_streamer.c: the calls of a device, `ioc_streamer_device_write` and
-- `ioc_streamer_device_read`.
use iocom.Base.{
  ℕ, Bool, not, ◌&&◌, ◌||◌, Option, none, some, List, ltb, leb, ◌==◌, if◌then◌else◌, length, take,
}
use iocom.Streamer.Machine.{
  Stage, initialized, transfer_data, transfer_done, all_completed, failed, failed2,
  failed_and_idle_set, stream_idle, stream_running, stream_completed, stream_interrupt, is_running,
  is_running_or_completed, streamer_timeout, Signals, Streamer, Clock, Content, bytes_of,
  end_of_data, negative, Done, break, goto_step, goto_timed, set_state,
}
use iocom.Streamer.Transfer.{
  is_idle_set, buf_sz, add_checksum, put_bytes, Read, get_bytes, read_break, read_goto,
  read_goto_timed,
}

-- A connection that is lost ends the transfer at once.
unfoldable pub device_lost : Streamer → Signals → Done
device_lost streamer signals =
    if not signals.cmd_connected && not (is_idle_set streamer.step)
    then goto_step failed_and_idle_set streamer (set_state stream_idle signals)
    else break streamer signals

module _ (os_checksum : List ℕ → ℕ → ℕ) (clock : Clock) where
  -- No bytes could be written: fail when that has been so for too long.
  unfoldable pub write_stuck : Streamer → Signals → Done
  write_stuck streamer signals =
      if ltb 0 streamer.write_timeout_ms
        && clock.has_elapsed streamer.mytimer streamer.write_timeout_ms
      then goto_step failed streamer signals
      else break streamer signals

  unfoldable pub device_put : Content → Streamer → Signals → Done
  device_put (bytes_of src) streamer signals =
      let r = put_bytes src streamer signals in
      if not (r.nbytes == 0)
      then record r {
        streamer = record (add_checksum os_checksum (take r.nbytes src) r.streamer) {
          mytimer = clock.get_timer;
        };
      }
      else if length src == 0
      then break streamer signals
      else write_stuck streamer signals
  device_put end_of_data streamer signals =
      goto_step transfer_done streamer
        (set_state stream_completed (record signals { cs = streamer.checksum }))
  device_put negative streamer signals = write_stuck streamer signals

  -- IOC_SSTEP_TRANSFER_DATA.
  unfoldable pub device_write_data : Content → Bool → Streamer → Signals → Done
  device_write_data content interrupt streamer signals =
      if not (is_running_or_completed signals.cmd) || interrupt
      then goto_step failed streamer signals
      else if leb (buf_sz signals) signals.tail
      then goto_step failed streamer signals
      else device_put content streamer signals

  -- The switch on the step.
  unfoldable pub device_write_step : Stage → Content → Bool → Streamer → Signals → Done
  device_write_step initialized content interrupt streamer signals =
      if not (is_running_or_completed signals.cmd)
      then goto_step failed streamer signals
      else device_write_data content interrupt
          (record streamer {
            select = signals.select;
            step = transfer_data;
            mytimer = clock.get_timer;
          })
          (set_state stream_running signals)
  device_write_step transfer_data content interrupt streamer signals =
      device_write_data content interrupt streamer signals
  device_write_step transfer_done content interrupt streamer signals =
      if is_running signals.cmd
        && signals.cmd_connected
        && not (clock.has_elapsed streamer.mytimer streamer_timeout)
      then break streamer signals
      else goto_step all_completed streamer (record (set_state stream_idle signals) { head = 0 })
  device_write_step failed content interrupt streamer signals =
      goto_timed failed2 clock streamer (set_state stream_interrupt signals)
  device_write_step failed2 content interrupt streamer signals =
      if is_running signals.cmd
        && signals.cmd_connected
        && not (clock.has_elapsed streamer.mytimer streamer_timeout)
      then break streamer signals
      else goto_step failed_and_idle_set streamer
          (record (set_state stream_idle signals) { head = 0 })
  device_write_step _ content interrupt streamer signals = break streamer signals

  -- `ioc_streamer_device_write`, less the status, which is that of the step it leaves.
  unfoldable pub device_write : Content → Bool → Streamer → Signals → Done
  device_write content interrupt streamer signals =
      let r = device_lost streamer signals in
      device_write_step r.streamer.step content interrupt r.streamer r.signals

-- What is read: the step after it depends on whether more is to come.
unfoldable pub device_got : Clock → Option (List ℕ) → Read → Read
device_got clock none r = record r { streamer = record r.streamer { step = failed } }
device_got clock (some bytes) r =
    let streamer =
      if length bytes == 0 then r.streamer else record r.streamer { mytimer = clock.get_timer } in
    if not (is_running r.signals.cmd)
    then record r { streamer = record streamer { step = transfer_done } }
    else if length bytes == 0
        && ltb 0 streamer.read_timeout_ms
        && clock.has_elapsed streamer.mytimer streamer.read_timeout_ms
    then record r { streamer = record streamer { step = failed } }
    else record r { streamer = streamer }

unfoldable pub device_read_data : Clock → ℕ → Bool → Bool → Streamer → Signals → Read
device_read_data clock n peek interrupt streamer signals =
    if not (is_running_or_completed signals.cmd) || interrupt
    then read_goto failed streamer signals
    else if leb (buf_sz signals) signals.head
    then read_goto failed streamer signals
    else let r = get_bytes n peek streamer signals in device_got clock r.stored r

unfoldable pub device_read_step : Stage → Clock → ℕ → Bool → Bool → Streamer → Signals → Read
device_read_step initialized clock n peek interrupt streamer signals =
    let selected = record streamer { select = signals.select } in
    if not (is_running_or_completed signals.cmd)
    then read_goto failed selected signals
    else device_read_data clock n peek interrupt
        (record selected { step = transfer_data; mytimer = clock.get_timer })
        (set_state stream_running signals)
device_read_step transfer_data clock n peek interrupt streamer signals =
    device_read_data clock n peek interrupt streamer signals
device_read_step transfer_done clock n peek interrupt streamer signals =
    read_goto all_completed streamer (set_state stream_idle signals)
device_read_step failed clock n peek interrupt streamer signals =
    read_goto_timed failed2 clock streamer (set_state stream_interrupt signals)
device_read_step failed2 clock n peek interrupt streamer signals =
    if is_running_or_completed signals.cmd
      && signals.cmd_connected
      && not (clock.has_elapsed streamer.mytimer streamer_timeout)
    then read_break streamer signals
    else read_goto failed_and_idle_set streamer (set_state stream_idle signals)
device_read_step _ clock n peek interrupt streamer signals = read_break streamer signals

-- `ioc_streamer_device_read` of at most `n` bytes, less the status.
unfoldable pub device_read : Clock → ℕ → Bool → Bool → Streamer → Signals → Read
device_read clock n peek interrupt streamer signals =
    let r = device_lost streamer signals in
    device_read_step r.streamer.step clock n peek interrupt r.streamer r.signals
