-- ===== src/Streamer/Controller.antt =====
-- code/ioc_streamer.c: the calls of a controller, `ioc_streamer_controller_write` and
-- `ioc_streamer_controller_read`.
use iocom.Base.{
  ℕ, Bool, not, ◌&&◌, ◌||◌, Option, none, some, List, ltb, leb, ◌==◌, if◌then◌else◌, length, take,
}
use iocom.Streamer.Machine.{
  Stage, initialized, initialized2, transfer_data, transfer_done, transfer_done2, all_completed,
  failed, failed2, failed_and_idle_set, stream_idle, stream_running, stream_completed,
  stream_interrupt, is_running, is_running_or_completed, streamer_timeout, Signals, Streamer, Clock,
  Content, bytes_of, end_of_data, negative, Done, break, goto_step, goto_timed, set_cmd,
}
use iocom.Streamer.Transfer.{
  is_idle_set, buf_sz, add_checksum, put_bytes, Read, get_bytes, read_break, read_goto,
  read_goto_timed,
}

-- A connection that is lost ends the transfer at once.
unfoldable pub controller_lost : Streamer → Signals → Done
controller_lost streamer signals =
    if not signals.state_connected && not (is_idle_set streamer.step)
    then goto_step failed_and_idle_set streamer (set_cmd stream_idle signals)
    else break streamer signals

-- The call that asks for a transfer.
abbrev pub request_transfer : Clock → Streamer → Signals → Done
request_transfer clock streamer signals =
    goto_timed initialized2 clock streamer
      (set_cmd stream_running (record signals { select = streamer.select }))

module _ (os_checksum : List ℕ → ℕ → ℕ) (clock : Clock) where
  unfoldable pub finish_data : Streamer → Signals → Done
  finish_data streamer signals =
      goto_step transfer_done streamer
        (set_cmd stream_completed (record signals { cs = streamer.checksum }))

  unfoldable pub controller_put : Content → Streamer → Signals → Done
  controller_put (bytes_of src) streamer signals =
      if length src == 0
      then if ltb 0 streamer.write_timeout_ms
          && clock.has_elapsed streamer.mytimer streamer.write_timeout_ms
        then goto_step failed streamer signals
        else break streamer signals
      else if leb (buf_sz signals) signals.tail
      then goto_step failed streamer signals
      else let r = put_bytes src streamer signals in
        record r {
          streamer = record (add_checksum os_checksum (take r.nbytes src) r.streamer) {
            mytimer = clock.get_timer;
          };
        }
  controller_put end_of_data streamer signals = finish_data streamer signals
  controller_put negative streamer signals = finish_data streamer signals

  -- IOC_SSTEP_TRANSFER_DATA.
  unfoldable pub controller_write_data : Content → Bool → Streamer → Signals → Done
  controller_write_data content interrupt streamer signals =
      if not (is_running signals.state) || interrupt
      then goto_step failed streamer signals
      else controller_put content streamer signals

  -- The switch on the step.
  unfoldable pub controller_write_step : Stage → Content → Bool → Streamer → Signals → Done
  controller_write_step initialized content interrupt streamer signals =
      request_transfer clock streamer signals
  controller_write_step initialized2 content interrupt streamer signals =
      if interrupt
      then goto_step failed streamer signals
      else if not (is_running signals.state)
      then if clock.has_elapsed streamer.mytimer streamer_timeout
        then goto_step failed streamer signals
        else break streamer signals
      else controller_write_data content interrupt (record streamer { step = transfer_data })
          signals
  controller_write_step transfer_data content interrupt streamer signals =
      controller_write_data content interrupt streamer signals
  controller_write_step transfer_done content interrupt streamer signals =
      if is_running signals.state && not (clock.has_elapsed streamer.mytimer streamer_timeout)
      then break streamer signals
      else goto_step all_completed streamer (set_cmd stream_idle signals)
  controller_write_step failed content interrupt streamer signals =
      goto_timed failed2 clock streamer (set_cmd stream_interrupt signals)
  controller_write_step failed2 content interrupt streamer signals =
      if is_running signals.state && not (clock.has_elapsed streamer.mytimer streamer_timeout)
      then break streamer signals
      else goto_step failed_and_idle_set streamer (set_cmd stream_idle signals)
  controller_write_step _ content interrupt streamer signals = break streamer signals

  -- `ioc_streamer_controller_write`, less the status.
  unfoldable pub controller_write : Content → Bool → Streamer → Signals → Done
  controller_write content interrupt streamer signals =
      let r = controller_lost streamer signals in
      controller_write_step r.streamer.step content interrupt r.streamer r.signals

-- IOC_SSTEP_TRANSFER_DONE, which a call that has read the last bytes falls through to.
abbrev pub read_done : Read → Read
read_done r = record r {
  streamer = record r.streamer { step = transfer_done2 };
  signals = set_cmd stream_idle r.signals;
}

unfoldable pub controller_got : Clock → Option (List ℕ) → Read → Read
controller_got clock none r = record r { streamer = record r.streamer { step = failed } }
controller_got clock (some bytes) r =
    let streamer =
      if length bytes == 0 then r.streamer else record r.streamer { mytimer = clock.get_timer } in
    if not (is_running r.signals.state)
    then read_done (record r { streamer = streamer })
    else if length bytes == 0
        && ltb 0 streamer.read_timeout_ms
        && clock.has_elapsed streamer.mytimer streamer.read_timeout_ms
    then record r { streamer = record streamer { step = failed } }
    else record r { streamer = streamer }

unfoldable pub controller_read_data : Clock → ℕ → Bool → Bool → Streamer → Signals → Read
controller_read_data clock n peek interrupt streamer signals =
    if not (is_running_or_completed signals.state) || interrupt
    then read_goto failed streamer signals
    else if leb (buf_sz signals) signals.head
    then read_goto failed streamer signals
    else let r = get_bytes n peek streamer signals in controller_got clock r.stored r

unfoldable pub controller_read_step : Stage → Clock → ℕ → Bool → Bool → Streamer → Signals → Read
controller_read_step initialized clock n peek interrupt streamer signals =
    let r = request_transfer clock streamer signals in read_break r.streamer r.signals
controller_read_step initialized2 clock n peek interrupt streamer signals =
    if is_running_or_completed signals.state
    then read_goto transfer_data streamer signals
    else if clock.has_elapsed streamer.mytimer streamer_timeout
    then read_goto failed streamer signals
    else read_break streamer signals
controller_read_step transfer_data clock n peek interrupt streamer signals =
    controller_read_data clock n peek interrupt streamer signals
controller_read_step transfer_done clock n peek interrupt streamer signals =
    read_done (read_break streamer signals)
controller_read_step transfer_done2 clock n peek interrupt streamer signals =
    if is_running_or_completed signals.state
      && not (clock.has_elapsed streamer.mytimer streamer_timeout)
    then read_break streamer signals
    else read_goto all_completed streamer (record signals { tail = 0 })
controller_read_step failed clock n peek interrupt streamer signals =
    read_goto_timed failed2 clock streamer (set_cmd stream_idle signals)
controller_read_step failed2 clock n peek interrupt streamer signals =
    if is_running signals.state && not (clock.has_elapsed streamer.mytimer streamer_timeout)
    then read_break streamer signals
    else read_goto failed_and_idle_set streamer signals
controller_read_step _ clock n peek interrupt streamer signals = read_break streamer signals

-- `ioc_streamer_controller_read` of at most `n` bytes, less the status.
unfoldable pub controller_read : Clock → ℕ → Bool → Bool → Streamer → Signals → Read
controller_read clock n peek interrupt streamer signals =
    let r = controller_lost streamer signals in
    controller_read_step r.streamer.step clock n peek interrupt r.streamer r.signals
