-- ===== src/Streamer/Machine.antt =====
-- code/ioc_streamer.h: the structure of a streamer, the signals of a stream, and what a call changes.
use iocom.Base.{ℕ, Bool, true, ◌||◌, List, ◌==◌}

-- iocStreamerStep.
pub data Stage : Type 0 where
  initialized : Stage
  initialized2 : Stage
  transfer_data : Stage
  transfer_done : Stage
  transfer_done2 : Stage
  all_completed : Stage
  failed : Stage
  failed2 : Stage
  failed_and_idle_set : Stage

-- Its number in the C enumeration.
unfoldable pub stage_number : Stage → ℕ
stage_number initialized = 0
stage_number initialized2 = 1
stage_number transfer_data = 2
stage_number transfer_done = 3
stage_number transfer_done2 = 4
stage_number all_completed = 5
stage_number failed = 6
stage_number failed2 = 7
stage_number failed_and_idle_set = 8

-- iocStreamerState, the values of the signals `cmd` and `state`.
abbrev pub stream_idle : ℕ
stream_idle = 0

abbrev pub stream_running : ℕ
stream_running = 1

abbrev pub stream_completed : ℕ
stream_completed = 2

abbrev pub stream_interrupt : ℕ
stream_interrupt = 3

abbrev pub is_running : ℕ → Bool
is_running state = state == stream_running

abbrev pub is_running_or_completed : ℕ → Bool
is_running_or_completed state = state == stream_running || state == stream_completed

-- IOC_STREAMER_TIMEOUT.
abbrev pub streamer_timeout : ℕ
streamer_timeout = 5000

-- The values of iocStreamerSignals in the memory block, with the OSAL_STATE_CONNECTED bit of those
-- for which it is looked at. A negative value of a signal of 32 bits is its number without a sign.
pub record Signals : Type 0 where
  pub cmd : ℕ
  pub cmd_connected : Bool
  pub select : ℕ
  pub err : ℕ
  pub cs : ℕ
  pub buf : List ℕ
  pub buf_connected : Bool
  pub head : ℕ
  pub tail : ℕ
  pub state : ℕ
  pub state_connected : Bool

-- iocStreamer.
pub record Streamer : Type 0 where
  pub is_device : Bool
  pub step : Stage
  pub select : ℕ
  pub head : ℕ
  pub tail : ℕ
  pub reads : Bool
  pub writes : Bool
  pub disable_checksum : Bool
  pub mytimer : ℕ
  pub used : Bool
  pub checksum : ℕ
  pub read_timeout_ms : ℕ
  pub write_timeout_ms : ℕ

-- The clock during a call: what os_get_timer stores, and os_has_elapsed of a timer.
pub record Clock : Type 0 where
  pub get_timer : ℕ
  pub has_elapsed : ℕ → ℕ → Bool

-- osalStatus. The numbers are another library's.
pub data Status : Type 0 where
  success : Status
  completed_status : Status
  pending : Status
  status_failed : Status
  checksum_error : Status

-- What is to be written: the bytes, the end (`n` is -1), or a number below -1.
pub data Content : Type 0 where
  bytes_of : List ℕ → Content
  end_of_data : Content
  negative : Content

-- What a call leaves: the streamer, the signals, and `nbytes`.
pub record Done : Type 0 where
  pub streamer : Streamer
  pub signals : Signals
  pub nbytes : ℕ

-- The call changes nothing more.
abbrev pub break : Streamer → Signals → Done
break streamer signals = record { streamer = streamer; signals = signals; nbytes = 0 }

-- streamer->step = step
abbrev pub goto_step : Stage → Streamer → Signals → Done
goto_step step streamer signals = record {
  streamer = record streamer { step = step };
  signals = signals;
  nbytes = 0;
}

-- streamer->step = step, with os_get_timer(&streamer->mytimer).
abbrev pub goto_timed : Stage → Clock → Streamer → Signals → Done
goto_timed step clock streamer signals = record {
  streamer = record streamer { step = step; mytimer = clock.get_timer };
  signals = signals;
  nbytes = 0;
}

-- IOC_STREAM_IDLE and so on, as the device and as the controller show it.
abbrev pub set_state : ℕ → Signals → Signals
set_state v signals = record signals { state = v; state_connected = true }

abbrev pub set_cmd : ℕ → Signals → Signals
set_cmd v signals = record signals { cmd = v; cmd_connected = true }
