-- ===== src/Streamer/Session.antt =====
-- code/ioc_streamer.c: a transfer from a device to a controller. The device calls
-- `ioc_streamer_write`, the controller `ioc_streamer_read`, and the signals that each sets get to
-- the other with a delay.
use iocom.Base.{ℕ, Bool, true, false, List, [], ◌++◌, take}
use iocom.Streamer.Machine.{Signals, Streamer, Clock, Content, bytes_of, end_of_data, negative}
use iocom.Streamer.Device.{device_write}
use iocom.Streamer.Controller.{controller_read}
use iocom.Streamer.Calls.{open_stream, Block}
use iocom.Streamer.Gets.{bytes_read}

-- What the device shows, on its way to the controller, and the other way round.
pub record Shown : Type 0 where
  pub state : ℕ
  pub buf : List ℕ
  pub head : ℕ
  pub cs : ℕ

pub record Asked : Type 0 where
  pub cmd : ℕ
  pub select : ℕ
  pub tail : ℕ

pub record Session : Type 0 where
  pub device : Streamer
  pub device_signals : Signals
  pub shown : Shown
  pub controller : Streamer
  pub controller_signals : Signals
  pub asked : Asked
  pub all_written : List ℕ
  pub all_read : List ℕ

abbrev pub content_bytes : Content → List ℕ
content_bytes (bytes_of src) = src
content_bytes end_of_data = []
content_bytes negative = []

-- The signals of a stream that nobody has used, with the bytes of its buffer.
abbrev pub unused_signals : List ℕ → Signals
unused_signals buf = record {
  cmd = 0;
  cmd_connected = true;
  select = 0;
  err = 0;
  cs = 0;
  buf = buf;
  buf_connected = true;
  head = 0;
  tail = 0;
  state = 0;
  state_connected = true;
}

abbrev pub unused_block : List ℕ → Block
unused_block buf = record { frd = unused_signals buf; tod = unused_signals [] }

-- Both ends have opened the stream, the one for writing, the other for reading.
unfoldable pub opened_session : ℕ → Bool → ℕ → List ℕ → Session
opened_session checksum_init disable_checksum select buf =
    let d = open_stream checksum_init true false true disable_checksum 0 (unused_block buf) in
    let c = open_stream checksum_init false true false disable_checksum select (unused_block buf) in
    record {
      device = d.streamer;
      device_signals = d.block.frd;
      shown = record { state = 0; buf = buf; head = 0; cs = 0 };
      controller = c.streamer;
      controller_signals = c.block.frd;
      asked = record { cmd = 0; select = 0; tail = 0 };
      all_written = [];
      all_read = [];
    }

unfoldable pub device_writes : (List ℕ → ℕ → ℕ) → Clock → Content → Bool → Session → Session
device_writes os_checksum clock content interrupt s =
    let r = device_write os_checksum clock content interrupt s.device s.device_signals in
    record s {
      device = r.streamer;
      device_signals = r.signals;
      all_written = s.all_written ++ take r.nbytes (content_bytes content);
    }

unfoldable pub controller_reads : Clock → ℕ → Bool → Session → Session
controller_reads clock n interrupt s =
    let r = controller_read clock n false interrupt s.controller s.controller_signals in
    record s {
      controller = r.streamer;
      controller_signals = r.signals;
      all_read = s.all_read ++ bytes_read r.stored;
    }

unfoldable pub device_sends : Session → Session
device_sends s =
    let g = s.device_signals in
    record s { shown = record { state = g.state; buf = g.buf; head = g.head; cs = g.cs } }

unfoldable pub controller_receives : Session → Session
controller_receives s =
    let m = s.shown in
    record s {
      controller_signals = record s.controller_signals {
        state = m.state;
        buf = m.buf;
        head = m.head;
        cs = m.cs;
      };
    }

unfoldable pub controller_sends : Session → Session
controller_sends s =
    let g = s.controller_signals in
    record s { asked = record { cmd = g.cmd; select = g.select; tail = g.tail } }

unfoldable pub device_receives : Session → Session
device_receives s =
    let m = s.asked in
    record s {
      device_signals = record s.device_signals { cmd = m.cmd; select = m.select; tail = m.tail };
    }

-- A connection breaks or comes back.
unfoldable pub device_link : Bool → Session → Session
device_link connected s = record s {
  device_signals = record s.device_signals { cmd_connected = connected };
}

unfoldable pub controller_link : Bool → Bool → Session → Session
controller_link connected buf_connected s = record s {
  controller_signals = record s.controller_signals {
    state_connected = connected;
    buf_connected = buf_connected;
  };
}

-- What can happen, in any order.
pub data Event (os_checksum : List ℕ → ℕ → ℕ) : Session → Session → Type 0 where
  writes :
      (s : Session) (clock : Clock) (content : Content) (interrupt : Bool)
      → Event os_checksum s (device_writes os_checksum clock content interrupt s)
  reads :
      (s : Session) (clock : Clock) (n : ℕ) (interrupt : Bool)
      → Event os_checksum s (controller_reads clock n interrupt s)
  shows : (s : Session) → Event os_checksum s (device_sends s)
  sees : (s : Session) → Event os_checksum s (controller_receives s)
  asks : (s : Session) → Event os_checksum s (controller_sends s)
  hears : (s : Session) → Event os_checksum s (device_receives s)
  device_links : (s : Session) (b : Bool) → Event os_checksum s (device_link b s)
  controller_links : (s : Session) (b c : Bool) → Event os_checksum s (controller_link b c s)

pub data Events (os_checksum : List ℕ → ℕ → ℕ) (from : Session) : Session → Type 0 where
  start : Events os_checksum from from
  then :
      {s t : Session}
      → Events os_checksum from s
      → Event os_checksum s t
      → Events os_checksum from t
