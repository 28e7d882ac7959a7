-- ===== src/FlowControl/Line.antt =====
-- code/ioc_connection_send.c and code/ioc_connection_receive.c: one end of a connection, what can
-- happen to its counts, and what they say.
use iocom.Base.{ℕ, ◌+◌, ◌-◌, ◌%◌, ◌^◌, ◌<◌, ◌≤◌, ◌≡◌, Bool, List, [], leb, if◌then◌else◌, length}
use iocom.FlowControl.{
  Flow, ack_limit, set_limits, modulus, SendStatus, Wrote, ack_bytes, receive_acknowledge,
  count_received, place_frame, write_to_stream, acknowledge_as_needed,
}

-- One end, all that it has sent, what of that the other end has received, and what of that the
-- other end has told it, and the limit that it began with.
pub record Line : Type 0 where
  pub flow : Flow
  pub sent : ℕ
  pub received : ℕ
  pub told : ℕ
  pub most : ℕ

-- A stream that takes `k` bytes, or all if they are fewer, and counts what it has taken.
unfoldable pub take_some : SendStatus → ℕ → ℕ → List ℕ → Wrote ℕ
take_some status k taken bytes =
    let n = if leb k (length bytes) then k else length bytes in
    record { status = status; n_written = n; stream = taken + n }

unfoldable pub write_line : SendStatus → ℕ → Line → Line
write_line status k l =
    let r = write_to_stream (take_some status k) l.flow l.sent in
    record l { flow = r.1; sent = r.2 }

unfoldable pub acknowledge_line : SendStatus → ℕ → Line → Line
acknowledge_line status k l =
    let r = acknowledge_as_needed (take_some status k) l.flow l.sent in
    record l { flow = r.1; sent = r.2 }

-- An acknowledgement of `count` comes.
unfoldable pub hear_line : ℕ → Line → Line
hear_line count l =
    let frame = ack_bytes l.flow.socket (count % 2 ^ 32) in
    record l { flow = receive_acknowledge frame l.flow; told = count }

-- What can happen, in any order.
pub data Step : Line → Line → Type 0 where
  places :
      (l : Line) (frame : List ℕ)
      → l.flow.out ≡ []
      → Step l (record l { flow = place_frame frame l.flow })
  writes : (l : Line) (status : SendStatus) (k : ℕ) → Step l (write_line status k l)
  acknowledges : (l : Line) (status : SendStatus) (k : ℕ) → Step l (acknowledge_line status k l)
  counts : (l : Line) (n : ℕ) → Step l (record l { flow = count_received n l.flow })
  arrives : (l : Line) (n : ℕ) → n ≤ l.sent → l.received ≤ n → Step l (record l { received = n })
  hears : (l : Line) (count : ℕ) → l.told ≤ count → count ≤ l.received → Step l (hear_line count l)

pub data Steps (from : Line) : Line → Type 0 where
  start : Steps from from
  and_then : {l m : Line} → Steps from l → Step l m → Steps from m

-- The counts are those of the line, and what is unacknowledged is within the limits.
pub record IsCounted (l : Line) : Type 0 where
  pub bytes_sent : l.flow.bytes_sent ≡ l.sent % 2 ^ 32
  pub processed : l.flow.processed_bytes ≡ l.told % modulus l.flow.socket
  pub told_received : l.told ≤ l.received
  pub received_sent : l.received ≤ l.sent
  pub pos : l.flow.pos ≤ length l.flow.out
  pub limit : l.sent + (length l.flow.out - l.flow.pos) ≤ l.told + l.flow.max_ack_in_air
  pub limits : l.flow.max_in_air ≤ l.flow.max_ack_in_air
  pub small : l.flow.max_ack_in_air < modulus l.flow.socket
  pub most : l.flow.max_ack_in_air ≡ l.most

-- A connection that is opened, on which nothing was sent yet.
unfoldable pub new_flow : Bool → ℕ → Flow
new_flow socket frame_sz = set_limits socket frame_sz record {
  socket = socket;
  bytes_sent = 0;
  processed_bytes = 0;
  bytes_received = 0;
  bytes_acknowledged = 0;
  max_in_air = 0;
  max_ack_in_air = 0;
  unacknowledged_limit = 0;
  out = [];
  pos = 0;
}

unfoldable pub new_line : Bool → ℕ → Line
new_line socket frame_sz = record {
  flow = new_flow socket frame_sz;
  sent = 0;
  received = 0;
  told = 0;
  most = ack_limit socket frame_sz;
}
