-- ===== src/FlowControl.antt =====
-- code/ioc_connection_send.c and code/ioc_connection_receive.c: acknowledgements, and writing a
-- frame to the stream in as many pieces as it takes.
pub mod Counts
pub mod Line
pub mod Kept
pub mod Acks
pub mod Bounds
pub mod Pieces
mod Runs
use iocom.Base.{
  ℕ, ◌+◌, ◌-◌, ◌*◌, ◌/◌, ◌%◌, ◌^◌, bit_or, Bool, true, false, not, ◌||◌, List, [], ◌∷◌, ◌++◌, ltb,
  leb, ◌==◌, if◌then◌else◌, length, drop, at,
}

-- `iocConnection`, as far as it counts bytes and writes frames: IOC_SOCKET, the counts, which are
-- numbers of 32 bits, the limits, and frame_out: `out` is its buffer up to `used`.
pub record Flow : Type 0 where
  pub socket : Bool
  pub bytes_sent : ℕ
  pub processed_bytes : ℕ
  pub bytes_received : ℕ
  pub bytes_acknowledged : ℕ
  pub max_in_air : ℕ
  pub max_ack_in_air : ℕ
  pub unacknowledged_limit : ℕ
  pub out : List ℕ
  pub pos : ℕ

-- IOC_SOCKET_MAX_ACK_IN_AIR, and IOC_SERIAL_MAX_ACK_IN_AIR.
unfoldable pub ack_limit : Bool → ℕ → ℕ
ack_limit true frame_sz = 44 * frame_sz + 500 + 5 * 4
ack_limit false frame_sz = 256 - 1

-- The limits as a connection that is opened has them: a serial one has the same for every size.
unfoldable pub set_limits : Bool → ℕ → Flow → Flow
set_limits socket frame_sz f = record f {
  socket = socket;
  max_in_air = if socket then 44 * frame_sz else 256 - 1 - 40 - 5 * 3;
  max_ack_in_air = ack_limit socket frame_sz;
  unacknowledged_limit = if socket then 500 else 40;
}

-- One more than the mask of the counts: an acknowledgement tells a count modulo this.
abbrev pub modulus : Bool → ℕ
modulus socket = if socket then 2 ^ 24 else 2 ^ 16

abbrev pub ack_size : Bool → ℕ
ack_size socket = if socket then 4 else 3

-- (a - b) & mask, for numbers of 32 bits.
abbrev pub masked_difference : Bool → ℕ → ℕ → ℕ
masked_difference socket a b = (a + (2 ^ 32 - b)) % 2 ^ 32 % modulus socket

-- What is sent and not acknowledged.
unfoldable pub bytes_in_air : Flow → ℕ
bytes_in_air f = masked_difference f.socket f.bytes_sent f.processed_bytes

pub data SendStatus : Type 0 where
  success : SendStatus
  pending : SendStatus
  failed : SendStatus

-- What `osal_stream_write` returns, which is a parameter.
pub record Wrote {ℓ} (S : Type ℓ) : Type ℓ where
  pub status : SendStatus
  pub n_written : ℕ
  pub stream : S

-- The frame buffer after `n_written` more of its bytes were written.
unfoldable pub advance_out : ℕ → Flow → Flow
advance_out n_written f =
    let sent = record f { bytes_sent = (f.bytes_sent + n_written) % 2 ^ 32 } in
    if leb (length f.out) (f.pos + n_written)
    then record sent { out = []; pos = 0 }
    else record sent { pos = f.pos + n_written }

-- !status && n != n_written
unfoldable pub written_status : SendStatus → ℕ → ℕ → SendStatus
written_status success n n_written = if n == n_written then success else pending
written_status s n n_written = s

-- The frame of an acknowledgement.
unfoldable pub ack_bytes : Bool → ℕ → List ℕ
ack_bytes true rbytes = 255 ∷ rbytes % 256 ∷ rbytes / 2 ^ 8 % 256 ∷ rbytes / 2 ^ 16 % 256 ∷ []
ack_bytes false rbytes = 255 ∷ rbytes % 256 ∷ rbytes / 2 ^ 8 % 256 ∷ []

unfoldable pub place_ack : Flow → Flow
place_ack f = record f {
  out = ack_bytes f.socket f.bytes_received;
  bytes_acknowledged = f.bytes_received;
}

-- The counts that an acknowledgement tells, as the other end takes it: `buf` is the frame.
unfoldable pub receive_acknowledge : List ℕ → Flow → Flow
receive_acknowledge buf f =
    let two = bit_or (at buf 1) (at buf 2 * 2 ^ 8) in
    record f { processed_bytes = if f.socket then bit_or two (at buf 3 * 2 ^ 16) else two }

-- con->bytes_received += rfs.bytes_received
unfoldable pub count_received : ℕ → Flow → Flow
count_received n f = record f { bytes_received = (f.bytes_received + n) % 2 ^ 32 }

-- A frame that is made stays in the frame buffer, which is free, if the flow control allows it.
unfoldable pub place_frame : List ℕ → Flow → Flow
place_frame frame f =
    if ltb f.max_in_air (length frame + bytes_in_air f) then f else record f { out = frame }

-- Whether a send of an acknowledgement broke the connection.
unfoldable pub ack_status : SendStatus → SendStatus
ack_status failed = failed
ack_status s = success

module _ {ℓ} {S : Type ℓ} (stream_write : S → List ℕ → Wrote S) where
  -- `ioc_write_to_stream`. The timers are left out.
  unfoldable pub write_to_stream : Flow → S → SendStatus × Flow × S
  write_to_stream f stream =
      let n = length f.out - f.pos in
      let r = stream_write stream (drop f.pos f.out) in
      if n == 0
      then (pending, f, stream)
      else (written_status r.status n r.n_written, advance_out r.n_written f, r.stream)

  -- `ioc_send_acknowledge`. The flush of the stream is left out.
  unfoldable pub send_acknowledge : Flow → S → SendStatus × Flow × S
  send_acknowledge f stream =
      if not (length f.out == 0) then (pending, f, stream) else write_to_stream (place_ack f) stream

  -- `ioc_acknowledge_as_needed`.
  unfoldable pub acknowledge_as_needed : Flow → S → SendStatus × Flow × S
  acknowledge_as_needed f stream =
      if ltb f.max_ack_in_air (bytes_in_air f + ack_size f.socket)
      then (pending, f, stream)
      else if ltb (masked_difference f.socket f.bytes_received f.bytes_acknowledged)
          f.unacknowledged_limit
      then (success, f, stream)
      else let r = send_acknowledge f stream in (ack_status r.0, r.1, r.2)

  -- `ioc_send_timed_keepalive`: whether it is due depends on the timers and on the state of a serial
  -- connection.
  unfoldable pub send_timed_keepalive : Bool → Flow → S → SendStatus × Flow × S
  send_timed_keepalive false f stream = (success, f, stream)
  send_timed_keepalive true f stream =
      let r = send_acknowledge f stream in (ack_status r.0, r.1, r.2)
