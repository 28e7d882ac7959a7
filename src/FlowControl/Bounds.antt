-- ===== src/FlowControl/Bounds.antt =====
-- code/ioc_connection_send.c and code/ioc_connection_receive.c: how many bytes can be on their way
-- since a connection was opened.
use iocom.Base.{ℕ, ◌-◌, ◌^◌, ◌<◌, ◌≤◌, ◌≡◌, refl, Bool, true, false, arith}
use iocom.FlowControl.{ack_limit, set_limits, bytes_in_air}
use iocom.FlowControl.Line.{Line, Steps, IsCounted, new_flow, new_line}
use iocom.FlowControl.Kept.{bytes_in_air-exact}
use iocom.FlowControl.Acks.{Steps-IsCounted, Steps-most}

new_line-IsCounted :
    (socket : Bool) (frame_sz : ℕ) → frame_sz < 2 ^ 15 → IsCounted (new_line socket frame_sz)
unfolding new_line new_flow set_limits ack_limit
new_line-IsCounted true frame_sz small = record {
  bytes_sent = refl;
  processed = refl;
  told_received = omega arith;
  received_sent = omega arith;
  pos = omega arith;
  limit = omega arith;
  limits = omega arith;
  small = omega arith;
  most = refl;
}
new_line-IsCounted false frame_sz small = record {
  bytes_sent = refl;
  processed = refl;
  told_received = omega arith;
  received_sent = omega arith;
  pos = omega arith;
  limit = omega arith;
  limits = omega arith;
  small = omega arith;
  most = refl;
}

-- The ends do not lose count of each other. On a connection that is opened, for a frame size of 15
-- bits, after any sequence of frames placed in the free buffer, of writes of any part of the
-- buffer, of acknowledgements sent as needed, of arrivals, and of acknowledgements of what has
-- arrived heard in order, what the counts say is on its way is exactly what was sent and is not
-- acknowledged, however often the counts have wrapped around. What the other end has not received
-- is no more than that, and that no more than the limit for acknowledgements that the connection
-- was opened with: 255 bytes on a serial line. Keep alives, and a frame size that the other end
-- limits, are not among these.
pub Steps-bytes_in_air :
    (socket : Bool) (frame_sz : ℕ) (l : Line)
    → frame_sz < 2 ^ 15
    → Steps (new_line socket frame_sz) l
    → (bytes_in_air l.flow ≡ l.sent - l.told)
      × (l.sent - l.received ≤ bytes_in_air l.flow)
      × (bytes_in_air l.flow ≤ ack_limit socket frame_sz)
unfolding new_line
Steps-bytes_in_air socket frame_sz l small steps = (exact, unreceived, within)
  where
    c : IsCounted l
    c =
        Steps-IsCounted (new_line socket frame_sz) l steps
          (new_line-IsCounted socket frame_sz small)

    exact : bytes_in_air l.flow ≡ l.sent - l.told
    exact = bytes_in_air-exact l c

    within : bytes_in_air l.flow ≤ ack_limit socket frame_sz
    within =
        let e = exact in
        let h = c.limit in
        let limit = c.most in
        let kept = Steps-most (new_line socket frame_sz) l steps in omega arith

    unreceived : l.sent - l.received ≤ bytes_in_air l.flow
    unreceived = let e = exact in let h = c.told_received in omega arith
