-- ===== src/FlowControl/Kept.antt =====
-- code/ioc_connection_send.c and code/ioc_connection_receive.c: the counts stay right, whatever
-- happens.
use iocom.Base.{
  ℕ, ◌+◌, ◌-◌, ◌%◌, ◌^◌, ◌<◌, ◌≤◌, ◌≡◌, ◌∙◌, refl, sym, ap, Bool, true, false, List, [], ltb, leb,
  ◌==◌, subst, if◌then◌else◌, length, length-drop, drop, arith,
}
use iocom.FlowControl.{
  Flow, modulus, masked_difference, bytes_in_air, SendStatus, Wrote, written_status, pending,
  advance_out, receive_acknowledge, place_frame, write_to_stream,
}
use iocom.FlowControl.Counts.{masked_difference-exact, receive_acknowledge-ack_bytes}
use iocom.FlowControl.Line.{Line, take_some, write_line, hear_line, IsCounted}

pub bytes_in_air-exact : (l : Line) → IsCounted l → bytes_in_air l.flow ≡ l.sent - l.told
unfolding bytes_in_air
bytes_in_air-exact l c =
    ap (λ z. masked_difference l.flow.socket z l.flow.processed_bytes) c.bytes_sent
    ∙ ap (masked_difference l.flow.socket (l.sent % 2 ^ 32)) c.processed
    ∙ masked_difference-exact l.flow.socket l.sent l.told ordered near
  where
    ordered : l.told ≤ l.sent
    ordered = let h1 = c.told_received in let h2 = c.received_sent in omega arith

    near : l.sent - l.told < modulus l.flow.socket
    near = let h1 = c.limit in let h2 = c.small in omega arith

-- A write of some bytes of the frame.
advance_if :
    (b : Bool) (l : Line) (n : ℕ)
    → b ≡ leb (length l.flow.out) (l.flow.pos + n)
    → n ≤ length l.flow.out - l.flow.pos
    → IsCounted l
    → (let sent = record l.flow { bytes_sent = (l.flow.bytes_sent + n) % 2 ^ 32 } in
        IsCounted (record l {
          flow =
              if b then record sent { out = []; pos = 0 } else record sent { pos = l.flow.pos + n };
          sent = l.sent + n;
        }))
advance_if true l n e few c =
    let h1 = c.bytes_sent in
    let h2 = c.limit in
    let h3 = c.pos in
    let h4 = c.received_sent in
    let h5 = sym e in
    record {
      bytes_sent = ap (λ z. (z + n) % 2 ^ 32) h1 ∙ omega arith;
      processed = c.processed;
      told_received = c.told_received;
      received_sent = omega arith;
      pos = omega arith;
      limit = ground arith;
      limits = c.limits;
      small = c.small;
      most = c.most;
    }
advance_if false l n e few c =
    let h1 = c.bytes_sent in
    let h2 = c.limit in
    let h3 = c.pos in
    let h4 = c.received_sent in
    let h5 = sym e in
    record {
      bytes_sent = ap (λ z. (z + n) % 2 ^ 32) h1 ∙ omega arith;
      processed = c.processed;
      told_received = c.told_received;
      received_sent = omega arith;
      pos = omega arith;
      limit = ground arith;
      limits = c.limits;
      small = c.small;
      most = c.most;
    }

advance_out-IsCounted :
    (l : Line) (n : ℕ)
    → n ≤ length l.flow.out - l.flow.pos
    → IsCounted l
    → IsCounted (record l { flow = advance_out n l.flow; sent = l.sent + n })
unfolding advance_out
advance_out-IsCounted l n few c =
    advance_if (leb (length l.flow.out) (l.flow.pos + n)) l n refl few c

pub place-IsCounted :
    (l : Line) (frame : List ℕ)
    → l.flow.out ≡ []
    → IsCounted l
    → IsCounted (record l { flow = place_frame frame l.flow })
unfolding place_frame
place-IsCounted l frame empty c =
    go (ltb l.flow.max_in_air (length frame + bytes_in_air l.flow)) refl
  where
    placed :
        ltb l.flow.max_in_air (length frame + bytes_in_air l.flow) ≡ false
        → IsCounted (record l { flow = record l.flow { out = frame } })
    placed fits =
        let h1 = bytes_in_air-exact l c in
        let h2 = c.limits in
        let h3 = c.told_received in
        let h4 = c.received_sent in
        let h5 = subst (λ z. l.flow.pos ≤ length z) empty c.pos in
        record {
          bytes_sent = c.bytes_sent;
          processed = c.processed;
          told_received = c.told_received;
          received_sent = c.received_sent;
          pos = omega arith;
          limit = ground arith;
          limits = c.limits;
          small = c.small;
          most = c.most;
        }

    go :
        (b : Bool)
        → ltb l.flow.max_in_air (length frame + bytes_in_air l.flow) ≡ b
        → IsCounted (record l { flow = if b then l.flow else record l.flow { out = frame } })
    go true e = c
    go false e = placed e

pub hear-IsCounted :
    (l : Line) (count : ℕ)
    → l.told ≤ count
    → count ≤ l.received
    → IsCounted l
    → IsCounted (hear_line count l)
unfolding hear_line receive_acknowledge
hear-IsCounted l count later arrived c =
    let h1 = c.limit in
    record {
      bytes_sent = c.bytes_sent;
      processed =
          ap (λ z. z.processed_bytes) (receive_acknowledge-ack_bytes l.flow (count % 2 ^ 32))
          ∙ low l.flow.socket;
      told_received = arrived;
      received_sent = c.received_sent;
      pos = c.pos;
      limit = omega arith;
      limits = c.limits;
      small = c.small;
      most = c.most;
    }
  where
    low : (socket : Bool) → count % 2 ^ 32 % modulus socket ≡ count % modulus socket
    low true = omega arith
    low false = omega arith

few-taken :
    (status : SendStatus) (k taken : ℕ) (bytes : List ℕ)
    → (take_some status k taken bytes).n_written ≤ length bytes
unfolding take_some
few-taken status k taken bytes = ground arith

pub write-IsCounted :
    (status : SendStatus) (k : ℕ) (l : Line) → IsCounted l → IsCounted (write_line status k l)
unfolding write_line write_to_stream take_some
write-IsCounted status k l c = go (length l.flow.out - l.flow.pos == 0)
  where
    bytes : List ℕ
    bytes = drop l.flow.pos l.flow.out

    wrote : Wrote ℕ
    wrote = take_some status k l.sent bytes

    few : wrote.n_written ≤ length l.flow.out - l.flow.pos
    few =
        subst (λ z. wrote.n_written ≤ z) (length-drop l.flow.pos l.flow.out)
          (few-taken status k l.sent bytes)

    counted :
        IsCounted (record l { flow = advance_out wrote.n_written l.flow; sent = wrote.stream })
    counted = advance_out-IsCounted l wrote.n_written few c

    go :
        (b : Bool)
        → (let r : SendStatus × Flow × ℕ = if b then (pending, l.flow, l.sent) else (
          written_status wrote.status (length l.flow.out - l.flow.pos) wrote.n_written,
          advance_out wrote.n_written l.flow,
          wrote.stream,
        ) in
            IsCounted (record l { flow = r.1; sent = r.2 }))
    go true = c
    go false = counted
