-- ===== src/FlowControl/Acks.antt =====
-- code/ioc_connection_send.c: acknowledgements, and the counts after any steps.
use iocom.Base.{
  ℕ, ◌+◌, ◌≤◌, ◌≡◌, ◌∙◌, refl, Bool, true, false, not, List, [], ◌∷◌, ltb, ◌==◌, subst,
  if◌then◌else◌, length, arith,
}
use iocom.FlowControl.{
  Flow, ack_size, masked_difference, bytes_in_air, SendStatus, ack_status, success, pending,
  ack_bytes, place_ack, count_received, write_to_stream, send_acknowledge, acknowledge_as_needed,
}
use iocom.FlowControl.Line.{
  Line, take_some, write_line, acknowledge_line, hear_line, Step, places, writes, acknowledges,
  counts, arrives, hears, Steps, start, and_then, IsCounted,
}
use iocom.FlowControl.Kept.{bytes_in_air-exact, place-IsCounted, write-IsCounted, hear-IsCounted}

length-ack_bytes : (socket : Bool) (count : ℕ) → length (ack_bytes socket count) ≡ ack_size socket
unfolding ack_bytes
length-ack_bytes true count = refl
length-ack_bytes false count = refl

place_ack-IsCounted :
    (l : Line)
    → l.flow.out ≡ []
    → bytes_in_air l.flow + ack_size l.flow.socket ≤ l.flow.max_ack_in_air
    → IsCounted l
    → IsCounted (record l { flow = place_ack l.flow })
unfolding place_ack
place_ack-IsCounted l empty fits c =
    let h1 = bytes_in_air-exact l c in
    let h3 = c.told_received in
    let h4 = c.received_sent in
    let h5 = subst (λ z. l.flow.pos ≤ length z) empty c.pos in
    let size = length-ack_bytes l.flow.socket l.flow.bytes_received in
    record {
      bytes_sent = c.bytes_sent;
      processed = c.processed;
      told_received = c.told_received;
      received_sent = c.received_sent;
      pos = omega arith;
      limit = ground arith;
      limits = c.limits;
      small = c.small;
      most = c.most;
    }

no_bytes : (xs : List ℕ) → not (length xs == 0) ≡ false → xs ≡ []
no_bytes [] e = refl
no_bytes (x ∷ xs) e = ground arith

send-IsCounted :
    (status : SendStatus) (k : ℕ) (l : Line)
    → bytes_in_air l.flow + ack_size l.flow.socket ≤ l.flow.max_ack_in_air
    → IsCounted l
    → (let r = send_acknowledge (take_some status k) l.flow l.sent in
        IsCounted (record l { flow = r.1; sent = r.2 }))
unfolding send_acknowledge write_line
send-IsCounted status k l fits c = go (not (length l.flow.out == 0)) refl
  where
    sent :
        l.flow.out ≡ []
        → (let r = write_to_stream (take_some status k) (place_ack l.flow) l.sent in
            IsCounted (record l { flow = r.1; sent = r.2 }))
    sent empty =
        write-IsCounted status k (record l { flow = place_ack l.flow })
          (place_ack-IsCounted l empty fits c)

    go :
        (b : Bool)
        → not (length l.flow.out == 0) ≡ b
        → (let r : SendStatus × Flow × ℕ =
              if b
              then (pending, l.flow, l.sent)
              else write_to_stream (take_some status k) (place_ack l.flow) l.sent in
            IsCounted (record l { flow = r.1; sent = r.2 }))
    go true e = c
    go false e = sent (no_bytes l.flow.out e)

acknowledge-IsCounted :
    (status : SendStatus) (k : ℕ) (l : Line) → IsCounted l → IsCounted (acknowledge_line status k l)
unfolding acknowledge_line acknowledge_as_needed
acknowledge-IsCounted status k l c =
    go (ltb l.flow.max_ack_in_air (bytes_in_air l.flow + ack_size l.flow.socket)) refl
  where
    due : Bool
    due =
        ltb (masked_difference l.flow.socket l.flow.bytes_received l.flow.bytes_acknowledged)
          l.flow.unacknowledged_limit

    all_sent : SendStatus × Flow × ℕ
    all_sent =
        let r = send_acknowledge (take_some status k) l.flow l.sent in (ack_status r.0, r.1, r.2)

    asked :
        (b : Bool)
        → bytes_in_air l.flow + ack_size l.flow.socket ≤ l.flow.max_ack_in_air
        → (let r : SendStatus × Flow × ℕ = if b then (success, l.flow, l.sent) else all_sent in
            IsCounted (record l { flow = r.1; sent = r.2 }))
    asked true fits = c
    asked false fits = send-IsCounted status k l fits c

    go :
        (b : Bool)
        → ltb l.flow.max_ack_in_air (bytes_in_air l.flow + ack_size l.flow.socket) ≡ b
        → (let r : SendStatus × Flow × ℕ =
              if b
              then (pending, l.flow, l.sent)
              else if due
              then (success, l.flow, l.sent)
              else all_sent in
            IsCounted (record l { flow = r.1; sent = r.2 }))
    go true e = c
    go false e = asked due (ground arith)

Step-IsCounted : (l m : Line) → Step l m → IsCounted l → IsCounted m
unfolding count_received
Step-IsCounted l m (places _ frame empty) c = place-IsCounted l frame empty c
Step-IsCounted l m (writes _ status k) c = write-IsCounted status k l c
Step-IsCounted l m (acknowledges _ status k) c = acknowledge-IsCounted status k l c
Step-IsCounted l m (counts _ n) c = record {
  bytes_sent = c.bytes_sent;
  processed = c.processed;
  told_received = c.told_received;
  received_sent = c.received_sent;
  pos = c.pos;
  limit = c.limit;
  limits = c.limits;
  small = c.small;
  most = c.most;
}
Step-IsCounted l m (arrives _ n inside more) c =
    let h = c.told_received in
    record {
      bytes_sent = c.bytes_sent;
      processed = c.processed;
      told_received = omega arith;
      received_sent = inside;
      pos = c.pos;
      limit = c.limit;
      limits = c.limits;
      small = c.small;
      most = c.most;
    }
Step-IsCounted l m (hears _ count later arrived) c = hear-IsCounted l count later arrived c

pub Steps-IsCounted : (l m : Line) → Steps l m → IsCounted l → IsCounted m
Steps-IsCounted l m start c = c
Steps-IsCounted l m (and_then steps step) c = Step-IsCounted _ m step (Steps-IsCounted l _ steps c)

Step-most : (l m : Line) → Step l m → m.most ≡ l.most
unfolding write_line acknowledge_line hear_line
Step-most l m (places _ frame empty) = refl
Step-most l m (writes _ status k) = refl
Step-most l m (acknowledges _ status k) = refl
Step-most l m (counts _ n) = refl
Step-most l m (arrives _ n inside more) = refl
Step-most l m (hears _ count later arrived) = refl

pub Steps-most : (l m : Line) → Steps l m → m.most ≡ l.most
Steps-most l m start = refl
Steps-most l m (and_then steps step) = Step-most _ m step ∙ Steps-most l _ steps
