-- ===== src/Streamer/Prefix.antt =====
-- code/ioc_streamer.c: what a controller has read of a transfer is what the device has written first.
use iocom.Base.{
  ℕ, ◌+◌, ◌-◌, ◌<◌, ◌≤◌, ◌≡◌, ◌∙◌, refl, sym, ap, ap₂, Bool, List, ◌++◌, append-nil, length, take,
  arith,
}
use iocom.Streamer.Machine.{stage_number, is_running_or_completed, Clock, Content}
use iocom.Streamer.Ring.{write_internal, read_internal}
use iocom.Streamer.Link.{opened, write_some, read_some}
use iocom.Streamer.Linked.{opened-IsLinked, write_some-IsLinked, read_some-IsLinked}
use iocom.Streamer.Moves.{stays, puts, device_write-Moved, device_write-Shows, device_write-tail}
use iocom.Streamer.Gets.{
  leaves, takes, controller_read-Gets, controller_read-Kept, controller_read-Follows,
}
use iocom.Streamer.Device.{device_write}
use iocom.Streamer.Calls.{open_stream}
use iocom.Streamer.Fifo.{IsLinked-IsPrefix}
use iocom.Streamer.Progress.{device_write-Advances}
use iocom.Streamer.Session.{
  Session, opened_session, device_writes, controller_reads, content_bytes, Event, Events,
}
use iocom.Streamer.Delivered.{
  IsSession, Follows-later, stage, device_sends-IsSession, controller_receives-IsSession,
  controller_sends-IsSession, device_receives-IsSession, device_link-IsSession,
  controller_link-IsSession,
}

module _ (sz : ℕ) (s : Session) (k : IsSession sz s) where
  module _ (os_checksum : List ℕ → ℕ → ℕ) (clock : Clock) (c : Content) (interrupt : Bool) where
    device_writes-IsSession : IsSession sz (device_writes os_checksum clock c interrupt s)
    unfolding device_writes write_some
    device_writes-IsSession =
        let r = device_write os_checksum clock c interrupt s.device s.device_signals in
        let later : stage s ≤ stage_number r.streamer.step =
          device_write-Advances os_checksum clock c interrupt s.device s.device_signals in
        let tail = device_write-tail os_checksum clock c interrupt s.device s.device_signals in
        elim (device_write-Moved os_checksum clock c interrupt s.device s.device_signals) [
          | stays same_head same_buf none_written ↦ record {
            link = k.link;
            linked = k.linked;
            written =
                k.written
                ∙ sym (
                    ap (λ n. s.all_written ++ take n (content_bytes c)) none_written
                    ∙ append-nil s.all_written);
            read = k.read;
            device_buf = same_buf ∙ k.device_buf;
            device_head = same_head ∙ k.device_head;
            device_shows =
                device_write-Shows os_checksum clock c interrupt s.device s.device_signals
                  k.device_shows;
            sent_state = λ e. omega (arith, later, k.sent_state e);
            sent_ring = k.sent_ring;
            seen_ring = k.seen_ring;
            controller_tail = k.controller_tail;
            follows =
                Follows-later (stage s) (stage (device_writes os_checksum clock c interrupt s))
                  s.controller s.controller_signals later k.follows;
            sent_tail = λ less. k.sent_tail (omega arith);
            seen_tail = λ less. tail ∙ k.seen_tail (omega arith);
          }
          | puts src e less inside new_head new_buf count ↦
              let same : write_internal s.device_signals.buf src (length s.device_signals.buf)
                    s.device.head s.device_signals.tail
                  ≡ write_internal k.link.buf src sz k.link.head k.link.old_tail =
                ap₂ (λ x y. write_internal x src (length x) y s.device_signals.tail) k.device_buf
                  k.device_head
                ∙ ap₂ (λ x y. write_internal k.link.buf src x k.link.head y) k.linked.sizes.0
                    (k.seen_tail less) in
              record {
                link = write_some sz src k.link;
                linked = write_some-IsLinked sz k.link k.linked src;
                written = ap₂ ◌++◌ k.written (
                    sym (
                      ap₂ (λ n xs. take n (content_bytes xs)) (count ∙ ap (λ q. q.nbytes) same) e));
                read = k.read;
                device_buf = new_buf ∙ ap (λ q. q.ring) same;
                device_head = new_head ∙ ap (λ q. q.head) same;
                device_shows =
                    device_write-Shows os_checksum clock c interrupt s.device s.device_signals
                      k.device_shows;
                sent_state = λ e. omega (arith, later, k.sent_state e);
                sent_ring = k.sent_ring;
                seen_ring = k.seen_ring;
                controller_tail = k.controller_tail;
                follows =
                    Follows-later (stage s) (stage (device_writes os_checksum clock c interrupt s))
                      s.controller s.controller_signals later k.follows;
                sent_tail = λ less. k.sent_tail (omega arith);
                seen_tail = λ less. tail ∙ k.seen_tail (omega arith);
              }
        ]

  module _ (clock : Clock) (n : ℕ) (interrupt : Bool) where
    controller_reads-IsSession : IsSession sz (controller_reads clock n interrupt s)
    unfolding controller_reads read_some
    controller_reads-IsSession =
        let kept = controller_read-Kept clock n interrupt s.controller s.controller_signals in
        elim (controller_read-Gets clock n interrupt s.controller s.controller_signals) [
          | leaves same_tail nothing ↦ record {
            link = k.link;
            linked = k.linked;
            written = k.written;
            read = k.read ∙ sym (ap (λ xs. s.all_read ++ xs) nothing ∙ append-nil s.all_read);
            device_buf = k.device_buf;
            device_head = k.device_head;
            device_shows = k.device_shows;
            sent_state = k.sent_state;
            sent_ring = k.sent_ring;
            seen_ring = λ e.
                let old = k.seen_ring (ap is_running_or_completed (sym kept.state) ∙ e) in
                (kept.head ∙ old.0, kept.buf ∙ old.1);
            controller_tail = same_tail ∙ k.controller_tail;
            follows =
                controller_read-Follows clock n interrupt s.controller s.controller_signals
                  (stage s) k.follows;
            sent_tail = k.sent_tail;
            seen_tail = k.seen_tail;
          }
          | takes going inside new_tail new_bytes ↦
              let ring = k.seen_ring going in
              let same : read_internal s.controller_signals.buf (length s.controller_signals.buf) n
                    s.controller_signals.head s.controller.tail
                  ≡ read_internal k.link.old_buf sz n k.link.old_head k.link.tail =
                ap₂ (λ x y. read_internal x (length x) n y s.controller.tail) ring.1 ring.0
                ∙ ap₂ (λ x y. read_internal k.link.old_buf x n k.link.old_head y) k.linked.sizes.2
                    k.controller_tail in
              record {
                link = read_some sz n k.link;
                linked = read_some-IsLinked sz k.link k.linked n;
                written = k.written;
                read = ap₂ ◌++◌ k.read (sym (new_bytes ∙ ap (λ q. q.bytes) same));
                device_buf = k.device_buf;
                device_head = k.device_head;
                device_shows = k.device_shows;
                sent_state = k.sent_state;
                sent_ring = k.sent_ring;
                seen_ring = λ e.
                    let old = k.seen_ring (ap is_running_or_completed (sym kept.state) ∙ e) in
                    (kept.head ∙ old.0, kept.buf ∙ old.1);
                controller_tail = new_tail ∙ ap (λ q. q.tail) same;
                follows =
                    controller_read-Follows clock n interrupt s.controller s.controller_signals
                      (stage s) k.follows;
                sent_tail = k.sent_tail;
                seen_tail = k.seen_tail;
              }
        ]

Event-IsSession :
    {os_checksum : List ℕ → ℕ → ℕ} {sz : ℕ} {s t : Session}
    → Event os_checksum s t
    → IsSession sz s
    → IsSession sz t
Event-IsSession {os_checksum = os_checksum} {sz = sz} (Event.writes s clock c interrupt) k =
    device_writes-IsSession sz s k os_checksum clock c interrupt
Event-IsSession {sz = sz} (Event.reads s clock n interrupt) k =
    controller_reads-IsSession sz s k clock n interrupt
Event-IsSession {sz = sz} (Event.shows s) k = device_sends-IsSession sz s k
Event-IsSession {sz = sz} (Event.sees s) k = controller_receives-IsSession sz s k
Event-IsSession {sz = sz} (Event.asks s) k = controller_sends-IsSession sz s k
Event-IsSession {sz = sz} (Event.hears s) k = device_receives-IsSession sz s k
Event-IsSession {sz = sz} (Event.device_links s b) k = device_link-IsSession sz s k b
Event-IsSession {sz = sz} (Event.controller_links s b c) k = controller_link-IsSession sz s k b c

opened_session-IsSession :
    (init : ℕ) (off : Bool) (select : ℕ) (buf : List ℕ)
    → 0 < length buf
    → IsSession (length buf) (opened_session init off select buf)
unfolding opened_session open_stream opened stage_number
opened_session-IsSession init off select buf some = record {
  link = opened buf;
  linked = opened-IsLinked buf some;
  written = refl;
  read = refl;
  device_buf = refl;
  device_head = refl;
  device_shows = record {
    running = λ e. refl;
    unended = λ e f. refl;
    completed = λ e. absurd (omega (arith, e));
  };
  sent_state = λ e. absurd (omega (arith, e));
  sent_ring = λ e. (refl, refl);
  seen_ring = λ e. (refl, refl);
  controller_tail = refl;
  follows = record {
    tail_shown = λ e. refl;
    ended = λ e f. absurd (omega (arith, e));
    completed = λ e. absurd (omega (arith, e));
  };
  sent_tail = λ e. refl;
  seen_tail = λ e. refl;
}

Events-IsSession :
    (os_checksum : List ℕ → ℕ → ℕ) (init : ℕ) (off : Bool) (select : ℕ) (buf : List ℕ) {s : Session}
    → 0 < length buf
    → Events os_checksum (opened_session init off select buf) s
    → IsSession (length buf) s
Events-IsSession os_checksum init off select buf some Events.start =
    opened_session-IsSession init off select buf some
Events-IsSession os_checksum init off select buf some (Events.then es e) =
    Event-IsSession e (Events-IsSession os_checksum init off select buf some es)

-- What a controller has read of a transfer from a device is what the device has written first, byte
-- for byte, and at most one byte less than the buffer has was written and is not read. This holds
-- after any sequence of calls of both ends, with any results, of deliveries of the signals in either
-- direction, each as late as may be, and of breaks of the connection, since both ends opened the
-- stream on signals that nobody had used, with a buffer that is not empty.
pub Events-IsPrefix :
    (os_checksum : List ℕ → ℕ → ℕ) (init : ℕ) (off : Bool) (select : ℕ) (buf : List ℕ) {s : Session}
    → 0 < length buf
    → Events os_checksum (opened_session init off select buf) s
    → (take (length s.all_read) s.all_written ≡ s.all_read)
      × (length s.all_written ≤ length s.all_read + (length buf - 1))
Events-IsPrefix os_checksum init off select buf {s = s} some es =
    let k = Events-IsSession os_checksum init off select buf some es in
    let p = IsLinked-IsPrefix (length buf) k.link k.linked in
    (
      ap₂ (λ xs ys. take (length xs) ys) (sym k.read) (sym k.written) ∙ p.0 ∙ k.read,
      omega (arith, p.1, ap length k.written, ap length k.read),
    )
