-- ===== src/Streamer/Delivered.antt =====
-- code/ioc_streamer.c: a session keeps to a link between two rings when signals arrive.
use iocom.Base.{ℕ, ◌<◌, ◌≤◌, ◌≡◌, ◌∙◌, Bool, true, arith}
use iocom.Streamer.Machine.{stage_number, is_running_or_completed, Signals, Streamer}
use iocom.Streamer.Link.{Link, send_bytes, receive_bytes, send_tail, receive_tail}
use iocom.Streamer.Linked.{IsLinked}
use iocom.Streamer.Delay.{
  send_bytes-IsLinked, receive_bytes-IsLinked, send_tail-IsLinked, receive_tail-IsLinked,
}
use iocom.Streamer.Moves.{Shows}
use iocom.Streamer.Gets.{Follows}
use iocom.Streamer.Session.{
  Session, device_sends, controller_receives, controller_sends, device_receives, device_link,
  controller_link,
}

-- The step of the device.
abbrev pub stage : Session → ℕ
stage s = stage_number s.device.step

-- The session keeps to a link between two rings. Where a transfer is shown, its ring is the one of
-- the link; where the device can still write, its tail is.
pub record IsSession (sz : ℕ) (s : Session) : Type 0 where
  pub link : Link
  pub linked : IsLinked sz link
  pub written : link.all_written ≡ s.all_written
  pub read : link.all_read ≡ s.all_read
  pub device_buf : s.device_signals.buf ≡ link.buf
  pub device_head : s.device.head ≡ link.head
  pub device_shows : Shows s.device s.device_signals
  pub sent_state : s.shown.state ≡ 2 → 3 ≤ stage_number s.device.step
  pub sent_ring :
      is_running_or_completed s.shown.state ≡ true
      → (s.shown.head ≡ link.sent_head) × (s.shown.buf ≡ link.sent_buf)
  pub seen_ring :
      is_running_or_completed s.controller_signals.state ≡ true
      → (s.controller_signals.head ≡ link.old_head) × (s.controller_signals.buf ≡ link.old_buf)
  pub controller_tail : s.controller.tail ≡ link.tail
  pub follows : Follows (stage_number s.device.step) s.controller s.controller_signals
  pub sent_tail : stage_number s.device.step < 3 → s.asked.tail ≡ link.sent_tail
  pub seen_tail : stage_number s.device.step < 3 → s.device_signals.tail ≡ link.old_tail

pub Follows-later :
    (d e : ℕ) (st : Streamer) (sg : Signals) → d ≤ e → Follows d st sg → Follows e st sg
Follows-later d e st sg h f = record {
  tail_shown = λ x. f.tail_shown (omega arith);
  ended = λ x y. omega (arith, f.ended x y);
  completed = λ x. omega (arith, f.completed x);
}

module _ (sz : ℕ) (s : Session) (k : IsSession sz s) where
  pub device_sends-IsSession : IsSession sz (device_sends s)
  unfolding device_sends send_bytes
  device_sends-IsSession = record {
    link = send_bytes k.link;
    linked = send_bytes-IsLinked sz k.link k.linked;
    written = k.written;
    read = k.read;
    device_buf = k.device_buf;
    device_head = k.device_head;
    device_shows = k.device_shows;
    sent_state = k.device_shows.completed;
    sent_ring = λ e. (k.device_shows.running e ∙ k.device_head, k.device_buf);
    seen_ring = k.seen_ring;
    controller_tail = k.controller_tail;
    follows = k.follows;
    sent_tail = k.sent_tail;
    seen_tail = k.seen_tail;
  }

  pub controller_receives-IsSession : IsSession sz (controller_receives s)
  unfolding controller_receives receive_bytes
  controller_receives-IsSession = record {
    link = receive_bytes k.link;
    linked = receive_bytes-IsLinked sz k.link k.linked;
    written = k.written;
    read = k.read;
    device_buf = k.device_buf;
    device_head = k.device_head;
    device_shows = k.device_shows;
    sent_state = k.sent_state;
    sent_ring = k.sent_ring;
    seen_ring = k.sent_ring;
    controller_tail = k.controller_tail;
    follows = record {
      tail_shown = k.follows.tail_shown;
      ended = k.follows.ended;
      completed = k.sent_state;
    };
    sent_tail = k.sent_tail;
    seen_tail = k.seen_tail;
  }

  pub controller_sends-IsSession : IsSession sz (controller_sends s)
  unfolding controller_sends send_tail
  controller_sends-IsSession = record {
    link = send_tail k.link;
    linked = send_tail-IsLinked sz k.link k.linked;
    written = k.written;
    read = k.read;
    device_buf = k.device_buf;
    device_head = k.device_head;
    device_shows = k.device_shows;
    sent_state = k.sent_state;
    sent_ring = k.sent_ring;
    seen_ring = k.seen_ring;
    controller_tail = k.controller_tail;
    follows = k.follows;
    sent_tail = λ less. k.follows.tail_shown less ∙ k.controller_tail;
    seen_tail = k.seen_tail;
  }

  pub device_receives-IsSession : IsSession sz (device_receives s)
  unfolding device_receives receive_tail
  device_receives-IsSession = record {
    link = receive_tail k.link;
    linked = receive_tail-IsLinked sz k.link k.linked;
    written = k.written;
    read = k.read;
    device_buf = k.device_buf;
    device_head = k.device_head;
    device_shows = record {
      running = k.device_shows.running;
      unended = k.device_shows.unended;
      completed = k.device_shows.completed;
    };
    sent_state = k.sent_state;
    sent_ring = k.sent_ring;
    seen_ring = k.seen_ring;
    controller_tail = k.controller_tail;
    follows = k.follows;
    sent_tail = k.sent_tail;
    seen_tail = k.sent_tail;
  }

  pub device_link-IsSession : (b : Bool) → IsSession sz (device_link b s)
  unfolding device_link
  device_link-IsSession b = record {
    link = k.link;
    linked = k.linked;
    written = k.written;
    read = k.read;
    device_buf = k.device_buf;
    device_head = k.device_head;
    device_shows = record {
      running = k.device_shows.running;
      unended = k.device_shows.unended;
      completed = k.device_shows.completed;
    };
    sent_state = k.sent_state;
    sent_ring = k.sent_ring;
    seen_ring = k.seen_ring;
    controller_tail = k.controller_tail;
    follows = k.follows;
    sent_tail = k.sent_tail;
    seen_tail = k.seen_tail;
  }

  pub controller_link-IsSession : (b c : Bool) → IsSession sz (controller_link b c s)
  unfolding controller_link
  controller_link-IsSession b c = record {
    link = k.link;
    linked = k.linked;
    written = k.written;
    read = k.read;
    device_buf = k.device_buf;
    device_head = k.device_head;
    device_shows = k.device_shows;
    sent_state = k.sent_state;
    sent_ring = k.sent_ring;
    seen_ring = k.seen_ring;
    controller_tail = k.controller_tail;
    follows = record {
      tail_shown = k.follows.tail_shown;
      ended = k.follows.ended;
      completed = k.follows.completed;
    };
    sent_tail = k.sent_tail;
    seen_tail = k.seen_tail;
  }
