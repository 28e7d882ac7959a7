-- ===== src/Streamer/Gets.antt =====
-- code/ioc_streamer.c: what a call of a controller that reads changes.
use iocom.Base.{
  ℕ, ◌<◌, ◌≤◌, ◌≡◌, ◌∙◌, refl, ap, inl, inr, Bool, Bool-cases, true, false, not, ◌&&◌, ◌||◌, Option,
  none, some, List, [], leb, ◌==◌, length, arith,
}
use iocom.Streamer.Ring.{read_internal}
use iocom.Streamer.Machine.{
  Stage, transfer_data, failed, stage_number, is_running_or_completed, Signals, Streamer, Clock,
}
use iocom.Streamer.Transfer.{is_idle_set, get_bytes, Read}
use iocom.Streamer.Controller.{
  controller_lost, controller_got, controller_read_data, controller_read_step, controller_read,
}

-- The bytes that a read stored.
abbrev pub bytes_read : Option (List ℕ) → List ℕ
bytes_read none = []
bytes_read (some bytes) = bytes

-- What becomes of the place to read from in a call to read: nothing, with no bytes, or what
-- `ioc_streamer_read_internal` does.
pub data Gets (n : ℕ) (st : Streamer) (sg : Signals) (r : Read) : Type 0 where
  leaves : r.streamer.tail ≡ st.tail → bytes_read r.stored ≡ [] → Gets n st sg r
  takes :
      is_running_or_completed sg.state ≡ true
      → sg.head < length sg.buf
      → r.streamer.tail ≡ (read_internal sg.buf (length sg.buf) n sg.head st.tail).tail
      → bytes_read r.stored ≡ (read_internal sg.buf (length sg.buf) n sg.head st.tail).bytes
      → Gets n st sg r

-- The controller shows the place it reads from, until the device, at step `d`, has written all.
pub record Follows (d : ℕ) (st : Streamer) (sg : Signals) : Type 0 where
  pub tail_shown : d < 3 → sg.tail ≡ st.tail
  pub ended : 3 ≤ stage_number st.step → stage_number st.step ≤ 5 → 3 ≤ d
  pub completed : sg.state ≡ 2 → 3 ≤ d

-- The signals that the device sets are not touched.
pub record Kept (before after : Signals) : Type 0 where
  pub state : after.state ≡ before.state
  pub head : after.head ≡ before.head
  pub buf : after.buf ≡ before.buf

controller_got-kept :
    (clock : Clock) (b : Option (List ℕ)) (r : Read)
    → (controller_got clock b r).streamer.tail ≡ r.streamer.tail
unfolding controller_got
controller_got-kept clock none r = refl
controller_got-kept clock (some b) r = ground arith

controller_got-stored :
    (clock : Clock) (b : Option (List ℕ)) (r : Read) → (controller_got clock b r).stored ≡ r.stored
unfolding controller_got
controller_got-stored clock none r = refl
controller_got-stored clock (some b) r = ground arith

module _ (clock : Clock) (n : ℕ) (interrupt : Bool) (st : Streamer) (sg : Signals) where
  get_bytes-Gets :
      (q : Read)
      → is_running_or_completed sg.state ≡ true
      → sg.head < length sg.buf
      → q.streamer.tail ≡ (get_bytes n false st sg).streamer.tail
      → q.stored ≡ (get_bytes n false st sg).stored
      → Gets n st sg q
  unfolding get_bytes
  get_bytes-Gets q go inside e f =
      let g = read_internal sg.buf (length sg.buf) n sg.head st.tail in
      elim (Bool-cases (length g.bytes == 0)) [
        | inl nothing ↦ leaves (ground (arith, e, nothing)) (ap bytes_read f ∙ rw nothing refl)
        | inr bytes ↦ elim (Bool-cases sg.buf_connected) [
          | inr lost ↦ leaves (ground (arith, e, lost)) (ap bytes_read f ∙ rw (bytes, lost) refl)
          | inl kept ↦
              takes go inside (e ∙ rw (bytes, kept) refl) (ap bytes_read f ∙ rw (bytes, kept) refl)
        ]
      ]

  controller_read_data-Gets : Gets n st sg (controller_read_data clock n false interrupt st sg)
  unfolding controller_read_data
  controller_read_data-Gets =
      elim (Bool-cases (not (is_running_or_completed sg.state) || interrupt)) [
        | inl stop ↦ rw stop (leaves refl refl)
        | inr go ↦ rw go (elim (Bool-cases (leb (length sg.buf) sg.head)) [
          | inl stop ↦ rw stop (leaves refl refl)
          | inr inside ↦ rw inside (
              let r = get_bytes n false st sg in
              get_bytes-Gets (controller_got clock r.stored r) (ground arith) (ground arith)
                (controller_got-kept clock r.stored r) (controller_got-stored clock r.stored r))
        ])
      ]

  controller_read_step-Gets :
      (s : Stage) → Gets n st sg (controller_read_step s clock n false interrupt st sg)
  unfolding controller_read_step
  controller_read_step-Gets transfer_data = controller_read_data-Gets
  controller_read_step-Gets s = leaves (ground arith) (ground arith)

  pub controller_read-Gets : Gets n st sg (controller_read clock n false interrupt st sg)
  unfolding controller_read controller_lost controller_read_step
  controller_read-Gets = elim (Bool-cases (not sg.state_connected && not (is_idle_set st.step))) [
    | inl lost ↦ rw lost (leaves refl refl)
    | inr kept ↦ rw kept (controller_read_step-Gets st.step)
  ]

  get_bytes-Kept : Kept sg (get_bytes n false st sg).signals
  unfolding get_bytes
  get_bytes-Kept = record { state = ground arith; head = ground arith; buf = ground arith }

  controller_got-Kept :
      (b : Option (List ℕ)) (r : Read)
      → Kept sg r.signals
      → Kept sg (controller_got clock b r).signals
  unfolding controller_got
  controller_got-Kept none r k = record { state = k.state; head = k.head; buf = k.buf }
  controller_got-Kept (some b) r k = record {
    state = ground (arith, k.state);
    head = ground (arith, k.head);
    buf = ground (arith, k.buf);
  }

  controller_read_data-Kept : Kept sg (controller_read_data clock n false interrupt st sg).signals
  unfolding controller_read_data
  controller_read_data-Kept =
      let r = get_bytes n false st sg in
      let k = controller_got-Kept r.stored r get_bytes-Kept in
      record {
        state = ground (arith, k.state);
        head = ground (arith, k.head);
        buf = ground (arith, k.buf);
      }

  controller_read_step-Kept :
      (s : Stage) → Kept sg (controller_read_step s clock n false interrupt st sg).signals
  unfolding controller_read_step
  controller_read_step-Kept transfer_data = controller_read_data-Kept
  controller_read_step-Kept s = record {
    state = ground arith;
    head = ground arith;
    buf = ground arith;
  }

  pub controller_read-Kept : Kept sg (controller_read clock n false interrupt st sg).signals
  unfolding controller_read controller_lost controller_read_step
  controller_read-Kept = elim (Bool-cases (not sg.state_connected && not (is_idle_set st.step))) [
    | inl lost ↦ rw lost (record { state = refl; head = refl; buf = refl })
    | inr kept ↦ rw kept (controller_read_step-Kept st.step)
  ]

  module _ (d : ℕ) where
    get_bytes-Follows :
        Follows d st sg
        → Follows d (get_bytes n false st sg).streamer (get_bytes n false st sg).signals
    unfolding get_bytes
    get_bytes-Follows h =
        let a = h.tail_shown in
        let b = h.ended in
        let c = h.completed in
        record { tail_shown = ground arith; ended = ground arith; completed = ground arith }

    controller_got-Follows :
        (b : Option (List ℕ)) (r : Read)
        → is_running_or_completed r.signals.state ≡ true
        → Follows d r.streamer r.signals
        → Follows d (controller_got clock b r).streamer (controller_got clock b r).signals
    unfolding controller_got stage_number
    controller_got-Follows none r e h = record {
      tail_shown = h.tail_shown;
      ended = λ x y. absurd (omega (arith, y));
      completed = h.completed;
    }
    controller_got-Follows (some bytes) r e h =
        let a = h.tail_shown in
        let b = h.ended in
        let c = h.completed in
        record { tail_shown = ground arith; ended = ground (arith, e); completed = ground arith }

    controller_read_data-Follows :
        st.step ≡ transfer_data
        → Follows d st sg
        → Follows d
            (controller_read_data clock n false interrupt st sg).streamer
            (controller_read_data clock n false interrupt st sg).signals
    unfolding controller_read_data stage_number
    controller_read_data-Follows e h =
        let fails : Follows d (record st { step = failed }) sg = record {
          tail_shown = h.tail_shown;
          ended = λ x y. absurd (omega (arith, y));
          completed = h.completed;
        } in
        elim (Bool-cases (not (is_running_or_completed sg.state) || interrupt)) [
          | inl stop ↦ rw stop fails
          | inr go ↦ rw go (elim (Bool-cases (leb (length sg.buf) sg.head)) [
            | inl stop ↦ rw stop fails
            | inr inside ↦ rw inside (
                let r = get_bytes n false st sg in
                controller_got-Follows r.stored r
                  (ap is_running_or_completed get_bytes-Kept.state ∙ ground arith)
                  (get_bytes-Follows h))
          ])
        ]

    controller_read_step-Follows :
        (s : Stage)
        → st.step ≡ s
        → Follows d st sg
        → Follows d
            (controller_read_step s clock n false interrupt st sg).streamer
            (controller_read_step s clock n false interrupt st sg).signals
    unfolding controller_read_step stage_number
    controller_read_step-Follows transfer_data e h = controller_read_data-Follows e h
    controller_read_step-Follows s e h =
        let a = h.tail_shown in
        let b = h.ended in
        let c = h.completed in
        record {
          tail_shown = ground (arith, e);
          ended = ground (arith, e);
          completed = ground (arith, e);
        }

    pub controller_read-Follows :
        Follows d st sg
        → Follows d
            (controller_read clock n false interrupt st sg).streamer
            (controller_read clock n false interrupt st sg).signals
    unfolding controller_read controller_lost controller_read_step stage_number
    controller_read-Follows h =
        elim (Bool-cases (not sg.state_connected && not (is_idle_set st.step))) [
          | inl lost ↦ rw lost (record {
            tail_shown = h.tail_shown;
            ended = λ a b. absurd (omega (arith, b));
            completed = h.completed;
          })
          | inr kept ↦ rw kept (controller_read_step-Follows st.step refl h)
        ]
