-- ===== src/Streamer/Moves.antt =====
-- code/ioc_streamer.c: what a call of a device that writes, and of a controller that reads, changes.
use iocom.Base.{
  ℕ, ◌<◌, ◌≤◌, ◌≡◌, ◌≢◌, refl, inl, inr, Bool, Bool-cases, true, not, ◌&&◌, ◌||◌, List, leb, ◌==◌,
  length, arith,
}
use iocom.Streamer.Ring.{put_to_end, put_to_tail, write_internal}
use iocom.Streamer.Machine.{
  Stage, initialized, transfer_data, stage_number, is_running_or_completed, Signals, Streamer,
  Clock, Content, bytes_of, end_of_data, negative, Done, set_state, stream_running,
}
use iocom.Streamer.Transfer.{is_idle_set, put_bytes}
use iocom.Streamer.Device.{
  device_lost, write_stuck, device_put, device_write_data, device_write_step, device_write,
}

write_internal-still :
    (ring src : List ℕ) (sz head tail : ℕ)
    → (write_internal ring src sz head tail).nbytes ≡ 0
    → (write_internal ring src sz head tail).head ≡ head
unfolding write_internal put_to_end put_to_tail
write_internal-still ring src sz head tail e = ground (arith, e)

-- What becomes of the ring and of the place to write to in a call to write: nothing, or what
-- `ioc_streamer_write_internal` does.
pub data Moved (c : Content) (st : Streamer) (sg : Signals) (r : Done) : Type 0 where
  stays : r.streamer.head ≡ st.head → r.signals.buf ≡ sg.buf → r.nbytes ≡ 0 → Moved c st sg r
  puts :
      (src : List ℕ)
      → c ≡ bytes_of src
      → stage_number st.step < 3
      → sg.tail < length sg.buf
      → r.streamer.head ≡ (write_internal sg.buf src (length sg.buf) st.head sg.tail).head
      → r.signals.buf ≡ (write_internal sg.buf src (length sg.buf) st.head sg.tail).ring
      → r.nbytes ≡ (write_internal sg.buf src (length sg.buf) st.head sg.tail).nbytes
      → Moved c st sg r

Moved-begun :
    (c : Content) (st : Streamer) (sg : Signals) (select timer state : ℕ) (r : Done)
    → stage_number st.step < 3
    → Moved c
        (record st { select = select; step = transfer_data; mytimer = timer })
        (set_state state sg)
        r
    → Moved c st sg r
Moved-begun c st sg select timer state r h (stays a b d) = stays a b d
Moved-begun c st sg select timer state r h (puts src e less t x y z) = puts src e h t x y z

-- The head that the device shows is the place it writes to, while it shows a transfer, and as long as
-- the transfer has not ended.
pub record Shows (st : Streamer) (sg : Signals) : Type 0 where
  pub running : is_running_or_completed sg.state ≡ true → sg.head ≡ st.head
  pub unended : stage_number st.step ≢ 5 → stage_number st.step ≢ 8 → sg.head ≡ st.head
  pub completed : sg.state ≡ 2 → 3 ≤ stage_number st.step

module _ (os_checksum : List ℕ → ℕ → ℕ) (clock : Clock) where
  device_put-Shows :
      (c : Content) (st : Streamer) (sg : Signals)
      → st.step ≡ transfer_data
      → Shows st sg
      → Shows
          (device_put os_checksum clock c st sg).streamer
          (device_put os_checksum clock c st sg).signals
  unfolding device_put write_stuck put_bytes stage_number
  device_put-Shows (bytes_of src) st sg e h =
      let w = write_internal-still sg.buf src (length sg.buf) st.head sg.tail in
      let a = h.unended in
      let b = h.completed in
      record { running = ground (arith); unended = ground (arith); completed = ground arith }
  device_put-Shows end_of_data st sg e h =
      let a = h.unended in
      record { running = ground (arith); unended = ground (arith); completed = ground arith }
  device_put-Shows negative st sg e h =
      let a = h.unended in
      let b = h.completed in
      record { running = ground (arith); unended = ground (arith); completed = ground arith }

  device_write_data-Shows :
      (c : Content) (interrupt : Bool) (st : Streamer) (sg : Signals)
      → st.step ≡ transfer_data
      → Shows st sg
      → Shows
          (device_write_data os_checksum clock c interrupt st sg).streamer
          (device_write_data os_checksum clock c interrupt st sg).signals
  unfolding device_write_data stage_number
  device_write_data-Shows c interrupt st sg e h =
      let p = device_put-Shows c st sg e h in
      let a = h.unended in
      let b = h.completed in
      let pa = p.unended in
      let pb = p.completed in
      let pr = p.running in
      record { running = ground arith; unended = ground arith; completed = ground arith }

  device_write_step-Shows :
      (s : Stage) (c : Content) (interrupt : Bool) (st : Streamer) (sg : Signals)
      → st.step ≡ s
      → Shows st sg
      → Shows
          (device_write_step os_checksum clock s c interrupt st sg).streamer
          (device_write_step os_checksum clock s c interrupt st sg).signals
  unfolding device_write_step stage_number
  device_write_step-Shows initialized c interrupt st sg e h =
      let head_kept : sg.head ≡ st.head = ground (arith, e, h.unended) in
      let begun = record st {
        select = sg.select;
        step = transfer_data;
        mytimer = clock.get_timer;
      } in
      let shown : Shows begun (set_state stream_running sg) = record {
        running = λ f. head_kept;
        unended = λ f g. head_kept;
        completed = λ f. absurd (omega (arith, f));
      } in
      let a = h.completed in
      elim (Bool-cases (is_running_or_completed sg.cmd)) [
        | inl go ↦
            rw go
              (device_write_data-Shows c interrupt begun (set_state stream_running sg) refl shown)
        | inr stop ↦ rw stop (record {
          running = λ f. head_kept;
          unended = λ f g. head_kept;
          completed = λ f. omega arith;
        })
      ]
  device_write_step-Shows transfer_data c interrupt st sg e h =
      device_write_data-Shows c interrupt st sg e h
  device_write_step-Shows s c interrupt st sg e h =
      let a = h.unended in
      let b = h.completed in
      let d = h.running in
      record {
        running = ground (arith, e);
        unended = ground (arith, e);
        completed = ground (arith, e);
      }

  device_put-Moved :
      (c : Content) (st : Streamer) (sg : Signals)
      → stage_number st.step < 3
      → sg.tail < length sg.buf
      → Moved c st sg (device_put os_checksum clock c st sg)
  unfolding device_put put_bytes write_stuck
  device_put-Moved (bytes_of src) st sg e t =
      let r = write_internal sg.buf src (length sg.buf) st.head sg.tail in
      elim (Bool-cases (r.nbytes == 0)) [
        | inl stuck ↦ rw stuck (stays (ground arith) (ground arith) (ground arith))
        | inr moved ↦ rw moved (puts src refl e t refl refl refl)
      ]
  device_put-Moved end_of_data st sg e t = stays refl refl refl
  device_put-Moved negative st sg e t = stays (ground arith) (ground arith) (ground arith)

  device_write_data-Moved :
      (c : Content) (interrupt : Bool) (st : Streamer) (sg : Signals)
      → stage_number st.step < 3
      → Moved c st sg (device_write_data os_checksum clock c interrupt st sg)
  unfolding device_write_data
  device_write_data-Moved c interrupt st sg e =
      elim (Bool-cases (not (is_running_or_completed sg.cmd) || interrupt)) [
        | inl stop ↦ rw stop (stays refl refl refl)
        | inr go ↦ rw go (elim (Bool-cases (leb (length sg.buf) sg.tail)) [
          | inl stop ↦ rw stop (stays refl refl refl)
          | inr inside ↦ rw inside (device_put-Moved c st sg e (ground arith))
        ])
      ]

  device_write_step-Moved :
      (s : Stage) (c : Content) (interrupt : Bool) (st : Streamer) (sg : Signals)
      → st.step ≡ s
      → Moved c st sg (device_write_step os_checksum clock s c interrupt st sg)
  unfolding device_write_step stage_number
  device_write_step-Moved initialized c interrupt st sg e =
      elim (Bool-cases (is_running_or_completed sg.cmd)) [
        | inl go ↦ rw go (
            Moved-begun c st sg _ _ _ _ (ground (arith, e)) (
              device_write_data-Moved c interrupt
                (record st { select = sg.select; step = transfer_data; mytimer = clock.get_timer })
                (set_state stream_running sg) (omega arith)))
        | inr stop ↦ rw stop (stays refl refl refl)
      ]
  device_write_step-Moved transfer_data c interrupt st sg e =
      device_write_data-Moved c interrupt st sg (ground (arith, e))
  device_write_step-Moved s c interrupt st sg e = stays (ground arith) (ground arith) (ground arith)

  pub device_write-Moved :
      (c : Content) (interrupt : Bool) (st : Streamer) (sg : Signals)
      → Moved c st sg (device_write os_checksum clock c interrupt st sg)
  unfolding device_write device_lost device_write_step
  device_write-Moved c interrupt st sg =
      elim (Bool-cases (not sg.cmd_connected && not (is_idle_set st.step))) [
        | inl lost ↦ rw lost (stays refl refl refl)
        | inr kept ↦ rw kept (device_write_step-Moved st.step c interrupt st sg refl)
      ]

  pub device_write-Shows :
      (c : Content) (interrupt : Bool) (st : Streamer) (sg : Signals)
      → Shows st sg
      → Shows
          (device_write os_checksum clock c interrupt st sg).streamer
          (device_write os_checksum clock c interrupt st sg).signals
  unfolding device_write device_lost device_write_step stage_number
  device_write-Shows c interrupt st sg h =
      elim (Bool-cases (not sg.cmd_connected && not (is_idle_set st.step))) [
        | inl lost ↦ rw lost (record {
          running = λ e. absurd (ground (arith, e));
          unended = λ e f. absurd (f refl);
          completed = λ e. omega arith;
        })
        | inr kept ↦ rw kept (device_write_step-Shows st.step c interrupt st sg refl h)
      ]

  pub device_write-tail :
      (c : Content) (interrupt : Bool) (st : Streamer) (sg : Signals)
      → (device_write os_checksum clock c interrupt st sg).signals.tail ≡ sg.tail
  unfolding device_write device_lost device_write_step device_write_data device_put write_stuck
      put_bytes
  device_write-tail c interrupt st sg = ground arith
