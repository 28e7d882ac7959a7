-- ===== src/Streamer/Progress.antt =====
-- code/ioc_streamer.c: the steps of a transfer go forward only.
use iocom.Base.{
  ℕ, ◌≤◌, ◌≡◌, ◌∙◌, refl, inl, inr, Bool, Bool-cases, not, ◌&&◌, Option, none, some, List, arith,
}
use iocom.Streamer.Machine.{
  Stage, initialized, initialized2, transfer_data, stage_number, Signals, Streamer, Clock, Content,
}
use iocom.Streamer.Transfer.{is_idle_set, put_bytes, get_bytes, Read}
use iocom.Streamer.Controller.{
  controller_lost, finish_data, controller_put, controller_write_data, controller_write_step,
  controller_write, controller_got, controller_read_data, controller_read_step, controller_read,
}
use iocom.Streamer.Device.{
  device_lost, write_stuck, device_put, device_write_data, device_write_step, device_write,
  device_got, device_read_data, device_read_step, device_read,
}

stage_number-bound : (s : Stage) → stage_number s ≤ 8
unfolding stage_number
stage_number-bound s = ground arith

-- A lost connection ends a transfer, and otherwise the step is as it was.
device_lost-Advances :
    (st : Streamer) (sg : Signals)
    → stage_number st.step ≤ stage_number (device_lost st sg).streamer.step
unfolding device_lost stage_number
device_lost-Advances st sg = elim (Bool-cases (not sg.cmd_connected && not (is_idle_set st.step))) [
  | inl lost ↦ rw lost (stage_number-bound st.step)
  | inr kept ↦ rw kept (omega arith)
]

controller_lost-Advances :
    (st : Streamer) (sg : Signals)
    → stage_number st.step ≤ stage_number (controller_lost st sg).streamer.step
unfolding controller_lost stage_number
controller_lost-Advances st sg =
    elim (Bool-cases (not sg.state_connected && not (is_idle_set st.step))) [
      | inl lost ↦ rw lost (stage_number-bound st.step)
      | inr kept ↦ rw kept (omega arith)
    ]

module _ (os_checksum : List ℕ → ℕ → ℕ) (clock : Clock) where
  device_put-Advances :
      (c : Content) (st : Streamer) (sg : Signals)
      → st.step ≡ transfer_data
      → 2 ≤ stage_number (device_put os_checksum clock c st sg).streamer.step
  unfolding device_put write_stuck put_bytes stage_number
  device_put-Advances c st sg e = ground (arith, e)

  device_write_data-Advances :
      (c : Content) (interrupt : Bool) (st : Streamer) (sg : Signals)
      → st.step ≡ transfer_data
      → 2 ≤ stage_number (device_write_data os_checksum clock c interrupt st sg).streamer.step
  unfolding device_write_data stage_number
  device_write_data-Advances c interrupt st sg e = ground (arith, device_put-Advances c st sg e)

  device_write_step-Advances :
      (s : Stage) (c : Content) (interrupt : Bool) (st : Streamer) (sg : Signals)
      → st.step ≡ s
      → stage_number s
        ≤ stage_number (device_write_step os_checksum clock s c interrupt st sg).streamer.step
  unfolding device_write_step stage_number
  device_write_step-Advances initialized c interrupt st sg e = omega arith
  device_write_step-Advances transfer_data c interrupt st sg e =
      device_write_data-Advances c interrupt st sg e
  device_write_step-Advances s c interrupt st sg e = ground (arith, e)

  pub device_write-Advances :
      (c : Content) (interrupt : Bool) (st : Streamer) (sg : Signals)
      → stage_number st.step
        ≤ stage_number (device_write os_checksum clock c interrupt st sg).streamer.step
  unfolding device_write
  device_write-Advances c interrupt st sg =
      let r = device_lost st sg in
      omega (
        arith,
        device_lost-Advances st sg,
        device_write_step-Advances r.streamer.step c interrupt r.streamer r.signals refl,
      )

device_got-Advances :
    (clock : Clock) (b : Option (List ℕ)) (r : Read)
    → r.streamer.step ≡ transfer_data
    → 2 ≤ stage_number (device_got clock b r).streamer.step
unfolding device_got stage_number
device_got-Advances clock none r e = omega arith
device_got-Advances clock (some bytes) r e = ground (arith, e)

get_bytes-step :
    (n : ℕ) (peek : Bool) (st : Streamer) (sg : Signals)
    → (get_bytes n peek st sg).streamer.step ≡ st.step
unfolding get_bytes
get_bytes-step n peek st sg = ground arith

module _ (clock : Clock) (n : ℕ) (peek interrupt : Bool) where
  device_read_data-Advances :
      (st : Streamer) (sg : Signals)
      → st.step ≡ transfer_data
      → 2 ≤ stage_number (device_read_data clock n peek interrupt st sg).streamer.step
  unfolding device_read_data stage_number
  device_read_data-Advances st sg e =
      let r = get_bytes n peek st sg in
      ground (arith, device_got-Advances clock r.stored r (get_bytes-step n peek st sg ∙ e))

  device_read_step-Advances :
      (s : Stage) (st : Streamer) (sg : Signals)
      → st.step ≡ s
      → stage_number s
        ≤ stage_number (device_read_step s clock n peek interrupt st sg).streamer.step
  unfolding device_read_step stage_number
  device_read_step-Advances initialized st sg e = omega arith
  device_read_step-Advances transfer_data st sg e = device_read_data-Advances st sg e
  device_read_step-Advances s st sg e = ground (arith, e)

  pub device_read-Advances :
      (st : Streamer) (sg : Signals)
      → stage_number st.step ≤ stage_number (device_read clock n peek interrupt st sg).streamer.step
  unfolding device_read
  device_read-Advances st sg =
      let r = device_lost st sg in
      omega (
        arith,
        device_lost-Advances st sg,
        device_read_step-Advances r.streamer.step r.streamer r.signals refl,
      )

module _ (os_checksum : List ℕ → ℕ → ℕ) (clock : Clock) where
  controller_put-Advances :
      (c : Content) (st : Streamer) (sg : Signals)
      → st.step ≡ transfer_data
      → 2 ≤ stage_number (controller_put os_checksum clock c st sg).streamer.step
  unfolding controller_put finish_data put_bytes stage_number
  controller_put-Advances c st sg e = ground (arith, e)

  controller_write_data-Advances :
      (c : Content) (interrupt : Bool) (st : Streamer) (sg : Signals)
      → st.step ≡ transfer_data
      → 2 ≤ stage_number (controller_write_data os_checksum clock c interrupt st sg).streamer.step
  unfolding controller_write_data stage_number
  controller_write_data-Advances c interrupt st sg e =
      ground (arith, controller_put-Advances c st sg e)

  controller_write_step-Advances :
      (s : Stage) (c : Content) (interrupt : Bool) (st : Streamer) (sg : Signals)
      → st.step ≡ s
      → stage_number s
        ≤ stage_number (controller_write_step os_checksum clock s c interrupt st sg).streamer.step
  unfolding controller_write_step stage_number
  controller_write_step-Advances initialized2 c interrupt st sg e = ground (
    arith,
    e,
    controller_write_data-Advances c interrupt (record st { step = transfer_data }) sg refl,
  )
  controller_write_step-Advances transfer_data c interrupt st sg e =
      controller_write_data-Advances c interrupt st sg e
  controller_write_step-Advances s c interrupt st sg e = ground (arith, e)

  pub controller_write-Advances :
      (c : Content) (interrupt : Bool) (st : Streamer) (sg : Signals)
      → stage_number st.step
        ≤ stage_number (controller_write os_checksum clock c interrupt st sg).streamer.step
  unfolding controller_write
  controller_write-Advances c interrupt st sg =
      let r = controller_lost st sg in
      omega (
        arith,
        controller_lost-Advances st sg,
        controller_write_step-Advances r.streamer.step c interrupt r.streamer r.signals refl,
      )

controller_got-Advances :
    (clock : Clock) (b : Option (List ℕ)) (r : Read)
    → r.streamer.step ≡ transfer_data
    → 2 ≤ stage_number (controller_got clock b r).streamer.step
unfolding controller_got stage_number
controller_got-Advances clock none r e = omega arith
controller_got-Advances clock (some bytes) r e = ground (arith, e)

module _ (clock : Clock) (n : ℕ) (peek interrupt : Bool) where
  controller_read_data-Advances :
      (st : Streamer) (sg : Signals)
      → st.step ≡ transfer_data
      → 2 ≤ stage_number (controller_read_data clock n peek interrupt st sg).streamer.step
  unfolding controller_read_data stage_number
  controller_read_data-Advances st sg e =
      let r = get_bytes n peek st sg in
      ground (arith, controller_got-Advances clock r.stored r (get_bytes-step n peek st sg ∙ e))

  controller_read_step-Advances :
      (s : Stage) (st : Streamer) (sg : Signals)
      → st.step ≡ s
      → stage_number s
        ≤ stage_number (controller_read_step s clock n peek interrupt st sg).streamer.step
  unfolding controller_read_step stage_number
  controller_read_step-Advances transfer_data st sg e = controller_read_data-Advances st sg e
  controller_read_step-Advances s st sg e = ground (arith, e)

  pub controller_read-Advances :
      (st : Streamer) (sg : Signals)
      → stage_number st.step
        ≤ stage_number (controller_read clock n peek interrupt st sg).streamer.step
  unfolding controller_read
  controller_read-Advances st sg =
      let r = controller_lost st sg in
      omega (
        arith,
        controller_lost-Advances st sg,
        controller_read_step-Advances r.streamer.step r.streamer r.signals refl,
      )
