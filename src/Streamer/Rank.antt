-- ===== src/Streamer/Rank.antt =====
-- code/ioc_streamer.c: how far a stream for writing is from its end.
use iocom.Base.{
  ℕ, ◌-◌, ◌≤◌, ◌≡◌, refl, inl, inr, Bool, Bool-cases, true, not, ◌&&◌, List, if◌then◌else◌, arith,
}
use iocom.Streamer.Machine.{
  Stage, initialized, initialized2, transfer_data, transfer_done, all_completed, failed, failed2,
  failed_and_idle_set, Signals, Streamer, Clock, Content, end_of_data,
}
use iocom.Streamer.Transfer.{is_idle_set, put_bytes}
use iocom.Streamer.Device.{
  device_lost, write_stuck, device_put, device_write_data, device_write_step, device_write,
}
use iocom.Streamer.Controller.{
  controller_lost, finish_data, controller_put, controller_write_data, controller_write_step,
  controller_write,
}
use iocom.Streamer.Calls.{Stream, write_device, write_controller, write_stream}

-- How many calls at most a stream for writing needs to come to its end, when no more bytes are
-- written and no answer is waited for. The steps of streams for reading are far from it.
unfoldable pub device_rank : Stage → ℕ
device_rank initialized = 4
device_rank transfer_data = 3
device_rank transfer_done = 1
device_rank failed = 2
device_rank failed2 = 1
device_rank all_completed = 0
device_rank failed_and_idle_set = 0
device_rank _ = 9

unfoldable pub controller_rank : Stage → ℕ
controller_rank initialized = 4
controller_rank initialized2 = 3
controller_rank transfer_data = 3
controller_rank transfer_done = 1
controller_rank failed = 2
controller_rank failed2 = 1
controller_rank all_completed = 0
controller_rank failed_and_idle_set = 0
controller_rank _ = 9

module _ (os_checksum : List ℕ → ℕ → ℕ) (clock : Clock) where
  -- No call leads out of the steps of a stream for writing.
  device_write_step-rank :
      (s : Stage) (c : Content) (interrupt : Bool) (st : Streamer) (sg : Signals)
      → st.step ≡ s
      → device_rank s ≤ 4
      → device_rank (device_write_step os_checksum clock s c interrupt st sg).streamer.step ≤ 4
  unfolding device_write_step device_write_data device_put write_stuck put_bytes device_rank
  device_write_step-rank initialized2 c interrupt st sg e h = absurd (omega arith)
  device_write_step-rank s c interrupt st sg e h = ground (arith, e)

  controller_write_step-rank :
      (s : Stage) (c : Content) (interrupt : Bool) (st : Streamer) (sg : Signals)
      → st.step ≡ s
      → controller_rank s ≤ 4
      → controller_rank (controller_write_step os_checksum clock s c interrupt st sg).streamer.step
        ≤ 4
  unfolding controller_write_step controller_write_data controller_put finish_data put_bytes
      controller_rank
  controller_write_step-rank s c interrupt st sg e h = ground (arith, e)

  -- Where the clock says that the time is up, a call with no bytes is one step nearer to the end.
  module _ (interrupt : Bool) (late : (timer ms : ℕ) → clock.has_elapsed timer ms ≡ true) where
    pub device_write_step-Nearer :
        (s : Stage) (st : Streamer) (sg : Signals)
        → st.step ≡ s
        → device_rank s ≤ 4
        → device_rank
            (device_write_step os_checksum clock s end_of_data interrupt st sg).streamer.step
          ≤ device_rank s - 1
    unfolding device_write_step device_write_data device_put device_rank
    device_write_step-Nearer s st sg e h = ground (arith, e, late st.mytimer 5000)

    pub controller_write_step-Nearer :
        (s : Stage) (st : Streamer) (sg : Signals)
        → st.step ≡ s
        → controller_rank s ≤ 4
        → controller_rank
            (controller_write_step os_checksum clock s end_of_data interrupt st sg).streamer.step
          ≤ controller_rank s - 1
    unfolding controller_write_step controller_write_data controller_put finish_data controller_rank
    controller_write_step-Nearer s st sg e h = ground (arith, e, late st.mytimer 5000)

pub device_lost-rank :
    (st : Streamer) (sg : Signals)
    → device_rank (device_lost st sg).streamer.step ≤ device_rank st.step
unfolding device_lost device_rank
device_lost-rank st sg = elim (Bool-cases (not sg.cmd_connected && not (is_idle_set st.step))) [
  | inl lost ↦ rw lost (omega arith)
  | inr kept ↦ rw kept (omega arith)
]

pub controller_lost-rank :
    (st : Streamer) (sg : Signals)
    → controller_rank (controller_lost st sg).streamer.step ≤ controller_rank st.step
unfolding controller_lost controller_rank
controller_lost-rank st sg =
    elim (Bool-cases (not sg.state_connected && not (is_idle_set st.step))) [
      | inl lost ↦ rw lost (omega arith)
      | inr kept ↦ rw kept (omega arith)
    ]

-- The same for a stream of either end.
unfoldable pub rank : Stream → ℕ
rank s =
    if s.streamer.is_device then device_rank s.streamer.step else controller_rank s.streamer.step

-- Which end a stream is of.
abbrev is_of_device : Stream → Bool
is_of_device s = s.streamer.is_device

module _ (os_checksum : List ℕ → ℕ → ℕ) (clock : Clock) where
  pub write_device-keeps :
      (c : Content) (interrupt : Bool) (s : Stream)
      → is_of_device (write_device os_checksum clock c interrupt s).stream ≡ is_of_device s
  unfolding write_device device_write device_lost device_write_step device_write_data device_put
      write_stuck put_bytes
  write_device-keeps c interrupt s = ground arith

  pub write_controller-keeps :
      (c : Content) (interrupt : Bool) (s : Stream)
      → is_of_device (write_controller os_checksum clock c interrupt s).stream ≡ is_of_device s
  unfolding write_controller controller_write controller_lost controller_write_step
      controller_write_data controller_put finish_data put_bytes
  write_controller-keeps c interrupt s = ground arith

  write_device-rank :
      (c : Content) (interrupt : Bool) (s : Stream)
      → device_rank s.streamer.step ≤ 4
      → device_rank (write_device os_checksum clock c interrupt s).stream.streamer.step ≤ 4
  unfolding write_device device_write
  write_device-rank c interrupt s h =
      let r = device_lost s.streamer s.block.frd in
      device_write_step-rank os_checksum clock r.streamer.step c interrupt r.streamer r.signals refl
        (omega (arith, h, device_lost-rank s.streamer s.block.frd))

  write_controller-rank :
      (c : Content) (interrupt : Bool) (s : Stream)
      → controller_rank s.streamer.step ≤ 4
      → controller_rank (write_controller os_checksum clock c interrupt s).stream.streamer.step ≤ 4
  unfolding write_controller controller_write
  write_controller-rank c interrupt s h =
      let r = controller_lost s.streamer s.block.tod in
      controller_write_step-rank os_checksum clock r.streamer.step c interrupt r.streamer r.signals
        refl (omega (arith, h, controller_lost-rank s.streamer s.block.tod))

  pub write_stream-rank :
      (c : Content) (interrupt : Bool) (s : Stream)
      → rank s ≤ 4
      → rank (write_stream os_checksum clock c interrupt s).stream ≤ 4
  unfolding write_stream rank
  write_stream-rank c interrupt s h = ground (
    arith,
    h,
    write_device-rank c interrupt s,
    write_controller-rank c interrupt s,
    write_device-keeps c interrupt s,
    write_controller-keeps c interrupt s,
  )
