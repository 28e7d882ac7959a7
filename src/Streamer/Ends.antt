-- ===== src/Streamer/Ends.antt =====
-- code/ioc_streamer.c: a transfer comes to an end.
use iocom.Base.{
  ℕ, ◌-◌, ◌≤◌, ◌≡◌, ◌≢◌, refl, inl, inr, Bool, Bool-cases, true, List, [], ◌∷◌, length, arith,
}
use iocom.Streamer.Machine.{Stage, Clock, Content, end_of_data, pending}
use iocom.Streamer.Transfer.{device_status, controller_write_status}
use iocom.Streamer.Device.{device_lost, device_write}
use iocom.Streamer.Controller.{controller_lost, controller_write}
use iocom.Streamer.Calls.{
  Block, Stream, Written, open_stream, write_device, write_controller, write_stream, flush_status,
  flush_stream,
}
use iocom.Streamer.Rank.{
  device_rank, controller_rank, device_write_step-Nearer, controller_write_step-Nearer,
  device_lost-rank, controller_lost-rank, rank, write_device-keeps, write_controller-keeps,
  write_stream-rank,
}

-- The clock says of every timer that the time is up.
abbrev pub IsLate : Clock → Type 0
IsLate clock = (timer ms : ℕ) → clock.has_elapsed timer ms ≡ true

module _ (os_checksum : List ℕ → ℕ → ℕ) (clock : Clock) (interrupt : Bool) (late : IsLate clock)
    (s : Stream) where
  flush_device-Nearer :
      device_rank s.streamer.step ≤ 4
      → device_rank (write_device os_checksum clock end_of_data interrupt s).stream.streamer.step
        ≤ device_rank s.streamer.step - 1
  unfolding write_device device_write
  flush_device-Nearer h =
      let r = device_lost s.streamer s.block.frd in
      let lost = device_lost-rank s.streamer s.block.frd in
      omega (
        arith,
        h,
        lost,
        device_write_step-Nearer os_checksum clock interrupt late r.streamer.step r.streamer
            r.signals refl (omega (arith, h, lost)),
      )

  flush_controller-Nearer :
      controller_rank s.streamer.step ≤ 4
      → controller_rank
          (write_controller os_checksum clock end_of_data interrupt s).stream.streamer.step
        ≤ controller_rank s.streamer.step - 1
  unfolding write_controller controller_write
  flush_controller-Nearer h =
      let r = controller_lost s.streamer s.block.tod in
      let lost = controller_lost-rank s.streamer s.block.tod in
      omega (
        arith,
        h,
        lost,
        controller_write_step-Nearer os_checksum clock interrupt late r.streamer.step r.streamer
            r.signals refl (omega (arith, h, lost)),
      )

  flush_stream-Nearer :
      rank s ≤ 4 → rank (flush_stream os_checksum clock true interrupt s).stream ≤ rank s - 1
  unfolding flush_stream write_stream rank
  flush_stream-Nearer h = ground (
    arith,
    h,
    flush_device-Nearer,
    flush_controller-Nearer,
    write_device-keeps os_checksum clock end_of_data interrupt s,
    write_controller-keeps os_checksum clock end_of_data interrupt s,
  )

  device_ended : (d : Stage) → device_rank d ≡ 0 → flush_status (device_status d) ≢ pending
  unfolding device_rank device_status flush_status
  device_ended d h e = ground (arith, h, e)

  controller_ended :
      (d : Stage) → controller_rank d ≡ 0 → flush_status (controller_write_status d) ≢ pending
  unfolding controller_rank controller_write_status flush_status
  controller_ended d h e = ground (arith, h, e)

  flush_stream-ended :
      rank s ≤ 1 → (flush_stream os_checksum clock true interrupt s).status ≢ pending
  unfolding flush_stream write_stream write_device write_controller rank
  flush_stream-ended h = elim (Bool-cases s.streamer.is_device) [
    | inl device ↦ rw device (device_ended _ (ground (arith, flush_device-Nearer)))
    | inr controller ↦ rw controller (controller_ended _ (ground (arith, flush_controller-Nearer)))
  ]

-- A call to write, at a time, where the other end has left the signals as `block`.
pub record WriteCall : Type 0 where
  pub block : Block
  pub content : Content
  pub interrupt : Bool
  pub clock : Clock

abbrev pub write_calls : (List ℕ → ℕ → ℕ) → List WriteCall → Stream → Stream
write_calls os_checksum [] s = s
write_calls os_checksum (c ∷ cs) s =
    write_calls os_checksum cs
      (write_stream os_checksum c.clock c.content c.interrupt (record s { block = c.block })).stream

-- A call for the final handshake, likewise.
pub record FlushCall : Type 0 where
  pub block : Block
  pub interrupt : Bool
  pub clock : Clock

abbrev pub flush_call : (List ℕ → ℕ → ℕ) → FlushCall → Stream → Written
flush_call os_checksum c s =
    flush_stream os_checksum c.clock true c.interrupt (record s { block = c.block })

abbrev pub flush_calls : (List ℕ → ℕ → ℕ) → List FlushCall → Stream → Stream
flush_calls os_checksum [] s = s
flush_calls os_checksum (c ∷ cs) s = flush_calls os_checksum cs (flush_call os_checksum c s).stream

abbrev pub AllLate : List FlushCall → Type 0
AllLate [] = Unit
AllLate (c ∷ cs) = IsLate c.clock × AllLate cs

-- The signals do not say how far a stream is from its end.
rank-block : (s : Stream) (block : Block) → rank (record s { block = block }) ≡ rank s
unfolding rank
rank-block s block = refl

write_calls-rank :
    (os_checksum : List ℕ → ℕ → ℕ) (cs : List WriteCall) (s : Stream)
    → rank s ≤ 4
    → rank (write_calls os_checksum cs s) ≤ 4
write_calls-rank os_checksum [] s h = h
write_calls-rank os_checksum (c ∷ cs) s h =
    write_calls-rank os_checksum cs
      (write_stream os_checksum c.clock c.content c.interrupt (record s { block = c.block })).stream
      (write_stream-rank os_checksum c.clock c.content c.interrupt (record s { block = c.block })
        (omega (arith, rank-block s c.block)))

flush_calls-Nearer :
    (os_checksum : List ℕ → ℕ → ℕ) (cs : List FlushCall) (s : Stream)
    → AllLate cs
    → rank s ≤ 4
    → rank (flush_calls os_checksum cs s) ≤ rank s - length cs
flush_calls-Nearer os_checksum [] s late h = omega arith
flush_calls-Nearer os_checksum (c ∷ cs) s late h =
    let same = rank-block s c.block in
    let near =
      flush_stream-Nearer os_checksum c.clock c.interrupt late.0 (record s { block = c.block })
        (omega (arith, same)) in
    omega (
      arith,
      near,
      same,
      flush_calls-Nearer os_checksum cs (flush_call os_checksum c s).stream late.1
          (omega (arith, near, same, h)),
    )

open_stream-rank :
    (init : ℕ) (is_device reads writes off : Bool) (select : ℕ) (block : Block)
    → rank (open_stream init is_device reads writes off select block) ≤ 4
unfolding open_stream rank device_rank controller_rank
open_stream-rank init is_device reads writes off select block = ground arith

-- The final handshake of a stream does not wait for ever, whatever the other end makes of the
-- signals before each call: after the stream was opened and any calls to write, if the clock says
-- each time that the time is up, the fourth call of `ioc_streamer_flush` for the final handshake,
-- or a later one, does not return OSAL_PENDING.
pub flush_stream-Ends :
    (os_checksum : List ℕ → ℕ → ℕ) (init : ℕ) (is_device reads writes off : Bool) (select : ℕ)
    (block : Block) (writes_before : List WriteCall) (before : List FlushCall) (last : FlushCall)
    → AllLate before
    → IsLate last.clock
    → 3 ≤ length before
    → (flush_call os_checksum last (
        flush_calls os_checksum before (
          write_calls os_checksum writes_before
            (open_stream init is_device reads writes off select block)))).status
      ≢ pending
flush_stream-Ends os_checksum init is_device reads writes off select block writes_before before last
      all_late late many =
    let s = open_stream init is_device reads writes off select block in
    let h =
      write_calls-rank os_checksum writes_before s
        (open_stream-rank init is_device reads writes off select block) in
    let t = write_calls os_checksum writes_before s in
    let u = flush_calls os_checksum before t in
    flush_stream-ended os_checksum last.clock last.interrupt late (record u { block = last.block })
      (omega (
        arith,
        many,
        h,
        rank-block u last.block,
        flush_calls-Nearer os_checksum before t all_late h,
      ))
