-- ===== src/FlowControl/Runs.antt =====
-- code/ioc_connection_send.c: a serial connection sends a frame in two pieces and hears of a part.
use iocom.Base.{◌-◌, ◌≤◌, ◌≡◌, refl, sym, subst, length, false, List, [], ◌∷◌, arith}
use iocom.FlowControl.{
  ack_limit, bytes_in_air, success, pending, place_frame, advance_out, write_to_stream, set_limits,
  receive_acknowledge, ack_bytes,
}
use iocom.FlowControl.Line.{
  Line, Steps, places, writes, arrives, hears, start, and_then, new_line, new_flow, write_line,
  hear_line, take_some,
}
use iocom.FlowControl.Bounds.{Steps-bytes_in_air}
use iocom.FlowControl.Pieces.{
  Piece, Writer, Progresses, Holds, busy, write_pieces, unwritten, write_pieces-unwritten,
}

abbrev new_serial : Line
new_serial = new_line false 128

abbrev placed : Line
placed = record new_serial { flow = place_frame (17 ∷ 18 ∷ 19 ∷ []) new_serial.flow }

abbrev part_written : Line
part_written = write_line success 2 placed

abbrev arrived : Line
arrived = record part_written { received = 1 }

abbrev heard : Line
heard = hear_line 1 arrived

heard-Steps : Steps new_serial heard
unfolding new_line new_flow set_limits place_frame write_line write_to_stream take_some bytes_in_air
heard-Steps =
    and_then
      (and_then
        (and_then (and_then start (places new_serial (17 ∷ 18 ∷ 19 ∷ []) refl))
          (writes placed success 2))
        (arrives part_written 1 (omega arith) (omega arith)))
      (hears arrived 1 (omega arith) (omega arith))

heard-in_air : bytes_in_air heard.flow ≡ 1
unfolding new_line new_flow set_limits place_frame write_line write_to_stream take_some hear_line
    receive_acknowledge ack_bytes bytes_in_air advance_out
heard-in_air = refl

Steps-bytes_in_air_example :
    (bytes_in_air heard.flow ≡ heard.sent - heard.told)
    × (heard.sent - heard.received ≤ bytes_in_air heard.flow)
    × (bytes_in_air heard.flow ≤ ack_limit false 128)
Steps-bytes_in_air_example = Steps-bytes_in_air false 128 heard (omega arith) heard-Steps

abbrev two_pieces : List Piece
two_pieces =
    record { status = pending; size = 2 }
    ∷ record { status = success; size = 9 }
    ∷ record { status = success; size = 1 }
    ∷ []

abbrev writer : Writer
writer = record { flow = record new_serial.flow { out = 17 ∷ 18 ∷ 19 ∷ [] }; taken = 5 ∷ [] }

writer-Holds : Holds writer.flow
unfolding new_line new_flow set_limits
writer-Holds = busy (omega arith)

two_pieces-Progresses : Progresses two_pieces
unfolding Progresses
two_pieces-Progresses = (omega arith, (omega arith, (omega arith, tt)))

writer-unwritten : unwritten writer.flow ≡ 17 ∷ 18 ∷ 19 ∷ []
unfolding unwritten new_line new_flow set_limits
writer-unwritten = refl

write_pieces-unwritten_example :
    ((write_pieces two_pieces writer).flow.out ≡ [])
    × ((write_pieces two_pieces writer).taken ≡ 5 ∷ unwritten writer.flow)
write_pieces-unwritten_example =
    write_pieces-unwritten two_pieces writer writer-Holds two_pieces-Progresses
      (subst (λ z. length z ≤ 3) (sym writer-unwritten) (omega arith))
