-- ===== src/FlowControl/Counts.antt =====
-- code/ioc_connection_send.c and code/ioc_connection_receive.c: the counts of the flow control are
-- told in 16 or 24 bits, and say how many bytes are on their way.
use iocom.Base.{
  ℕ, ◌+◌, ◌-◌, ◌*◌, ◌/◌, ◌%◌, ◌^◌, ◌<◌, ◌≤◌, ◌≡◌, ◌∙◌, ap, bit_or, Bool, true, false, List,
  if◌then◌else◌, at, arith,
}
use iocom.Message.Numbers.{or_second, or_third}
use iocom.FlowControl.{Flow, modulus, masked_difference, ack_bytes, receive_acknowledge}

-- The difference is exact while it is below the modulus.
pub masked_difference-exact :
    (socket : Bool) (sent acknowledged : ℕ)
    → acknowledged ≤ sent
    → sent - acknowledged < modulus socket
    → masked_difference socket (sent % 2 ^ 32) (acknowledged % modulus socket) ≡ sent - acknowledged
masked_difference-exact true sent acknowledged h less = omega arith
masked_difference-exact false sent acknowledged h less = omega arith

two_bytes : (count : ℕ) → bit_or (count % 256) (count / 2 ^ 8 % 256 * 2 ^ 8) ≡ count % 2 ^ 16
two_bytes count = or_second (count % 256) (count / 2 ^ 8 % 256) (omega arith) ∙ joined
  where
    joined : count % 256 + 256 * (count / 2 ^ 8 % 256) ≡ count % 2 ^ 16
    joined = omega arith

three_bytes :
    (count : ℕ)
    → bit_or (bit_or (count % 256) (count / 2 ^ 8 % 256 * 2 ^ 8)) (count / 2 ^ 16 % 256 * 2 ^ 16)
      ≡ count % 2 ^ 24
three_bytes count =
    ap (λ z. bit_or z (count / 2 ^ 16 % 256 * 2 ^ 16)) (two_bytes count)
    ∙ or_third (count % 2 ^ 16) (count / 2 ^ 16 % 256) (omega arith)
    ∙ joined
  where
    joined : count % 2 ^ 16 + 65536 * (count / 2 ^ 16 % 256) ≡ count % 2 ^ 24
    joined = omega arith

-- What the other end finds in an acknowledgement.
abbrev told : Bool → List ℕ → ℕ
told socket buf =
    if socket
    then bit_or (bit_or (at buf 1) (at buf 2 * 2 ^ 8)) (at buf 3 * 2 ^ 16)
    else bit_or (at buf 1) (at buf 2 * 2 ^ 8)

told_count :
    (socket : Bool) (count : ℕ) → told socket (ack_bytes socket count) ≡ count % modulus socket
unfolding ack_bytes
told_count true count = three_bytes count
told_count false count = two_bytes count

-- An acknowledgement of a count tells its low bits.
pub receive_acknowledge-ack_bytes :
    (f : Flow) (count : ℕ)
    → receive_acknowledge (ack_bytes f.socket count) f
      ≡ record f { processed_bytes = count % modulus f.socket }
unfolding receive_acknowledge
receive_acknowledge-ack_bytes f count =
    ap (λ z. record f { processed_bytes = z }) (told_count f.socket count)
