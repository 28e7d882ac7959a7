-- ===== src/Signal/Runs.antt =====
-- code/ioc_signal.c: values in a memory block of sixteen bytes, on a processor with the highest
-- byte first.
use iocom.Base.{
  ℕ, suc, zero, ◌+◌, ◌<◌, ◌≡◌, refl, true, false, some, List, [], ◌∷◌, map, arith, fill, mem_copy,
  inr, All, zero,
}
use iocom.SourceBuffer.{SourceBuffer}
use iocom.SourceBuffer.Range.{Covers}
use iocom.MemoryBlock.{MemoryBlock, mblk_invalidate}
use iocom.MemoryBlock.Written.{IsCovered}
use iocom.SignalAddr.{Signal}
use iocom.Signal.{
  TypeId, os_boolean, os_short, other_type, Osal, Value, write_value, read_value, move_size, width,
  is_boolean, state_read, byte_ordered_copy, swap_two, with_boolean, bytes_of, high_first, to_type,
}
use iocom.Signal.Ordered.{two_bytes, array_of, byte_ordered_copy-array_of}
use iocom.Signal.Values.{IsValue, IsNumber}
use iocom.Signal.Bits.{AreMasks}
use iocom.Signal.Stored.{HasSize}
use iocom.Signal.Moved.{read_value-write_value, write_value-IsCovered}
use iocom.Signal.Move.{Item, Blocks, is_str, move_write, move_read}
use iocom.Signal.Placed.{IsReady, AreApart}
use iocom.Signal.Several.{AllApart, move_read-move_write}

abbrev pub type_of : ℕ → TypeId
type_of zero = os_boolean
type_of (suc zero) = os_short
type_of (suc (suc t)) = other_type

abbrev pub type_size : ℕ → ℕ
type_size zero = 1
type_size (suc zero) = 2
type_size (suc (suc t)) = 1

abbrev pub big_endian : Osal
big_endian = record {
  type_of = type_of;
  type_size = type_size;
  char_is_signed = true;
  small_endian = false;
  boolean_value = 1;
  connected = 2;
  to_float = λ v. v;
  from_float = λ v. v;
  int_to_str = λ v. [];
  str_to_int = λ s. 0;
}

abbrev pub zeros : List ℕ
zeros = 0 ∷ 0 ∷ 0 ∷ 0 ∷ 0 ∷ 0 ∷ 0 ∷ 0 ∷ 0 ∷ 0 ∷ 0 ∷ 0 ∷ 0 ∷ 0 ∷ 0 ∷ 0 ∷ []

abbrev pub sent : SourceBuffer
sent = record {
  range_set = false;
  changed_start = 0;
  changed_end = 0;
  allocated = true;
  buf = zeros;
  delta = zeros;
  nbytes = 16;
  ndata = 16;
  bidirectional = false;
  used = false;
  make_keyframe = false;
  is_keyframe = false;
  start_addr = 0;
  end_addr = 0;
  bidir_start_addr = 0;
  bidir_end_addr = 0;
  bidir_range_set = false;
}

abbrev pub block : MemoryBlock
block = record {
  buf = zeros;
  static = false;
  sources = record { sbuf = sent; con = 1; remote_mblk_id = 2; connect_up = true } ∷ [];
  targets = [];
}

pub block-IsCovered : IsCovered block
unfolding IsCovered Covers
block-IsCovered = ((λ k h d. absurd (d refl), omega arith), tt)

masks : AreMasks big_endian
masks = record {
  boolean_index = 0;
  connected_index = 1;
  boolean_in = omega arith;
  connected_in = omega arith;
  boolean_bit = refl;
  connected_bit = refl;
  separate = λ e. absurd (omega arith);
}

abbrev pub speed : Signal
speed = record { addr = 3; n = 1; type_id = 1 }

-- -2, as a number of 64 bits.
abbrev minus_two : Value
minus_two = record { state_bits = 2; value = 18446744073709551614 }

-- The bytes stand lowest first, and the state bits tell that the value is not zero.
write_speed :
    (write_value big_endian speed minus_two block).1.buf
    ≡ 0 ∷ 0 ∷ 0 ∷ 3 ∷ 254 ∷ 255 ∷ 0 ∷ 0 ∷ 0 ∷ 0 ∷ 0 ∷ 0 ∷ 0 ∷ 0 ∷ 0 ∷ 0 ∷ []
unfolding write_value move_size is_boolean with_boolean bytes_of width to_type high_first
    byte_ordered_copy swap_two mblk_invalidate mem_copy fill
write_speed = refl

speed-size : HasSize big_endian speed
unfolding HasSize width
speed-size b = refl

speed-IsValue : IsValue big_endian os_short 18446744073709551614
unfolding IsValue IsNumber
speed-IsValue = inr (omega arith, omega arith)

speed_room : 3 + move_size big_endian speed < 16
unfolding move_size is_boolean
speed_room = omega arith

read_value-write_value_example :
    read_value big_endian false speed (write_value big_endian speed minus_two block).1 ≡ record {
      state_bits =
          state_read big_endian false block
            (write_value big_endian speed minus_two block).0.state_bits;
      value = 18446744073709551614;
    }
read_value-write_value_example =
    read_value-write_value big_endian false speed minus_two block masks speed-size (omega arith)
      speed-IsValue speed_room

write_value-IsCovered_example : IsCovered (write_value big_endian speed minus_two block).1
write_value-IsCovered_example =
    write_value-IsCovered big_endian speed minus_two block speed-size block-IsCovered

byte_ordered_copy-array_of_example :
    (byte_ordered_copy false (array_of false 2 (258 ∷ 3 ∷ [])) 2 ≡ array_of true 2 (258 ∷ 3 ∷ []))
    × (byte_ordered_copy false (array_of true 2 (258 ∷ 3 ∷ [])) 2 ≡ array_of false 2 (258 ∷ 3 ∷ []))
byte_ordered_copy-array_of_example = byte_ordered_copy-array_of false 2 (258 ∷ 3 ∷ []) two_bytes

-- A flag in another memory block, and the speed.
abbrev flag : Item
flag = record {
  signal = record { addr = 5; n = 1; type_id = 0 };
  handle = some 1;
  value = record { state_bits = 2; value = 1 };
}

abbrev two_items : List Item
two_items = flag ∷ record { signal = speed; handle = some 0; value = minus_two } ∷ []

abbrev two_blocks : Blocks
two_blocks = some block ∷ some block ∷ []

two_items-apart : AllApart big_endian two_items
unfolding AllApart AreApart
two_items-apart = ((λ e. ground arith, tt), (tt, tt))

two_items-IsReady : All (IsReady big_endian two_blocks) two_items
unfolding HasSize move_size is_boolean is_str IsValue
two_items-IsReady = (
  record {
    h = 1;
    m = block;
    place = record { handle = refl; known = omega arith; block = refl };
    inside = omega arith;
    basic = refl;
    size = λ b. absurd (ground arith);
    bits = omega arith;
    range = omega arith;
  },
  (
    record {
      h = 0;
      m = block;
      place = record { handle = refl; known = omega arith; block = refl };
      inside = omega arith;
      basic = refl;
      size = speed-size;
      bits = omega arith;
      range = speed-IsValue;
    },
    tt,
  ),
)

move_read-move_write_example :
    map
      (λ v. v.value)
      (move_read big_endian true [] two_items (move_write big_endian two_items two_blocks).1)
    ≡ 1 ∷ 18446744073709551614 ∷ []
move_read-move_write_example =
    move_read-move_write big_endian true [] two_blocks two_items masks two_items-apart
      two_items-IsReady
