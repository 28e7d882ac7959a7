-- ===== src/Signal/ArrayRuns.antt =====
-- code/ioc_signal.c: arrays, strings and state bits in a memory block of sixteen bytes.
use iocom.Base.{
  ℕ, ◌≡◌, refl, true, false, some, List, [], ◌∷◌, arith, at, set, fill, mem_copy, take,
}
use iocom.MemoryBlock.{MemoryBlock, mblk_invalidate, string_at}
use iocom.SignalAddr.{Signal}
use iocom.Signal.{is_boolean, state_read, with_boolean}
use iocom.Signal.Ordered.{two_bytes, array_of}
use iocom.Signal.Packed.{write_array, read_array, array_end, read_booleans, elements, write_beyond}
use iocom.Signal.ReadBack.{read_array-write_array}
use iocom.Signal.Booleans.{read_array-write_array_booleans}
use iocom.Signal.Text.{write_text, read_text, read_text-write_text}
use iocom.Signal.Move.{set_state_bits}
use iocom.Signal.StateBits.{block_bytes, set_state_bits-at}
use iocom.Signal.Runs.{big_endian, zeros, block, speed}

-- Three numbers of two bytes, written from the second element on.
abbrev table : Signal
table = record { addr = 2; n = 5; type_id = 1 }

abbrev three_numbers : List ℕ
three_numbers = 1 ∷ 0 ∷ 1 ∷ 1 ∷ 0 ∷ 7 ∷ []

read_array-write_array_example :
    read_array big_endian false table 1
      (0 ∷ 0 ∷ 0 ∷ 0 ∷ 0 ∷ 0 ∷ [])
      3
      (write_array big_endian table 1 (array_of false 2 (256 ∷ 257 ∷ 7 ∷ [])) 3 2 block).1
    ≡ (state_read big_endian false block 2, array_of false 2 (256 ∷ 257 ∷ 7 ∷ []))
unfolding array_end is_boolean
read_array-write_array_example =
    read_array-write_array big_endian false table 1 (256 ∷ 257 ∷ 7 ∷ [])
      (0 ∷ 0 ∷ 0 ∷ 0 ∷ 0 ∷ 0 ∷ []) 2 block refl two_bytes (omega arith) (omega arith) refl

-- Beyond the signal no element is stored.
write_array_beyond :
    (write_array big_endian (record table { n = 2 }) 3 three_numbers 1 2 block).1.buf
    ≡ set zeros 2 2
unfolding write_array array_end is_boolean elements write_beyond mblk_invalidate fill
write_array_beyond = refl

abbrev switches : Signal
switches = record { addr = 4; n = 10; type_id = 0 }

abbrev ten : List ℕ
ten = 1 ∷ 0 ∷ 1 ∷ 1 ∷ 0 ∷ 0 ∷ 0 ∷ 1 ∷ 0 ∷ 1 ∷ []

read_array-write_array_booleans_example :
    read_array big_endian true switches 0
      (take 10 zeros)
      10
      (write_array big_endian switches 0 ten 10 2 block).1
    ≡ (state_read big_endian true block (with_boolean big_endian 1 2), ten)
unfolding is_boolean
read_array-write_array_booleans_example =
    read_array-write_array_booleans big_endian true switches ten (take 10 zeros) 2 block refl refl
      (omega arith) (omega arith) (omega arith)
      (
        omega arith,
        (
          omega arith,
          (
            omega arith,
            (
              omega arith,
              (
                omega arith,
                (omega arith, (omega arith, (omega arith, (omega arith, (omega arith, tt))))),
              ),
            ),
          ),
        ),
      )
      refl

-- A single boolean is read with the state bits of its value only.
read_one_boolean :
    read_array big_endian false
      (record switches { n = 1 })
      0
      (9 ∷ [])
      1
      (record block { buf = set zeros 4 7 })
    ≡ (1, 1 ∷ [])
unfolding read_array array_end is_boolean elements read_booleans state_read
read_one_boolean = refl

abbrev name : Signal
name = record { addr = 1; n = 6; type_id = 2 }

-- A block with a longer string in it.
abbrev longer_text : MemoryBlock
longer_text = record block { buf = mem_copy zeros 2 (104 ∷ 101 ∷ 108 ∷ 108 ∷ 111 ∷ []) 0 5 }

read_text-write_text_example :
    string_at 8
      (read_text big_endian false name
        (take 8 zeros)
        (write_text name (104 ∷ 105 ∷ []) 2 longer_text).1).1
    ≡ 104 ∷ 105 ∷ []
unfolding mem_copy fill
read_text-write_text_example =
    read_text-write_text big_endian false name (104 ∷ 105 ∷ []) (take 8 zeros) 2 longer_text
      (omega arith) (omega arith, (omega arith, tt)) (omega arith) (omega arith)

-- A shorter string takes the place of a longer one.
write_text_twice :
    string_at 8
      (read_text big_endian false name
        (take 8 zeros)
        (write_text name
          (97 ∷ 98 ∷ [])
          2
          (write_text name (104 ∷ 101 ∷ 108 ∷ 108 ∷ 111 ∷ []) 2 block).1).1).1
    ≡ 97 ∷ 98 ∷ []
unfolding write_text read_text string_at mblk_invalidate mem_copy fill
write_text_twice = refl

set_state_bits-at_example :
    at (block_bytes (set_state_bits true speed 4 (some (record block { buf = set zeros 3 6 })))) 3
    ≡ 2
set_state_bits-at_example =
    set_state_bits-at true speed 4 (record block { buf = set zeros 3 6 }) 3 (omega arith)
      (omega arith) (omega arith) (omega arith)
