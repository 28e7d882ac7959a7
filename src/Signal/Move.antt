-- ===== src/Signal/Move.antt =====
-- code/ioc_signal.c: `ioc_move` of several signals, and `ioc_set_state_bits`.
-- A handle is the index of its memory block, which is `none` when that is gone; a signal without a
-- handle has `none`. The lock is left out: it is held while a handle stays the same.
use iocom.Base.{
  ℕ, bit_and, bit_or, Bool, true, false, not, Option, none, some, List, [], ◌∷◌, ◌==◌,
  if◌then◌else◌, at, get_or, set, map,
}
use iocom.MemoryBlock.{MemoryBlock, bytes, write_mblk, read_mblk}
use iocom.SignalAddr.{Signal}
use iocom.Signal.{Osal, TypeId, Value, os_str, write_value, read_value, clear_bits}
use iocom.Signal.Text.{write_text, read_text}

-- A signal with its handle, and its value.
pub record Item : Type 0 where
  pub signal : Signal
  pub handle : Option ℕ
  pub value : Value

-- The memory blocks by handle.
abbrev pub Blocks : Type 0
Blocks = List (Option MemoryBlock)

unfoldable pub is_str : TypeId → Bool
is_str os_str = true
is_str t = false

-- One signal of the loop of `ioc_move` is written: a number goes to a string as its digits.
unfoldable pub write_signal : Osal → Signal → Value → MemoryBlock → Value × MemoryBlock
write_signal o s vv m =
    let text = write_text s (o.int_to_str vv.value) o.connected m in
    if is_str (o.type_of s.type_id)
    then (record vv { state_bits = text.0 }, text.1)
    else write_value o s vv m

-- `nbuf` is the buffer for a string, as it was before.
unfoldable pub read_signal : Osal → Bool → List ℕ → Signal → MemoryBlock → Value
read_signal o check nbuf s m =
    let text = read_text o check s nbuf m in
    if is_str (o.type_of s.type_id)
    then record { state_bits = text.0; value = o.str_to_int text.1 }
    else read_value o check s m

unfoldable pub write_block :
    Osal → Signal → Value → ℕ → Option MemoryBlock → Blocks → Value × Blocks
write_block o s vv h none mblks = (vv, mblks)
write_block o s vv h (some m) mblks = let r = write_signal o s vv m in (r.0, set mblks h (some r.1))

-- The signal `x` of the loop, before the others, `xs`: `next` is the rest of the loop. A signal
-- without a handle ends it.
unfoldable pub write_item :
    Osal → Item → List Item → (Blocks → List Item × Blocks) → Option ℕ → Blocks → List Item × Blocks
write_item o x xs next none mblks = (x ∷ xs, mblks)
write_item o x xs next (some h) mblks =
    let r = write_block o x.signal x.value h (get_or mblks h none) mblks in
    let rest = next r.1 in (record x { value = r.0 } ∷ rest.0, rest.1)

-- `ioc_move` with IOC_SIGNAL_WRITE.
unfoldable pub move_write : Osal → List Item → Blocks → List Item × Blocks
move_write o [] mblks = ([], mblks)
move_write o (x ∷ xs) mblks = write_item o x xs (move_write o xs) x.handle mblks

abbrev pub no_value : Value
no_value = record { state_bits = 0; value = 0 }

unfoldable pub read_block : Osal → Bool → List ℕ → Signal → Option MemoryBlock → Value
read_block o check nbuf s none = no_value
read_block o check nbuf s (some m) = read_signal o check nbuf s m

unfoldable pub read_item :
    Osal → Bool → List ℕ → Item → List Item → List Value → Option ℕ → Blocks → List Value
read_item o check nbuf x xs rest none mblks = map (λ _. no_value) (x ∷ xs)
read_item o check nbuf x xs rest (some h) mblks =
    read_block o check nbuf x.signal (get_or mblks h none) ∷ rest

-- `ioc_move` without IOC_SIGNAL_WRITE.
unfoldable pub move_read : Osal → Bool → List ℕ → List Item → Blocks → List Value
move_read o check nbuf [] mblks = []
move_read o check nbuf (x ∷ xs) mblks =
    let rest = move_read o check nbuf xs mblks in read_item o check nbuf x xs rest x.handle mblks

-- The byte that `ioc_set_state_bits` writes, and whether it does: `clear` is IOC_SIGNAL_CLEAR_BITS.
unfoldable pub change_bits : Bool → ℕ → ℕ → ℕ × Bool
change_bits true state_bits current =
    (clear_bits current state_bits, not (bit_and current state_bits == 0))
change_bits false state_bits current =
    (bit_or current state_bits, not (state_bits == bit_and state_bits current))

-- `ioc_set_state_bits`, on the memory block of a handle.
unfoldable pub set_state_bits : Bool → Signal → ℕ → Option MemoryBlock → Option MemoryBlock
set_state_bits clear s state_bits none = none
set_state_bits clear s state_bits (some m) =
    let current = at (read_mblk s.addr false 1 m (0 ∷ [])) 0 in
    let r = change_bits clear state_bits current in
    some (if r.1 then write_mblk s.addr (bytes (r.0 ∷ [])) 1 m else m)
