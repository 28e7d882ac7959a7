-- ===== src/Signal/Arrays.antt =====
-- code/ioc_signal.c: `ioc_move_array`, as a whole.
use iocom.Base.{ℕ, zero, suc, ◌+◌, ◌*◌, ◌<◌, ◌≤◌, ◌≡◌, refl, ap, true, arith, List, length}
use iocom.MemoryBlock.{MemoryBlock}
use iocom.SignalAddr.{Signal}
use iocom.Signal.{Osal, is_boolean}
use iocom.Signal.Ordered.{IsSize, one_byte, two_bytes, four_bytes, eight_bytes}
use iocom.Signal.Packed.{pack_bytes}

pub length-pack_bytes : (n : ℕ) (b : List ℕ) → length (pack_bytes n b) ≡ n
unfolding pack_bytes
length-pack_bytes zero b = refl
length-pack_bytes (suc n) b = ap suc (length-pack_bytes n _)

-- The elements that are moved have room, if those that were asked for have.
pub array_room :
    (size addr offset n k len total : ℕ)
    → IsSize size
    → k ≤ n
    → len ≤ k * size
    → addr + (offset + n) * size < total
    → addr + offset * size + len < total
array_room size addr offset n k len total one_byte h j fits = omega arith
array_room size addr offset n k len total two_bytes h j fits = omega arith
array_room size addr offset n k len total four_bytes h j fits = omega arith
array_room size addr offset n k len total eight_bytes h j fits = omega arith

-- eosal's size of the type: a boolean is one byte.
pub record HasArraySize (o : Osal) (s : Signal) : Type 0 where
  pub size : IsSize (o.type_size s.type_id)
  pub boolean_size : is_boolean (o.type_of s.type_id) ≡ true → o.type_size s.type_id ≡ 1
