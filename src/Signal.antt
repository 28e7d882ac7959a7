-- ===== src/Signal.antt =====
-- code/ioc_signal.c and `ioc_byte_ordered_copy` of code/ioc_memory_block.c: values and state bits of
-- signals in a memory block. Addresses are not negative. A number of 64 bits is what its
-- bits are, below 2 ^ 64; so is a floating point number.
pub mod Ordered
pub mod Bits
pub mod Values
pub mod Stored
pub mod Moved
pub mod Packed
pub mod Unpacked
pub mod Beyond
pub mod Elements
pub mod Arrays
pub mod ReadBack
pub mod Booleans
pub mod Move
pub mod Placed
pub mod Several
pub mod StateBits
pub mod Text
mod Runs
mod ArrayRuns
use iocom.Base.{
  ℕ, zero, suc, ◌+◌, ◌-◌, ◌*◌, ◌/◌, ◌%◌, ◌^◌, bit_and, bit_or, min, Bool, true, false, not, ◌&&◌,
  ◌||◌, Option, none, some, List, [], ◌∷◌, ◌++◌, ltb, leb, ◌==◌, if◌then◌else◌, length, set, at,
  take, drop, get_or, mem_copy,
}
use iocom.MemoryBlock.{MemoryBlock, mblk_invalidate, string_at}
use iocom.SignalAddr.{Signal}

-- `osalTypeId`
pub data TypeId : Type 0 where
  os_boolean : TypeId
  os_char : TypeId
  os_uchar : TypeId
  os_short : TypeId
  os_ushort : TypeId
  os_int : TypeId
  os_uint : TypeId
  os_int64 : TypeId
  os_long : TypeId
  os_float : TypeId
  os_double : TypeId
  os_str : TypeId
  other_type : TypeId

-- What eosal and the compiler give: the types by their number and their sizes, whether `char` is
-- signed, the masks OSAL_STATE_BOOLEAN_VALUE and OSAL_STATE_CONNECTED, the conversions between
-- numbers, and whether the processor is OSAL_SMALL_ENDIAN.
pub record Osal : Type 0 where
  pub type_of : ℕ → TypeId
  pub type_size : ℕ → ℕ
  pub char_is_signed : Bool
  pub small_endian : Bool
  pub boolean_value : ℕ
  pub connected : ℕ
  pub to_float : ℕ → ℕ
  pub from_float : ℕ → ℕ
  pub int_to_str : ℕ → List ℕ
  pub str_to_int : List ℕ → ℕ

-- `iocValue`
pub record Value : Type 0 where
  pub state_bits : ℕ
  pub value : ℕ

-- The swaps of `ioc_byte_ordered_copy`: what it stores, from the source's bytes.
unfoldable pub swap_two : List ℕ → List ℕ
swap_two (a ∷ b ∷ p) = b ∷ a ∷ swap_two p
swap_two p = []

unfoldable pub swap_four : List ℕ → List ℕ
swap_four (a ∷ b ∷ c ∷ d ∷ p) = d ∷ c ∷ b ∷ a ∷ swap_four p
swap_four p = []

unfoldable pub swap_eight : List ℕ → List ℕ
swap_eight (a ∷ b ∷ c ∷ d ∷ e ∷ f ∷ g ∷ h ∷ p) = h ∷ g ∷ f ∷ e ∷ d ∷ c ∷ b ∷ a ∷ swap_eight p
swap_eight p = []

unfoldable pub byte_ordered_copy : Bool → List ℕ → ℕ → List ℕ
byte_ordered_copy true p type_sz = p
byte_ordered_copy false p type_sz =
    if type_sz == 2
    then swap_two p
    else if type_sz == 4
    then swap_four p
    else if type_sz == 8
    then swap_eight p
    else p

-- The bytes of a number in memory, lowest first, and the other way round.
unfoldable pub low_first : ℕ → ℕ → List ℕ
low_first zero x = []
low_first (suc n) x = x % 256 ∷ low_first n (x / 256)

unfoldable pub high_first : ℕ → ℕ → List ℕ
high_first zero x = []
high_first (suc n) x = high_first n (x / 256) ++ (x % 256 ∷ [])

unfoldable pub from_low : List ℕ → ℕ
from_low [] = 0
from_low (b ∷ bs) = b + 256 * from_low bs

unfoldable pub from_high : ℕ → List ℕ → ℕ
from_high x [] = x
from_high x (b ∷ bs) = from_high (256 * x + b) bs

unfoldable pub bytes_of : Bool → ℕ → ℕ → List ℕ
bytes_of true n x = low_first n x
bytes_of false n x = high_first n x

unfoldable pub number_of : Bool → List ℕ → ℕ
number_of true bs = from_low bs
number_of false bs = from_high 0 bs

-- The sizes of the members of `iocTypeConvUnion`, by the case that `ioc_move` takes.
unfoldable pub width : TypeId → ℕ
width os_short = 2
width os_ushort = 2
width os_int = 4
width os_uint = 4
width os_int64 = 8
width os_long = 8
width os_float = 4
width os_double = 8
width t = 1

-- tconv.s = (os_short)vv[i].value.l, and so on
unfoldable pub to_type : Osal → TypeId → ℕ → ℕ
to_type o os_short v = v % 2 ^ 16
to_type o os_ushort v = v % 2 ^ 16
to_type o os_int v = v % 2 ^ 32
to_type o os_uint v = v % 2 ^ 32
to_type o os_int64 v = v
to_type o os_long v = v
to_type o os_float v = o.to_float v
to_type o os_double v = v
to_type o t v = v % 2 ^ 8

-- A negative number keeps its sign in 64 bits.
unfoldable pub extend : Bool → ℕ → ℕ → ℕ
extend signed bits x = if signed && leb (2 ^ (bits - 1)) x then x + (2 ^ 64 - 2 ^ bits) else x

-- vv[i].value.l = tconv.s, and so on
unfoldable pub from_type : Osal → TypeId → ℕ → ℕ
from_type o os_uchar x = x
from_type o os_short x = extend true 16 x
from_type o os_ushort x = x
from_type o os_int x = extend true 32 x
from_type o os_uint x = x
from_type o os_int64 x = x
from_type o os_long x = x
from_type o os_float x = o.from_float x
from_type o os_double x = x
from_type o t x = extend o.char_is_signed 8 x

unfoldable pub is_boolean : TypeId → Bool
is_boolean os_boolean = true
is_boolean t = false

-- `type_sz` of `ioc_move`
unfoldable pub move_size : Osal → Signal → ℕ
move_size o s = if is_boolean (o.type_of s.type_id) then 0 else o.type_size s.type_id

-- sb &= ~mask, for a byte
abbrev pub clear_bits : ℕ → ℕ → ℕ
clear_bits sb mask = bit_and sb (255 - mask)

unfoldable pub with_boolean : Osal → ℕ → ℕ → ℕ
with_boolean o v sb = if v == 0 then clear_bits sb o.boolean_value else bit_or sb o.boolean_value

-- The state bits that a reader gets: `check` is that IOC_SIGNAL_NO_TBUF_CHECK is not given.
unfoldable pub state_read : Osal → Bool → MemoryBlock → ℕ → ℕ
state_read o check m sb = if length m.targets == 0 && check then clear_bits sb o.connected else sb

-- The write of one value by `ioc_move`, that is not a string.
unfoldable pub write_value : Osal → Signal → Value → MemoryBlock → Value × MemoryBlock
write_value o s vv m =
    let t = o.type_of s.type_id in
    let type_sz = move_size o s in
    let sb = with_boolean o vv.value vv.state_bits in
    let tconv = bytes_of o.small_endian (width t) (to_type o t vv.value) in
    let src = byte_ordered_copy o.small_endian (take type_sz tconv) type_sz in
    if leb (length m.buf) (s.addr + type_sz) then (vv, m) else (
      record vv { state_bits = sb },
      mblk_invalidate s.addr (s.addr + type_sz)
          (record m { buf = mem_copy (set m.buf s.addr sb) (s.addr + 1) src 0 (length src) }),
    )

-- The value that the bytes of a signal have.
unfoldable pub value_at : Osal → Signal → ℕ → List ℕ → ℕ
value_at o s sb buf =
    let t = o.type_of s.type_id in
    let type_sz = move_size o s in
    let p = take type_sz (drop (s.addr + 1) buf) in
    if is_boolean t
    then (if bit_and sb o.boolean_value == 0 then 0 else 1)
    else from_type o t (number_of o.small_endian (byte_ordered_copy o.small_endian p type_sz))

-- The read of one value, which was cleared.
unfoldable pub read_value : Osal → Bool → Signal → MemoryBlock → Value
read_value o check s m =
    let sb = state_read o check m (at m.buf s.addr) in
    if leb (length m.buf) (s.addr + move_size o s)
    then record { state_bits = 0; value = 0 }
    else record { state_bits = sb; value = value_at o s sb m.buf }

-- `ioc_set_ext`, of an integer type, on the memory block of a handle.
unfoldable pub set_ext : Osal → Signal → ℕ → ℕ → Option MemoryBlock → ℕ × Option MemoryBlock
set_ext o s v state_bits none = (state_bits, none)
set_ext o s v state_bits (some m) =
    let r = write_value o s (record { state_bits = state_bits; value = v }) m in
    (r.0.state_bits, some r.1)

-- `ioc_get_ext`, of an integer type: the state bits and the value.
unfoldable pub get_ext : Osal → Bool → Signal → Option MemoryBlock → Value
get_ext o check s none = record { state_bits = 0; value = 0 }
get_ext o check s (some m) = read_value o check s m
