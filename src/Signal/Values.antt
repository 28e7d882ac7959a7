-- ===== src/Signal/Values.antt =====
-- code/ioc_signal.c: values and the numbers of a type that `ioc_move` stores for them.
use iocom.Base.{ℕ, ◌-◌, ◌%◌, ◌^◌, ◌<◌, ◌≤◌, ◌≡◌, refl, Bool, true, false, arith, ◌⊎◌, inl, inr}
use iocom.Signal.{
  TypeId, os_boolean, os_char, os_uchar, os_short, os_ushort, os_int, os_uint, os_int64, os_long,
  os_float, os_double, os_str, other_type, Osal, width, to_type, from_type, extend, is_boolean,
}
use iocom.Signal.Ordered.{limit}

-- A value of 64 bits that a signed or unsigned number of some bits has.
unfoldable pub IsNumber : Bool → ℕ → ℕ → Type 0
IsNumber true bits v = (v < 2 ^ (bits - 1)) ⊎ ((2 ^ 64 - 2 ^ (bits - 1) ≤ v) × (v < 2 ^ 64))
IsNumber false bits v = v < 2 ^ bits

-- A value that a signal of a type can have.
unfoldable pub IsValue : Osal → TypeId → ℕ → Type 0
IsValue o os_boolean v = v < 2
IsValue o os_uchar v = IsNumber false 8 v
IsValue o os_short v = IsNumber true 16 v
IsValue o os_ushort v = IsNumber false 16 v
IsValue o os_int v = IsNumber true 32 v
IsValue o os_uint v = IsNumber false 32 v
IsValue o os_int64 v = v < 2 ^ 64
IsValue o os_long v = v < 2 ^ 64
IsValue o os_float v = (o.to_float v < 2 ^ 32) × (o.from_float (o.to_float v) ≡ v)
IsValue o os_double v = v < 2 ^ 64
IsValue o t v = IsNumber o.char_is_signed 8 v

char-kept : (signed : Bool) (v : ℕ) → IsNumber signed 8 v → extend signed 8 (v % 2 ^ 8) ≡ v
unfolding IsNumber extend
char-kept true v (inl h) = ground arith
char-kept true v (inr h) = ground arith
char-kept false v h = ground arith

short-kept : (v : ℕ) → IsNumber true 16 v → extend true 16 (v % 2 ^ 16) ≡ v
unfolding IsNumber extend
short-kept v (inl h) = ground arith
short-kept v (inr h) = ground arith

int-kept : (v : ℕ) → IsNumber true 32 v → extend true 32 (v % 2 ^ 32) ≡ v
unfolding IsNumber extend
int-kept v (inl h) = ground arith
int-kept v (inr h) = ground arith

-- A value of a type is not changed by the conversions to it and back.
pub from_type-to_type :
    (o : Osal) (t : TypeId) (v : ℕ)
    → is_boolean t ≡ false
    → IsValue o t v
    → (from_type o t (to_type o t v) ≡ v) × (to_type o t v < limit (width t))
unfolding from_type to_type IsValue width IsNumber is_boolean
from_type-to_type o os_boolean v b h = absurd (ground arith)
from_type-to_type o os_char v b h = (char-kept o.char_is_signed v h, omega arith)
from_type-to_type o os_uchar v b h = (omega arith, omega arith)
from_type-to_type o os_short v b h = (short-kept v h, omega arith)
from_type-to_type o os_ushort v b h = (omega arith, omega arith)
from_type-to_type o os_int v b h = (int-kept v h, omega arith)
from_type-to_type o os_uint v b h = (omega arith, omega arith)
from_type-to_type o os_int64 v b h = (refl, omega arith)
from_type-to_type o os_long v b h = (refl, omega arith)
from_type-to_type o os_float v b h = (h.1, (let less = h.0 in omega arith))
from_type-to_type o os_double v b h = (refl, omega arith)
from_type-to_type o os_str v b h = (char-kept o.char_is_signed v h, omega arith)
from_type-to_type o other_type v b h = (char-kept o.char_is_signed v h, omega arith)
