-- ===== src/Message.antt =====
-- code/ioc_connection_send.c and code/ioc_connection_receive.c: the integers, the strings and the
-- header of a frame. What is written at a message position is the list of the bytes written; a
-- message position to read from is the list of the bytes from it to the end of the message.
pub mod Numbers
pub mod Strings
mod Runs
use iocom.Base.{
  ℕ, zero, suc, ◌+◌, ◌-◌, ◌*◌, ◌/◌, ◌%◌, ◌^◌, bit_and, bit_or, Bool, true, false, not, ◌&&◌, ◌||◌,
  Option, none, some, List, [], ◌∷◌, ◌++◌, ltb, leb, ◌==◌, if◌then◌else◌, length, drop, set,
  mem_copy, Run, done, fault, ◌>>=◌,
}

-- `*p`, through a pointer that may be OS_NULL.
unfoldable pub deref : Option ℕ → Run ℕ
deref none = fault
deref (some x) = done x

-- What `ioc_msg_set_uint` writes: the bytes at the position, and the two bytes of flags.
pub record Stored : Type 0 where
  pub bytes : List ℕ
  pub flags : ℕ
  pub flags4 : Option ℕ

-- `ioc_msg_set_uint`
unfoldable pub set_uint : ℕ → ℕ → ℕ → Option ℕ → ℕ → Run Stored
set_uint i flags two_bytes_flag flags4 four_bytes_flag =
    if i / 256 == 0
    then done (record { bytes = i % 256 ∷ []; flags = flags; flags4 = flags4 })
    else if i / 256 / 256 == 0
    then done (record {
      bytes = i % 256 ∷ i / 256 % 256 ∷ [];
      flags = bit_or flags two_bytes_flag;
      flags4 = flags4;
    })
    else do
      f ← deref flags4
      done (record {
        bytes = i % 256 ∷ i / 256 % 256 ∷ i / 256 / 256 % 256 ∷ i / 256 / 256 / 256 % 256 ∷ [];
        flags = flags;
        flags4 = some (bit_or f four_bytes_flag);
      })

-- `*(q++)`: the byte and the position after it.
pub next : List ℕ → Run (ℕ × List ℕ)
next [] = fault
next (x ∷ p) = done (x, p)

-- `ioc_msg_get_uint`
pub get_uint : List ℕ → Bool → Bool → Run (ℕ × List ℕ)
get_uint p two_bytes four_bytes = do
  (x, p) ← next p
  if two_bytes || four_bytes
      then (do
        (y, p) ← next p
        if four_bytes
            then (do
              (z, p) ← next p
              (w, p) ← next p
              done (bit_or (bit_or (bit_or x (y * 2 ^ 8)) (z * 2 ^ 16)) (w * 2 ^ 24 % 2 ^ 32), p))
            else done (bit_or x (y * 2 ^ 8), p))
      else done (x, p)

-- `ioc_msg_set_ushort`: the bytes, and the return value.
pub set_ushort : ℕ → List ℕ × Bool
set_ushort i = if ltb i 256 then (i % 256 ∷ [], false) else (i % 256 ∷ i / 256 % 256 ∷ [], true)

-- `ioc_msg_get_ushort`
pub get_ushort : List ℕ → Bool → Run (ℕ × List ℕ)
get_ushort p two_bytes = do
  (x, p) ← next p
  if two_bytes then (do (y, p) ← next p; done (bit_or x (y * 2 ^ 8 % 2 ^ 16), p)) else done (x, p)

-- `ioc_msg_setstr`, for the bytes of the string up to its '\0'. The length is cut to a byte, the
-- string is not.
pub setstr : List ℕ → List ℕ
setstr str = length str % 256 ∷ str

-- `ioc_msg_getstr`: whether it succeeds, the string buffer, and the position. The `str_sz` bytes
-- of the buffer are `str`.
pub getstr : List ℕ → List ℕ → Run (Bool × List ℕ × List ℕ)
getstr str p = do
  (len, p) ← next p
  if leb (length str) len
      then done (false, str, p)
      else if ltb (length p) len
      then fault
      else done (true, set (mem_copy str 0 p 0 len) len 0, drop len p)
