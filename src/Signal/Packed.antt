-- ===== src/Signal/Packed.antt =====
-- code/ioc_signal.c: `ioc_move_array`. Arrays are the bytes that the caller has.
use iocom.Base.{
  ℕ, zero, suc, ◌+◌, ◌-◌, ◌*◌, ◌/◌, bit_and, bit_or, Bool, not, List, [], ◌∷◌, ◌++◌, ltb, leb, ◌==◌,
  if◌then◌else◌, length, set, at, take, drop, mem_copy,
}
use iocom.MemoryBlock.{MemoryBlock, mblk_invalidate}
use iocom.SignalAddr.{Signal}
use iocom.Signal.{Osal, byte_ordered_copy, is_boolean, with_boolean, state_read}

-- while (nn > 0 && bit < 256), with `left` bits below 256: the byte.
unfoldable pub pack_byte : ℕ → ℕ → ℕ → List ℕ → ℕ
pack_byte zero bit ubyte b = ubyte
pack_byte (suc left) bit ubyte [] = ubyte
pack_byte (suc left) bit ubyte (x ∷ b) =
    pack_byte left (2 * bit) (if x == 0 then ubyte else bit_or ubyte bit) b

-- while (nn > 0): `groups` bytes.
unfoldable pub pack_bytes : ℕ → List ℕ → List ℕ
pack_bytes zero b = []
pack_bytes (suc groups) b = pack_byte 8 1 0 b ∷ pack_bytes groups (drop 8 b)

-- The bits of a byte, for `n` elements at most.
unfoldable pub unpack_byte : ℕ → ℕ → ℕ → ℕ → List ℕ
unpack_byte zero bit ubyte n = []
unpack_byte (suc left) bit ubyte zero = []
unpack_byte (suc left) bit ubyte (suc n) =
    (if bit_and ubyte bit == 0 then 0 else 1) ∷ unpack_byte left (2 * bit) ubyte n

unfoldable pub unpack_bytes : List ℕ → ℕ → List ℕ
unpack_bytes [] n = []
unpack_bytes (ubyte ∷ p) n = unpack_byte 8 1 ubyte n ++ unpack_bytes p (n - 8)

-- (n + 7) >> 3
abbrev pub groups : ℕ → ℕ
groups n = (n + 7) / 8

-- What is tested against the size of the memory block.
unfoldable pub array_end : Osal → Signal → ℕ → ℕ → ℕ
array_end o s offset n =
    let nn = if is_boolean (o.type_of s.type_id) then (if n == 1 then 0 else groups n) else n in
    s.addr + (offset + nn) * o.type_size s.type_id

-- if (signal->n < n + offset) n = signal->n - offset; and 0 where that is negative: nothing is read
-- then, a boolean is moved as a single one, and other elements are `write_beyond`.
unfoldable pub elements : Signal → ℕ → ℕ → ℕ
elements s offset n = if ltb s.n (n + offset) then s.n - offset else n

-- The write of booleans.
unfoldable pub write_booleans : Osal → Signal → List ℕ → ℕ → ℕ → MemoryBlock → ℕ × MemoryBlock
write_booleans o s array n state_bits m =
    let sb = with_boolean o (at array 0) state_bits in
    let packed = if ltb 1 n then pack_bytes (groups n) (take n array) else [] in
    (
      sb,
      mblk_invalidate s.addr (s.addr + length packed)
          (record m { buf = mem_copy (set m.buf s.addr sb) (s.addr + 1) packed 0 (length packed) }),
    )

-- The write of elements of another type: `src` is what is stored, `start` the bytes before it.
unfoldable pub write_elements : Signal → List ℕ → ℕ → ℕ → MemoryBlock → ℕ × MemoryBlock
write_elements s src start state_bits m =
    let nn = length src in
    let addr = s.addr + start + 1 in
    let new = record m {
      buf = mem_copy (set m.buf s.addr state_bits) (s.addr + 1 + start) src 0 nn;
    } in
    (
      state_bits,
      if not (at m.buf s.addr == state_bits)
          then mblk_invalidate s.addr (s.addr + nn + start) new
          else if nn == 0
          then new
          else mblk_invalidate addr (addr + nn - 1) new,
    )

-- The write of elements at an offset beyond the signal's `n`: `n` gets negative, and no element is
-- copied. `start` is offset * type_sz, and `rest` is nn + offset * type_sz with the negative `nn`, so
-- the second range ends before it starts.
unfoldable pub write_beyond : Signal → ℕ → ℕ → ℕ → MemoryBlock → ℕ × MemoryBlock
write_beyond s start rest state_bits m =
    let new = record m { buf = set m.buf s.addr state_bits } in
    (
      state_bits,
      if not (at m.buf s.addr == state_bits)
          then mblk_invalidate s.addr (s.addr + rest) new
          else mblk_invalidate (s.addr + start + 1) (s.addr + rest) new,
    )

-- `ioc_move_array` with IOC_SIGNAL_WRITE.
unfoldable pub write_array : Osal → Signal → ℕ → List ℕ → ℕ → ℕ → MemoryBlock → ℕ × MemoryBlock
write_array o s offset array n state_bits m =
    let type_sz = o.type_size s.type_id in
    let k = elements s offset n in
    let src = byte_ordered_copy o.small_endian (take (k * type_sz) array) type_sz in
    if leb (length m.buf) (array_end o s offset n)
    then (0, m)
    else if is_boolean (o.type_of s.type_id)
    then write_booleans o s array k state_bits m
    else if ltb s.n offset
    then write_beyond s (offset * type_sz) (s.n * type_sz) state_bits m
    else write_elements s src (offset * type_sz) state_bits m

-- The read of booleans: of one, the state bits.
unfoldable pub read_booleans : Osal → Signal → List ℕ → ℕ → ℕ → MemoryBlock → ℕ × List ℕ
read_booleans o s array n state_bits m =
    let b = unpack_bytes (take (groups n) (drop (s.addr + 1) m.buf)) n in
    let flag = bit_and state_bits o.boolean_value in
    if ltb 1 n
    then (state_bits, mem_copy array 0 b 0 (length b))
    else (flag, set array 0 (if flag == 0 then 0 else 1))

-- `ioc_move_array` without IOC_SIGNAL_WRITE.
unfoldable pub read_array : Osal → Bool → Signal → ℕ → List ℕ → ℕ → MemoryBlock → ℕ × List ℕ
read_array o check s offset array n m =
    let type_sz = o.type_size s.type_id in
    let k = elements s offset n in
    let p = take (k * type_sz) (drop (s.addr + 1 + offset * type_sz) m.buf) in
    let b = byte_ordered_copy o.small_endian p type_sz in
    let sb = state_read o check m (at m.buf s.addr) in
    if leb (length m.buf) (array_end o s offset n)
    then (0, array)
    else if is_boolean (o.type_of s.type_id)
    then read_booleans o s array k sb m
    else (sb, mem_copy array 0 b 0 (length b))
