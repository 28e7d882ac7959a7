-- ===== src/Signal/ReadBack.antt =====
-- code/ioc_signal.c: what `ioc_move_array` reads after it has written.
use iocom.Base.{
  ℕ, ◌+◌, ◌-◌, ◌*◌, ◌<◌, ◌≤◌, ◌≡◌, ◌∙◌, refl, sym, ap, ap₂, subst, Bool, true, false, not, ◌&&◌,
  ◌==◌, leb, ltb, if◌then◌else◌, arith, List, length, at, set, take, drop, mem_copy, take_all,
  length-set,
}
use iocom.MemoryBlock.{MemoryBlock, mblk_invalidate}
use iocom.SignalAddr.{Signal}
use iocom.Signal.{Osal, is_boolean, state_read, clear_bits, byte_ordered_copy}
use iocom.Signal.Ordered.{IsSize, array_of, byte_ordered_copy-array_of}
use iocom.Signal.Stored.{drop-mem_copy}
use iocom.Signal.Packed.{array_end, elements, write_elements, write_array, read_array}
use iocom.Signal.Elements.{
  mem_copy-whole, length-array_of, array_bytes, length-array_bytes, state-array_bytes,
}
use iocom.Signal.Arrays.{array_room}

pub all_elements : (s : Signal) (offset n : ℕ) → n + offset ≤ s.n → elements s offset n ≡ n
unfolding elements
all_elements s offset n h = ground arith

array_end_numbers :
    (o : Osal) (s : Signal) (offset n : ℕ)
    → is_boolean (o.type_of s.type_id) ≡ false
    → array_end o s offset n ≡ s.addr + (offset + n) * o.type_size s.type_id
unfolding array_end
array_end_numbers o s offset n type = rw type refl

-- Whatever is invalidated, the bytes are stored.
write_elements-bytes :
    (s : Signal) (src : List ℕ) (start state_bits : ℕ) (m : MemoryBlock)
    → (let after = (write_elements s src start state_bits m).1 in
        (after.buf ≡ array_bytes s start src state_bits m.buf) × (after.targets ≡ m.targets))
unfolding write_elements mblk_invalidate
write_elements-bytes s src start state_bits m =
    go (not (at m.buf s.addr == state_bits)) (length src == 0)
  where
    new : MemoryBlock
    new = record m { buf = array_bytes s start src state_bits m.buf }

    go :
        (b c : Bool)
        → (let after =
              if b
              then mblk_invalidate s.addr (s.addr + length src + start) new
              else if c
              then new
              else mblk_invalidate (s.addr + start + 1) (s.addr + start + 1 + length src - 1) new in
            (after.buf ≡ array_bytes s start src state_bits m.buf) × (after.targets ≡ m.targets))
    go true c = (refl, refl)
    go false true = (refl, refl)
    go false false = (refl, refl)

-- The write of numbers, all of which the signal holds.
written_numbers :
    (o : Osal) (s : Signal) (offset : ℕ) (xs : List ℕ) (state_bits : ℕ) (m : MemoryBlock)
    → is_boolean (o.type_of s.type_id) ≡ false
    → IsSize (o.type_size s.type_id)
    → length xs + offset ≤ s.n
    → array_end o s offset (length xs) < length m.buf
    → write_array o s offset
        (array_of o.small_endian (o.type_size s.type_id) xs)
        (length xs)
        state_bits
        m
      ≡ write_elements s
          (array_of true (o.type_size s.type_id) xs)
          (offset * o.type_size s.type_id)
          state_bits
          m
unfolding write_array
written_numbers o s offset xs state_bits m type size fits inside =
    rw (room, type, within)
      (ap (λ z. write_elements s z (offset * sz) state_bits m)
        (ap (λ k. byte_ordered_copy o.small_endian (take (k * sz) array) sz)
            (all_elements s offset (length xs) fits)
          ∙ ap (λ z. byte_ordered_copy o.small_endian z sz)
              (take_all (length xs * sz) array
                (let l = length-array_of o.small_endian sz xs size in omega arith))
          ∙ (byte_ordered_copy-array_of o.small_endian sz xs size).0))
  where
    sz : ℕ
    sz = o.type_size s.type_id

    array : List ℕ
    array = array_of o.small_endian sz xs

    room : leb (length m.buf) (array_end o s offset (length xs)) ≡ false
    room = ground arith

    within : ltb s.n offset ≡ false
    within = ground arith

read_numbers :
    (o : Osal) (check : Bool) (s : Signal) (offset : ℕ) (xs dst : List ℕ) (state_bits : ℕ)
    (m after : MemoryBlock)
    → is_boolean (o.type_of s.type_id) ≡ false
    → IsSize (o.type_size s.type_id)
    → length xs + offset ≤ s.n
    → array_end o s offset (length xs) < length m.buf
    → length dst ≡ length xs * o.type_size s.type_id
    → after.buf
      ≡ array_bytes s
          (offset * o.type_size s.type_id)
          (array_of true (o.type_size s.type_id) xs)
          state_bits
          m.buf
    → read_array o check s offset dst (length xs) after
      ≡ (state_read o check after state_bits, array_of o.small_endian (o.type_size s.type_id) xs)
unfolding read_array
read_numbers o check s offset xs dst state_bits m after type size fits inside same e =
    rw (room, type)
      (ap₂ (λ b z. (state_read o check after b, mem_copy dst 0 z 0 (length z)))
          (ap (λ z. at z s.addr) e
            ∙ state-array_bytes s start src state_bits m.buf (omega (arith, enough)))
          copied
        ∙ ap (λ z. (state_read o check after state_bits, z))
            (mem_copy-whole dst array (same ∙ sym (length-array_of o.small_endian sz xs size))))
  where
    sz : ℕ
    sz = o.type_size s.type_id

    start : ℕ
    start = offset * sz

    src : List ℕ
    src = array_of true sz xs

    array : List ℕ
    array = array_of o.small_endian sz xs

    room : leb (length after.buf) (array_end o s offset (length xs)) ≡ false
    room = let l = ap length e ∙ length-array_bytes s start src state_bits m.buf in ground arith

    enough : s.addr + 1 + start + length src ≤ length m.buf
    enough =
        let h =
          array_room sz s.addr offset (length xs) (length xs) (length src) (length m.buf) size
            (omega arith) (omega (arith, length-array_of true sz xs size))
            (subst (λ z. z < length m.buf) (array_end_numbers o s offset (length xs) type)
              inside) in
        omega arith

    copied :
        byte_ordered_copy o.small_endian
          (take (elements s offset (length xs) * sz) (drop (s.addr + 1 + offset * sz) after.buf))
          sz
        ≡ array
    copied =
        ap₂ (λ k z. byte_ordered_copy o.small_endian (take k (drop (s.addr + 1 + start) z)) sz)
          (ap (λ k. k * sz) (all_elements s offset (length xs) fits)
            ∙ sym (length-array_of true sz xs size))
          e
        ∙ ap (λ z. byte_ordered_copy o.small_endian z sz)
            (drop-mem_copy (set m.buf s.addr state_bits) (s.addr + 1 + start) src
              (let l = length-set m.buf s.addr state_bits in omega (arith, enough)))
        ∙ (byte_ordered_copy-array_of o.small_endian sz xs size).1

-- An array of numbers is read back as it was written, with the state bits as a reader gets them. This
-- holds for numbers of one, two, four or eight bytes, at any offset, if the array fits in the
-- elements of the signal and the signal in the memory block, on processors of either byte order.
pub read_array-write_array :
    (o : Osal) (check : Bool) (s : Signal) (offset : ℕ) (xs dst : List ℕ) (state_bits : ℕ)
    (m : MemoryBlock)
    → is_boolean (o.type_of s.type_id) ≡ false
    → IsSize (o.type_size s.type_id)
    → length xs + offset ≤ s.n
    → array_end o s offset (length xs) < length m.buf
    → length dst ≡ length xs * o.type_size s.type_id
    → (let array = array_of o.small_endian (o.type_size s.type_id) xs in
        let w = write_array o s offset array (length xs) state_bits m in
        read_array o check s offset dst (length xs) w.1 ≡ (state_read o check m state_bits, array))
unfolding state_read
read_array-write_array o check s offset xs dst state_bits m type size fits inside same =
    let w = written_numbers o s offset xs state_bits m type size fits inside in
    let sz = o.type_size s.type_id in
    let stored = write_elements-bytes s (array_of true sz xs) (offset * sz) state_bits m in
    subst
      (λ z.
        (read_array o check s offset dst (length xs) z.1
          ≡ (state_read o check m state_bits, array_of o.small_endian sz xs)))
      (sym w)
      (read_numbers o check s offset xs dst state_bits m _ type size fits inside same stored.0
        ∙ ap
            (λ t. (
              if length t == 0 && check then clear_bits state_bits o.connected else state_bits,
              array_of o.small_endian sz xs,
            ))
            stored.1)
