-- ===== src/Signal/Booleans.antt =====
-- code/ioc_signal.c: packed arrays of booleans, written and read by `ioc_move_array`.
use iocom.Base.{
  ℕ, ◌+◌, ◌*◌, ◌<◌, ◌≤◌, ◌≡◌, ◌∙◌, refl, sym, ap, ap₂, Bool, true, false, ◌==◌, ltb, leb,
  if◌then◌else◌, arith, List, [], length, at, set, take, drop, mem_copy, take_all, length-set,
  length-mem_copy, at-set, at-mem_copy_below, All,
}
use iocom.MemoryBlock.{MemoryBlock, mblk_invalidate}
use iocom.SignalAddr.{Signal}
use iocom.Signal.{Osal, is_boolean, with_boolean, state_read}
use iocom.Signal.Stored.{drop-mem_copy}
use iocom.Signal.Packed.{
  groups, pack_bytes, array_end, write_booleans, write_array, read_booleans, read_array,
  unpack_bytes,
}
use iocom.Signal.Unpacked.{unpack_bytes-pack_bytes}
use iocom.Signal.Elements.{mem_copy-whole}
use iocom.Signal.Arrays.{length-pack_bytes}
use iocom.Signal.ReadBack.{all_elements}

-- The test of the size, for two booleans or more.
array_end_booleans :
    (o : Osal) (s : Signal) (n total : ℕ)
    → is_boolean (o.type_of s.type_id) ≡ true
    → o.type_size s.type_id ≡ 1
    → 1 < n
    → s.addr + groups n < total
    → leb total (array_end o s 0 n) ≡ false
unfolding array_end
array_end_booleans o s n total type size some inside =
    let many : (n == 1) ≡ false = ground arith in
    let room : leb total (s.addr + (0 + groups n) * 1) ≡ false = ground arith in
    rw (type, many, size) room

-- The bytes that two booleans or more leave behind.
packed_bytes :
    (o : Osal) (s : Signal) (xs : List ℕ) (state_bits : ℕ) (m : MemoryBlock)
    → 1 < length xs
    → (write_booleans o s xs (length xs) state_bits m).1.buf
      ≡ mem_copy
          (set m.buf s.addr (with_boolean o (at xs 0) state_bits))
          (s.addr + 1)
          (pack_bytes (groups (length xs)) xs)
          0
          (length (pack_bytes (groups (length xs)) xs))
unfolding write_booleans mblk_invalidate
packed_bytes o s xs state_bits m some =
    let many : ltb 1 (length xs) ≡ true = ground arith in
    ap
      (λ p.
        (mem_copy (set m.buf s.addr (with_boolean o (at xs 0) state_bits)) (s.addr + 1) p 0
          (length p)))
      (ap (λ b. if b then pack_bytes (groups (length xs)) (take (length xs) xs) else []) many
        ∙ ap (pack_bytes (groups (length xs))) (take_all (length xs) xs (omega arith)))

read_packed :
    (o : Osal) (s : Signal) (xs dst : List ℕ) (sb state_bits : ℕ) (m after : MemoryBlock)
    → 1 < length xs
    → s.addr + groups (length xs) < length m.buf
    → All (λ x. x < 2) xs
    → length dst ≡ length xs
    → after.buf
      ≡ mem_copy
          (set m.buf s.addr sb)
          (s.addr + 1)
          (pack_bytes (groups (length xs)) xs)
          0
          (length (pack_bytes (groups (length xs)) xs))
    → read_booleans o s dst (length xs) state_bits after ≡ (state_bits, xs)
unfolding read_booleans
read_packed o s xs dst sb state_bits m after some inside small same e =
    let many : ltb 1 (length xs) ≡ true = ground arith in
    rw many (
      ap (λ b. (state_bits, mem_copy dst 0 b 0 (length b))) unpacked
      ∙ ap (λ z. (state_bits, z)) (mem_copy-whole dst xs same))
  where
    packed : List ℕ
    packed = pack_bytes (groups (length xs)) xs

    len : length packed ≡ groups (length xs)
    len = length-pack_bytes (groups (length xs)) xs

    unpacked :
        unpack_bytes (take (groups (length xs)) (drop (s.addr + 1) after.buf)) (length xs) ≡ xs
    unpacked =
        ap₂ (λ k z. unpack_bytes (take k (drop (s.addr + 1) z)) (length xs)) (sym len) e
        ∙ ap (λ p. unpack_bytes p (length xs))
            (drop-mem_copy (set m.buf s.addr sb) (s.addr + 1) packed
              (let l = length-set m.buf s.addr sb in let k = len in omega arith))
        ∙ unpack_bytes-pack_bytes (groups (length xs)) xs small (omega arith)

-- Reading a memory block that has the packed bytes.
stored_state : (buf : List ℕ) (addr sb : ℕ) → addr < length buf → at (set buf addr sb) addr ≡ sb
stored_state buf addr sb inside = ground (arith, at-set buf addr addr sb)

read_written :
    (o : Osal) (check : Bool) (s : Signal) (xs dst : List ℕ) (sb : ℕ) (m after : MemoryBlock)
    → is_boolean (o.type_of s.type_id) ≡ true
    → o.type_size s.type_id ≡ 1
    → 1 < length xs
    → length xs ≤ s.n
    → s.addr + groups (length xs) < length m.buf
    → All (λ x. x < 2) xs
    → length dst ≡ length xs
    → after.buf
      ≡ mem_copy
          (set m.buf s.addr sb)
          (s.addr + 1)
          (pack_bytes (groups (length xs)) xs)
          0
          (length (pack_bytes (groups (length xs)) xs))
    → state_read o check after sb ≡ state_read o check m sb
    → read_array o check s 0 dst (length xs) after ≡ (state_read o check m sb, xs)
unfolding read_array
read_written o check s xs dst sb m after type size some fits inside small same e targets =
    let packed = pack_bytes (groups (length xs)) xs in
    let len : length after.buf ≡ length m.buf =
      ap length e
      ∙ length-mem_copy (set m.buf s.addr sb) (s.addr + 1) packed 0 (length packed)
      ∙ length-set m.buf s.addr sb in
    let room = array_end_booleans o s (length xs) (length after.buf) type size some (omega arith) in
    let all = all_elements s 0 (length xs) (omega arith) in
    rw (room, type, all)
      (read_packed o s xs dst sb (state_read o check after (at after.buf s.addr)) m after some
          inside small same e
        ∙ ap (λ z. (state_read o check after z, xs))
            (ap (λ z. at z s.addr) e
              ∙ at-mem_copy_below (set m.buf s.addr sb) (s.addr + 1) packed 0 (length packed) s.addr
                  (omega arith)
              ∙ stored_state m.buf s.addr sb (omega arith))
        ∙ ap (λ z. (z, xs)) targets)

same_targets :
    (o : Osal) (check : Bool) (s : Signal) (xs : List ℕ) (n state_bits : ℕ) (m : MemoryBlock)
    (sb : ℕ)
    → state_read o check (write_booleans o s xs n state_bits m).1 sb ≡ state_read o check m sb
unfolding state_read write_booleans mblk_invalidate
same_targets o check s xs n state_bits m sb = refl

-- A packed array of booleans is read back as it was written, from two elements on. For its state
-- bits those with the first boolean are read. This holds for an array that the signal holds whole,
-- with room for it in the memory block, in a buffer of its size.
pub read_array-write_array_booleans :
    (o : Osal) (check : Bool) (s : Signal) (xs dst : List ℕ) (state_bits : ℕ) (m : MemoryBlock)
    → is_boolean (o.type_of s.type_id) ≡ true
    → o.type_size s.type_id ≡ 1
    → 1 < length xs
    → length xs ≤ s.n
    → s.addr + groups (length xs) < length m.buf
    → All (λ x. x < 2) xs
    → length dst ≡ length xs
    → (let w = write_array o s 0 xs (length xs) state_bits m in
        read_array o check s 0 dst (length xs) w.1
        ≡ (state_read o check m (with_boolean o (at xs 0) state_bits), xs))
unfolding write_array
read_array-write_array_booleans o check s xs dst state_bits m type size some fits inside small
      same =
    let room = array_end_booleans o s (length xs) (length m.buf) type size some inside in
    let all = all_elements s 0 (length xs) (omega arith) in
    rw (room, type, all)
      (read_written o check s xs dst (with_boolean o (at xs 0) state_bits) m _ type size some fits
        inside small same (packed_bytes o s xs state_bits m some)
        (same_targets o check s xs (length xs) state_bits m (with_boolean o (at xs 0) state_bits)))
