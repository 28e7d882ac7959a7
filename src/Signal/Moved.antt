-- ===== src/Signal/Moved.antt =====
-- code/ioc_signal.c: what `ioc_move` reads after it has written one value.
use iocom.Base.{
  ℕ, ◌+◌, ◌<◌, ◌≡◌, ◌∙◌, refl, sym, ap, ap₂, subst, Bool, true, false, Bool-cases, ◌&&◌, bit_and,
  ◌==◌, leb, if◌then◌else◌, arith, inl, inr, List, length, at, take, drop, leb_false→lt,
}
use iocom.MemoryBlock.{MemoryBlock, mblk_invalidate}
use iocom.MemoryBlock.Written.{IsCovered, mblk_invalidate-IsCovered}
use iocom.SignalAddr.{Signal}
use iocom.Signal.{
  TypeId, Osal, Value, width, to_type, from_type, is_boolean, move_size, with_boolean, clear_bits,
  state_read, write_value, value_at, read_value, byte_ordered_copy, number_of, low_first,
}
use iocom.Signal.Ordered.{copy-number, number_of-bytes_of}
use iocom.Signal.Values.{IsValue, from_type-to_type}
use iocom.Signal.Bits.{AreMasks, with_boolean-Finds}
use iocom.Signal.Stored.{
  width-IsSize, HasSize, stored_bytes, stored_bytes-low_first, whole_size, boolean-small, new_bytes,
  write_value-new_bytes, write_value-refused, length-new_bytes, state-new_bytes, bytes-new_bytes,
  new_bytes_outside,
}

-- A value that was stored is found by its bytes.
value_at-stored :
    (o : Osal) (s : Signal) (v sb : ℕ) (buf : List ℕ)
    → HasSize o s
    → IsValue o (o.type_of s.type_id) v
    → take (move_size o s) (drop (s.addr + 1) buf) ≡ stored_bytes o s v
    → ((bit_and sb o.boolean_value == 0) ≡ (v == 0))
    → value_at o s sb buf ≡ v
unfolding value_at HasSize
value_at-stored o s v sb buf size range e flag = go (is_boolean t) refl
  where
    t : TypeId
    t = o.type_of s.type_id

    copy : List ℕ → List ℕ
    copy bs = byte_ordered_copy o.small_endian bs (move_size o s)

    number : List ℕ → ℕ
    number bs = from_type o t (number_of o.small_endian (copy bs))

    bit :
        IsValue o t v → is_boolean t ≡ true → (if bit_and sb o.boolean_value == 0 then 0 else 1) ≡ v
    bit h b = let small = boolean-small o t v h b in ground arith

    same : is_boolean t ≡ false → number (take (move_size o s) (drop (s.addr + 1) buf)) ≡ v
    same b =
        let w = whole_size o s b ∙ size b in
        let kept = from_type-to_type o t v b range in
        ap number (e ∙ stored_bytes-low_first o s v w)
        ∙ subst
            (λ n.
              from_type o t (
                number_of o.small_endian
                  (byte_ordered_copy o.small_endian (low_first n (to_type o t v)) n))
              ≡ v)
            (sym w)
            (ap (λ z. from_type o t (number_of o.small_endian z))
                (copy-number o.small_endian (width t) (to_type o t v) (width-IsSize t)).1
              ∙ ap (from_type o t)
                  (number_of-bytes_of o.small_endian (width t) (to_type o t v) kept.1)
              ∙ kept.0)

    go :
        (b : Bool)
        → is_boolean t ≡ b
        → (if b
            then (if bit_and sb o.boolean_value == 0 then 0 else 1)
            else number (take (move_size o s) (drop (s.addr + 1) buf)))
          ≡ v
    go true b = bit range b
    go false b = same b

-- A boolean is found behind the state bits that a reader gets.
state_read-Finds :
    (o : Osal) (check : Bool) (m : MemoryBlock) (v sb : ℕ)
    → AreMasks o
    → sb < 256
    → (bit_and (state_read o check m (with_boolean o v sb)) o.boolean_value == 0) ≡ (v == 0)
unfolding state_read
state_read-Finds o check m v sb masks sb_in = go (length m.targets == 0 && check)
  where
    both :
        ((bit_and (with_boolean o v sb) o.boolean_value == 0) ≡ (v == 0))
        × ((bit_and (clear_bits (with_boolean o v sb) o.connected) o.boolean_value == 0) ≡ (v == 0))
    both = with_boolean-Finds o v sb masks sb_in

    go :
        (b : Bool)
        → (bit_and
              (if b then clear_bits (with_boolean o v sb) o.connected else with_boolean o v sb)
              o.boolean_value
            == 0)
          ≡ (v == 0)
    go true = both.1
    go false = both.0

-- A memory block shows a value: it has its state bits and its bytes.
pub record Shows (o : Osal) (s : Signal) (vv : Value) (m : MemoryBlock) : Type 0 where
  pub inside : s.addr + move_size o s < length m.buf
  pub state : at m.buf s.addr ≡ with_boolean o vv.value vv.state_bits
  pub bytes : take (move_size o s) (drop (s.addr + 1) m.buf) ≡ stored_bytes o s vv.value

pub new_bytes-Shows :
    (o : Osal) (s : Signal) (vv : Value) (m after : MemoryBlock)
    → HasSize o s
    → s.addr + move_size o s < length m.buf
    → after.buf ≡ new_bytes o s vv m.buf
    → Shows o s vv after
new_bytes-Shows o s vv m after size fits e =
    let len = ap length e ∙ length-new_bytes o s vv m.buf in
    record {
      inside = omega arith;
      state = ap (λ b. at b s.addr) e ∙ state-new_bytes o s vv m.buf (omega arith);
      bytes =
          ap (λ b. take (move_size o s) (drop (s.addr + 1) b)) e
          ∙ bytes-new_bytes o s vv m.buf size fits;
    }

-- Reading a memory block that shows a value.
pub read_value-Shows :
    (o : Osal) (check : Bool) (s : Signal) (vv : Value) (m : MemoryBlock)
    → AreMasks o
    → HasSize o s
    → vv.state_bits < 256
    → IsValue o (o.type_of s.type_id) vv.value
    → Shows o s vv m
    → read_value o check s m ≡ record {
      state_bits = state_read o check m (with_boolean o vv.value vv.state_bits);
      value = vv.value;
    }
unfolding read_value
read_value-Shows o check s vv m masks size sb_in range h =
    rw room (ap₂ (λ b v. record { state_bits = b; value = v }) bits value)
  where
    sb : ℕ
    sb = with_boolean o vv.value vv.state_bits

    room : leb (length m.buf) (s.addr + move_size o s) ≡ false
    room = let inside = h.inside in ground arith

    bits : state_read o check m (at m.buf s.addr) ≡ state_read o check m sb
    bits = ap (state_read o check m) h.state

    value : value_at o s (state_read o check m (at m.buf s.addr)) m.buf ≡ vv.value
    value =
        ap (λ b. value_at o s b m.buf) bits
        ∙ value_at-stored o s vv.value (state_read o check m sb) m.buf size range h.bytes
            (state_read-Finds o check m vv.value vv.state_bits masks sb_in)

-- What `ioc_move` has written, it reads back: the value, and the state bits that the write returned,
-- but for the bit that it is connected, which is cleared if the memory block is no target and the
-- test of that is not left out. This holds for every type but strings, for values that the type
-- has, for state bits of a byte and a signal inside the memory block, on processors of either byte
-- order.
pub read_value-write_value :
    (o : Osal) (check : Bool) (s : Signal) (vv : Value) (m : MemoryBlock)
    → AreMasks o
    → HasSize o s
    → vv.state_bits < 256
    → IsValue o (o.type_of s.type_id) vv.value
    → s.addr + move_size o s < length m.buf
    → (let w = write_value o s vv m in
        read_value o check s w.1
        ≡ record { state_bits = state_read o check m w.0.state_bits; value = vv.value })
unfolding mblk_invalidate state_read
read_value-write_value o check s vv m masks size sb_in range fits =
    subst
      (λ w.
        (read_value o check s w.1
          ≡ record { state_bits = state_read o check m w.0.state_bits; value = vv.value }))
      (sym (write_value-new_bytes o s vv m fits))
      (read_value-Shows o check s vv _ masks size sb_in range
        (new_bytes-Shows o s vv m _ size fits refl))

-- `ioc_move` of a value loses nothing: if the changed range of every source buffer covers what the
-- other end lacks, it does so after the write of a signal too, inside the memory block or not.
pub write_value-IsCovered :
    (o : Osal) (s : Signal) (vv : Value) (m : MemoryBlock)
    → HasSize o s
    → IsCovered m
    → IsCovered (write_value o s vv m).1
write_value-IsCovered o s vv m size c =
    elim (Bool-cases (leb (length m.buf) (s.addr + move_size o s))) [
      | inl out ↦ subst (λ w. IsCovered w.1) (sym (write_value-refused o s vv m out)) c
      | inr room ↦
          let free = leb_false→lt _ _ room in
          subst (λ w. IsCovered w.1) (sym (write_value-new_bytes o s vv m (omega arith)))
            (mblk_invalidate-IsCovered m (new_bytes o s vv m.buf) s.addr (s.addr + move_size o s)
              (record {
                same_length = length-new_bytes o s vv m.buf;
                ordered = omega arith;
                inside = omega arith;
                outside = λ k out. new_bytes_outside o s vv m.buf k size out;
              })
              c)
    ]
