-- ===== src/Signal/Stored.antt =====
-- code/ioc_signal.c: the bytes that `ioc_move` stores for a value.
use iocom.Base.{
  ℕ, ◌+◌, ◌-◌, ◌<◌, ◌≤◌, ◌≡◌, ◌∙◌, refl, sym, ap, subst, Bool, true, false, ◌&&◌, ◌==◌, ltb, leb,
  if◌then◌else◌, arith, ◌⊎◌, List, [], length, at, set, take, drop, mem_copy, at_ext, at-drop,
  at-take, at-set, at-mem_copy, at-mem_copy_below, length-take, length-drop, length-set,
  length-mem_copy, take_all,
}
use iocom.MemoryBlock.{MemoryBlock, mblk_invalidate}
use iocom.SignalAddr.{Signal}
use iocom.Signal.{
  TypeId, os_boolean, os_char, os_uchar, os_short, os_ushort, os_int, os_uint, os_int64, os_long,
  os_float, os_double, os_str, other_type, Osal, Value, width, to_type, is_boolean, move_size,
  with_boolean, write_value, byte_ordered_copy, bytes_of, low_first, swap_two, swap_four,
  swap_eight,
}
use iocom.Signal.Ordered.{
  IsSize, one_byte, two_bytes, four_bytes, eight_bytes, copy-number, length-low_first,
  length-high_first,
}
use iocom.Signal.Values.{IsValue}

-- The bytes that a copy has stored.
pub drop-mem_copy :
    (dst : List ℕ) (d : ℕ) (src : List ℕ)
    → d + length src ≤ length dst
    → take (length src) (drop d (mem_copy dst d src 0 (length src))) ≡ src
drop-mem_copy dst d src fits = at_ext (take n (drop d new)) src same (λ k k_in.
    let inside : k < n = subst (λ z. k < z) same k_in in
    at-take n (drop d new) k inside
    ∙ at-drop d new k
    ∙ at-mem_copy dst d src 0 n (d + k)
    ∙ here k inside)
  where
    n : ℕ
    n = length src

    new : List ℕ
    new = mem_copy dst d src 0 n

    same : length (take n (drop d new)) ≡ n
    same =
        let a = length-take n (drop d new) in
        let b = length-drop d new in let c = length-mem_copy dst d src 0 n in omega arith

    here :
        (k : ℕ)
        → k < n
        → (if (leb d (d + k) && ltb (d + k) (d + n)) && ltb (d + k) (length dst)
            then at src (0 + (d + k - d))
            else at dst (d + k))
          ≡ at src k
    here k k_in =
        let e : 0 + (d + k - d) ≡ k = omega arith in
        let inside : ((leb d (d + k) && ltb (d + k) (d + n)) && ltb (d + k) (length dst)) ≡ true =
          ground arith in
        rw inside (ap (at src) e)

pub width-IsSize : (t : TypeId) → IsSize (width t)
unfolding width
width-IsSize os_boolean = one_byte
width-IsSize os_char = one_byte
width-IsSize os_uchar = one_byte
width-IsSize os_short = two_bytes
width-IsSize os_ushort = two_bytes
width-IsSize os_int = four_bytes
width-IsSize os_uint = four_bytes
width-IsSize os_int64 = eight_bytes
width-IsSize os_long = eight_bytes
width-IsSize os_float = four_bytes
width-IsSize os_double = eight_bytes
width-IsSize os_str = one_byte
width-IsSize other_type = one_byte

pub length-bytes_of : (small_endian : Bool) (n x : ℕ) → length (bytes_of small_endian n x) ≡ n
unfolding bytes_of
length-bytes_of true n x = length-low_first n x
length-bytes_of false n x = length-high_first n x

-- eosal's size of a type is that of the member of the union.
unfoldable pub HasSize : Osal → Signal → Type 0
HasSize o s =
    is_boolean (o.type_of s.type_id) ≡ false → o.type_size s.type_id ≡ width (o.type_of s.type_id)

-- What `ioc_move` stores behind the state bits.
abbrev pub stored_bytes : Osal → Signal → ℕ → List ℕ
stored_bytes o s v =
    let t = o.type_of s.type_id in
    byte_ordered_copy o.small_endian
      (take (move_size o s) (bytes_of o.small_endian (width t) (to_type o t v))) (move_size o s)

-- They are the bytes of the number, lowest first, on every processor.
pub stored_bytes-low_first :
    (o : Osal) (s : Signal) (v : ℕ)
    → move_size o s ≡ width (o.type_of s.type_id)
    → stored_bytes o s v ≡ low_first (move_size o s) (to_type o (o.type_of s.type_id) v)
stored_bytes-low_first o s v e =
    subst (λ n. byte_ordered_copy o.small_endian (take n bs) n ≡ low_first n x) (sym e)
      (ap (λ z. byte_ordered_copy o.small_endian z (width t))
          (take_all (width t) bs (subst (λ z. z ≤ width t) (sym len) (omega arith)))
        ∙ (copy-number o.small_endian (width t) x (width-IsSize t)).0)
  where
    t : TypeId
    t = o.type_of s.type_id

    x : ℕ
    x = to_type o t v

    bs : List ℕ
    bs = bytes_of o.small_endian (width t) x

    len : length bs ≡ width t
    len = length-bytes_of o.small_endian (width t) x

pub no_size : (o : Osal) (s : Signal) → is_boolean (o.type_of s.type_id) ≡ true → move_size o s ≡ 0
unfolding move_size
no_size o s e = rw e refl

pub whole_size :
    (o : Osal) (s : Signal)
    → is_boolean (o.type_of s.type_id) ≡ false
    → move_size o s ≡ o.type_size s.type_id
unfolding move_size
whole_size o s e = rw e refl

copy-nil : (small_endian : Bool) (n : ℕ) → byte_ordered_copy small_endian [] n ≡ []
unfolding byte_ordered_copy swap_two swap_four swap_eight
copy-nil true n = refl
copy-nil false n = ground arith

none_stored :
    (o : Osal) (s : Signal) (v : ℕ)
    → move_size o s ≡ 0
    → length (stored_bytes o s v) ≡ move_size o s
none_stored o s v e =
    ap
      (λ n.
        (length (
          byte_ordered_copy o.small_endian
            (take n (
              bytes_of o.small_endian (width (o.type_of s.type_id))
                (to_type o (o.type_of s.type_id) v)))
            n)))
      e
    ∙ ap length (copy-nil o.small_endian 0)
    ∙ sym e

-- A boolean is 0 or 1.
pub boolean-small : (o : Osal) (t : TypeId) (v : ℕ) → IsValue o t v → is_boolean t ≡ true → v < 2
unfolding IsValue is_boolean
boolean-small o os_boolean v h b = h
boolean-small o os_char v h b = ground arith
boolean-small o os_uchar v h b = ground arith
boolean-small o os_short v h b = ground arith
boolean-small o os_ushort v h b = ground arith
boolean-small o os_int v h b = ground arith
boolean-small o os_uint v h b = ground arith
boolean-small o os_int64 v h b = ground arith
boolean-small o os_long v h b = ground arith
boolean-small o os_float v h b = ground arith
boolean-small o os_double v h b = ground arith
boolean-small o os_str v h b = ground arith
boolean-small o other_type v h b = ground arith

length-stored_bytes :
    (o : Osal) (s : Signal) (v : ℕ) → HasSize o s → length (stored_bytes o s v) ≡ move_size o s
unfolding HasSize
length-stored_bytes o s v size = go (is_boolean (o.type_of s.type_id)) refl
  where
    t : TypeId
    t = o.type_of s.type_id

    go : (b : Bool) → is_boolean t ≡ b → length (stored_bytes o s v) ≡ move_size o s
    go true e = none_stored o s v (no_size o s e)
    go false e =
        let w = whole_size o s e ∙ size e in
        ap length (stored_bytes-low_first o s v w)
        ∙ length-low_first (move_size o s) (to_type o t v)

-- The bytes of a memory block after a write.
abbrev pub new_bytes : Osal → Signal → Value → List ℕ → List ℕ
new_bytes o s vv buf =
    let src = stored_bytes o s vv.value in
    mem_copy (set buf s.addr (with_boolean o vv.value vv.state_bits)) (s.addr + 1) src 0
      (length src)

pub write_value-new_bytes :
    (o : Osal) (s : Signal) (vv : Value) (m : MemoryBlock)
    → s.addr + move_size o s < length m.buf
    → write_value o s vv m ≡ (
      record vv { state_bits = with_boolean o vv.value vv.state_bits },
      mblk_invalidate s.addr (s.addr + move_size o s) (record m { buf = new_bytes o s vv m.buf }),
    )
unfolding write_value
write_value-new_bytes o s vv m fits =
    let room : leb (length m.buf) (s.addr + move_size o s) ≡ false = ground arith in rw room refl

pub write_value-refused :
    (o : Osal) (s : Signal) (vv : Value) (m : MemoryBlock)
    → leb (length m.buf) (s.addr + move_size o s) ≡ true
    → write_value o s vv m ≡ (vv, m)
unfolding write_value
write_value-refused o s vv m out = rw out refl

pub length-new_bytes :
    (o : Osal) (s : Signal) (vv : Value) (buf : List ℕ) → length (new_bytes o s vv buf) ≡ length buf
length-new_bytes o s vv buf =
    length-mem_copy _ (s.addr + 1) (stored_bytes o s vv.value) 0 _ ∙ length-set buf s.addr _

-- The state bits, the bytes of the signal, and the others.
pub state-new_bytes :
    (o : Osal) (s : Signal) (vv : Value) (buf : List ℕ)
    → s.addr < length buf
    → at (new_bytes o s vv buf) s.addr ≡ with_boolean o vv.value vv.state_bits
state-new_bytes o s vv buf inside =
    at-mem_copy_below _ (s.addr + 1) (stored_bytes o s vv.value) 0 _ s.addr (omega arith)
    ∙ at-set buf s.addr s.addr _
    ∙ (let here : (s.addr == s.addr && ltb s.addr (length buf)) ≡ true = ground arith in
        rw here refl)

pub bytes-new_bytes :
    (o : Osal) (s : Signal) (vv : Value) (buf : List ℕ)
    → HasSize o s
    → s.addr + move_size o s < length buf
    → take (move_size o s) (drop (s.addr + 1) (new_bytes o s vv buf)) ≡ stored_bytes o s vv.value
bytes-new_bytes o s vv buf size fits =
    let n = length-stored_bytes o s vv.value size in
    let len = length-set buf s.addr (with_boolean o vv.value vv.state_bits) in
    ap (λ z. take z (drop (s.addr + 1) (new_bytes o s vv buf))) (sym n)
    ∙ drop-mem_copy (set buf s.addr (with_boolean o vv.value vv.state_bits)) (s.addr + 1)
        (stored_bytes o s vv.value) (omega arith)

pub new_bytes_outside :
    (o : Osal) (s : Signal) (vv : Value) (buf : List ℕ) (k : ℕ)
    → HasSize o s
    → (k < s.addr) ⊎ (s.addr + move_size o s < k)
    → at (new_bytes o s vv buf) k ≡ at buf k
new_bytes_outside o s vv buf k size out =
    let n = length-stored_bytes o s vv.value size in
    let copied =
      at-mem_copy (set buf s.addr (with_boolean o vv.value vv.state_bits)) (s.addr + 1)
        (stored_bytes o s vv.value) 0 (length (stored_bytes o s vv.value)) k in
    let stored = at-set buf s.addr k (with_boolean o vv.value vv.state_bits) in ground arith
