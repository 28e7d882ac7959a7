-- ===== src/Signal/Text.antt =====
-- code/ioc_signal.c: strings in a memory block, the part of `ioc_move_str` for them.
use iocom.Base.{
  ℕ, zero, suc, ◌+◌, ◌-◌, ◌<◌, ◌≡◌, ◌∙◌, refl, sym, ap, ap₂, subst, min, Bool, true, false, ◌==◌,
  ltb, if◌then◌else◌, arith, List, [], ◌∷◌, ◌++◌, length, at, at-append, set, mem_copy, at-mem_copy,
  length-mem_copy, length-set, All,
}
use iocom.MemoryBlock.{MemoryBlock, mblk_invalidate, string_at}
use iocom.SignalAddr.{Signal}
use iocom.Signal.{Osal, state_read}

-- `str` is the bytes of the string before its '\0', which `os_strlen` counts.
unfoldable pub write_text : Signal → List ℕ → ℕ → MemoryBlock → ℕ × MemoryBlock
write_text s str state_bits m =
    let len = min (length str + 1) s.n in
    if ltb (length m.buf) (s.addr + s.n + 1) then (0, m) else (
      state_bits,
      mblk_invalidate s.addr (s.addr + len) (record m {
        buf = mem_copy (set m.buf s.addr state_bits) (s.addr + 1) (str ++ (0 ∷ [])) 0 len;
      }),
    )

-- `dst` is the caller's buffer, of `str_sz` bytes.
unfoldable pub read_text : Osal → Bool → Signal → List ℕ → MemoryBlock → ℕ × List ℕ
read_text o check s dst m = if ltb (length m.buf) (s.addr + s.n + 1) then (0, set dst 0 0) else (
  state_read o check m (at m.buf s.addr),
  mem_copy (set dst 0 0) 0 m.buf (s.addr + 1) (min (length dst) s.n),
)

-- The string with its '\0'.
at-append_before : (str rest : List ℕ) (k : ℕ) → k < length str → at (str ++ rest) k ≡ at str k
at-append_before str rest k k_in = ground (arith, at-append str rest k)

at_end : (str : List ℕ) → at (str ++ (0 ∷ [])) (length str) ≡ 0
at_end [] = refl
at_end (x ∷ str) = at_end str

-- A string in an array that ends with a '\0'.
string_at-ends :
    (n : ℕ) (p str : List ℕ)
    → All (λ b. 0 < b) str
    → length str < n
    → length str < length p
    → ((k : ℕ) → k < length str → at p k ≡ at str k)
    → at p (length str) ≡ 0
    → string_at n p ≡ str
unfolding string_at
string_at-ends zero p str some less inside same ends = absurd (omega arith)
string_at-ends (suc n) [] str some less inside same ends = absurd (omega arith)
string_at-ends (suc n) (x ∷ p) [] some less inside same ends =
    let e : (x == 0) ≡ true = ground arith in rw e refl
string_at-ends (suc n) (x ∷ p) (y ∷ str) some less inside same ends =
    let first = same 0 (omega arith) in
    let positive = some.0 in
    let e : (x == 0) ≡ false = ground arith in
    let rest =
      string_at-ends n p str some.1 (omega arith) (omega arith)
        (λ k k_in. same (suc k) (omega arith)) ends in
    rw e (ap₂ ◌∷◌ first rest)

text_bytes : Signal → List ℕ → ℕ → List ℕ → List ℕ
text_bytes s str state_bits buf =
    mem_copy (set buf s.addr state_bits) (s.addr + 1) (str ++ (0 ∷ [])) 0 (min (length str + 1) s.n)

write_text-inside :
    (s : Signal) (str : List ℕ) (state_bits : ℕ) (m : MemoryBlock)
    → s.addr + s.n < length m.buf
    → write_text s str state_bits m ≡ (
      state_bits,
      mblk_invalidate s.addr
          (s.addr + min (length str + 1) s.n)
          (record m { buf = text_bytes s str state_bits m.buf }),
    )
unfolding write_text text_bytes
write_text-inside s str state_bits m fits =
    let room : ltb (length m.buf) (s.addr + s.n + 1) ≡ false = ground arith in rw room refl

-- A read of a memory block that has the bytes of a string.
read_text-bytes :
    (o : Osal) (check : Bool) (s : Signal) (str dst : List ℕ) (state_bits : ℕ)
    (m after : MemoryBlock)
    → s.addr + s.n < length m.buf
    → All (λ b. 0 < b) str
    → length str < s.n
    → length str < length dst
    → after.buf ≡ text_bytes s str state_bits m.buf
    → string_at (length dst) (read_text o check s dst after).1 ≡ str
unfolding read_text text_bytes
read_text-bytes o check s str dst state_bits m after fits some short room e = rw inside (
    string_at-ends (length dst) (mem_copy (set dst 0 0) 0 after.buf (s.addr + 1) count) str some
      room (omega (arith, len)) got last)
  where
    count : ℕ
    count = min (length dst) s.n

    len : length (mem_copy (set dst 0 0) 0 after.buf (s.addr + 1) count) ≡ length dst
    len = length-mem_copy (set dst 0 0) 0 after.buf (s.addr + 1) count ∙ length-set dst 0 0

    same : length after.buf ≡ length m.buf
    same =
        ap length e
        ∙ length-mem_copy (set m.buf s.addr state_bits) (s.addr + 1) (str ++ (0 ∷ [])) 0
            (min (length str + 1) s.n)
        ∙ length-set m.buf s.addr state_bits

    inside : ltb (length after.buf) (s.addr + s.n + 1) ≡ false
    inside = let l = same in ground arith

    copied :
        (k : ℕ)
        → k < count
        → at (mem_copy (set dst 0 0) 0 after.buf (s.addr + 1) count) k
          ≡ at after.buf (s.addr + 1 + k)
    copied k k_in =
        let l = length-set dst 0 0 in
        let here : s.addr + 1 + (k - 0) ≡ s.addr + 1 + k = omega arith in
        let c : at (mem_copy (set dst 0 0) 0 after.buf (s.addr + 1) count) k
            ≡ at after.buf (s.addr + 1 + (k - 0)) =
          ground (arith, at-mem_copy (set dst 0 0) 0 after.buf (s.addr + 1) count k) in
        c ∙ ap (at after.buf) here

    stored :
        (k : ℕ)
        → at after.buf k
          ≡ at
              (mem_copy
                (set m.buf s.addr state_bits)
                (s.addr + 1)
                (str ++ (0 ∷ []))
                0
                (min (length str + 1) s.n))
              k
    stored k = ap (λ b. at b k) e

    written :
        (k : ℕ)
        → k < length str + 1
        → at (text_bytes s str state_bits m.buf) (s.addr + 1 + k) ≡ at (str ++ (0 ∷ [])) k
    written k k_in =
        let l = length-set m.buf s.addr state_bits in
        let here : 0 + (s.addr + 1 + k - (s.addr + 1)) ≡ k = omega arith in
        let c : at (text_bytes s str state_bits m.buf) (s.addr + 1 + k)
            ≡ at (str ++ (0 ∷ [])) (0 + (s.addr + 1 + k - (s.addr + 1))) =
          ground (
            arith,
            at-mem_copy (set m.buf s.addr state_bits) (s.addr + 1) (str ++ (0 ∷ [])) 0
                (min (length str + 1) s.n) (s.addr + 1 + k),
          ) in
        c ∙ ap (at (str ++ (0 ∷ []))) here

    got :
        (k : ℕ)
        → k < length str
        → at (mem_copy (set dst 0 0) 0 after.buf (s.addr + 1) count) k ≡ at str k
    got k k_in =
        copied k (omega arith)
        ∙ stored (s.addr + 1 + k)
        ∙ written k (omega arith)
        ∙ at-append_before str (0 ∷ []) k k_in

    last : at (mem_copy (set dst 0 0) 0 after.buf (s.addr + 1) count) (length str) ≡ 0
    last =
        copied (length str) (omega arith)
        ∙ stored (s.addr + 1 + length str)
        ∙ written (length str) (omega arith)
        ∙ at_end str

-- A string is read back as it was written, if it is shorter than the signal and the reader's
-- buffer, whatever the memory block and that buffer held before. This is for a signal inside the
-- memory block, and a string has no '\0' in it.
pub read_text-write_text :
    (o : Osal) (check : Bool) (s : Signal) (str dst : List ℕ) (state_bits : ℕ) (m : MemoryBlock)
    → s.addr + s.n < length m.buf
    → All (λ b. 0 < b) str
    → length str < s.n
    → length str < length dst
    → string_at (length dst) (read_text o check s dst (write_text s str state_bits m).1).1 ≡ str
unfolding mblk_invalidate
read_text-write_text o check s str dst state_bits m fits some short room =
    subst (λ w. string_at (length dst) (read_text o check s dst w.1).1 ≡ str)
      (sym (write_text-inside s str state_bits m fits))
      (read_text-bytes o check s str dst state_bits m _ fits some short room refl)
