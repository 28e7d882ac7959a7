-- ===== src/Signal/Elements.antt =====
-- code/ioc_signal.c: what `ioc_move_array` reads after it has written.
use iocom.Base.{
  ℕ, ◌+◌, ◌-◌, ◌*◌, ◌<◌, ◌≡◌, ◌∙◌, refl, sym, ap, subst, Bool, true, false, Bool-cases, not, ◌==◌,
  ltb, if◌then◌else◌, arith, ◌⊎◌, inl, inr, List, [], ◌∷◌, length, at, set, mem_copy, at_ext,
  at-set, at-mem_copy, at-mem_copy_below, length-set, length-mem_copy, length-append, take_all,
}
use iocom.MemoryBlock.{MemoryBlock, mblk_invalidate}
use iocom.MemoryBlock.Written.{IsCovered, mblk_invalidate-IsCovered}
use iocom.SignalAddr.{Signal}
use iocom.Signal.{bytes_of}
use iocom.Signal.Ordered.{IsSize, array_of}
use iocom.Signal.Stored.{drop-mem_copy, length-bytes_of}
use iocom.Signal.Packed.{write_elements}

-- A buffer that is stored over whole.
pub mem_copy-whole :
    (dst src : List ℕ) → length dst ≡ length src → mem_copy dst 0 src 0 (length src) ≡ src
mem_copy-whole dst src e =
    sym (
      take_all (length src) (mem_copy dst 0 src 0 (length src))
        (let l = length-mem_copy dst 0 src 0 (length src) in omega arith))
    ∙ drop-mem_copy dst 0 src (omega arith)

pub length-array_of :
    (small_endian : Bool) (size : ℕ) (xs : List ℕ)
    → IsSize size
    → length (array_of small_endian size xs) ≡ length xs * size
unfolding array_of
length-array_of small_endian size [] h = omega arith
length-array_of small_endian size (x ∷ xs) h =
    let rest = length-array_of small_endian size xs h in
    let one = length-bytes_of small_endian size x in
    let both = length-append (bytes_of small_endian size x) (array_of small_endian size xs) in
    (omega arith)

-- The bytes of a memory block after a write of an array.
abbrev pub array_bytes : Signal → ℕ → List ℕ → ℕ → List ℕ → List ℕ
array_bytes s start src state_bits buf =
    mem_copy (set buf s.addr state_bits) (s.addr + 1 + start) src 0 (length src)

pub length-array_bytes :
    (s : Signal) (start : ℕ) (src : List ℕ) (state_bits : ℕ) (buf : List ℕ)
    → length (array_bytes s start src state_bits buf) ≡ length buf
length-array_bytes s start src state_bits buf =
    length-mem_copy (set buf s.addr state_bits) (s.addr + 1 + start) src 0 (length src)
    ∙ length-set buf s.addr state_bits

pub state-array_bytes :
    (s : Signal) (start : ℕ) (src : List ℕ) (state_bits : ℕ) (buf : List ℕ)
    → s.addr < length buf
    → at (array_bytes s start src state_bits buf) s.addr ≡ state_bits
state-array_bytes s start src state_bits buf inside =
    let stored = at-set buf s.addr s.addr state_bits in
    let copied =
      at-mem_copy_below (set buf s.addr state_bits) (s.addr + 1 + start) src 0 (length src) s.addr
        (omega arith) in
    ground arith

array_bytes_outside :
    (s : Signal) (start : ℕ) (src : List ℕ) (state_bits : ℕ) (buf : List ℕ) (k : ℕ)
    → (k < s.addr) ⊎ (s.addr + start + length src < k)
    → at (array_bytes s start src state_bits buf) k ≡ at buf k
array_bytes_outside s start src state_bits buf k out =
    let stored = at-set buf s.addr k state_bits in
    let copied =
      at-mem_copy (set buf s.addr state_bits) (s.addr + 1 + start) src 0 (length src) k in
    ground arith

-- If the state bits are the same, only the elements change.
array_bytes_same :
    (s : Signal) (start : ℕ) (src : List ℕ) (state_bits : ℕ) (buf : List ℕ) (k : ℕ)
    → at buf s.addr ≡ state_bits
    → (k < s.addr + 1 + start) ⊎ (s.addr + start + length src < k)
    → at (array_bytes s start src state_bits buf) k ≡ at buf k
array_bytes_same s start src state_bits buf k same out = elim (Bool-cases (s.addr == k)) [
  | inl here ↦
      let e : s.addr ≡ k = ground arith in
      let stored = at-set buf s.addr k state_bits in
      let copied =
        at-mem_copy (set buf s.addr state_bits) (s.addr + 1 + start) src 0 (length src) k in
      let kept = ap (at buf) e in ground arith
  | inr there ↦
      let stored = at-set buf s.addr k state_bits in
      let copied =
        at-mem_copy (set buf s.addr state_bits) (s.addr + 1 + start) src 0 (length src) k in
      ground arith
]

-- A write of an array to a memory block, whose state bits may change.
pub elements-IsCovered :
    (s : Signal) (start : ℕ) (src : List ℕ) (state_bits : ℕ) (m : MemoryBlock)
    → s.addr + start + length src < length m.buf
    → IsCovered m
    → IsCovered (
        mblk_invalidate s.addr
          (s.addr + length src + start)
          (record m { buf = array_bytes s start src state_bits m.buf }))
elements-IsCovered s start src state_bits m fits c =
    mblk_invalidate-IsCovered m (array_bytes s start src state_bits m.buf) s.addr
      (s.addr + length src + start)
      (record {
        same_length = length-array_bytes s start src state_bits m.buf;
        ordered = omega arith;
        inside = omega arith;
        outside = λ k out.
            array_bytes_outside s start src state_bits m.buf k
              (elim out [ inl before ↦ inl before | inr after ↦ inr (omega arith) ]);
      })
      c

elements-same :
    (s : Signal) (start : ℕ) (src : List ℕ) (state_bits : ℕ) (m : MemoryBlock)
    → s.addr + start + length src < length m.buf
    → at m.buf s.addr ≡ state_bits
    → 0 < length src
    → IsCovered m
    → IsCovered (
        mblk_invalidate
          (s.addr + start + 1)
          (s.addr + start + 1 + length src - 1)
          (record m { buf = array_bytes s start src state_bits m.buf }))
elements-same s start src state_bits m fits same some c =
    mblk_invalidate-IsCovered m (array_bytes s start src state_bits m.buf) (s.addr + start + 1)
      (s.addr + start + 1 + length src - 1)
      (record {
        same_length = length-array_bytes s start src state_bits m.buf;
        ordered = omega arith;
        inside = omega arith;
        outside = λ k out.
            array_bytes_same s start src state_bits m.buf k same
              (elim out [ inl before ↦ inl (omega arith) | inr after ↦ inr (omega arith) ]);
      })
      c

-- Nothing is stored: the bytes are the same.
elements-nil :
    (s : Signal) (start : ℕ) (state_bits : ℕ) (m : MemoryBlock)
    → at m.buf s.addr ≡ state_bits
    → array_bytes s start [] state_bits m.buf ≡ m.buf
elements-nil s start state_bits m same =
    at_ext (array_bytes s start [] state_bits m.buf) m.buf
      (length-array_bytes s start [] state_bits m.buf)
      (λ k k_in.
        array_bytes_same s start [] state_bits m.buf k same
          (elim (Bool-cases (ltb k (s.addr + 1 + start))) [
            | inl before ↦ inl (ground arith)
            | inr after ↦ inr (ground arith)
          ]))

pub write_elements-IsCovered :
    (s : Signal) (src : List ℕ) (start state_bits : ℕ) (m : MemoryBlock)
    → s.addr + start + length src < length m.buf
    → IsCovered m
    → IsCovered (write_elements s src start state_bits m).1
unfolding write_elements
write_elements-IsCovered s src start state_bits m fits c =
    changed (not (at m.buf s.addr == state_bits)) refl
  where
    new : MemoryBlock
    new = record m { buf = array_bytes s start src state_bits m.buf }

    stored :
        (b : Bool) (src : List ℕ)
        → (length src == 0) ≡ b
        → s.addr + start + length src < length m.buf
        → at m.buf s.addr ≡ state_bits
        → IsCovered (
            if b
            then record m { buf = array_bytes s start src state_bits m.buf }
            else mblk_invalidate
                (s.addr + start + 1)
                (s.addr + start + 1 + length src - 1)
                (record m { buf = array_bytes s start src state_bits m.buf }))
    stored true [] e inside same =
        subst (λ z. IsCovered (record m { buf = z })) (sym (elements-nil s start state_bits m same))
          c
    stored true (x ∷ xs) e inside same = absurd (ground arith)
    stored false src e inside same =
        elements-same s start src state_bits m inside same (ground arith) c

    changed :
        (b : Bool)
        → not (at m.buf s.addr == state_bits) ≡ b
        → IsCovered (
            if b
            then mblk_invalidate s.addr (s.addr + length src + start) new
            else if length src == 0
            then new
            else mblk_invalidate (s.addr + start + 1) (s.addr + start + 1 + length src - 1) new)
    changed true e = elements-IsCovered s start src state_bits m fits c
    changed false e = stored (length src == 0) src refl fits (ground arith)
