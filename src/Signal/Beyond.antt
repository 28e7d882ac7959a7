-- ===== src/Signal/Beyond.antt =====
-- code/ioc_signal.c: `ioc_move_array` at an offset beyond the signal.
use iocom.Base.{
  ℕ, ◌+◌, ◌<◌, ◌≡◌, sym, subst, Bool-cases, not, ◌==◌, inl, inr, arith, List, length, at, set,
  at_ext, at-set, length-set,
}
use iocom.MemoryBlock.{MemoryBlock, mblk_invalidate}
use iocom.MemoryBlock.Written.{IsCovered, mblk_invalidate-IsCovered, mblk_invalidate-same}
use iocom.SignalAddr.{Signal}
use iocom.Signal.Packed.{write_beyond}

set-same : (buf : List ℕ) (i x : ℕ) → at buf i ≡ x → set buf i x ≡ buf
set-same buf i x e =
    at_ext (set buf i x) buf (length-set buf i x)
      (λ k k_in. let a = at-set buf i k x in ground (arith, e, a))

-- The state bits are covered, and no other byte is stored.
pub write_beyond-IsCovered :
    (s : Signal) (start rest state_bits : ℕ) (m : MemoryBlock)
    → s.addr + rest < length m.buf
    → IsCovered m
    → IsCovered (write_beyond s start rest state_bits m).1
unfolding write_beyond
write_beyond-IsCovered s start rest state_bits m fits c =
    elim (Bool-cases (not (at m.buf s.addr == state_bits))) [
      | inl changed ↦ rw changed (
          mblk_invalidate-IsCovered m (set m.buf s.addr state_bits) s.addr (s.addr + rest)
            (record {
              same_length = length-set m.buf s.addr state_bits;
              ordered = omega arith;
              inside = fits;
              outside = λ k out. (let a = at-set m.buf s.addr k state_bits in ground arith);
            })
            c)
      | inr same ↦ rw same (
          subst
            (λ z.
              IsCovered
                (mblk_invalidate (s.addr + start + 1) (s.addr + rest) (record m { buf = z })))
            (sym (set-same m.buf s.addr state_bits (ground arith)))
            (mblk_invalidate-same m (s.addr + start + 1) (s.addr + rest) c))
    ]
