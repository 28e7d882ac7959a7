-- ===== src/Compress/RoundTrip.antt =====
-- code/ioc_compress.c: what `ioc_uncompress` makes of what `ioc_compress` stored.
use iocom.Base.{
  ℕ, ◌+◌, ◌-◌, ◌≤◌, ◌<◌, Bool, true, none, some, List, ◌≡◌, refl, ltb, length, take, drop, All, inl,
  inr, Bool-cases, length-drop, subst, length-take_fits, done, Returns, returns, Returns-bind,
  Returns-value, ltb→lt, ltb_false→le, arith,
}
use iocom.Compress.{Compressed, compress, compress_result, uncompress, apply, unpack_loop, Packed}
use iocom.Compress.Format.{IsByte, Packs, unpacks, unpack_loop-Packs}
use iocom.Compress.Packing.{IsPacked, pack_loop-Returns}

-- The `n` bytes from index `i` on.
abbrev pub slice : List ℕ → ℕ → ℕ → List ℕ
slice xs i n = take n (drop i xs)

-- How far `*start_addr` has moved.
abbrev pub moved : ℕ → Compressed → ℕ
moved start_addr r = r.start_addr - start_addr

-- What `ioc_compress` leaves: -1 and `*start_addr` as it was, or the count of the bytes stored, which
-- are fewer than the source bytes that they stand for.
pub data IsCompressed (srcbuf : List ℕ) (start_addr end_addr dst_sz : ℕ) (r : Compressed)
    : Type 0 where
  not_compressed :
      r.rval ≡ none
      → r.start_addr ≡ start_addr
      → length r.dst ≤ dst_sz
      → IsCompressed srcbuf start_addr end_addr dst_sz r
  shorter :
      r.rval ≡ some (length r.dst)
      → length r.dst < moved start_addr r
      → r.start_addr ≤ end_addr + 1
      → length r.dst ≤ dst_sz
      → Packs r.dst (slice srcbuf start_addr (moved start_addr r))
      → IsCompressed srcbuf start_addr end_addr dst_sz r

module _ (srcbuf : List ℕ) (start_addr end_addr dst_sz : ℕ) where
  result-IsCompressed :
      (r : Packed)
      → start_addr + 3 ≤ end_addr
      → IsPacked (end_addr + 1 - start_addr) dst_sz (drop start_addr srcbuf) r
      → Returns (IsCompressed srcbuf start_addr end_addr dst_sz) (compress_result start_addr r)
  unfolding compress_result
  result-IsCompressed r long q = elim (Bool-cases (ltb (length r.stored) r.used)) [
    | inr more ↦ rw more (returns (not_compressed refl refl q.in_room))
    | inl less ↦
        let e : start_addr + r.used - start_addr ≡ r.used = omega arith in
        rw less (
          returns (
            shorter refl (rw e (ltb→lt _ _ less)) (omega (arith, q.within)) q.in_room
              (rw e q.packs)))
  ]

  -- `ioc_compress` returns, if a byte can be read after the one at `end_addr`. Either it answers -1
  -- and leaves `*start_addr` alone, or it answers the count of the bytes stored, which is below the
  -- distance that `*start_addr` has moved, and that ends at most one past `end_addr`. It stores at
  -- most `dst_sz` bytes in either case.
  pub compress-IsCompressed :
      end_addr + 1 < length srcbuf
      → Returns
          (IsCompressed srcbuf start_addr end_addr dst_sz)
          (compress srcbuf start_addr end_addr dst_sz)
  unfolding compress
  compress-IsCompressed fits = elim (Bool-cases (ltb end_addr (start_addr + 3))) [
    | inl short ↦ rw short (returns (not_compressed refl refl (omega arith)))
    | inr long ↦
        let far = ltb_false→le end_addr (start_addr + 3) long in
        let bytes = end_addr + 1 - start_addr in
        rw long (
          Returns-bind (compress_result start_addr)
            (pack_loop-Returns bytes bytes dst_sz (drop start_addr srcbuf) (omega arith)
              (omega (arith, length-drop start_addr srcbuf)))
            (λ r. result-IsCompressed r far))
  ]

-- Whatever `ioc_compress` stored of an array with a byte after the packed range, `ioc_uncompress`
-- reads it back over a destination of bytes that is long enough, with or without delta encoding:
-- the bytes up to the new `*start_addr`, and no other.
pub uncompress-compress :
    (srcbuf : List ℕ) (start_addr end_addr dst_sz : ℕ) (delta : Bool) (mem : List ℕ)
    {r : Compressed} {n : ℕ}
    → end_addr + 1 < length srcbuf
    → compress srcbuf start_addr end_addr dst_sz ≡ done r
    → r.rval ≡ some n
    → All IsByte mem
    → moved start_addr r ≤ length mem
    → uncompress true delta r.dst mem
      ≡ unpacks
          (moved start_addr r)
          (apply delta (slice srcbuf start_addr (moved start_addr r)) mem)
unfolding uncompress
uncompress-compress srcbuf start_addr end_addr dst_sz delta mem {r} fits e v b room =
    let (r', e', q) =
      Returns-value (compress-IsCompressed srcbuf start_addr end_addr dst_sz fits) in
    unpacked (subst (IsCompressed srcbuf start_addr end_addr dst_sz) (cc) q)
  where
    unpacked :
        IsCompressed srcbuf start_addr end_addr dst_sz r
        → unpack_loop (length r.dst) delta r.dst mem
          ≡ unpacks
              (moved start_addr r)
              (apply delta (slice srcbuf start_addr (moved start_addr r)) mem)
    unpacked (not_compressed w s l) = cc
    unpacked (shorter w less l m p) =
        let len =
          length-take_fits (moved start_addr r) (drop start_addr srcbuf)
            (omega (arith, length-drop start_addr srcbuf)) in
        subst
          (λ k.
            unpack_loop (length r.dst) delta r.dst mem
            ≡ unpacks k (apply delta (slice srcbuf start_addr (moved start_addr r)) mem))
          len (unpack_loop-Packs (length r.dst) delta mem p (omega arith) (omega (arith, len)) b)
