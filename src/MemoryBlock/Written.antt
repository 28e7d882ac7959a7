-- ===== src/MemoryBlock/Written.antt =====
-- A write to a memory block of code/ioc_memory_block.c: what is read back, and what is to be sent.
use iocom.Base.{
  ℕ, ◌+◌, ◌-◌, ◌<◌, ◌≤◌, ◌≡◌, ◌∙◌, ◌⊎◌, inl, inr, refl, ap, min, false, List, [], ◌∷◌, map, ltb,
  leb, Bool-cases, length, at, All, mem_copy, length-mem_copy, length-mem_clear, at-mem_copy,
  at-mem_clear, at_ext, leb_false→lt, arith, zero, suc, sym, ◌++◌, take, replicate,
  length-take_fits, length-append, length-replicate, at-append, at-take,
}
use iocom.SourceBuffer.Range.{Covers, IsWrite, invalidate-Covers, invalidate-same, ndata-invalidate}
use iocom.MemoryBlock.{
  MemoryBlock, Content, string, cleared, bytes, store_content, invalidate_source, mblk_invalidate,
  write_mblk, read_mblk,
}

-- Nothing that is written is lost to any of the source buffers.
unfoldable pub IsCovered : MemoryBlock → Type 0
IsCovered m = All (λ s. Covers m.buf s.sbuf × (length m.buf ≤ s.sbuf.ndata)) m.sources

length-store_content :
    (content : Content) (addr n : ℕ) (buf : List ℕ)
    → length (store_content content addr n buf) ≡ length buf
unfolding store_content
length-store_content (string str) addr n buf =
    length-mem_clear _ (addr + min (length str) n) (n - min (length str) n)
    ∙ length-mem_copy buf addr str 0 (min (length str) n)
length-store_content cleared addr n buf = length-mem_clear buf addr n
length-store_content (bytes src) addr n buf = length-mem_copy buf addr src 0 n

-- The store stays in its range.
store_content_outside :
    (content : Content) (addr n : ℕ) (buf : List ℕ) (k : ℕ)
    → (k < addr) ⊎ (addr + n ≤ k)
    → at (store_content content addr n buf) k ≡ at buf k
unfolding store_content
store_content_outside (string str) addr n buf k out =
    let c = min (length str) n in
    ground (
      arith,
      at-mem_clear (mem_copy buf addr str 0 c) (addr + c) (n - c) k,
      at-mem_copy buf addr str 0 c k,
    )
store_content_outside cleared addr n buf k out = ground (arith, at-mem_clear buf addr n k)
store_content_outside (bytes src) addr n buf k out = ground (arith, at-mem_copy buf addr src 0 n k)

All-map {ℓ κ μ} :
    {A : Type ℓ} (P : A → Type κ) (Q : A → Type μ) (f : A → A) (xs : List A)
    → ((x : A) → P x → Q (f x))
    → All P xs
    → All Q (map f xs)
All-map P Q f [] h a = tt
All-map P Q f (x ∷ xs) h (p, a) = (h x p, All-map P Q f xs h a)

-- A write to the bytes from `i` to `j` leaves every source buffer covered.
pub mblk_invalidate-IsCovered :
    (m : MemoryBlock) (new : List ℕ) (i j : ℕ)
    → IsWrite m.buf new i j
    → IsCovered m
    → IsCovered (mblk_invalidate i j (record m { buf = new }))
unfolding IsCovered mblk_invalidate invalidate_source
mblk_invalidate-IsCovered m new i j w c =
    All-map _ _ (invalidate_source new i j) m.sources
      (λ s (p, fits). (
        invalidate-Covers m.buf new i j s.sbuf w p fits,
        omega (arith, w.same_length, ndata-invalidate new i j s.sbuf),
      ))
      c

-- Where nothing has changed, any range may be invalidated.
pub mblk_invalidate-same :
    (m : MemoryBlock) (i j : ℕ) → IsCovered m → IsCovered (mblk_invalidate i j m)
unfolding IsCovered mblk_invalidate invalidate_source
mblk_invalidate-same m i j c =
    All-map _ _ (invalidate_source m.buf i j) m.sources
      (λ s (p, fits).
        (invalidate-same m.buf i j s.sbuf fits p, omega (arith, ndata-invalidate m.buf i j s.sbuf)))
      c

-- `ioc_write` loses nothing: if the changed range of every source buffer covers what the other end
-- lacks, it does so after a write of strings, of bytes or of zeros too, of one byte at least,
-- wherever the write begins and however long it is.
pub write_mblk-IsCovered :
    (addr : ℕ) (content : Content) (n : ℕ) (m : MemoryBlock)
    → 1 ≤ n
    → IsCovered m
    → IsCovered (write_mblk addr content n m)
unfolding write_mblk
write_mblk-IsCovered addr content n m some_n c = elim (Bool-cases (leb (length m.buf) addr)) [
  | inl out ↦ rw out c
  | inr room ↦
      let count = min n (length m.buf - addr) in
      let free = leb_false→lt _ _ room in
      rw room (
        mblk_invalidate-IsCovered m (store_content content addr count m.buf) addr (addr + count - 1)
          (record {
            same_length = length-store_content content addr count m.buf;
            ordered = omega arith;
            inside = omega arith;
            outside = λ k out.
                store_content_outside content addr count m.buf k
                  (elim out [ inl before ↦ inl before | inr after ↦ inr (omega arith) ]);
          })
          c)
]

-- A read inside the memory block.
read_inside :
    (addr n : ℕ) (m : MemoryBlock) (dst : List ℕ)
    → addr + n ≤ length m.buf
    → 1 ≤ n
    → read_mblk addr false n m dst ≡ mem_copy dst 0 m.buf addr n
unfolding read_mblk
read_inside addr n m dst fits some_n =
    let room : leb (length m.buf) addr ≡ false = ground arith in
    let whole : ltb (length m.buf - addr) n ≡ false = ground arith in
    let count : min n (length m.buf - addr) ≡ n = omega arith in rw (room, whole, count) refl

-- The `n` bytes that a write is to leave: a string is cut, or filled with zeros.
unfoldable pub content_bytes : Content → ℕ → List ℕ
content_bytes (string str) n = take n (str ++ replicate n 0)
content_bytes cleared n = replicate n 0
content_bytes (bytes src) n = take n src

-- The caller has the bytes that are to be written.
unfoldable pub HasBytes : Content → ℕ → Type 0
HasBytes (string str) n = Unit
HasBytes cleared n = Unit
HasBytes (bytes src) n = n ≤ length src

at-replicate : (n x k : ℕ) → k < n → at (replicate n x) k ≡ x
at-replicate zero x k k_in = absurd (omega arith)
at-replicate (suc n) x zero k_in = refl
at-replicate (suc n) x (suc k) k_in = at-replicate n x k (omega arith)

length-content_bytes :
    (content : Content) (n : ℕ) → HasBytes content n → length (content_bytes content n) ≡ n
unfolding content_bytes HasBytes
length-content_bytes (string str) n has =
    length-take_fits n (str ++ replicate n 0)
      (omega (arith, length-append str (replicate n 0), length-replicate {A = ℕ} n 0))
length-content_bytes cleared n has = length-replicate n 0
length-content_bytes (bytes src) n has = length-take_fits n src has

-- The store, byte for byte.
at-store_content :
    (content : Content) (addr n : ℕ) (buf : List ℕ) (k : ℕ)
    → HasBytes content n
    → addr + n ≤ length buf
    → k < n
    → at (store_content content addr n buf) (addr + k) ≡ at (content_bytes content n) k
unfolding store_content content_bytes HasBytes
at-store_content (string str) addr n buf k has fits k_in =
    let c = min (length str) n in
    let copied = mem_copy buf addr str 0 c in
    let here : addr + k - addr ≡ k = omega arith in
    let behind = at-append str (replicate n 0) k in
    let zeros : length str ≤ k → at (replicate n 0) (k - length str) ≡ 0 =
      λ h. at-replicate n 0 (k - length str) (omega arith) in
    let stored = at-mem_copy buf addr str 0 c (addr + k) in
    let same = ap (at str) here in
    ground (
      arith,
      length-mem_copy buf addr str 0 c,
      at-mem_clear copied (addr + c) (n - c) (addr + k),
      at-take n (str ++ replicate n 0) k k_in,
    )
at-store_content cleared addr n buf k has fits k_in =
    let zeros = at-replicate n 0 k k_in in ground (arith, at-mem_clear buf addr n (addr + k))
at-store_content (bytes src) addr n buf k has fits k_in =
    let here : addr + k - addr ≡ k = omega arith in
    let same = ap (at src) here in
    ground (arith, at-mem_copy buf addr src 0 n (addr + k), at-take n src k k_in)

-- A write inside the memory block.
write_inside :
    (addr : ℕ) (content : Content) (n : ℕ) (m : MemoryBlock)
    → addr + n ≤ length m.buf
    → 1 ≤ n
    → (write_mblk addr content n m).buf ≡ store_content content addr n m.buf
unfolding write_mblk mblk_invalidate
write_inside addr content n m fits some_n =
    let room : leb (length m.buf) addr ≡ false = ground arith in
    let count : min n (length m.buf - addr) ≡ n = omega arith in rw (room, count) refl

-- What `ioc_write` stored, `ioc_read` without IOC_MBLK_STRING reads from the same address: bytes as
-- they were, zeros for a range to be cleared, and of a string its bytes, with zeros behind them if
-- it is shorter than `n`, or the first `n`. This is for `n` of one byte at least inside the memory
-- block, of which the caller has as many to be written as to be read.
pub read_mblk-write_mblk :
    (addr : ℕ) (content : Content) (n : ℕ) (dst : List ℕ) (m : MemoryBlock)
    → addr + n ≤ length m.buf
    → 1 ≤ n
    → HasBytes content n
    → length dst ≡ n
    → read_mblk addr false n (write_mblk addr content n m) dst ≡ content_bytes content n
read_mblk-write_mblk addr content n dst m fits some_n has same =
    let after = write_mblk addr content n m in
    let new = write_inside addr content n m fits some_n in
    let len : length after.buf ≡ length m.buf =
      ap length new ∙ length-store_content content addr n m.buf in
    let read = length-mem_copy dst 0 after.buf addr n in
    read_inside addr n after dst (omega (arith, len)) some_n
    ∙ at_ext (mem_copy dst 0 after.buf addr n) (content_bytes content n)
        (read ∙ same ∙ sym (length-content_bytes content n has))
        (λ k k_in.
          let k_n : k < n = omega (arith, read) in
          let got : at (mem_copy dst 0 after.buf addr n) k ≡ at after.buf (addr + (k - 0)) =
            ground (arith, at-mem_copy dst 0 after.buf addr n k) in
          let here : addr + (k - 0) ≡ addr + k = omega arith in
          got
          ∙ ap (at after.buf) here
          ∙ ap (λ b. at b (addr + k)) new
          ∙ at-store_content content addr n m.buf k has fits k_n)
