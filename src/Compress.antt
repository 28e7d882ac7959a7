-- ===== src/Compress.antt =====
-- code/ioc_compress.c: run-length coding of the zero bytes of a frame.
-- A pointer into an array is the list of the bytes from it to the end of the array.
-- The stored form is a row of groups: a count, that many literal bytes, a count of zeros.
pub mod Format
pub mod Packing
pub mod Plain
pub mod RoundTrip
pub mod Safety
pub mod Overread
mod Runs
use iocom.Base.{
  ℕ, zero, suc, ◌+◌, ◌-◌, ◌%◌, min, Bool, true, false, not, Option, none, some, List, [], ◌∷◌, ◌++◌,
  ltb, leb, ◌==◌, if◌then◌else◌, length, get_elem?, take, drop, replicate, Run, done, fault, stuck,
  ◌>>=◌,
}

-- `p[i]`
abbrev pub read : List ℕ → ℕ → Run ℕ
read p i = elim (get_elem? p i) [ none ↦ fault | some x ↦ done x ]

-- `p[0] || p[count < max_count-1 ? 1 : 0]`, where `left` is `max_count - count`.
pub literal_test : ℕ → List ℕ → Run Bool
literal_test left p = do
  x ← read p 0
  if x == 0 then (do y ← read p (if ltb 1 left then 1 else 0); done (not (y == 0))) else done true

-- One more round of a counting loop, or its end.
abbrev pub count_on : Run ℕ → Bool → Run ℕ
count_on rest true = do n ← rest; done (suc n)
count_on rest false = done 0

-- while ((p[0] || …) && count < max_count) { count++; p++; }. The result is `count`. The bytes are
-- read before the count is tested, so the last round reads at `max_count` too.
pub literal_run : ℕ → List ℕ → Run ℕ
literal_run zero p = do t ← literal_test zero p; done 0
literal_run (suc left) p =
    let rest = literal_run left (drop 1 p) in literal_test (suc left) p >>= count_on rest

-- while (*p == 0 && count < max_count) { count++; p++; }
pub zero_run : ℕ → List ℕ → Run ℕ
zero_run zero p = do x ← read p 0; done 0
zero_run (suc left) p =
    let rest = zero_run left (drop 1 p) in do x ← read p 0; count_on rest (x == 0)

-- What the loop has stored from `dst` on, and how far `p` has moved.
pub record Packed : Type 0 where
  pub stored : List ℕ
  pub used : ℕ

abbrev pub no_more : Packed
no_more = record { stored = []; used = 0 }

-- After `zeros` zeros that follow `count` literals stored at `dst`, with `room` bytes from there to
-- `dst_end` and `after` source bytes left before the zeros.
pub pack_zeros : (ℕ → ℕ → List ℕ → Run Packed) → ℕ → ℕ → List ℕ → ℕ → ℕ → Run Packed
pack_zeros again after room p count zeros =
    if leb room 0 then done (record { stored = count ∷ take count p; used = count }) else do
      r ← again (after - zeros) (room - 1) (drop (count + zeros) p)
      done (record {
        stored = count ∷ (take count p ++ (zeros ∷ r.stored));
        used = count + zeros + r.used;
      })

-- After counting `count` literals at `p`.
pub pack_literals : (ℕ → ℕ → List ℕ → Run Packed) → ℕ → ℕ → List ℕ → ℕ → Run Packed
pack_literals again bytes room p count =
    if leb room count
    then done no_more
    else if bytes - count == 0
    then done (record { stored = count ∷ take count p; used = count })
    else do
      zeros ← zero_run (min (bytes - count) 255) (drop count p)
      pack_zeros again (bytes - count) (room - (count + 1)) p count zeros

-- The loop on `bytes` source bytes at `p`, with `room` bytes from `dst` to `dst_end`.
pub pack_loop : ℕ → ℕ → ℕ → List ℕ → Run Packed
pack_loop zero bytes room p = if bytes == 0 then done no_more else stuck
pack_loop (suc fuel) bytes room p =
    if bytes == 0
    then done no_more
    else do count ← literal_run (min bytes 255) p; pack_literals (pack_loop fuel) bytes room p count

-- What `ioc_compress` leaves: the return value (`none` for -1), the bytes stored from `dst` on, and
-- `*start_addr`.
pub record Compressed : Type 0 where
  pub rval : Option ℕ
  pub dst : List ℕ
  pub start_addr : ℕ

-- rval = dst_count < count ? dst_count : -1; if (rval >= 0) *start_addr = p - srcbuf;
pub compress_result : ℕ → Packed → Run Compressed
compress_result start_addr r =
    if ltb (length r.stored) r.used
    then done
        (record { rval = some (length r.stored); dst = r.stored; start_addr = start_addr + r.used })
    else done (record { rval = none; dst = r.stored; start_addr = start_addr })

unfoldable pub compress : List ℕ → ℕ → ℕ → ℕ → Run Compressed
compress srcbuf start_addr end_addr dst_sz =
    if ltb end_addr (start_addr + 3)
    then done (record { rval = none; dst = []; start_addr = start_addr })
    else do
      let bytes = end_addr + 1 - start_addr
      r ← pack_loop bytes bytes dst_sz (drop start_addr srcbuf)
      compress_result start_addr r

-- while (n--) *(dst++) = *(src++), or += if the data is delta encoded: what becomes of the bytes
-- at `dst`, for the bytes at `src`.
unfoldable pub apply : Bool → List ℕ → List ℕ → List ℕ
apply delta [] mem = mem
apply delta (x ∷ xs) [] = []
apply delta (x ∷ xs) (m ∷ mem) = (if delta then (m + x) % 256 else x) ∷ apply delta xs mem

-- The return value (`none` for -1) and the bytes from `dst` to `dst_end` afterwards.
pub record Unpacked : Type 0 where
  pub rval : Option ℕ
  pub mem : List ℕ

-- What one round leaves in front of what the next does.
abbrev pub behind : ℕ → List ℕ → Unpacked → Unpacked
behind n front r = record {
  rval = elim (r.rval) [ none ↦ none | some k ↦ some (n + k) ];
  mem = front ++ r.mem;
}

-- The first `n` bytes at `p`: there is a fault if the array does not have them.
pub read_bytes : ℕ → List ℕ → Run (List ℕ)
read_bytes n p = if ltb (length p) n then fault else done (take n p)

-- `n` literals, or `n` zeros, and then what `again` does with the rest of both arrays.
pub unpack_literals : (List ℕ → List ℕ → Run Unpacked) → Bool → ℕ → List ℕ → List ℕ → Run Unpacked
unpack_literals again delta n src mem = do
  xs ← read_bytes n src
  r ← again (drop n src) (drop n mem)
  done (behind n (apply delta xs (take n mem)) r)

pub fill_zeros : (List ℕ → List ℕ → Run Unpacked) → Bool → ℕ → List ℕ → List ℕ → Run Unpacked
fill_zeros again delta n src mem = do
  r ← again src (drop n mem)
  done (behind n (if delta then take n mem else replicate n 0) r)

-- After the literals: `if (src >= src_end || dst >= dst_end) break;`, else a count of zeros.
pub unpack_zeros : (List ℕ → List ℕ → Run Unpacked) → Bool → List ℕ → List ℕ → Run Unpacked
unpack_zeros again delta [] mem = done (record { rval = some 0; mem = mem })
unpack_zeros again delta (z ∷ src) [] = done (record { rval = some 0; mem = [] })
unpack_zeros again delta (z ∷ src) (m ∷ mem) =
    fill_zeros again delta (min (z % 256) (length (m ∷ mem))) src (m ∷ mem)

-- The loop on the bytes from `src` to `src_end` and those from `dst` to `dst_end`.
pub unpack_loop : ℕ → Bool → List ℕ → List ℕ → Run Unpacked
unpack_loop fuel delta [] dst = done (record { rval = some 0; mem = dst })
unpack_loop fuel delta (c ∷ src) [] = done (record { rval = some 0; mem = [] })
unpack_loop zero delta (c ∷ src) (m ∷ dst) = stuck
unpack_loop (suc fuel) delta (c ∷ src) (m ∷ dst) =
    if ltb (length src) (c % 256)
    then done (record { rval = none; mem = m ∷ dst })
    else unpack_literals (unpack_zeros (unpack_loop fuel delta) delta) delta
        (min (c % 256) (length (m ∷ dst))) src (m ∷ dst)

-- `src` holds the `src_bytes` source bytes, `dst` the `dst_sz` bytes of the destination, and the
-- flags are IOC_COMPRESESSED and IOC_DELTA_ENCODED.
pub uncompress : Bool → Bool → List ℕ → List ℕ → Run Unpacked
uncompress compressed delta src dst =
    if compressed then unpack_loop (length src) delta src dst else do
      let n = min (length src) (length dst)
      xs ← read_bytes n src
      done (record { rval = some n; mem = apply delta xs (take n dst) ++ drop n dst })
