-- ===== src/Frame/Carried.antt =====
-- code/ioc_connection_send.c: the content that `ioc_make_data_frame` chooses, packed or not, and what
-- `ioc_uncompress` makes of it.
use iocom.Base.{
  ℕ, zero, suc, ◌+◌, ◌-◌, ◌<◌, ◌≤◌, ◌≡◌, ◌∙◌, refl, sym, subst, ap, min, Bool, true, none, some,
  List, [], ◌∷◌, ◌++◌, if◌then◌else◌, Bool-cases, Option-cases, inl, inr, length, length-append,
  length-take_fits, length-drop, drop, All, Run, done, Returns, returns, Returns-value, arith,
}
use iocom.Compress.{Compressed, compress, apply, uncompress}
use iocom.Compress.Format.{IsByte, unpacks}
use iocom.Compress.Plain.{uncompress_plain}
use iocom.Compress.RoundTrip.{
  slice, moved, IsCompressed, not_compressed, shorter, compress-IsCompressed, uncompress-compress,
}
use iocom.SourceBuffer.{SourceBuffer}
use iocom.Frame.Data.{Content, delta_bytes, compress_data, content_of, choose_content}

slice-append : (xs ys : List ℕ) (i n : ℕ) → i + n ≤ length xs → slice (xs ++ ys) i n ≡ slice xs i n
slice-append xs ys zero zero h = refl
slice-append [] ys zero (suc n) h = absurd (omega arith)
slice-append (x ∷ xs) ys zero (suc n) h =
    ap (λ zs. x ∷ zs) (slice-append xs ys zero n (omega arith))
slice-append [] ys (suc i) n h = absurd (omega arith)
slice-append (x ∷ xs) ys (suc i) n h = slice-append xs ys i n (omega arith)

-- What the content stands for: the bytes up to the address of the next frame, one at least.
pub record Carries (mblk : List ℕ) (s : SourceBuffer) (max : ℕ) (x : Content) : Type 0 where
  pub goes_on : s.start_addr < x.next_addr
  pub within : x.next_addr ≤ s.end_addr + 1
  pub fits : length x.content ≤ max
  pub unpacked :
      (delta : Bool) (mem : List ℕ)
      → All IsByte mem
      → x.next_addr - s.start_addr ≤ length mem
      → uncompress x.is_compressed delta x.content mem
        ≡ unpacks
            (x.next_addr - s.start_addr)
            (apply delta (slice (delta_bytes mblk s) s.start_addr (x.next_addr - s.start_addr)) mem)

delta_bytes-copied :
    (mblk : List ℕ) (s : SourceBuffer) → s.allocated ≡ true → delta_bytes mblk s ≡ s.delta
unfolding delta_bytes
delta_bytes-copied mblk s e = ap (λ b. if b then s.delta else mblk) e

module _ (mblk beyond : List ℕ) (s : SourceBuffer) (max : ℕ) (some_room : 0 < max)
    (ordered : s.start_addr ≤ s.end_addr) (inside : s.end_addr < length (delta_bytes mblk s))
    (more : 0 < length beyond) where
  plain-Carries : (r : Compressed) → Carries mblk s max (content_of none mblk s max r)
  unfolding content_of
  plain-Carries r =
      let bytes = delta_bytes mblk s in
      let n = min (s.end_addr + 1 - s.start_addr) max in
      let len : length (slice bytes s.start_addr n) ≡ n =
        length-take_fits n (drop s.start_addr bytes)
          (omega (arith, length-drop s.start_addr bytes, inside)) in
      let count : n ≡ s.start_addr + n - s.start_addr = omega arith in
      record {
        goes_on = omega arith;
        within = omega arith;
        fits = omega (arith, len);
        unpacked = λ delta mem b room.
            uncompress_plain delta (slice bytes s.start_addr n) mem (omega (arith, len))
            ∙ ap (λ k. unpacks k (apply delta (slice bytes s.start_addr n) mem)) len
            ∙ ap (λ k. unpacks k (apply delta (slice bytes s.start_addr k) mem)) count;
      }

  packed-Carries :
      (r : Compressed) (n : ℕ)
      → s.allocated ≡ true
      → compress (s.delta ++ beyond) s.start_addr s.end_addr max ≡ done r
      → IsCompressed (s.delta ++ beyond) s.start_addr s.end_addr max r
      → r.rval ≡ some n
      → Carries mblk s max (content_of (some n) mblk s max r)
  unfolding content_of
  packed-Carries r n a made (not_compressed w e l) v = absurd cc
  packed-Carries r n a made (shorter w less l m p) v =
      let bytes = delta_bytes-copied mblk s a in
      let whole : s.end_addr < length s.delta = omega (arith, inside, ap length bytes) in
      record {
        goes_on = omega arith;
        within = l;
        fits = m;
        unpacked = λ delta mem b room.
            uncompress-compress (s.delta ++ beyond) s.start_addr s.end_addr max delta mem
              (omega (arith, length-append s.delta beyond)) made v b room
            ∙ ap (λ xs. unpacks (moved s.start_addr r) (apply delta xs mem))
                (slice-append s.delta beyond s.start_addr (moved s.start_addr r) (omega arith)
                  ∙ ap (λ xs. slice xs s.start_addr (moved s.start_addr r)) (sym bytes));
      }

  chosen-Carries :
      (r : Compressed)
      → s.allocated ≡ true
      → compress (s.delta ++ beyond) s.start_addr s.end_addr max ≡ done r
      → IsCompressed (s.delta ++ beyond) s.start_addr s.end_addr max r
      → Carries mblk s max (choose_content mblk s max r)
  unfolding choose_content
  chosen-Carries r a made p = elim (Option-cases r.rval) [
    | inl e ↦ subst (λ o. Carries mblk s max (content_of o mblk s max r)) (sym e) (plain-Carries r)
    | inr (n, e) ↦
        subst (λ o. Carries mblk s max (content_of o mblk s max r)) (sym e)
          (packed-Carries r n a made p e)
  ]

  -- The content that is chosen, packed or not, is unpacked to the bytes up to the next address.
  pub compress_data-Carries :
      Returns (λ r. Carries mblk s max (choose_content mblk s max r)) (compress_data beyond s max)
  unfolding compress_data choose_content
  compress_data-Carries =
      let packed = compress (s.delta ++ beyond) s.start_addr s.end_addr max in
      let unpacked : Run Compressed =
        done (record { rval = none; dst = []; start_addr = s.start_addr }) in
      elim (Bool-cases s.allocated) [
        | inr static ↦
            subst (Returns (λ r. Carries mblk s max (choose_content mblk s max r)))
              (sym (ap (λ b. if b then packed else unpacked) static)) (returns (plain-Carries _))
        | inl copied ↦
            let len : s.end_addr + 1 < length (s.delta ++ beyond) =
              omega (
                arith,
                length-append s.delta beyond,
                ap length (delta_bytes-copied mblk s copied),
              ) in
            let (r, made, p) =
              Returns-value
                (compress-IsCompressed (s.delta ++ beyond) s.start_addr s.end_addr max len) in
            subst (Returns (λ r. Carries mblk s max (choose_content mblk s max r)))
              (sym (ap (λ b. if b then packed else unpacked) copied ∙ made))
              (returns (chosen-Carries r copied made p))
      ]
