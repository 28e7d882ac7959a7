-- ===== src/TargetBuffer/Received.antt =====
-- code/ioc_target_buffer.c: nothing that was received is lost on the way to the memory block.
use iocom.Base.{
  ℕ, ◌+◌, ◌-◌, ◌/◌, ◌≤◌, ◌<◌, ◌≡◌, ◌≢◌, ◌⊎◌, inl, inr, sym, ap, ◌∙◌, true, bit_or, ◌&&◌, List, leb,
  if◌then◌else◌, length, at, arith, at-fill, length-fill, at-mem_copy_same, length-mem_copy,
  mem_copy, Bool-cases,
}
use iocom.SourceBuffer.{skip_same}
use iocom.SourceBuffer.Trimming.{Same, skip_same_lem, trim_end_lem}
use iocom.TargetBuffer.{TargetBuffer, invalidate, new_start, new_end, move_range}

-- Every data byte in which `newdata` is ahead of `buf` is in the new range.
pub record Pending (t : TargetBuffer) : Type 0 where
  pub range :
      (k : ℕ)
      → k < t.ndata
      → at t.newdata k ≢ at t.buf k
      → (t.has_new_data ≡ true) × (t.newdata_start_addr ≤ k) × (k ≤ t.newdata_end_addr)
  pub same_length : length t.newdata ≡ length t.buf
  pub room : t.ndata ≤ length t.buf

-- Every data byte in which `buf` is ahead of the memory block is in the range to be taken over.
unfoldable pub Untaken : List ℕ → TargetBuffer → Type 0
Untaken mblk t =
    (k : ℕ)
    → k < t.ndata
    → at t.buf k ≢ at mblk k
    → (t.buf_used ≡ true) × (t.buf_start_addr ≤ k) × (k ≤ t.buf_end_addr)

pub new_bounds :
    (t : TargetBuffer)
    → (t.newdata_start_addr ≤ new_start t)
      × (new_end t ≤ t.newdata_end_addr)
      × Same t.buf t.newdata t.newdata_start_addr (new_start t)
      × Same t.buf t.newdata (new_end t + 1) (t.newdata_end_addr + 1)
unfolding new_start new_end
new_bounds t = elim (Bool-cases (t.bidirectional)) [
  | inl two_way ↦
      rw two_way
        (omega arith, omega arith, λ k h l. absurd (omega arith), λ k h l. absurd (omega arith))
  | inr one_way ↦
      let rounds : ℕ = t.newdata_end_addr + 1 - t.newdata_start_addr in
      let (a, b, c) = skip_same_lem t.buf t.newdata rounds t.newdata_start_addr in
      let (e, f, g) =
        trim_end_lem t.buf t.newdata
          (t.newdata_end_addr + 1 - skip_same t.buf t.newdata rounds t.newdata_start_addr)
          t.newdata_end_addr in
      rw one_way (a, e, c, g)
]

abbrev pub InNew : TargetBuffer → ℕ → Type 0
InNew t k = (t.has_new_data ≡ true) × (t.newdata_start_addr ≤ k) × (k ≤ t.newdata_end_addr)

invalidate_range :
    (i j k : ℕ) (t : TargetBuffer)
    → k < t.ndata
    → ((i ≤ k) × (k ≤ j)) ⊎ InNew t k
    → InNew (invalidate i j t) k
unfolding invalidate
invalidate_range i j k t h o = ground arith

pub invalidate_keeps :
    (i j : ℕ) (t : TargetBuffer)
    → ((invalidate i j t).newdata ≡ t.newdata)
      × ((invalidate i j t).buf ≡ t.buf)
      × ((invalidate i j t).ndata ≡ t.ndata)
unfolding invalidate
invalidate_keeps i j t = ground arith

pub invalidate_nbytes : (i j : ℕ) (t : TargetBuffer) → (invalidate i j t).nbytes ≡ t.nbytes
unfolding invalidate
invalidate_nbytes i j t = ground arith

abbrev store : List ℕ → TargetBuffer → TargetBuffer
store newdata t = record t { newdata = newdata }

-- If the new range holds all bytes of `newdata` that differ from `buf`, it does so after bytes of
-- the range from `i` to `j` were stored in `newdata` and `ioc_tbuf_invalidate` marked that range.
pub invalidate-Pending :
    (i j : ℕ) (newdata : List ℕ) (t : TargetBuffer)
    → Pending t
    → length newdata ≡ length t.newdata
    → ((k : ℕ) → k < t.ndata → (k < i) ⊎ (j < k) → at newdata k ≡ at t.newdata k)
    → Pending (invalidate i j (record t { newdata = newdata }))
invalidate-Pending i j newdata t p len same =
    let (new, old, n) = invalidate_keeps i j (store newdata t) in
    record {
      range = λ k h d.
          let k_in : k < t.ndata = omega (arith, n) in
          let d' : at newdata k ≢ at t.buf k =
            λ e. d (ap (λ xs. at xs k) new ∙ e ∙ ap (λ xs. at xs k) (sym old)) in
          invalidate_range i j k (store newdata t) k_in (elim (Bool-cases (leb i k && leb k j)) [
            | inl inside ↦ inl (ground arith)
            | inr outside ↦ inr (p.range k k_in (λ e. d' (same k k_in (ground arith) ∙ e)))
          ]);
      same_length = ap length new ∙ len ∙ p.same_length ∙ ap length (sym old);
      room = omega (arith, p.room, n, ap length old);
    }

pub at-move_range :
    (i j : ℕ) (t : TargetBuffer) (k : ℕ)
    → k < t.ndata
    → t.ndata ≤ length t.buf
    → at (move_range i j t) k ≡ (if leb i k && leb k j then at t.newdata k else at t.buf k)
unfolding move_range
at-move_range i j t k h room =
    let moved : List ℕ = mem_copy t.buf i t.newdata i (j + 1 - i) in
    ground (
      arith,
      at-mem_copy_same t.buf i t.newdata (j + 1 - i) k,
      at-fill (j / 8 + 1 - i / 8) (t.ndata + i / 8) (λ m. bit_or (at moved m) (at t.newdata m))
          moved k,
    )

length-move_range : (i j : ℕ) (t : TargetBuffer) → length (move_range i j t) ≡ length t.buf
unfolding move_range
length-move_range i j t =
    let moved : List ℕ = mem_copy t.buf i t.newdata i (j + 1 - i) in
    ground (
      arith,
      length-mem_copy t.buf i t.newdata i (j + 1 - i),
      length-fill (j / 8 + 1 - i / 8) (t.ndata + i / 8) (λ m. bit_or (at moved m) (at t.newdata m))
          moved,
    )
