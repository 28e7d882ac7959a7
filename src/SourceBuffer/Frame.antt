-- ===== src/SourceBuffer/Frame.antt =====
-- code/ioc_source_buffer.c: a range that is taken for sending.
use iocom.Base.{
  ℕ, ◌+◌, ◌-◌, ◌/◌, ◌%◌, ◌≤◌, ◌<◌, ◌≡◌, ◌⊎◌, inl, inr, sym, ◌∙◌, true, false, ◌&&◌, List, leb,
  if◌then◌else◌, length, set, at, arith, at-mem_copy_same, at-mem_copy_below, at-mem_clear_below,
  mem_copy,
}
use iocom.SourceBuffer.{SourceBuffer, take_range}

-- A source buffer of a memory block with the bytes `mblk`, with its own copy of them.
pub record IsReady (mblk : List ℕ) (s : SourceBuffer) : Type 0 where
  pub copied : s.allocated ≡ true
  pub data_bytes : length mblk ≡ s.ndata
  pub some_data : 0 < s.ndata
  pub room : s.ndata ≤ s.nbytes
  pub sync_bytes : length s.buf ≡ s.nbytes
  pub delta_bytes : length s.delta ≡ s.nbytes
  pub mblk_IsBytes : (k : ℕ) → k < length mblk → at mblk k < 256
  pub sync_IsBytes : (k : ℕ) → k < length mblk → at s.buf k < 256
  pub range : s.range_set ≡ true → (s.changed_start ≤ s.changed_end) × (s.changed_end < s.ndata)

-- `t` is about to send the bytes by which `old` differs from `mblk`, and has noted them as sent.
pub record Sends (mblk old : List ℕ) (t : SourceBuffer) : Type 0 where
  pub in_use : t.used ≡ true
  pub taken : t.range_set ≡ false
  pub ordered : t.start_addr ≤ t.end_addr
  pub inside : t.end_addr < length mblk
  pub current : (k : ℕ) → k < length mblk → at t.buf k ≡ at mblk k
  pub key : t.is_keyframe ≡ true → (k : ℕ) → k < length mblk → at t.delta k ≡ at mblk k
  pub key_all : t.is_keyframe ≡ true → (t.start_addr ≡ 0) × (t.end_addr + 1 ≡ length mblk)
  pub delta :
      t.is_keyframe ≡ false
      → (k : ℕ) → t.start_addr ≤ k
      → k ≤ t.end_addr
      → (at old k + at t.delta k) % 256 ≡ at mblk k
  pub outside :
      (k : ℕ) → k < length mblk → (k < t.start_addr) ⊎ (t.end_addr < k) → at old k ≡ at mblk k

-- What taking a range does to the data bytes.
module _ (mblk : List ℕ) (i j : ℕ) (s : SourceBuffer) (copied : s.allocated ≡ true) (k : ℕ)
    (here : k < s.ndata) where
  abbrev synced : List ℕ
  synced = mem_copy s.buf i mblk i (j + 1 - i)

  at-synced :
      s.ndata ≤ length s.buf → at synced k ≡ (if leb i k && leb k j then at mblk k else at s.buf k)
  at-synced room = ground (arith, at-mem_copy_same s.buf i mblk (j + 1 - i) k)

  take_range-current :
      s.ndata ≤ length s.buf
      → at (take_range mblk i j s).buf k ≡ (if leb i k && leb k j then at mblk k else at s.buf k)
  unfolding take_range
  take_range-current room = ground (
    arith,
    at-synced room,
    at-mem_clear_below synced (s.ndata + i / 8) (j / 8 + 1 - i / 8) k (omega arith),
  )

  take_range-delta : at (take_range mblk i j s).delta k ≡ at s.delta k
  unfolding take_range
  take_range-delta = ground (
    arith,
    at-mem_copy_below s.delta (s.ndata + i / 8) synced (s.ndata + i / 8) (j / 8 + 1 - i / 8) k
        (omega arith),
  )

pub take_range-fields :
    (mblk : List ℕ) (i j : ℕ) (s : SourceBuffer)
    → ((take_range mblk i j s).used ≡ true)
      × ((take_range mblk i j s).range_set ≡ s.range_set)
      × ((take_range mblk i j s).start_addr ≡ i)
      × ((take_range mblk i j s).end_addr ≡ j)
      × ((take_range mblk i j s).is_keyframe ≡ s.is_keyframe)
      × ((take_range mblk i j s).make_keyframe ≡ s.make_keyframe)
unfolding take_range
take_range-fields mblk i j s = ground arith

-- The buffer has a copy of the data.
pub record HasCopy (mblk : List ℕ) (s : SourceBuffer) : Type 0 where
  pub copied : s.allocated ≡ true
  pub data_bytes : length mblk ≡ s.ndata
  pub room : s.ndata ≤ length s.buf

-- Taking a range outside of which nothing differs, with a delta that fits it.
pub take_range-Sends :
    (mblk : List ℕ) (i j : ℕ) (s : SourceBuffer)
    → HasCopy mblk s
    → s.range_set ≡ false
    → i ≤ j
    → j < length mblk
    → (s.is_keyframe ≡ true
        → (i ≡ 0) × (j + 1 ≡ length mblk) × ((k : ℕ) → k < length mblk → at s.delta k ≡ at mblk k))
    → (s.is_keyframe ≡ false
        → (k : ℕ) → i ≤ k
        → k ≤ j
        → (at s.buf k + at s.delta k) % 256 ≡ at mblk k)
    → ((k : ℕ) → k < length mblk → (k < i) ⊎ (j < k) → at s.buf k ≡ at mblk k)
    → Sends mblk s.buf (take_range mblk i j s)
take_range-Sends mblk i j s r taken le fits key delta same =
    let (used, set, start, end, is_key, mk) = take_range-fields mblk i j s in
    let inside =
      λ (k : ℕ) (h : k < length mblk). let q : k < s.ndata = omega (arith, r.data_bytes) in q in
    let deltas =
      λ (k : ℕ) (h : k < length mblk). take_range-delta mblk i j s r.copied k (inside k h) in
    record {
      in_use = used;
      taken = set ∙ taken;
      ordered = rw (start, end) le;
      inside = rw end fits;
      current = λ k h.
          take_range-current mblk i j s r.copied k (inside k h) r.room ∙ ground (arith, same k h);
      key = λ e k h. deltas k h ∙ (key (sym is_key ∙ e)).2 k h;
      key_all = λ e. let q = key (sym is_key ∙ e) in (start ∙ q.0, rw end q.1);
      delta = λ e k a b.
          let k_in : k < length mblk = omega (arith, end) in
          rw (deltas k k_in) (delta (sym is_key ∙ e) k (omega (arith, start)) (omega (arith, end)));
      outside = λ k h o. same k h (elim o [
        | inl before ↦ inl (omega (arith, start))
        | inr after ↦ inr (omega (arith, end))
      ]);
    }
