-- ===== src/Streamer/Taken.antt =====
-- code/ioc_streamer.c: `ioc_streamer_read_internal` takes the first bytes that the ring holds.
use iocom.Base.{
  ℕ, ◌+◌, ◌-◌, ◌<◌, ◌≤◌, ◌≡◌, ◌∙◌, refl, sym, subst, ap, ap₂, min, true, false, List, [], ◌++◌, ltb,
  Bool-cases, inl, inr, length, take, drop, arith,
}
use iocom.Streamer.Ring.{Got, get_to_end, get_to_head, read_internal}
use iocom.Streamer.Window.{
  forward, distance, window, contents, length-window, window-add, window-slice, drop-window,
  take-window, forward-lt, forward-forward,
}

-- The next `k` bytes of the ring were taken.
pub record Takes (ring : List ℕ) (sz tail k : ℕ) (r : Got) : Type 0 where
  pub moved : r.tail ≡ forward sz tail k
  pub taken : r.bytes ≡ window ring sz tail k

-- How many bytes are taken.
abbrev pub take_count : ℕ → ℕ → ℕ → ℕ → ℕ
take_count sz tail head n = min n (distance sz tail head)

Takes-count :
    (ring : List ℕ) (sz tail k l : ℕ) (r : Got)
    → k ≡ l
    → Takes ring sz tail k r
    → Takes ring sz tail l r
Takes-count ring sz tail k l r e p = subst (λ m. Takes ring sz tail m r) e p

module _ (ring : List ℕ) (sz n head tail : ℕ) (whole : length ring ≡ sz) (h : head < sz)
    (t : tail < sz) where
  get_to_end-Takes : Takes ring sz tail (min (sz - tail) n) (get_to_end ring sz n tail)
  unfolding get_to_end
  get_to_end-Takes = record {
    moved = ground arith;
    taken = sym (window-slice ring sz tail (min (sz - tail) n) whole (omega arith));
  }

  get_to_head-Takes :
      tail ≤ head → Takes ring sz tail (min (head - tail) n) (get_to_head ring n head tail)
  unfolding get_to_head
  get_to_head-Takes le = record {
    moved = ground arith;
    taken = sym (window-slice ring sz tail (min (head - tail) n) whole (omega arith));
  }

  Takes-nothing : Takes ring sz tail 0 (record { bytes = []; tail = tail })
  unfolding window
  Takes-nothing = record { moved = ground arith; taken = refl }

-- One after another, where together they do not come round.
Takes-then :
    (ring : List ℕ) (sz tail k l : ℕ) (r q : Got)
    → tail < sz
    → k + l ≤ sz
    → Takes ring sz tail k r
    → Takes ring sz r.tail l q
    → Takes ring sz tail (k + l) (record { bytes = r.bytes ++ q.bytes; tail = q.tail })
Takes-then ring sz tail k l r q t fits p s = record {
  moved =
      s.moved ∙ ap (λ i. forward sz i l) p.moved ∙ forward-forward ring sz tail k l t (omega arith);
  taken =
      ap₂ ◌++◌ p.taken (s.taken ∙ ap (λ i. window ring sz i l) p.moved)
      ∙ sym (window-add ring sz tail k l t fits);
}

module _ (ring : List ℕ) (sz n head tail : ℕ) (whole : length ring ≡ sz) (h : head < sz)
    (t : tail < sz) where
  read_before :
      tail ≤ head
      → Takes ring sz tail (take_count sz tail head n) (read_internal ring sz n head tail)
  unfolding read_internal
  read_before le =
      let a : ltb head tail ≡ false = ground arith in
      elim (Bool-cases (ltb tail head)) [
        | inl more ↦
            rw (a, more)
              (Takes-count ring sz tail _ _ _ (ground arith) (
                Takes-then ring sz tail 0 (min (head - tail) (n - 0)) _ _ t (omega arith)
                  (Takes-nothing ring sz n head tail whole h t)
                  (get_to_head-Takes ring sz (n - 0) head tail whole h t le)))
        | inr empty ↦
            rw (a, empty)
              (Takes-count ring sz tail _ _ _ (ground arith)
                (Takes-nothing ring sz n head tail whole h t))
      ]

  read_behind :
      head < tail
      → Takes ring sz tail (take_count sz tail head n) (read_internal ring sz n head tail)
  unfolding read_internal
  read_behind less =
      let a : ltb head tail ≡ true = ground arith in
      let k = min (sz - tail) n in
      let r = get_to_end ring sz n tail in
      let p = get_to_end-Takes ring sz n head tail whole h t in
      let m : length r.bytes ≡ k = ap length p.taken ∙ length-window ring sz tail k in
      elim (Bool-cases (ltb r.tail head)) [
        | inl round ↦
            let start : (r.tail ≡ 0) × (k ≡ sz - tail) = ground (arith, p.moved) in
            rw (a, round)
              (Takes-count ring sz tail (k + min (head - r.tail) (n - length r.bytes)) _ _
                (ground (arith, m))
                (Takes-then ring sz tail k (min (head - r.tail) (n - length r.bytes)) r _ t
                  (ground (arith, m)) p
                  (get_to_head-Takes ring sz (n - length r.bytes) head r.tail whole h (ground arith)
                    (ground arith))))
        | inr not_round ↦
            rw (a, not_round) (Takes-count ring sz tail k _ r (ground (arith, p.moved)) p)
      ]

  read_internal-Takes :
      Takes ring sz tail (take_count sz tail head n) (read_internal ring sz n head tail)
  read_internal-Takes = elim (Bool-cases (ltb head tail)) [
    | inl less ↦ read_behind (ground arith)
    | inr le ↦ read_before (ground arith)
  ]

-- What a read from the ring returns and leaves.
pub record IsTaken (ring : List ℕ) (sz n head tail : ℕ) (r : Got) : Type 0 where
  pub in_ring : r.tail < sz
  pub moved : r.tail ≡ forward sz tail (take_count sz tail head n)
  pub returned : r.bytes ≡ take (take_count sz tail head n) (contents ring sz tail head)
  pub left :
      contents ring sz r.tail head ≡ drop (take_count sz tail head n) (contents ring sz tail head)

-- `ioc_streamer_read_internal` returns the first bytes that the ring holds, as many as are asked for
-- or all, and leaves the rest, if `buf_sz` is the size of the ring and `head` and `tail` are in it.
pub read_internal-IsTaken :
    (ring : List ℕ) (sz n head tail : ℕ)
    → length ring ≡ sz
    → head < sz
    → tail < sz
    → IsTaken ring sz n head tail (read_internal ring sz n head tail)
unfolding contents
read_internal-IsTaken ring sz n head tail whole h t =
    let r = read_internal ring sz n head tail in
    let d = distance sz tail head in
    let k = take_count sz tail head n in
    let p = read_internal-Takes ring sz n head tail whole h t in
    let rest : distance sz r.tail head ≡ d - k =
      ap (λ i. distance sz i head) p.moved ∙ ground arith in
    record {
      in_ring = subst (λ i. i < sz) (sym p.moved) (forward-lt ring sz tail k t (ground arith));
      moved = p.moved;
      returned = p.taken ∙ sym (take-window ring sz tail k d t (ground arith) (ground arith));
      left =
          ap₂ (window ring sz) p.moved rest
          ∙ sym (drop-window ring sz tail k d t (ground arith) (ground arith));
    }
