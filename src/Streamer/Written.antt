-- ===== src/Streamer/Written.antt =====
-- code/ioc_streamer.c: `ioc_streamer_write_internal` puts bytes at the end of what the ring holds.
use iocom.Base.{
  ℕ, zero, suc, ◌+◌, ◌-◌, ◌<◌, ◌≤◌, ◌≡◌, ◌≢◌, ◌∙◌, refl, sym, subst, ap, ap₂, min, true, false,
  ◌&&◌, List, [], ◌∷◌, ◌++◌, ltb, leb, ◌==◌, if◌then◌else◌, Bool-cases, inl, inr, length,
  length-drop, take, drop, at, at-drop, in_range, mem_copy, length-mem_copy, at-mem_copy, arith,
}
use iocom.Streamer.Ring.{Put, put_to_end, put_to_tail, write_internal}
use iocom.Streamer.Window.{
  forward, distance, window, contents, window-add, window_ext, forward-lt, forward-forward,
}

-- `k` bytes of `src` were put into the ring from `head` on, and no other index was written.
pub record Puts (sz : ℕ) (ring : List ℕ) (head : ℕ) (src : List ℕ) (k : ℕ) (r : Put) : Type 0 where
  pub count : r.nbytes ≡ k
  pub same_length : length r.ring ≡ length ring
  pub moved : r.head ≡ forward sz head k
  pub enough : k ≤ length src
  pub stored : (j : ℕ) → j < k → at r.ring (forward sz head j) ≡ at src j
  pub kept : (p : ℕ) → p < sz → ((j : ℕ) → j < k → p ≢ forward sz head j) → at r.ring p ≡ at ring p

module _ (ring src : List ℕ) (sz head n : ℕ) (whole : length ring ≡ sz)
    (inside : head + n ≤ sz) where
  copied : (j : ℕ) → j < n → at (mem_copy ring head src 0 n) (forward sz head j) ≡ at src j
  copied j h =
      let here : (in_range head n (forward sz head j) && ltb (forward sz head j) (length ring))
          ≡ true =
        ground arith in
      let back : 0 + (forward sz head j - head) ≡ j = ground arith in
      at-mem_copy ring head src 0 n (forward sz head j) ∙ rw here (ap (at src) back)

  not_copied :
      (p : ℕ)
      → p < sz
      → ((j : ℕ) → j < n → p ≢ forward sz head j)
      → at (mem_copy ring head src 0 n) p ≡ at ring p
  not_copied p p_in other = elim (Bool-cases (in_range head n p)) [
    | inr out ↦ at-mem_copy ring head src 0 n p ∙ rw out refl
    | inl here ↦ absurd (other (p - head) (ground arith) (ground arith))
  ]

put_to_end-Puts :
    (ring src : List ℕ) (sz head tail : ℕ)
    → length ring ≡ sz
    → head < sz
    → Puts sz ring head src
        (min (if tail == 0 then sz - head - 1 else sz - head) (length src))
        (put_to_end ring src sz head tail)
unfolding put_to_end
put_to_end-Puts ring src sz head tail whole inside =
    let room = if tail == 0 then sz - head - 1 else sz - head in
    let small : room ≤ sz - head = ground arith in
    record {
      count = refl;
      same_length = length-mem_copy ring head src 0 (min room (length src));
      moved = ground arith;
      enough = omega arith;
      stored = copied ring src sz head (min room (length src)) whole (omega arith);
      kept = not_copied ring src sz head (min room (length src)) whole (omega arith);
    }

put_to_tail-Puts :
    (ring src : List ℕ) (sz head tail : ℕ)
    → length ring ≡ sz
    → head < tail
    → tail < sz
    → Puts sz ring head src (min (tail - head - 1) (length src)) (put_to_tail ring src head tail)
unfolding put_to_tail
put_to_tail-Puts ring src sz head tail whole inside last = record {
  count = refl;
  same_length = length-mem_copy ring head src 0 (min (tail - head - 1) (length src));
  moved = ground arith;
  enough = omega arith;
  stored = copied ring src sz head (min (tail - head - 1) (length src)) whole (omega arith);
  kept = not_copied ring src sz head (min (tail - head - 1) (length src)) whole (omega arith);
}

-- One put after another, where together they do not come round.
Puts-then :
    (sz : ℕ) (ring : List ℕ) (head : ℕ) (src : List ℕ) (k l : ℕ) (r q : Put)
    → head < sz
    → k + l ≤ sz
    → Puts sz ring head src k r
    → Puts sz r.ring r.head (drop k src) l q
    → Puts sz ring head src (k + l) (record q { nbytes = r.nbytes + q.nbytes })
Puts-then sz ring head src k l r q inside fits p s =
    let from : (j : ℕ) → j ≤ l → forward sz r.head j ≡ forward sz head (k + j) = λ j h.
      ap (λ i. forward sz i j) p.moved ∙ forward-forward ring sz head k j inside (omega arith) in
    record {
      count = omega (arith, p.count, s.count);
      same_length = s.same_length ∙ p.same_length;
      moved = s.moved ∙ from l (omega arith);
      enough = omega (arith, p.enough, s.enough, length-drop k src);
      stored = λ j h. elim (Bool-cases (ltb j k)) [
        | inl early ↦
            s.kept (forward sz head j) (forward-lt ring sz head j inside (omega arith))
              (λ i i_in e. absurd (ground (arith, from i (omega arith))))
            ∙ p.stored j (ground arith)
        | inr late ↦
            let e : forward sz r.head (j - k) ≡ forward sz head j =
              from (j - k) (ground arith) ∙ ap (forward sz head) (ground arith) in
            ap (at q.ring) (sym e)
            ∙ s.stored (j - k) (ground arith)
            ∙ at-drop k src (j - k)
            ∙ ap (at src) (ground arith)
      ];
      kept = λ i i_in other.
          s.kept i i_in (λ j j_in e. other (k + j) (omega arith) (e ∙ from j (omega arith)))
          ∙ p.kept i i_in (λ j j_in. other j (omega arith));
    }

-- How many bytes are put.
abbrev pub put_count : ℕ → ℕ → ℕ → ℕ → ℕ
put_count sz tail head n = min n (sz - 1 - distance sz tail head)

Puts-count :
    (sz : ℕ) (ring : List ℕ) (head : ℕ) (src : List ℕ) (k l : ℕ) (r : Put)
    → k ≡ l
    → Puts sz ring head src k r
    → Puts sz ring head src l r
Puts-count sz ring head src k l r e p = subst (λ m. Puts sz ring head src m r) e p

Puts-nothing :
    (sz : ℕ) (ring : List ℕ) (head : ℕ) (src : List ℕ)
    → head < sz
    → Puts sz ring head src 0 (record { ring = ring; head = head; nbytes = 0 })
Puts-nothing sz ring head src h = record {
  count = refl;
  same_length = refl;
  moved = ground arith;
  enough = omega arith;
  stored = λ j less. absurd (omega arith);
  kept = λ p p_in other. refl;
}

module _ (ring src : List ℕ) (sz head tail : ℕ) (whole : length ring ≡ sz) (h : head < sz)
    (t : tail < sz) where
  -- `head` before `tail`: one put.
  write_before :
      head < tail
      → Puts sz ring head src
          (put_count sz tail head (length src))
          (write_internal ring src sz head tail)
  unfolding write_internal
  write_before less =
      let a : leb tail head ≡ false = ground arith in
      let b : ltb head tail ≡ true = ground arith in
      rw (a, b)
        (Puts-count sz ring head src _ _ _ (ground arith) (
          Puts-then sz ring head src 0 (min (tail - head - 1) (length src)) _ _ h (omega arith)
            (Puts-nothing sz ring head src h)
            (put_to_tail-Puts ring src sz head tail whole less t)))

  -- `head` not before `tail`: a put up to the end, and another if that has come round.
  write_behind :
      tail ≤ head
      → Puts sz ring head src
          (put_count sz tail head (length src))
          (write_internal ring src sz head tail)
  unfolding write_internal
  write_behind le =
      let a : leb tail head ≡ true = ground arith in
      let k = min (if tail == 0 then sz - head - 1 else sz - head) (length src) in
      let r = put_to_end ring src sz head tail in
      let p = put_to_end-Puts ring src sz head tail whole h in
      elim (Bool-cases (ltb r.head tail)) [
        | inl round ↦
            let l = min (tail - r.head - 1) (length (drop k src)) in
            let start : (r.head ≡ 0) × (k ≡ sz - head) = ground (arith, p.moved) in
            let next : put_to_tail r.ring (drop r.nbytes src) r.head tail
                ≡ put_to_tail r.ring (drop k src) r.head tail =
              ap (λ m. put_to_tail r.ring (drop m src) r.head tail) p.count in
            rw (a, round, next)
              (Puts-count sz ring head src (k + l) _ _ (ground (arith, length-drop k src)) (
                Puts-then sz ring head src k l r _ h (omega arith) p (
                  put_to_tail-Puts r.ring (drop k src) sz r.head tail (p.same_length ∙ whole)
                    (ground arith) t)))
        | inr not_round ↦
            rw (a, not_round) (Puts-count sz ring head src k _ r (ground (arith, p.moved)) p)
      ]

  pub write_internal-Puts :
      Puts sz ring head src
        (put_count sz tail head (length src))
        (write_internal ring src sz head tail)
  write_internal-Puts = elim (Bool-cases (leb tail head)) [
    | inl le ↦ write_behind (ground arith)
    | inr less ↦ write_before (ground arith)
  ]

-- Bytes one by one are the window.
window_stored :
    (ring src : List ℕ) (sz i k : ℕ)
    → i < sz
    → k ≤ sz
    → k ≤ length src
    → ((j : ℕ) → j < k → at ring (forward sz i j) ≡ at src j)
    → window ring sz i k ≡ take k src
unfolding window
window_stored ring src sz i zero h fits le e = refl
window_stored ring [] sz i (suc k) h fits le e = absurd (omega arith)
window_stored ring (x ∷ src) sz i (suc k) h fits le e =
    ap₂ ◌∷◌ (ap (at ring) (let z : i ≡ forward sz i 0 = ground arith in z) ∙ e 0 (omega arith)) (
      window_stored ring src sz (forward sz i 1) k (forward-lt ring sz i 1 h (omega arith))
        (omega arith) (omega arith)
        (λ j less.
          ap (at ring)
            (forward-forward ring sz i 1 j h (omega arith) ∙ ap (forward sz i) (omega arith))
          ∙ e (suc j) (omega arith)))

-- What a write to the ring leaves.
pub record IsWritten (ring src : List ℕ) (sz head tail : ℕ) (r : Put) : Type 0 where
  pub size : length r.ring ≡ sz
  pub in_ring : r.head < sz
  pub count : r.nbytes ≡ put_count sz tail head (length src)
  pub holds : contents r.ring sz tail r.head ≡ contents ring sz tail head ++ take r.nbytes src

-- `ioc_streamer_write_internal` takes as many of the bytes as there is room for, with one place kept
-- free, puts them behind what the ring holds, and leaves the rest of it as it was, if `buf_sz` is
-- the size of the ring and `head` and `tail` are in it.
pub write_internal-IsWritten :
    (ring src : List ℕ) (sz head tail : ℕ)
    → length ring ≡ sz
    → head < sz
    → tail < sz
    → IsWritten ring src sz head tail (write_internal ring src sz head tail)
unfolding contents
write_internal-IsWritten ring src sz head tail whole h t =
    let r = write_internal ring src sz head tail in
    let d = distance sz tail head in
    let k = put_count sz tail head (length src) in
    let p = write_internal-Puts ring src sz head tail whole h t in
    let far : d + k < sz = ground arith in
    let from : forward sz tail d ≡ head = ground arith in
    let gone : distance sz tail r.head ≡ d + k = ap (distance sz tail) p.moved ∙ ground arith in
    let old : window r.ring sz tail d ≡ window ring sz tail d =
      window_ext r.ring ring sz tail d t (omega arith) (λ j j_in.
        p.kept (forward sz tail j) (forward-lt ring sz tail j t (omega arith))
          (λ i i_in e. absurd (ground (arith, from)))) in
    let new : window r.ring sz head k ≡ take k src =
      window_stored r.ring src sz head k h (omega arith) p.enough p.stored in
    record {
      size = p.same_length ∙ whole;
      in_ring = subst (λ i. i < sz) (sym p.moved) (forward-lt ring sz head k h (omega arith));
      count = p.count;
      holds =
          ap (window r.ring sz tail) gone
          ∙ window-add r.ring sz tail d k t (omega arith)
          ∙ ap₂ ◌++◌ old
              (ap (λ i. window r.ring sz i k) from ∙ new ∙ ap (λ m. take m src) (sym p.count));
    }
