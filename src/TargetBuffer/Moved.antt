-- ===== src/TargetBuffer/Moved.antt =====
-- code/ioc_target_buffer.c: what moving the received bytes leaves to do.
use iocom.Base.{
  ℕ, ◌≤◌, ◌<◌, ◌≡◌, ◌⊎◌, inl, inr, refl, sym, ap, ◌∙◌, true, false, ◌&&◌, List, ltb, leb, at, arith,
  subst, Bool-cases, ltb→lt, ltb_false→le,
}
use native.Mathlib.Decide.{ℕ_discrete}
use iocom.TargetBuffer.{TargetBuffer, new_start, new_end, move_range, mark_used, synchronize}
use iocom.TargetBuffer.Received.{Pending, Untaken, InNew, new_bounds, at-move_range}

-- What `ioc_tbuf_synchronize` has done: `buf` has all the received data bytes, the new range is
-- empty, and what the memory block lacks is in the range to be taken over.
pub record IsMoved (mblk : List ℕ) (t u : TargetBuffer) : Type 0 where
  pub no_new_data : u.has_new_data ≡ false
  pub same_newdata : u.newdata ≡ t.newdata
  pub same_ndata : u.ndata ≡ t.ndata
  pub current : (k : ℕ) → k < t.ndata → at u.buf k ≡ at t.newdata k
  pub untaken : Untaken mblk u

module _ (t : TargetBuffer) where
  synchronize_nothing : t.has_new_data ≡ false → synchronize t ≡ t
  unfolding synchronize
  synchronize_nothing e = ground arith

  synchronize_same :
      t.has_new_data ≡ true
      → ltb (new_end t) (new_start t) ≡ true
      → synchronize t ≡ record t { has_new_data = false }
  unfolding synchronize
  synchronize_same e h = ground arith

  abbrev moved_range : TargetBuffer
  moved_range = record t { has_new_data = false; buf = move_range (new_start t) (new_end t) t }

  synchronize_moved :
      t.has_new_data ≡ true
      → ltb (new_end t) (new_start t) ≡ false
      → synchronize t ≡ mark_used (new_start t) (new_end t) moved_range
  unfolding synchronize
  synchronize_moved e h = ground arith

  -- Outside the bounds that are left the two arrays agree.
  same_outside :
      Pending t
      → (k : ℕ) → k < t.ndata
      → (InNew t k × (new_start t ≤ k) × (k ≤ new_end t) → ⊥)
      → at t.newdata k ≡ at t.buf k
  same_outside p k h out = elim (ℕ_discrete (at t.newdata k) (at t.buf k)) [
    | yes e ↦ e
    | no ne ↦
        let (set, low, high) = p.range k h ne in
        let (a, b, f, g) = new_bounds t in
        absurd (elim (Bool-cases (ltb k (new_start t))) [
          | inl before ↦ ne (sym (f k low (ltb→lt k _ before)))
          | inr later ↦ elim (Bool-cases (ltb (new_end t) k)) [
            | inl after ↦ ne (sym (g k (omega (arith, ltb→lt _ k after)) (omega arith)))
            | inr there ↦ out ((set, low, high), ltb_false→le k _ later, ltb_false→le _ k there)
          ]
        ])
  ]

mark_used_range :
    (i j k : ℕ) (t : TargetBuffer)
    → ((i ≤ k) × (k ≤ j)) ⊎ ((t.buf_used ≡ true) × (t.buf_start_addr ≤ k) × (k ≤ t.buf_end_addr))
    → ((mark_used i j t).buf_used ≡ true)
      × ((mark_used i j t).buf_start_addr ≤ k)
      × (k ≤ (mark_used i j t).buf_end_addr)
unfolding mark_used
mark_used_range i j k t o = ground arith

mark_used_keeps :
    (i j : ℕ) (t : TargetBuffer)
    → ((mark_used i j t).buf ≡ t.buf)
      × ((mark_used i j t).newdata ≡ t.newdata)
      × ((mark_used i j t).ndata ≡ t.ndata)
      × ((mark_used i j t).has_new_data ≡ t.has_new_data)
unfolding mark_used
mark_used_keeps i j t = ground arith

mark_used-IsMoved :
    (mblk : List ℕ) (t : TargetBuffer)
    → Pending t
    → Untaken mblk t
    → IsMoved mblk t (mark_used (new_start t) (new_end t) (moved_range t))
unfolding Untaken
mark_used-IsMoved mblk t p u =
    let (buf, new, n, has) = mark_used_keeps (new_start t) (new_end t) (moved_range t) in
    let at_buf = λ (k : ℕ) (h : k < t.ndata).
      ap (λ xs. at xs k) buf ∙ at-move_range (new_start t) (new_end t) t k h p.room in
    record {
      no_new_data = has;
      same_newdata = new;
      same_ndata = n;
      current = λ k h. at_buf k h ∙ elim (Bool-cases (leb (new_start t) k && leb k (new_end t))) [
        | inl inside ↦ rw inside
        | inr outside ↦ rw outside (sym (same_outside t p k h (λ (_, a, b). ground arith)))
      ];
      untaken = λ k h d.
          let k_in : k < t.ndata = omega (arith, n) in
          mark_used_range (new_start t) (new_end t) k (moved_range t)
            (elim (Bool-cases (leb (new_start t) k && leb k (new_end t))) [
              | inl inside ↦ inl (ground arith)
              | inr outside ↦ inr (u k k_in (λ e. d (at_buf k k_in ∙ rw outside e)))
            ]);
    }

-- If what was received is in the new range, `ioc_tbuf_synchronize` moves all of it to `buf`, and
-- every byte that the memory block does not have is in the range that it is to take over.
pub synchronize-IsMoved :
    (mblk : List ℕ) (t : TargetBuffer) → Pending t → Untaken mblk t → IsMoved mblk t (synchronize t)
unfolding Untaken
synchronize-IsMoved mblk t p u = elim (Bool-cases (t.has_new_data)) [
  | inr nothing ↦ subst (IsMoved mblk t) (sym (synchronize_nothing t nothing)) (record {
    no_new_data = nothing;
    same_newdata = refl;
    same_ndata = refl;
    current = λ k h. sym (same_outside t p k h (λ ((a, _, _), _, _). cc));
    untaken = u;
  })
  | inl some_new ↦ elim (Bool-cases (ltb (new_end t) (new_start t))) [
    | inl same ↦ subst (IsMoved mblk t) (sym (synchronize_same t some_new same)) (record {
      no_new_data = refl;
      same_newdata = refl;
      same_ndata = refl;
      current =
          λ k h. sym (same_outside t p k h (λ (_, a, b). absurd (omega (arith, ltb→lt _ _ same))));
      untaken = u;
    })
    | inr range ↦
        subst (IsMoved mblk t) (sym (synchronize_moved t some_new range))
          (mark_used-IsMoved mblk t p u)
  ]
]
