-- ===== src/SignalAddr/Search.antt =====
-- The binary search of code/ioc_signal_addr.c.
use iocom.Base.{
  ℕ, zero, suc, ◌+◌, ◌-◌, ◌/◌, ◌<◌, ◌≤◌, ◌≡◌, false, inl, inr, Bool-cases, ltb, leb, ◌==◌, ltb→lt,
  ltb_false→le, leb→le, Run, ◌>>=◌, Returns, returns, Returns-bind, arith,
}
use iocom.SignalAddr.{Signal, Types, nro_signal_bytes, signal_end, search_signal, settle}

-- Every signal takes a byte at least.
pub addr-signal_end : (ty : Types) (s : Signal) → s.addr ≤ signal_end ty s
unfolding signal_end nro_signal_bytes
addr-signal_end ty s = ground arith

-- The signals are in the order of their addresses and do not overlap.
unfoldable pub IsSorted : Types → (ℕ → Signal) → ℕ → Type 0
IsSorted ty sig n = (i j : ℕ) → i < j → j < n → signal_end ty (sig i) < (sig j).addr

module _ (ty : Types) (sig : ℕ → Signal) (n key : ℕ) where
  -- No signal before `i` reaches the key.
  unfoldable pub Before : ℕ → Type 0
  Before i = (k : ℕ) → k < i → k < n → signal_end ty (sig k) < key

  -- Every signal after `j` begins behind the key.
  unfoldable pub After : ℕ → Type 0
  After j = (k : ℕ) → j < k → k < n → key < (sig k).addr

  record Narrow (r : ℕ × ℕ) : Type 0 where
    ordered : r.0 ≤ r.1
    close : r.1 ≤ r.0 + 1
    inside : r.1 < n
    before : Before r.0
    after : After r.1

  found_here :
      IsSorted ty sig n
      → (mid : ℕ) → mid < n
      → (sig mid).addr ≤ key
      → key ≤ signal_end ty (sig mid)
      → Narrow (mid, mid)
  unfolding IsSorted Before After
  found_here sorted mid h low high = record {
    ordered = omega arith;
    close = omega arith;
    inside = h;
    before = λ k less k_in. omega (arith, sorted k mid less h);
    after = λ k more k_in. omega (arith, sorted mid k more k_in);
  }

  -- The loop ends, and narrows the range to two signals at most.
  search_signal-Narrow :
      IsSorted ty sig n
      → (fuel first last : ℕ) → first ≤ last
      → last - first ≤ fuel
      → last < n
      → Before first
      → After last
      → Returns Narrow (search_signal ty sig key fuel first last)
  unfolding search_signal IsSorted Before After
  search_signal-Narrow sorted zero first last o enough h b a =
      let near : ltb (first + 1) last ≡ false = ground arith in
      rw near
        (returns (record { ordered = o; close = omega arith; inside = h; before = b; after = a }))
  search_signal-Narrow sorted (suc fuel) first last o enough h b a =
      elim (Bool-cases (ltb (first + 1) last)) [
        | inr near ↦ rw near (
            returns (record {
              ordered = o;
              close = omega (arith, ltb_false→le _ _ near);
              inside = h;
              before = b;
              after = a;
            }))
        | inl far ↦
            let wide = ltb→lt _ _ far in
            let mid = (first + last) / 2 in
            elim (Bool-cases (ltb key (sig mid).addr)) [
              | inl low ↦
                  rw (far, low)
                    (search_signal-Narrow sorted fuel first (mid - 1) (omega arith) (omega arith)
                      (omega arith) b
                      (λ k more k_in. elim (Bool-cases (mid == k)) [
                        | inl same ↦ ground arith
                        | inr other ↦
                            ground (
                              arith,
                              sorted mid k (ground arith) k_in,
                              addr-signal_end ty (sig mid),
                            )
                      ]))
              | inr not_low ↦ elim (Bool-cases (ltb (signal_end ty (sig mid)) key)) [
                | inl high ↦
                    rw (far, not_low, high)
                      (search_signal-Narrow sorted fuel (mid + 1) last (omega arith) (omega arith) h
                        (λ k less k_in. elim (Bool-cases (mid == k)) [
                          | inl same ↦ ground arith
                          | inr other ↦ ground (
                            arith,
                            sorted k mid (ground arith) (omega arith),
                            addr-signal_end ty (sig mid),
                          )
                        ])
                        a)
                | inr not_high ↦
                    rw (far, not_low, not_high)
                      (returns (
                        found_here sorted mid (omega arith) (ltb_false→le _ _ not_low)
                          (ltb_false→le _ _ not_high)))
              ]
            ]
      ]

  -- Where the search ends: only this signal can hold the key.
  pub record Settled (r : ℕ) : Type 0 where
    pub inside : r < n
    pub before : Before r
    pub after : After r

  settle-Settled : IsSorted ty sig n → (i j : ℕ) → Narrow (i, j) → Settled (settle sig key i j)
  unfolding settle IsSorted Before After
  settle-Settled sorted i j w = elim (Bool-cases (leb (sig j).addr key)) [
    | inl up ↦ rw up (record {
      inside = w.inside;
      before = λ k less k_in. elim (Bool-cases (ltb k i)) [
        | inl early ↦ w.before k (ltb→lt _ _ early) k_in
        | inr late ↦ omega (arith, leb→le _ _ up, sorted k j less w.inside)
      ];
      after = w.after;
    })
    | inr down ↦ rw down (record {
      inside = omega (arith, w.ordered, w.inside);
      before = w.before;
      after = λ k more k_in. elim (Bool-cases (j == k)) [
        | inl same ↦ ground arith
        | inr other ↦ w.after k (ground (arith, w.close)) k_in
      ];
    })
  ]

  -- The search over all signals ends, whatever is done with its result.
  pub search_signal-Returns :
      {A : Type 0} {P : A → Type 0} (go : ℕ × ℕ → Run A) (fuel : ℕ)
      → IsSorted ty sig n
      → 1 ≤ n
      → n ≤ fuel + 1
      → ((i j : ℕ) → Settled (settle sig key i j) → Returns P (go (i, j)))
      → Returns P (search_signal ty sig key fuel 0 (n - 1) >>= go)
  unfolding Before After
  search_signal-Returns go fuel sorted some_in enough then_go =
      Returns-bind go
        (search_signal-Narrow sorted fuel 0 (n - 1) (omega arith) (omega arith) (omega arith)
          (λ k less. absurd (omega arith)) (λ k more k_in. absurd (omega arith)))
        (λ (i, j) w. then_go i j (settle-Settled sorted i j w))
