-- ===== src/SignalAddr/Affected.antt =====
-- The signals that `ioc_get_signal_range_by_hdr` of code/ioc_signal_addr.c finds.
use iocom.Base.{
  ℕ, ◌+◌, ◌-◌, ◌<◌, ◌≤◌, ◌≡◌, ◌∙◌, sym, true, false, Option, none, some, inl, inr, Bool-cases,
  true≢false, subst, ltb, ◌==◌, ltb→lt, ltb_false→le, ==→eq, Returns, returns, arith,
}
use iocom.SignalAddr.{
  Signal, Types, nro_signal_bytes, signal_end, is_my_address, settle, misses, last_signals,
  get_signal_range_by_hdr,
}
use iocom.SignalAddr.Search.{
  addr-signal_end, IsSorted, Before, After, Settled, search_signal-Returns,
}

-- A range touches a signal if it neither ends before it nor begins behind it.
touches :
    (ty : Types) (s : Signal) (i j : ℕ)
    → s.addr ≤ j
    → i ≤ signal_end ty s
    → is_my_address ty s i j ≡ true
unfolding is_my_address signal_end nro_signal_bytes
touches ty s i j h k = ground arith

off_before : (ty : Types) (s : Signal) (i j : ℕ) → j < s.addr → is_my_address ty s i j ≡ false
unfolding is_my_address
off_before ty s i j h = ground arith

off_after :
    (ty : Types) (s : Signal) (i j : ℕ) → signal_end ty s < i → is_my_address ty s i j ≡ false
unfolding is_my_address signal_end nro_signal_bytes
off_after ty s i j h = ground arith

module _ (ty : Types) (sig : ℕ → Signal) (n start_addr end_addr : ℕ) where
  -- Of a result: it has every signal that is touched, and none but its first and its last may be
  -- untouched.
  pub Finds : Option (ℕ × ℕ) → Type 0
  Finds none = (k : ℕ) → k < n → is_my_address ty (sig k) start_addr end_addr ≡ false
  Finds (some (f, c)) =
      (f + c ≤ n)
      × ((k : ℕ)
          → k < n
          → is_my_address ty (sig k) start_addr end_addr ≡ true
          → (f ≤ k) × (k < f + c))
      × ((k : ℕ) → f < k → k + 1 < f + c → is_my_address ty (sig k) start_addr end_addr ≡ true)

  -- A range before all signals or behind all of them touches none.
  outside :
      IsSorted ty sig n → misses ty (sig 0) (sig (n - 1)) start_addr end_addr ≡ true → Finds none
  unfolding Finds misses IsSorted
  outside sorted off k k_in = elim (Bool-cases (ltb end_addr (sig 0).addr)) [
    | inl below ↦ off_before ty (sig k) start_addr end_addr (elim (Bool-cases (k == 0)) [
      | inl first ↦ subst (λ x. end_addr < (sig x).addr) (ground arith) (ltb→lt _ _ below)
      | inr later ↦
          omega
            (arith, ltb→lt _ _ below, sorted 0 k (ground arith) k_in, addr-signal_end ty (sig 0))
    ])
    | inr not_below ↦
        let behind : signal_end ty (sig (n - 1)) < start_addr = ground arith in
        off_after ty (sig k) start_addr end_addr (elim (Bool-cases (k == n - 1)) [
          | inl last ↦ subst (λ x. signal_end ty (sig x) < start_addr) (ground arith) behind
          | inr before ↦ omega (
            arith,
            behind,
            sorted k (n - 1) (ground arith) (omega arith),
            addr-signal_end ty (sig (n - 1)),
          )
        ])
  ]

  rest_of : ℕ → ℕ → Signal
  rest_of f i = sig (f + i)

  IsSorted-rest_of : (f : ℕ) → IsSorted ty sig n → IsSorted ty (rest_of f) (n - f)
  unfolding IsSorted rest_of
  IsSorted-rest_of f sorted i j less j_in = sorted (f + i) (f + j) (omega arith) (omega arith)

  -- What the second search says, in indices of all the signals.
  module _ (f k : ℕ) (q : Settled ty (rest_of f) (n - f) end_addr k) where
    ends_before : (m : ℕ) → f ≤ m → m < f + k → m < n → signal_end ty (sig m) < end_addr
    unfolding rest_of Before
    ends_before m from to m_in =
        subst (λ x. signal_end ty (sig x) < end_addr) (omega arith)
          (q.before (m - f) (omega arith) (omega arith))

    begins_after : (m : ℕ) → f + k < m → m < n → end_addr < (sig m).addr
    unfolding rest_of After
    begins_after m from m_in =
        subst (λ x. end_addr < (sig x).addr) (omega arith)
          (q.after (m - f) (omega arith) (omega arith))

  module _ (f : ℕ) (p : Settled ty sig n start_addr f) (k : ℕ)
      (q : Settled ty (rest_of f) (n - f) end_addr k) where
    Finds-none : k ≡ 0 → misses ty (sig f) (sig f) start_addr end_addr ≡ true → Finds none
    unfolding Finds misses Before
    Finds-none zero_k off m m_in = elim (Bool-cases (ltb m f)) [
      | inl early ↦ off_after ty (sig m) start_addr end_addr (p.before m (ltb→lt _ _ early) m_in)
      | inr late ↦ elim (Bool-cases (ltb f m)) [
        | inl behind ↦
            off_before ty (sig m) start_addr end_addr
              (begins_after f k q m (omega (arith, ltb→lt _ _ behind)) m_in)
        | inr not_behind ↦
            subst (λ x. is_my_address ty (sig x) start_addr end_addr ≡ false) (ground arith)
              (elim (Bool-cases (ltb end_addr (sig f).addr)) [
                | inl below ↦ off_before ty (sig f) start_addr end_addr (ltb→lt _ _ below)
                | inr not_below ↦ off_after ty (sig f) start_addr end_addr (ground arith)
              ])
      ]
    ]

    Finds-some : start_addr ≤ end_addr → Finds (some (f, k + 1))
    unfolding Finds Before After
    Finds-some ordered = (
      omega (arith, q.inside),
      λ m m_in touched. (
        elim (Bool-cases (ltb m f)) [
          | inl early ↦ absurd (
              true≢false (
                sym touched
                ∙ off_after ty (sig m) start_addr end_addr (p.before m (ltb→lt _ _ early) m_in)))
          | inr late ↦ ltb_false→le _ _ late
        ],
        elim (Bool-cases (ltb (f + k) m)) [
          | inl behind ↦ absurd (
              true≢false (
                sym touched
                ∙ off_before ty (sig m) start_addr end_addr
                    (begins_after f k q m (ltb→lt _ _ behind) m_in)))
          | inr inside ↦ omega (arith, ltb_false→le _ _ inside)
        ],
      ),
      λ m from to.
          let m_in : m < n = omega (arith, q.inside) in
          let low = p.after m from m_in in
          let high = ends_before f k q m (omega arith) (omega arith) m_in in
          touches ty (sig m) start_addr end_addr (omega (arith, addr-signal_end ty (sig m)))
            (omega (arith, addr-signal_end ty (sig m))),
    )

  last_signals-Finds :
      IsSorted ty sig n
      → start_addr ≤ end_addr
      → (f : ℕ) → Settled ty sig n start_addr f
      → Returns Finds (last_signals ty sig n start_addr end_addr f)
  unfolding last_signals rest_of
  last_signals-Finds sorted ordered f p =
      search_signal-Returns ty (rest_of f) (n - f) end_addr _ n (IsSorted-rest_of f sorted)
        (omega (arith, p.inside)) (omega arith)
        (λ i j q.
          let k = settle (rest_of f) end_addr i j in
          elim (Bool-cases (k == 0)) [
            | inr some_k ↦ rw some_k (returns (Finds-some f p k q ordered))
            | inl zero_k ↦
                elim (Bool-cases (misses ty (sig (f + 0)) (sig (f + 0)) start_addr end_addr)) [
                  | inr hit ↦ rw (zero_k, hit) (returns (Finds-some f p k q ordered))
                  | inl off ↦
                      rw (zero_k, off)
                        (returns (
                          Finds-none f p k q (==→eq k 0 zero_k) (
                            subst (λ x. misses ty (sig x) (sig x) start_addr end_addr ≡ true)
                              (omega arith) off)))
                ]
          ])

-- If the signals of a memory block, of which there is one at least, are in the order of their
-- addresses and do not overlap, and the range of addresses does not end before it begins,
-- `ioc_get_signal_range_by_hdr` returns, and every signal that `ioc_is_my_address` reports for the
-- range of addresses is among those that it finds. All that it finds are touched, but for the first
-- and the last of them.
pub get_signal_range_by_hdr-Finds :
    (ty : Types) (sig : ℕ → Signal) (n start_addr end_addr : ℕ)
    → IsSorted ty sig n
    → 1 ≤ n
    → start_addr ≤ end_addr
    → Returns
        (Finds ty sig n start_addr end_addr)
        (get_signal_range_by_hdr ty sig n start_addr end_addr)
unfolding get_signal_range_by_hdr
get_signal_range_by_hdr-Finds ty sig n start_addr end_addr sorted some_in ordered =
    let any : (n == 0) ≡ false = ground arith in
    elim (Bool-cases (misses ty (sig 0) (sig (n - 1)) start_addr end_addr)) [
      | inl off ↦ rw (any, off) (returns (outside ty sig n start_addr end_addr sorted off))
      | inr on ↦
          rw (any, on)
            (search_signal-Returns ty sig n start_addr _ n sorted some_in (omega arith)
              (λ i j p. last_signals-Finds ty sig n start_addr end_addr sorted ordered _ p))
    ]
