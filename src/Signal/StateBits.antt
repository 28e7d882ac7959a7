-- ===== src/Signal/StateBits.antt =====
-- code/ioc_signal.c: `ioc_set_state_bits`.
use iocom.Base.{
  ℕ, ◌+◌, ◌-◌, ◌<◌, ◌≡◌, ◌∙◌, refl, sym, ap, Bool, true, false, Bool-cases, not, ◌&&◌, ◌||◌,
  bit_and, bit_or, ◌==◌, if◌then◌else◌, arith, inl, inr, Option, none, some, List, [], ◌∷◌, length,
  at, min, ltb, leb, at-mem_copy,
}
use iocom.MemoryBlock.{MemoryBlock, bytes, store_content, mblk_invalidate, write_mblk, read_mblk}
use iocom.SignalAddr.{Signal}
use iocom.Signal.{clear_bits}
use iocom.Signal.Bits.{holds_below, holds_below→true}
use iocom.Signal.Move.{change_bits, set_state_bits}

-- A write that is left out would not have changed the byte.
is_idle : ℕ → ℕ → Bool
is_idle mask current =
    (not (bit_and current mask == 0) || (clear_bits current mask == current))
    && (not (mask == bit_and mask current) || (bit_or current mask == current))

table : holds_below (λ mask. holds_below (is_idle mask) 256) 256 ≡ true
unfolding holds_below is_idle
table = refl

idle : (mask current : ℕ) → mask < 256 → current < 256 → is_idle mask current ≡ true
idle mask current mask_in current_in =
    holds_below→true (is_idle mask) 256 current
      (holds_below→true (λ mask. holds_below (is_idle mask) 256) 256 mask table mask_in) current_in

-- The byte after the change.
abbrev pub changed_bits : Bool → ℕ → ℕ → ℕ
changed_bits clear mask current = if clear then clear_bits current mask else bit_or current mask

change_bits-idle :
    (clear : Bool) (mask current : ℕ)
    → mask < 256
    → current < 256
    → (change_bits clear mask current).1 ≡ false
    → changed_bits clear mask current ≡ current
unfolding change_bits is_idle
change_bits-idle true mask current h k e = let all = idle mask current h k in ground arith
change_bits-idle false mask current h k e = let all = idle mask current h k in ground arith

changed :
    (clear : Bool) (mask current : ℕ)
    → (change_bits clear mask current).0 ≡ changed_bits clear mask current
unfolding change_bits
changed true mask current = refl
changed false mask current = refl

-- One byte that is read, and one that is written.
read_byte :
    (addr : ℕ) (m : MemoryBlock)
    → addr < length m.buf
    → at (read_mblk addr false 1 m (0 ∷ [])) 0 ≡ at m.buf addr
unfolding read_mblk
read_byte addr m inside =
    let room : leb (length m.buf) addr ≡ false = ground arith in
    let count : min 1 (length m.buf - addr) ≡ 1 = omega arith in
    let whole : ltb (length m.buf - addr) 1 ≡ false = ground arith in
    let here : addr + (0 - 0) ≡ addr = omega arith in
    rw (room, count, whole) (at-mem_copy (0 ∷ []) 0 m.buf addr 1 0 ∙ ap (at m.buf) here)

write_byte :
    (addr b : ℕ) (m : MemoryBlock) (k : ℕ)
    → addr < length m.buf
    → k < length m.buf
    → at (write_mblk addr (bytes (b ∷ [])) 1 m).buf k ≡ (if k == addr then b else at m.buf k)
unfolding write_mblk store_content mblk_invalidate
write_byte addr b m k inside k_in =
    let room : leb (length m.buf) addr ≡ false = ground arith in
    let count : min 1 (length m.buf - addr) ≡ 1 = omega arith in
    rw (room, count) (at-mem_copy m.buf addr (b ∷ []) 0 1 k ∙ one (k == addr) refl)
  where
    one :
        (e : Bool)
        → (k == addr) ≡ e
        → (if (leb addr k && ltb k (addr + 1)) && ltb k (length m.buf)
            then at (b ∷ []) (0 + (k - addr))
            else at m.buf k)
          ≡ (if e then b else at m.buf k)
    one true e =
        let first : 0 + (k - addr) ≡ 0 = ground arith in
        let hit : ((leb addr k && ltb k (addr + 1)) && ltb k (length m.buf)) ≡ true =
          ground arith in
        rw hit (ap (at (b ∷ [])) first)
    one false e =
        let miss : ((leb addr k && ltb k (addr + 1)) && ltb k (length m.buf)) ≡ false =
          ground arith in
        rw miss refl

-- The bytes of a memory block, if it is there.
unfoldable pub block_bytes : Option MemoryBlock → List ℕ
block_bytes none = []
block_bytes (some m) = m.buf

-- `ioc_set_state_bits` sets or clears the bits of the mask, and does nothing else, although it writes
-- the byte only if it finds that a bit changes. This holds for a mask and a state of one byte,
-- inside the memory block.
pub set_state_bits-at :
    (clear : Bool) (s : Signal) (mask : ℕ) (m : MemoryBlock) (k : ℕ)
    → s.addr < length m.buf
    → mask < 256
    → at m.buf s.addr < 256
    → k < length m.buf
    → at (block_bytes (set_state_bits clear s mask (some m))) k
      ≡ (if k == s.addr then changed_bits clear mask (at m.buf s.addr) else at m.buf k)
unfolding set_state_bits block_bytes
set_state_bits-at clear s mask m k inside mask_in byte k_in =
    ap
      (λ c.
        at
          (let r = change_bits clear mask c in
            if r.1 then write_mblk s.addr (bytes (r.0 ∷ [])) 1 m else m).buf
          k)
      (read_byte s.addr m inside)
    ∙ go (change_bits clear mask (at m.buf s.addr)).1 refl
  where
    c : ℕ
    c = at m.buf s.addr

    same : (change_bits clear mask c).0 ≡ changed_bits clear mask c
    same = changed clear mask c

    kept :
        changed_bits clear mask c ≡ c
        → at m.buf k ≡ (if k == s.addr then changed_bits clear mask c else at m.buf k)
    kept e = elim (Bool-cases (k == s.addr)) [
      | inl here ↦ let k_addr : k ≡ s.addr = ground arith in rw here (ap (at m.buf) k_addr ∙ sym e)
      | inr there ↦ rw there refl
    ]

    go :
        (b : Bool)
        → (change_bits clear mask c).1 ≡ b
        → at
            (if b then write_mblk s.addr (bytes ((change_bits clear mask c).0 ∷ [])) 1 m else m).buf
            k
          ≡ (if k == s.addr then changed_bits clear mask c else at m.buf k)
    go true e =
        write_byte s.addr (change_bits clear mask c).0 m k inside k_in
        ∙ ap (λ z. if k == s.addr then z else at m.buf k) same
    go false e = kept (change_bits-idle clear mask c mask_in byte e)
