-- ===== src/Signal/Bits.antt =====
-- code/ioc_signal.c: the masks of state bits.
use iocom.Base.{
  ℕ, zero, suc, ◌^◌, ◌<◌, ◌≡◌, ◌≢◌, refl, sym, subst₂, Bool, true, false, not, ◌&&◌, ◌||◌, bit_and,
  bit_or, ◌==◌, if◌then◌else◌, arith,
}
use iocom.Signal.{Osal, clear_bits, with_boolean}

-- Each mask is a bit of a byte, and they are not the same.
pub record AreMasks (o : Osal) : Type 0 where
  pub boolean_index : ℕ
  pub connected_index : ℕ
  pub boolean_in : boolean_index < 8
  pub connected_in : connected_index < 8
  pub boolean_bit : o.boolean_value ≡ 2 ^ boolean_index
  pub connected_bit : o.connected ≡ 2 ^ connected_index
  pub separate : boolean_index ≢ connected_index

unfoldable pub holds_below : (ℕ → Bool) → ℕ → Bool
holds_below f zero = true
holds_below f (suc n) = let rest = holds_below f n in f n && rest

pub holds_below→true : (f : ℕ → Bool) (n i : ℕ) → holds_below f n ≡ true → i < n → f i ≡ true
unfolding holds_below
holds_below→true f zero i e h = absurd (omega arith)
holds_below→true f (suc n) i e h = ground (arith, holds_below→true f n i (ground arith))

-- What the test of the bit `i` finds after it was set or cleared, and after the bit `j` was cleared
-- too.
tells : ℕ → ℕ → ℕ → Bool
tells i j sb =
    let set = bit_or sb (2 ^ i) in
    let cleared = clear_bits sb (2 ^ i) in
    not (bit_and set (2 ^ i) == 0)
    && (bit_and cleared (2 ^ i) == 0)
    && (bit_and (clear_bits cleared (2 ^ j)) (2 ^ i) == 0)
    && ((i == j) || not (bit_and (clear_bits set (2 ^ j)) (2 ^ i) == 0))

table : holds_below (λ i. holds_below (λ j. holds_below (tells i j) 256) 8) 8 ≡ true
unfolding holds_below tells
table = refl

told : (i j sb : ℕ) → i < 8 → j < 8 → sb < 256 → tells i j sb ≡ true
told i j sb i_in j_in sb_in =
    holds_below→true (tells i j) 256 sb
      (holds_below→true (λ j. holds_below (tells i j) 256) 8 j
        (holds_below→true (λ i. holds_below (λ j. holds_below (tells i j) 256) 8) 8 i table i_in)
        j_in)
      sb_in

-- What is found of the boolean value, after the bit `j` was cleared too.
abbrev marked : Bool → ℕ → ℕ → ℕ
marked b mask sb = if b then clear_bits sb mask else bit_or sb mask

abbrev Finds : Bool → ℕ → ℕ → ℕ → Type 0
Finds b boolean_value connected sb =
    ((bit_and (marked b boolean_value sb) boolean_value == 0) ≡ b)
    × ((bit_and (clear_bits (marked b boolean_value sb) connected) boolean_value == 0) ≡ b)

tells-Finds : (b : Bool) (i j sb : ℕ) → i ≢ j → tells i j sb ≡ true → Finds b (2 ^ i) (2 ^ j) sb
unfolding tells
tells-Finds true i j sb apart h = (ground arith, ground arith)
tells-Finds false i j sb apart h = (ground arith, ground arith)

-- The boolean value is found again, also when the connection is lost.
pub with_boolean-Finds :
    (o : Osal) (v sb : ℕ)
    → AreMasks o
    → sb < 256
    → ((bit_and (with_boolean o v sb) o.boolean_value == 0) ≡ (v == 0))
      × ((bit_and (clear_bits (with_boolean o v sb) o.connected) o.boolean_value == 0) ≡ (v == 0))
unfolding with_boolean
with_boolean-Finds o v sb masks sb_in =
    subst₂ (λ b c. Finds (v == 0) b c sb) (sym masks.boolean_bit) (sym masks.connected_bit)
      (tells-Finds (v == 0) masks.boolean_index masks.connected_index sb masks.separate (
        told masks.boolean_index masks.connected_index sb masks.boolean_in masks.connected_in
          sb_in))
