-- ===== src/Frame/Flags.antt =====
-- The flags of a header, as the other end tests them.
use iocom.Base.{
  ℕ, ◌≡◌, refl, sym, not, ◌&&◌, arith, Bool, true, false, Option, none, some, bit_or, ◌==◌,
  if◌then◌else◌,
}
use iocom.Message.Numbers.{
  Width, one, two, four, two_bytes, four_bytes, flags_with, flags4_with, Tells,
}
use iocom.Frame.{
  has_flag, addr_has_two_bytes, mblk_has_two_bytes, has_extra_flags, addr_has_four_bytes,
  mblk_has_four_bytes, start_extra, start_flags,
}

-- The bits that are set after the header was made.
unfoldable pub or_bit : Bool → ℕ → ℕ → ℕ
or_bit true bit flags = bit_or flags bit
or_bit false bit flags = flags

-- The extra flags and the flags of a header, for the widths of its two numbers.
unfoldable pub extra_of : Bool → Width → Width → Option ℕ
extra_of extra w v =
    flags4_with v (flags4_with w (start_extra extra) mblk_has_four_bytes) addr_has_four_bytes

unfoldable pub flags_of : Bool → Width → Width → ℕ
flags_of extra w v =
    flags_with v (flags_with w (start_flags extra) mblk_has_two_bytes) addr_has_two_bytes

-- The receiver's extra flags: zero if the frame has none.
unfoldable pub extra_or_zero : Option ℕ → ℕ
extra_or_zero none = 0
extra_or_zero (some e) = e

unfoldable pub AreTold : ℕ → Bool → Width → Width → Type 0
AreTold flags extra w v =
    (has_flag flags mblk_has_two_bytes ≡ two_bytes w)
    × (has_flag flags addr_has_two_bytes ≡ two_bytes v)
    × (has_flag flags has_extra_flags ≡ extra)

unfoldable pub AreExtra : Option ℕ → Bool → Width → Width → Type 0
AreExtra e extra w v =
    (has_flag (extra_or_zero e) mblk_has_four_bytes ≡ four_bytes w)
    × (has_flag (extra_or_zero e) addr_has_four_bytes ≡ four_bytes v)
    × (e ≡ (if extra then some (extra_or_zero e) else none))
    × ((extra_or_zero e == 0) ≡ (if extra then false else true))

pub extra_of-AreExtra :
    (extra : Bool) (w v : Width)
    → Tells w (start_extra extra)
    → Tells v (flags4_with w (start_extra extra) mblk_has_four_bytes)
    → AreExtra (extra_of extra w v) extra w v
unfolding AreExtra extra_of flags4_with extra_or_zero four_bytes Tells
extra_of-AreExtra true one one h k = (refl, refl, refl, refl)
extra_of-AreExtra true one two h k = (refl, refl, refl, refl)
extra_of-AreExtra true one four h k = (refl, refl, refl, refl)
extra_of-AreExtra true two one h k = (refl, refl, refl, refl)
extra_of-AreExtra true two two h k = (refl, refl, refl, refl)
extra_of-AreExtra true two four h k = (refl, refl, refl, refl)
extra_of-AreExtra true four one h k = (refl, refl, refl, refl)
extra_of-AreExtra true four two h k = (refl, refl, refl, refl)
extra_of-AreExtra true four four h k = (refl, refl, refl, refl)
extra_of-AreExtra false one one h k = (refl, refl, refl, refl)
extra_of-AreExtra false one two h k = (refl, refl, refl, refl)
extra_of-AreExtra false one four h k = absurd k
extra_of-AreExtra false two one h k = (refl, refl, refl, refl)
extra_of-AreExtra false two two h k = (refl, refl, refl, refl)
extra_of-AreExtra false two four h k = absurd k
extra_of-AreExtra false four v h k = absurd h

-- What holds of every flag and of every width, by evaluation.
abbrev pub all_bools : (Bool → Bool) → Bool
all_bools p = p true && p false

abbrev pub all_widths : (Width → Bool) → Bool
all_widths p = p one && (p two && p four)

pub all_bools-at : (p : Bool → Bool) (b : Bool) → all_bools p ≡ true → p b ≡ true
all_bools-at p true h = ground arith
all_bools-at p false h = ground arith

pub all_widths-at : (p : Width → Bool) (w : Width) → all_widths p ≡ true → p w ≡ true
all_widths-at p one h = ground arith
all_widths-at p two h = ground arith
all_widths-at p four h = ground arith

abbrev pub same : Bool → Bool → Bool
same true b = b
same false b = not b

pub same→eq : (a b : Bool) → same a b ≡ true → a ≡ b
same→eq true b h = sym h
same→eq false true h = h
same→eq false false h = refl

-- The flags of a frame: delta encoded, compressed, complete, of the system.
unfoldable pub frame_flags : Bool → Bool → Bool → Bool → ℕ → ℕ
frame_flags d c s y flags = or_bit y 32 (or_bit s 16 (or_bit c 2 (or_bit d 1 flags)))

abbrev are_told : ℕ → Bool → Width → Width → Bool
are_told flags extra w v =
    same (has_flag flags mblk_has_two_bytes) (two_bytes w)
    && (same (has_flag flags addr_has_two_bytes) (two_bytes v)
        && same (has_flag flags has_extra_flags) extra)

abbrev told_at : Bool → Width → Width → Bool → Bool → Bool → Bool → Bool
told_at e w v d c s y = are_told (frame_flags d c s y (flags_of e w v)) e w v

abbrev told_over_y : Bool → Width → Width → Bool → Bool → Bool → Bool
told_over_y e w v d c s = all_bools (told_at e w v d c s)

abbrev told_over_s : Bool → Width → Width → Bool → Bool → Bool
told_over_s e w v d c = all_bools (told_over_y e w v d c)

abbrev told_over_c : Bool → Width → Width → Bool → Bool
told_over_c e w v d = all_bools (told_over_s e w v d)

abbrev told_over_d : Bool → Width → Width → Bool
told_over_d e w v = all_bools (told_over_c e w v)

abbrev told_over_v : Bool → Width → Bool
told_over_v e w = all_widths (told_over_d e w)

abbrev told_over_w : Bool → Bool
told_over_w e = all_widths (told_over_v e)

all_told : all_bools told_over_w ≡ true
unfolding frame_flags or_bit flags_of flags_with two_bytes
all_told = refl

pub frame_flags-AreTold :
    (e : Bool) (w v : Width) (d c s y : Bool) → AreTold (frame_flags d c s y (flags_of e w v)) e w v
unfolding AreTold
frame_flags-AreTold e w v d c s y =
    let told : told_at e w v d c s y ≡ true = all_bools-at (told_at e w v d c s) y (
      all_bools-at (told_over_y e w v d c) s (
        all_bools-at (told_over_s e w v d) c (
          all_bools-at (told_over_c e w v) d (
            all_widths-at (told_over_d e w) v
              (all_widths-at (told_over_v e) w (all_bools-at told_over_w e all_told)))))) in
    let flags = frame_flags d c s y (flags_of e w v) in
    (
      same→eq _ _ (and_first (same (has_flag flags 8) (two_bytes w)) _ told),
      same→eq _ _ (and_first (same (has_flag flags 4) (two_bytes v)) _ (and_second _ _ told)),
      same→eq _ _ (and_second _ _ (and_second _ _ told)),
    )
  where
    and_first : (a b : Bool) → (a && b) ≡ true → a ≡ true
    and_first true b h = refl
    and_first false b h = h

    and_second : (a b : Bool) → (a && b) ≡ true → b ≡ true
    and_second true b h = h
    and_second false true h = refl
    and_second false false h = h

-- The flag of a system frame is found too.
abbrev system_at : Bool → Width → Width → Bool
system_at e w v = has_flag (frame_flags false false false true (flags_of e w v)) 32

abbrev system_over_v : Bool → Width → Bool
system_over_v e w = all_widths (system_at e w)

abbrev system_over_w : Bool → Bool
system_over_w e = all_widths (system_over_v e)

all_system : all_bools system_over_w ≡ true
unfolding frame_flags or_bit flags_of flags_with
all_system = refl

pub frame_flags_system :
    (e : Bool) (w v : Width)
    → has_flag (frame_flags false false false true (flags_of e w v)) 32 ≡ true
frame_flags_system e w v =
    all_widths-at (system_at e w) v
      (all_widths-at (system_over_v e) w (all_bools-at system_over_w e all_system))
