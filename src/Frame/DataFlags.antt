-- ===== src/Frame/DataFlags.antt =====
-- The flags of a data frame, as the other end tests them.
use iocom.Base.{◌≡◌, refl, ◌&&◌, Bool, true, false}
use iocom.Message.Numbers.{Width, flags_with}
use iocom.Frame.{has_flag}
use iocom.Frame.Flags.{
  or_bit, flags_of, frame_flags, all_bools, all_widths, all_bools-at, all_widths-at, same, same→eq,
}

-- The flags that say how to read the content.
abbrev flags_agree : Bool → Bool → Bool → Bool → Width → Width → Bool
flags_agree d c s e w v =
    let flags = frame_flags d c s false (flags_of e w v) in
    (same (has_flag flags 1) d && same (has_flag flags 2) c)
    && (same (has_flag flags 16) s && same (has_flag flags 32) false)

abbrev agree_widths : Bool → Bool → Bool → Bool → Bool
agree_widths d c s e = all_widths (λ w. all_widths (flags_agree d c s e w))

abbrev agree_bools : Bool → Bool → Bool
agree_bools d c = all_bools (λ s. all_bools (agree_widths d c s))

all_agree : all_bools (λ d. all_bools (agree_bools d)) ≡ true
unfolding frame_flags or_bit flags_of flags_with
all_agree = refl

and_parts : (a b : Bool) → (a && b) ≡ true → (a ≡ true) × (b ≡ true)
and_parts true b h = (refl, h)
and_parts false true h = (h, refl)
and_parts false false h = (h, h)

-- Delta encoded, compressed and complete are found as they were set, and no data frame is a system
-- frame.
pub frame_flags-data :
    (d c s e : Bool) (w v : Width)
    → let flags = frame_flags d c s false (flags_of e w v) in
      (has_flag flags 1 ≡ d)
      × (has_flag flags 2 ≡ c)
      × (has_flag flags 16 ≡ s)
      × (has_flag flags 32 ≡ false)
frame_flags-data d c s e w v =
    let flags = frame_flags d c s false (flags_of e w v) in
    let all : flags_agree d c s e w v ≡ true = all_widths-at (flags_agree d c s e w) v (
      all_widths-at (λ w. all_widths (flags_agree d c s e w)) w
        (all_bools-at (agree_widths d c s) e (
          all_bools-at (λ s. all_bools (agree_widths d c s)) s
            (all_bools-at (agree_bools d) c
              (all_bools-at (λ d. all_bools (agree_bools d)) d all_agree))))) in
    let front = and_parts (same (has_flag flags 1) d && same (has_flag flags 2) c) _ all in
    let a = and_parts (same (has_flag flags 1) d) _ front.0 in
    let b = and_parts (same (has_flag flags 16) s) _ front.1 in
    (same→eq _ _ a.0, same→eq _ _ a.1, same→eq _ _ b.0, same→eq _ _ b.1)
