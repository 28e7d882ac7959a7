-- ===== src/Frame/RoundTrip.antt =====
-- A frame, from `ioc_finish_frame` of code/ioc_connection_send.c to `ioc_connection_receive` of
-- code/ioc_connection_receive.c at the other end.
use iocom.Base.{
  ℕ, ◌+◌, ◌*◌, ◌/◌, ◌%◌, ◌^◌, ◌<◌, ◌≤◌, ◌≡◌, ◌∙◌, ap, refl, sym, bit_or, Bool, true, false, Option,
  none, some, List, ◌++◌, ltb, ◌==◌, ==_iff, if◌then◌else◌, length, set, at, take, take_all, drop,
  done, arith,
}
use iocom.Message.{get_uint}
use iocom.Message.Numbers.{Width, two_bytes, four_bytes, or_second}
use iocom.Frame.{Connection, extra_part, next_frame_nr, has_flag}
use iocom.Frame.Receive.{ReadFrameState, Parts, read_parts, find_parts, open_frame}
use iocom.Frame.Flags.{AreExtra, AreTold, extra_or_zero}
use iocom.Frame.Sized.{sized, whole, Holds}

-- The position behind the extra flags.
skip_extra :
    (e : Bool) (x : Option ℕ) (w v : Width) (rest : List ℕ)
    → AreExtra x e w v
    → (if extra_or_zero x == 0 then extra_part x ++ rest else drop 1 (extra_part x ++ rest)) ≡ rest
unfolding AreExtra extra_part extra_or_zero
skip_extra true none w v rest (_, _, h, _) = absurd cc
skip_extra true (some x) w v rest (_, _, _, h) = rw h refl
skip_extra false none w v rest h = refl
skip_extra false (some x) w v rest (_, _, h, _) = absurd cc

read_parts-whole :
    (mblk_id addr : ℕ) (mb ab content q : List ℕ) (w v : Width) (s : ReadFrameState)
    → ((p : List ℕ) → get_uint (mb ++ p) (two_bytes w) (four_bytes w) ≡ done (mblk_id, p))
    → ((p : List ℕ) → get_uint (ab ++ p) (two_bytes v) (four_bytes v) ≡ done (addr, p))
    → has_flag s.flags 8 ≡ two_bytes w
    → has_flag s.flags 4 ≡ two_bytes v
    → has_flag s.extra_flags 2 ≡ four_bytes w
    → has_flag s.extra_flags 1 ≡ four_bytes v
    → q ≡ mb ++ (ab ++ content)
    → read_parts s q
      ≡ done (record {
        mblk_id = mblk_id;
        addr = addr;
        data_sz = s.data_sz;
        flags = s.flags;
        content = content;
      })
unfolding read_parts
read_parts-whole mblk_id addr mb ab content q w v s rm ra tw tv fw fv hq =
    rw (tw, tv, fw, fv, hq, rm (ab ++ content), ra content) refl

-- Both ends count the frames alike.
follows :
    (nr : ℕ)
    → nr ≤ 200
    → (if ltb 200 ((nr + 1) % 256) then 1 else (nr + 1) % 256) ≡ next_frame_nr nr
unfolding next_frame_nr
follows nr h = ground arith

-- In serial communication the check sum decides.
open_frame_serial :
    (os_checksum : List ℕ → ℕ) (c : Connection) (buf : List ℕ) (sz fnr n flags x : ℕ) (p : Parts)
    → (bit_or (at buf 1) (at buf 2 * 2 ^ 8)
        == os_checksum (take (length buf) (set (set buf 1 0) 2 0)))
      ≡ true
    → find_parts (record (sized true buf sz fnr n flags x) { buf = set (set buf 1 0) 2 0 }) ≡ done p
    → open_frame os_checksum c (sized true buf sz fnr n flags x)
      ≡ done (
        some p,
        record c {
          frame_in_nr = if ltb 200 ((at buf 0 + 1) % 256) then 1 else (at buf 0 + 1) % 256;
        },
      )
unfolding open_frame
open_frame_serial os_checksum c buf sz fnr n flags x p hc hp = rw (hc, hp) refl

module _ (c : Connection) (os_checksum : List ℕ → ℕ) (mblk_id addr : ℕ) (nr crc flags : ℕ)
    (x : Option ℕ) (mb ab content : List ℕ) (e : Bool) (w v : Width) (frame_sz frame_nr : ℕ)
    (rm : (p : List ℕ) → get_uint (mb ++ p) (two_bytes w) (four_bytes w) ≡ done (mblk_id, p))
    (ra : (p : List ℕ) → get_uint (ab ++ p) (two_bytes v) (four_bytes v) ≡ done (addr, p)) where
  -- What the receiver gets.
  abbrev parts : Parts
  parts = record {
    mblk_id = mblk_id;
    addr = addr;
    data_sz = length content;
    flags = flags;
    content = content;
  }

  find_parts-whole :
      (serial : Bool)
      → Holds serial nr crc flags x mb ab content e w v
      → find_parts (
          sized serial
            (whole serial nr crc flags x mb ab content e w v)
            frame_sz
            frame_nr
            (length content)
            flags
            (extra_or_zero x))
        ≡ done parts
  unfolding find_parts AreTold AreExtra
  find_parts-whole true h =
      read_parts-whole mblk_id addr mb ab content _ w v _ rm ra h.told.0 h.told.1 h.extra.0
        h.extra.1 (skip_extra e x w v (mb ++ (ab ++ content)) h.extra)
  find_parts-whole false h =
      read_parts-whole mblk_id addr mb ab content _ w v _ rm ra h.told.0 h.told.1 h.extra.0
        h.extra.1 (skip_extra e x w v (mb ++ (ab ++ content)) h.extra)

  -- The check sum is found where it was put, and was of the frame without it.
  pub open_frame-whole :
      (serial : Bool)
      → Holds serial nr crc flags x mb ab content e w v
      → crc ≡ os_checksum (whole serial nr 0 flags x mb ab content e w v)
      → crc < 65536
      → open_frame os_checksum c (
          sized serial
            (whole serial nr crc flags x mb ab content e w v)
            frame_sz
            frame_nr
            (length content)
            flags
            (extra_or_zero x))
        ≡ done (some parts, record c { frame_in_nr = next_frame_nr nr })
  unfolding open_frame find_parts AreTold AreExtra
  open_frame-whole false h hc bound =
      rw (find_parts-whole false h)
        (ap (λ k. done (some parts, record c { frame_in_nr = k })) (follows nr h.number))
  open_frame-whole true h hc bound =
      let sent = whole true nr 0 flags x mb ab content e w v in
      let sum : bit_or (crc % 256) (crc / 256 % 256 * 2 ^ 8)
          ≡ os_checksum (take (length sent) sent) =
        or_second (crc % 256) (crc / 256 % 256) (omega arith)
        ∙ omega arith
        ∙ hc
        ∙ ap os_checksum (sym (take_all (length sent) sent (omega arith))) in
      open_frame_serial os_checksum c (whole true nr crc flags x mb ab content e w v) frame_sz
        frame_nr (length content) flags (extra_or_zero x) parts ((==_iff _ _).1 sum)
        (read_parts-whole mblk_id addr mb ab content _ w v _ rm ra h.told.0 h.told.1 h.extra.0
          h.extra.1 (skip_extra e x w v (mb ++ (ab ++ content)) h.extra))
      ∙ ap (λ k. done (some parts, record c { frame_in_nr = k })) (follows nr h.number)
