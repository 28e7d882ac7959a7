-- ===== src/Frame/Sized.antt =====
-- The shape of a frame that was sent, and how `ioc_read_frame` of code/ioc_connection_receive.c
-- finds its size.
use iocom.Base.{
  ℕ, ◌+◌, ◌*◌, ◌/◌, ◌%◌, ◌^◌, ◌<◌, ◌≤◌, ◌≡◌, ◌∙◌, ap, refl, bit_or, Bool, true, false, Option, none,
  some, List, [], ◌∷◌, ◌++◌, ltb, leb, le→leb, ◌==◌, if◌then◌else◌, length, length-append, at,
  arith,
}
use iocom.Message.Numbers.{Width, one, two, four, two_bytes, four_bytes, size, or_second}
use iocom.Frame.{
  fixed_part, header, extra_part, poke, or_flag, store_size, store_checksum, has_flag,
}
use iocom.Frame.Receive.{ReadFrameState, more_bytes, size_known, size_frame}
use iocom.Frame.Flags.{AreExtra, AreTold, extra_or_zero, or_bit}

-- The fixed part of a frame, with its check sum, flags and size.
abbrev pub front : Bool → ℕ → ℕ → ℕ → ℕ → List ℕ
front true nr crc flags n = nr ∷ crc % 256 ∷ crc / 256 % 256 ∷ flags ∷ n % 256 ∷ []
front false nr crc flags n = nr ∷ flags ∷ n % 256 ∷ n / 256 % 256 ∷ []

pub store_size_fixed :
    (serial : Bool) (hdr rest : List ℕ) (nr flags n : ℕ)
    → store_size (header serial hdr) n (fixed_part serial nr flags ++ rest)
      ≡ front serial nr 0 flags n ++ rest
unfolding store_size header fixed_part poke
store_size_fixed true hdr rest nr flags n = refl
store_size_fixed false hdr rest nr flags n = refl

pub or_flag-front :
    (serial b : Bool) (hdr rest : List ℕ) (nr flags n bit : ℕ)
    → or_flag (header serial hdr) b bit (front serial nr 0 flags n ++ rest)
      ≡ front serial nr 0 (or_bit b bit flags) n ++ rest
unfolding or_flag header or_bit
or_flag-front true true hdr rest nr flags n bit = refl
or_flag-front true false hdr rest nr flags n bit = refl
or_flag-front false true hdr rest nr flags n bit = refl
or_flag-front false false hdr rest nr flags n bit = refl

pub store_checksum-front :
    (os_checksum : List ℕ → ℕ) (serial : Bool) (hdr rest : List ℕ) (nr flags n : ℕ)
    → store_checksum os_checksum (header serial hdr) (front serial nr 0 flags n ++ rest)
      ≡ front serial nr (os_checksum (front serial nr 0 flags n ++ rest)) flags n ++ rest
unfolding store_checksum header poke
store_checksum-front os_checksum true hdr rest nr flags n = refl
store_checksum-front os_checksum false hdr rest nr flags n = refl

-- The size of the frame, once enough of it has come.
size_frame_known :
    (s : ReadFrameState) (size extra_pos fixed : ℕ) (flags : ℕ)
    → (at s.buf 0 == 255) ≡ false
    → leb (if s.serial then 6 else 5) (length s.buf) ≡ true
    → (if s.serial
        then size_known (at s.buf 4) (at s.buf 3) 5 7 s
        else size_known (bit_or (at s.buf 2) (at s.buf 3 * 2 ^ 8)) (at s.buf 1) 4 6 s)
      ≡ size_known size flags extra_pos fixed s
    → size_frame s ≡ size_known size flags extra_pos fixed s
unfolding size_frame
size_frame_known s size extra_pos fixed flags no_ack enough e = rw (no_ack, enough) e

size_known_fits :
    (data_sz flags extra_pos fixed : ℕ) (s : ReadFrameState) (e : Bool) (x total : ℕ)
    → has_flag flags 128 ≡ e
    → (if e then at s.buf extra_pos else s.extra_flags) ≡ x
    → data_sz + fixed + (if e then 1 else 0) + more_bytes flags x ≡ total
    → total ≤ s.frame_sz
    → size_known data_sz flags extra_pos fixed s
      ≡ some (record s { data_sz = data_sz; needed = total; flags = flags; extra_flags = x })
unfolding size_known
size_known_fits data_sz flags extra_pos fixed s e x total he hx ht fits =
    let small : ltb s.frame_sz total ≡ false = ground arith in rw (he, hx, ht, small) refl

-- What one width takes beyond a byte.
abbrev beyond : Bool → Bool → ℕ
beyond two_bytes four_bytes = if four_bytes then 3 else if two_bytes then 1 else 0

size-beyond : (w : Width) → size w ≡ 1 + beyond (two_bytes w) (four_bytes w)
unfolding size two_bytes four_bytes
size-beyond one = refl
size-beyond two = refl
size-beyond four = refl

more_bytes-size :
    (flags x : ℕ) (e : Bool) (w v : Width)
    → AreTold flags e w v
    → has_flag x 2 ≡ four_bytes w
    → has_flag x 1 ≡ four_bytes v
    → 2 + more_bytes flags x ≡ size w + size v
unfolding more_bytes AreTold
more_bytes-size flags x e w v (tw, tv, te) fw fv =
    rw (tw, tv, fw, fv) (omega (arith, size-beyond w, size-beyond v))

-- The state of a reader that has got `buf`, with what an earlier round may have left.
abbrev pub arrived : Bool → List ℕ → ℕ → ℕ → ℕ → ℕ → ℕ → ReadFrameState
arrived serial buf frame_sz frame_nr needed data_sz flags = record {
  buf = buf;
  needed = needed;
  frame_sz = frame_sz;
  data_sz = data_sz;
  frame_nr = frame_nr;
  serial = serial;
  flags = flags;
  extra_flags = 0;
}

-- The same state once the size is known.
abbrev pub sized : Bool → List ℕ → ℕ → ℕ → ℕ → ℕ → ℕ → ReadFrameState
sized serial buf frame_sz frame_nr data_sz flags extra_flags = record {
  buf = buf;
  needed = length buf;
  frame_sz = frame_sz;
  data_sz = data_sz;
  frame_nr = frame_nr;
  serial = serial;
  flags = flags;
  extra_flags = extra_flags;
}

pub extra_at :
    (e : Bool) (x : Option ℕ) (w v : Width) (rest : List ℕ)
    → AreExtra x e w v
    → ((if e then at (extra_part x ++ rest) 0 else 0) ≡ extra_or_zero x)
      × (length (extra_part x) ≡ (if e then 1 else 0))
unfolding AreExtra extra_part extra_or_zero
extra_at true none w v rest (_, _, h, _) = absurd cc
extra_at true (some x) w v rest h = (refl, refl)
extra_at false none w v rest h = (refl, refl)
extra_at false (some x) w v rest (_, _, h, _) = absurd cc

module _ (serial : Bool) (nr crc flags : ℕ) (x : Option ℕ) (mb ab content : List ℕ) (e : Bool)
    (w v : Width) where
  abbrev pub tail_part : List ℕ
  tail_part = extra_part x ++ (mb ++ (ab ++ content))

  abbrev pub whole : List ℕ
  whole = front serial nr crc flags (length content) ++ tail_part

  pub record Holds : Type 0 where
    pub told : AreTold flags e w v
    pub extra : AreExtra x e w v
    pub mb_size : length mb ≡ size w
    pub ab_size : length ab ≡ size v
    pub short : length content < (if serial then 256 else 65535)
    pub number : nr ≤ 200

  length-tail_part :
      Holds → length tail_part ≡ (if e then 1 else 0) + size w + size v + length content
  length-tail_part h = omega (
    arith,
    length-append (extra_part x) (mb ++ (ab ++ content)),
    length-append mb (ab ++ content),
    length-append ab content,
    (extra_at e x w v [] h.extra).1,
    h.mb_size,
    h.ab_size,
  )

module _ (nr crc flags : ℕ) (x : Option ℕ) (mb ab content : List ℕ) (e : Bool) (w v : Width)
    (frame_sz frame_nr needed data_sz before : ℕ) where
  -- The reader finds the size of a whole frame.
  pub size_frame_serial :
      Holds true nr crc flags x mb ab content e w v
      → length (whole true nr crc flags x mb ab content e w v) ≤ frame_sz
      → size_frame (
          arrived true
            (whole true nr crc flags x mb ab content e w v)
            frame_sz
            frame_nr
            needed
            data_sz
            before)
        ≡ some (
            sized true
              (whole true nr crc flags x mb ab content e w v)
              frame_sz
              frame_nr
              (length content)
              flags
              (extra_or_zero x))
  unfolding AreTold AreExtra
  size_frame_serial h fits =
      let s =
        arrived true (whole true nr crc flags x mb ab content e w v) frame_sz frame_nr needed
          data_sz before in
      let len = length-tail_part true nr crc flags x mb ab content e w v h in
      let more = more_bytes-size flags (extra_or_zero x) e w v h.told h.extra.0 h.extra.1 in
      let n : length content % 256 ≡ length content = omega (arith, h.short) in
      let no_ack : (nr == 255) ≡ false = ground (arith, h.number) in
      let enough : leb 6 (length s.buf) ≡ true =
        le→leb 6 (length s.buf) (omega (arith, len, more)) in
      size_frame_known s (length content) 5 7 flags no_ack enough
        (ap (λ k. size_known k flags 5 7 s) n)
      ∙ size_known_fits (length content) flags 5 7 s e (extra_or_zero x) (length s.buf) h.told.2
          (extra_at e x w v (mb ++ (ab ++ content)) h.extra).0 (omega (arith, len, more)) fits

  pub size_frame_socket :
      Holds false nr crc flags x mb ab content e w v
      → length (whole false nr crc flags x mb ab content e w v) ≤ frame_sz
      → size_frame (
          arrived false
            (whole false nr crc flags x mb ab content e w v)
            frame_sz
            frame_nr
            needed
            data_sz
            before)
        ≡ some (
            sized false
              (whole false nr crc flags x mb ab content e w v)
              frame_sz
              frame_nr
              (length content)
              flags
              (extra_or_zero x))
  unfolding AreTold AreExtra
  size_frame_socket h fits =
      let s =
        arrived false (whole false nr crc flags x mb ab content e w v) frame_sz frame_nr needed
          data_sz before in
      let len = length-tail_part false nr crc flags x mb ab content e w v h in
      let more = more_bytes-size flags (extra_or_zero x) e w v h.told h.extra.0 h.extra.1 in
      let n : bit_or (length content % 256) (length content / 256 % 256 * 2 ^ 8) ≡ length content =
        or_second (length content % 256) (length content / 256 % 256) (omega arith)
        ∙ omega (arith, h.short) in
      let no_ack : (nr == 255) ≡ false = ground (arith, h.number) in
      let enough : leb 5 (length s.buf) ≡ true =
        le→leb 5 (length s.buf) (omega (arith, len, more)) in
      size_frame_known s (length content) 4 6 flags no_ack enough
        (ap (λ k. size_known k flags 4 6 s) n)
      ∙ size_known_fits (length content) flags 4 6 s e (extra_or_zero x) (length s.buf) h.told.2
          (extra_at e x w v (mb ++ (ab ++ content)) h.extra).0 (omega (arith, len, more)) fits
