-- ===== src/Frame/System.antt =====
-- A system frame, from `ioc_generate_header` and `ioc_finish_frame` of
-- code/ioc_connection_send.c to `ioc_connection_receive` of code/ioc_connection_receive.c.
use iocom.Base.{
  ℕ, ◌<◌, ◌≤◌, ◌≡◌, ◌∙◌, ap, refl, sym, subst, subst₂, Bool, true, false, Option, none, some, List,
  ◌++◌, append_assoc, if◌then◌else◌, length, done, Returns, Returns-at,
}
use iocom.Message.{get_uint}
use iocom.Message.Numbers.{Width, two_bytes, four_bytes}
use iocom.Frame.{
  Connection, is_serial, Header, fixed_part, header, extra_part, generate_header, or_flag,
  store_size, store_checksum, finish_frame, next_frame_nr, serial_to, frame_nr_to, has_flag,
  system_frame,
}
use iocom.Frame.Receive.{ReadFrameState, size_frame, open_frame}
use iocom.Frame.Flags.{
  extra_of, flags_of, frame_flags, frame_flags-AreTold, frame_flags_system, extra_or_zero, or_bit,
}
use iocom.Frame.Made.{IsHeader, generate_header-IsHeader}
use iocom.Frame.Sized.{
  front, arrived, sized, whole, Holds, size_frame_serial, size_frame_socket, store_size_fixed,
  or_flag-front, store_checksum-front,
}
use iocom.Frame.RoundTrip.{open_frame-whole}

pub hdr-header : (serial : Bool) (bytes : List ℕ) → (header serial bytes).hdr ≡ bytes
unfolding header
hdr-header true bytes = refl
hdr-header false bytes = refl

sealed :
    (os_checksum : List ℕ → ℕ) (serial : Bool) (nr flags : ℕ) (x mb ab content : List ℕ)
    → let h = header serial (fixed_part serial nr flags ++ (x ++ (mb ++ ab))) in
      store_checksum os_checksum h
        (or_flag h true system_frame (store_size h (length content) (h.hdr ++ content)))
      ≡ front serial nr
          (os_checksum (
            front serial nr 0 (or_bit true 32 flags) (length content)
            ++ (x ++ (mb ++ (ab ++ content)))))
          (or_bit true 32 flags)
          (length content)
        ++ (x ++ (mb ++ (ab ++ content)))
sealed os_checksum serial nr flags x mb ab content =
    let bytes = fixed_part serial nr flags ++ (x ++ (mb ++ ab)) in
    let rest = x ++ (mb ++ (ab ++ content)) in
    let joined : (header serial bytes).hdr ++ content ≡ fixed_part serial nr flags ++ rest =
      ap (λ b. b ++ content) (hdr-header serial bytes) ∙ simp append_assoc in
    rw
      (
        joined,
        store_size_fixed serial bytes rest nr flags (length content),
        or_flag-front serial true bytes rest nr flags (length content) 32,
        store_checksum-front os_checksum serial bytes rest nr (or_bit true 32 flags)
            (length content),
      )
      refl

abbrev sent_or_not : Bool → Connection → Connection → List ℕ → Option (List ℕ) × Connection
sent_or_not blocked c d g = if blocked then (none, c) else (some g, d)

not_blocked :
    (blocked : Bool) (c d c' : Connection) (g f : List ℕ)
    → sent_or_not blocked c d g ≡ (some f, c')
    → (f ≡ g) × (c' ≡ d)
not_blocked true c d c' g f h = absurd cc
not_blocked false c d c' g f h = (cc, cc)

-- What the other end makes of a frame `f`.
pub record IsReceived (os_checksum : List ℕ → ℕ) (r : Connection) (s : ReadFrameState)
    (mblk_id addr : ℕ) (content : List ℕ) (next : ℕ) : Type 0 where
  pub state : ReadFrameState
  pub sized_state : size_frame s ≡ some state
  pub whole_frame : state.needed ≡ length s.buf
  pub system : has_flag state.flags system_frame ≡ true
  pub opened :
      open_frame os_checksum r state
      ≡ done (
        some (record {
          mblk_id = mblk_id;
          addr = addr;
          data_sz = length content;
          flags = state.flags;
          content = content;
        }),
        record r { frame_in_nr = next },
      )

module _ (os_checksum : List ℕ → ℕ) (r : Connection) (mblk_id addr : ℕ) (nr crc flags : ℕ)
    (x : Option ℕ) (mb ab content : List ℕ) (e : Bool) (w v : Width)
    (frame_sz frame_nr needed data_sz before : ℕ)
    (rm : (p : List ℕ) → get_uint (mb ++ p) (two_bytes w) (four_bytes w) ≡ done (mblk_id, p))
    (ra : (p : List ℕ) → get_uint (ab ++ p) (two_bytes v) (four_bytes v) ≡ done (addr, p))
    (is_system : has_flag flags system_frame ≡ true) where
  whole-IsReceived :
      (serial : Bool)
      → Holds serial nr crc flags x mb ab content e w v
      → crc ≡ os_checksum (whole serial nr 0 flags x mb ab content e w v)
      → crc < 65536
      → length (whole serial nr crc flags x mb ab content e w v) ≤ frame_sz
      → IsReceived os_checksum r
          (arrived serial
            (whole serial nr crc flags x mb ab content e w v)
            frame_sz
            frame_nr
            needed
            data_sz
            before)
          mblk_id
          addr
          content
          (next_frame_nr nr)
  whole-IsReceived true h hc bound fits = record {
    state =
        sized true (whole true nr crc flags x mb ab content e w v) frame_sz frame_nr
          (length content) flags (extra_or_zero x);
    sized_state =
        size_frame_serial nr crc flags x mb ab content e w v frame_sz frame_nr needed data_sz before
          h fits;
    whole_frame = refl;
    system = is_system;
    opened =
        open_frame-whole r os_checksum mblk_id addr nr crc flags x mb ab content e w v frame_sz
          frame_nr rm ra true h hc bound;
  }
  whole-IsReceived false h hc bound fits = record {
    state =
        sized false (whole false nr crc flags x mb ab content e w v) frame_sz frame_nr
          (length content) flags (extra_or_zero x);
    sized_state =
        size_frame_socket nr crc flags x mb ab content e w v frame_sz frame_nr needed data_sz before
          h fits;
    whole_frame = refl;
    system = is_system;
    opened =
        open_frame-whole r os_checksum mblk_id addr nr crc flags x mb ab content e w v frame_sz
          frame_nr rm ra false h hc bound;
  }

-- A system frame that `ioc_finish_frame` does not hold back arrives as it was sent. Of the whole
-- frame in its buffer the reader finds the size, the flag of a system frame, the identifier, the
-- address and the content, behind a check sum that is right, and it expects next the frame number
-- that the sender uses next. This holds for numbers of 32 bits, for content whose length the header
-- can hold, for a frame number of 200 at most, for a check sum of 16 bits, whatever it is, and for a
-- frame that is not longer than the reader's frame size.
pub open_frame-finish_frame :
    (os_checksum : List ℕ → ℕ) (c r : Connection) (mblk_id addr : ℕ) (content f : List ℕ)
    (c' : Connection) (h : Header) (frame_nr frame_sz needed data_sz before : ℕ)
    → ((g : List ℕ) → os_checksum g < 65536)
    → mblk_id < 4294967296
    → addr < 4294967296
    → c.frame_out_nr ≤ 200
    → length content < (if is_serial c then 256 else 65535)
    → generate_header (some c) mblk_id addr ≡ done h
    → finish_frame os_checksum c h content ≡ (some f, c')
    → length f ≤ frame_sz
    → IsReceived os_checksum r
        (arrived (is_serial c) f frame_sz frame_nr needed data_sz before)
        mblk_id
        addr
        content
        c'.frame_out_nr
unfolding finish_frame serial_to frame_nr_to frame_flags or_bit
open_frame-finish_frame os_checksum c r mblk_id addr content f c' h frame_nr frame_sz needed data_sz
      before bound id_fits addr_fits number short made finished fits =
    let p : IsHeader (some c) mblk_id addr h = Returns-at (
      subst (Returns (IsHeader (some c) mblk_id addr)) made
        (generate_header-IsHeader (some c) mblk_id addr id_fits addr_fits)) in
    let x = extra_of p.extra p.mblk_width p.addr_width in
    let flags = flags_of p.extra p.mblk_width p.addr_width in
    let at_end = not_blocked _ _ _ _ _ f finished in
    let f_is =
      at_end.0
      ∙ ap
          (λ g.
            store_checksum os_checksum g
              (or_flag g true system_frame (store_size g (length content) (g.hdr ++ content))))
          p.shape
      ∙ sealed os_checksum (is_serial c) c.frame_out_nr flags (extra_part x) p.mblk_bytes
          p.addr_bytes content in
    let crc = os_checksum (
      whole (is_serial c) c.frame_out_nr 0 (or_bit true 32 flags) x p.mblk_bytes p.addr_bytes
        content p.extra p.mblk_width p.addr_width) in
    let holds : Holds (is_serial c) c.frame_out_nr crc (or_bit true 32 flags) x p.mblk_bytes
        p.addr_bytes content p.extra p.mblk_width p.addr_width =
      record {
        told = frame_flags-AreTold p.extra p.mblk_width p.addr_width false false false true;
        extra = p.told;
        mb_size = p.mblk_size;
        ab_size = p.addr_size;
        short = short;
        number = number;
      } in
    subst₂
      (λ g n.
        IsReceived os_checksum r (arrived (is_serial c) g frame_sz frame_nr needed data_sz before)
          mblk_id addr content n)
      (sym f_is) (sym (ap (λ d. d.frame_out_nr) at_end.1))
      (whole-IsReceived os_checksum r mblk_id addr c.frame_out_nr crc (or_bit true 32 flags) x
        p.mblk_bytes p.addr_bytes content p.extra p.mblk_width p.addr_width frame_sz frame_nr needed
        data_sz before p.mblk_reads p.addr_reads
        (frame_flags_system p.extra p.mblk_width p.addr_width) (is_serial c) holds refl (bound _)
        (subst (λ g. length g ≤ frame_sz) f_is fits))
