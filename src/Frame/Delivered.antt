-- ===== src/Frame/Delivered.antt =====
-- A data frame, from `ioc_make_data_frame` of code/ioc_connection_send.c to `ioc_connection_receive`
-- of code/ioc_connection_receive.c.
use iocom.Base.{
  ℕ, ◌+◌, ◌<◌, ◌≤◌, ◌≡◌, ◌∙◌, ap, refl, sym, subst, Bool, true, false, Option, some, List, ◌++◌,
  append_assoc, if◌then◌else◌, length, done, arith,
}
use iocom.Message.{get_uint}
use iocom.Message.Numbers.{Width, two_bytes, four_bytes}
use iocom.Frame.{
  Connection, is_serial, Header, fixed_part, header, extra_part, or_flag, next_frame_nr, serial_to,
  frame_nr_to,
}
use iocom.Frame.Data.{Content, seal_data}
use iocom.Frame.Receive.{ReadFrameState, size_frame, open_frame}
use iocom.Frame.Flags.{extra_of, flags_of, frame_flags, frame_flags-AreTold, extra_or_zero, or_bit}
use iocom.Frame.Made.{IsHeader}
use iocom.Frame.Sized.{
  front, arrived, sized, whole, Holds, size_frame_serial, size_frame_socket, store_size_fixed,
  or_flag-front, store_checksum-front,
}
use iocom.Frame.System.{hdr-header}
use iocom.Frame.RoundTrip.{open_frame-whole}
use iocom.Frame.HeaderSize.{length-whole, header_sz-header}

or_flag-fixed :
    (serial b : Bool) (hdr rest : List ℕ) (nr flags bit : ℕ)
    → or_flag (header serial hdr) b bit (fixed_part serial nr flags ++ rest)
      ≡ fixed_part serial nr (or_bit b bit flags) ++ rest
unfolding or_flag header or_bit fixed_part
or_flag-fixed true true hdr rest nr flags bit = refl
or_flag-fixed true false hdr rest nr flags bit = refl
or_flag-fixed false true hdr rest nr flags bit = refl
or_flag-fixed false false hdr rest nr flags bit = refl

sealed_data :
    (os_checksum : List ℕ → ℕ) (serial d complete : Bool) (nr flags : ℕ) (x mb ab : List ℕ)
    (y : Content)
    → let content = y.content in
      let g = frame_flags d y.is_compressed complete false flags in
      let rest = x ++ (mb ++ (ab ++ content)) in
      seal_data os_checksum
        (header serial (fixed_part serial nr flags ++ (x ++ (mb ++ ab))))
        d
        complete
        y
      ≡ front serial nr
          (os_checksum (front serial nr 0 g (length content) ++ rest))
          g
          (length content)
        ++ rest
unfolding seal_data frame_flags or_bit
sealed_data os_checksum serial d complete nr flags x mb ab y =
    let bytes = fixed_part serial nr flags ++ (x ++ (mb ++ ab)) in
    let content = y.content in
    let rest = x ++ (mb ++ (ab ++ content)) in
    let joined : (header serial bytes).hdr ++ content ≡ fixed_part serial nr flags ++ rest =
      ap (λ b. b ++ content) (hdr-header serial bytes) ∙ simp append_assoc in
    rw
      (
        joined,
        or_flag-fixed serial d bytes rest nr flags 1,
        or_flag-fixed serial y.is_compressed bytes rest nr (or_bit d 1 flags) 2,
        store_size_fixed serial bytes rest nr (or_bit y.is_compressed 2 (or_bit d 1 flags))
            (length content),
        or_flag-front serial complete bytes rest nr (or_bit y.is_compressed 2 (or_bit d 1 flags))
            (length content) 16,
        store_checksum-front os_checksum serial bytes rest nr
            (or_bit complete 16 (or_bit y.is_compressed 2 (or_bit d 1 flags))) (length content),
      )
      refl

-- What the other end makes of a frame that has come into its buffer.
pub record IsDelivered (os_checksum : List ℕ → ℕ) (r : Connection) (s : ReadFrameState)
    (mblk_id addr flags : ℕ) (content : List ℕ) (next : ℕ) : Type 0 where
  pub state : ReadFrameState
  pub sized_state : size_frame s ≡ some state
  pub whole_frame : state.needed ≡ length s.buf
  pub opened :
      open_frame os_checksum r state
      ≡ done (
        some (record {
          mblk_id = mblk_id;
          addr = addr;
          data_sz = length content;
          flags = flags;
          content = content;
        }),
        record r { frame_in_nr = next },
      )

module _ (os_checksum : List ℕ → ℕ) (r : Connection) (mblk_id addr : ℕ) (nr crc flags : ℕ)
    (x : Option ℕ) (mb ab content : List ℕ) (e : Bool) (w v : Width)
    (frame_sz frame_nr needed data_sz before : ℕ)
    (rm : (p : List ℕ) → get_uint (mb ++ p) (two_bytes w) (four_bytes w) ≡ done (mblk_id, p))
    (ra : (p : List ℕ) → get_uint (ab ++ p) (two_bytes v) (four_bytes v) ≡ done (addr, p)) where
  whole-IsDelivered :
      (serial : Bool)
      → Holds serial nr crc flags x mb ab content e w v
      → crc ≡ os_checksum (whole serial nr 0 flags x mb ab content e w v)
      → crc < 65536
      → length (whole serial nr crc flags x mb ab content e w v) ≤ frame_sz
      → IsDelivered os_checksum r
          (arrived serial
            (whole serial nr crc flags x mb ab content e w v)
            frame_sz
            frame_nr
            needed
            data_sz
            before)
          mblk_id
          addr
          flags
          content
          (next_frame_nr nr)
  whole-IsDelivered true h hc bound fits = record {
    state =
        sized true (whole true nr crc flags x mb ab content e w v) frame_sz frame_nr
          (length content) flags (extra_or_zero x);
    sized_state =
        size_frame_serial nr crc flags x mb ab content e w v frame_sz frame_nr needed data_sz before
          h fits;
    whole_frame = refl;
    opened =
        open_frame-whole r os_checksum mblk_id addr nr crc flags x mb ab content e w v frame_sz
          frame_nr rm ra true h hc bound;
  }
  whole-IsDelivered false h hc bound fits = record {
    state =
        sized false (whole false nr crc flags x mb ab content e w v) frame_sz frame_nr
          (length content) flags (extra_or_zero x);
    sized_state =
        size_frame_socket nr crc flags x mb ab content e w v frame_sz frame_nr needed data_sz before
          h fits;
    whole_frame = refl;
    opened =
        open_frame-whole r os_checksum mblk_id addr nr crc flags x mb ab content e w v frame_sz
          frame_nr rm ra false h hc bound;
  }

-- A frame with a header and content that fit the frame sizes of both ends arrives.
pub seal_data-IsDelivered :
    (os_checksum : List ℕ → ℕ) (c r : Connection) (mblk_id addr : ℕ) (h : Header)
    (d complete : Bool) (y : Content) (frame_sz frame_nr needed data_sz before : ℕ)
    (p : IsHeader (some c) mblk_id addr h)
    → ((g : List ℕ) → os_checksum g < 65536)
    → c.frame_out_nr ≤ 200
    → length y.content < (if is_serial c then 256 else 65535)
    → length y.content + h.header_sz ≤ frame_sz
    → IsDelivered os_checksum r
        (arrived
          (is_serial c)
          (seal_data os_checksum h d complete y)
          frame_sz
          frame_nr
          needed
          data_sz
          before)
        mblk_id
        addr
        (frame_flags d y.is_compressed complete false (flags_of p.extra p.mblk_width p.addr_width))
        y.content
        (next_frame_nr c.frame_out_nr)
unfolding serial_to frame_nr_to
seal_data-IsDelivered os_checksum c r mblk_id addr h d complete y frame_sz frame_nr needed data_sz
      before p bound number short fits =
    let x = extra_of p.extra p.mblk_width p.addr_width in
    let flags = flags_of p.extra p.mblk_width p.addr_width in
    let g = frame_flags d y.is_compressed complete false flags in
    let crc = os_checksum (
      whole (is_serial c) c.frame_out_nr 0 g x p.mblk_bytes p.addr_bytes y.content p.extra
        p.mblk_width p.addr_width) in
    let f_is =
      ap (λ k. seal_data os_checksum k d complete y) p.shape
      ∙ sealed_data os_checksum (is_serial c) d complete c.frame_out_nr flags (extra_part x)
          p.mblk_bytes p.addr_bytes y in
    let header_is : h.header_sz
        ≡ length (
            fixed_part (is_serial c) c.frame_out_nr flags
            ++ (extra_part x ++ (p.mblk_bytes ++ p.addr_bytes))) =
      ap (λ k. k.header_sz) p.shape ∙ header_sz-header (is_serial c) _ in
    let holds : Holds (is_serial c) c.frame_out_nr crc g x p.mblk_bytes p.addr_bytes y.content
        p.extra p.mblk_width p.addr_width =
      record {
        told =
            frame_flags-AreTold p.extra p.mblk_width p.addr_width d y.is_compressed complete false;
        extra = p.told;
        mb_size = p.mblk_size;
        ab_size = p.addr_size;
        short = short;
        number = number;
      } in
    subst
      (λ f.
        IsDelivered os_checksum r (arrived (is_serial c) f frame_sz frame_nr needed data_sz before)
          mblk_id addr g y.content (next_frame_nr c.frame_out_nr))
      (sym f_is)
      (whole-IsDelivered os_checksum r mblk_id addr c.frame_out_nr crc g x p.mblk_bytes p.addr_bytes
        y.content p.extra p.mblk_width p.addr_width frame_sz frame_nr needed data_sz before
        p.mblk_reads p.addr_reads (is_serial c) holds refl (bound _)
        (omega (
          arith,
          header_is,
          length-whole (is_serial c) c.frame_out_nr crc g flags (extra_part x) p.mblk_bytes
              p.addr_bytes y.content (length y.content),
        )))
