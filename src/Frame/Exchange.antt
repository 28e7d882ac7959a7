-- ===== src/Frame/Exchange.antt =====
-- code/ioc_connection_send.c and code/ioc_connection_receive.c: a data frame from the source buffer of
-- one end to the target buffer of the other.
use iocom.Base.{
  ℕ, ◌+◌, ◌-◌, ◌<◌, ◌≤◌, ◌≡◌, ◌∙◌, refl, sym, subst₂, ap₂, Bool, true, false, not, ◌&&◌, Bool-cases,
  inl, inr, none, some, List, ltb, if◌then◌else◌, length, done, Returns, returns, Returns-bind,
  arith,
}
use iocom.Compress.{apply, uncompress}
use iocom.Compress.Format.{unpacks}
use iocom.Compress.RoundTrip.{slice}
use iocom.SourceBuffer.{SourceBuffer}
use iocom.TargetBuffer.{TargetBuffer, invalidate, synchronize}
use iocom.Frame.{Connection, Header, is_serial, has_flag, is_blocked, next_frame_nr}
use iocom.Frame.Data.{
  Content, delta_bytes, is_delta, choose_content, completes, advance, DataFrame, place_content,
  make_data_frame, stored, store_data_frame,
}
use iocom.Frame.Flags.{flags_of, frame_flags}
use iocom.Frame.DataFlags.{frame_flags-data}
use iocom.Frame.Made.{IsHeader, generate_header-IsHeader}
use iocom.Frame.Sized.{arrived}
use iocom.Frame.HeaderSize.{header_sz-bound, header_sz-pos}
use iocom.Frame.Delivered.{IsDelivered, seal_data-IsDelivered}
use iocom.Frame.Carried.{Carries, compress_data-Carries}
use iocom.Frame.Stored.{
  open_part, filled, length-open_part, open_part-IsBytes, store_data_frame-filled,
}
use iocom.Frame.Transit.{Transit, Arrived, marked, fits, enough, still-Transit, now-Arrived}

-- After a frame: more is on the way, and less is left, or all has come.
pub data Progress (goal mblk : List ℕ) (s u : SourceBuffer) (t : TargetBuffer) : Type 0 where
  goes_on :
      s.start_addr < u.start_addr
      → u.end_addr ≡ s.end_addr
      → Transit goal mblk u t
      → Progress goal mblk s u t
  ends : Arrived goal u t → Progress goal mblk s u t

-- The two ends, and what the reader has in its state before the frame.
pub record Ends : Type 0 where
  pub os_checksum : List ℕ → ℕ
  pub sender : Connection
  pub reader : Connection
  pub frame_sz : ℕ
  pub frame_nr : ℕ
  pub needed : ℕ
  pub data_sz : ℕ
  pub before : ℕ

-- They fit: a check sum has 16 bits, a frame has room for content, its size can be told, and the
-- reader has room for it.
pub record AreFit (e : Ends) : Type 0 where
  pub sum_bound : (g : List ℕ) → e.os_checksum g < 65536
  pub number : e.sender.frame_out_nr ≤ 200
  pub some_room : 15 ≤ e.sender.dst_frame_sz
  pub size_bound : e.sender.dst_frame_sz ≤ (if is_serial e.sender then 256 else 65535)
  pub room : e.sender.dst_frame_sz ≤ e.frame_sz

-- What becomes of a call of `ioc_make_data_frame`: it is held back by the flow control and changes
-- nothing, or the reader opens the frame and stores its content.
pub data IsSent (e : Ends) (mblk_id : ℕ) (goal mblk : List ℕ) (s : SourceBuffer) (t : TargetBuffer)
    (m : DataFrame) : Type 0 where
  held :
      (n : ℕ)
      → n ≤ e.sender.dst_frame_sz
      → is_blocked n e.sender ≡ true
      → m.frame ≡ none
      → m.sbuf ≡ s
      → m.connection ≡ e.sender
      → IsSent e mblk_id goal mblk s t m
  sent :
      (f content : List ℕ) (flags : ℕ) (u : TargetBuffer)
      → m.frame ≡ some f
      → IsDelivered e.os_checksum e.reader
          (arrived (is_serial e.sender) f e.frame_sz e.frame_nr e.needed e.data_sz e.before)
          mblk_id
          s.start_addr
          flags
          content
          m.connection.frame_out_nr
      → store_data_frame t s.start_addr content flags ≡ done (stored, u)
      → m.connection ≡ record e.sender { frame_out_nr = next_frame_nr e.sender.frame_out_nr }
      → Progress goal mblk s m.sbuf u
      → IsSent e mblk_id goal mblk s t m

-- The buffer after the frame, for what is left.
advance-is :
    (next : ℕ) (s : SourceBuffer) (b : Bool)
    → ltb s.end_addr next ≡ b
    → s.bidir_range_set ≡ false
    → (advance next s ≡ (
        if b then record s { start_addr = next; used = false } else record s { start_addr = next }))
      × (completes next s ≡ b)
unfolding advance completes
advance-is next s true e f = (
  ap₂
      (λ b d.
        if not b
        then record s { start_addr = next }
        else if d
        then record s {
          start_addr = s.bidir_start_addr;
          end_addr = s.bidir_end_addr;
          bidir_range_set = false;
        }
        else record s { start_addr = next; used = false })
      e f,
  ap₂ (λ b d. b && not d) e f,
)
advance-is next s false e f = (
  ap₂
      (λ b d.
        if not b
        then record s { start_addr = next }
        else if d
        then record s {
          start_addr = s.bidir_start_addr;
          end_addr = s.bidir_end_addr;
          bidir_range_set = false;
        }
        else record s { start_addr = next; used = false })
      e f,
  ap₂ (λ b d. b && not d) e f,
)

module _ (goal mblk : List ℕ) (s : SourceBuffer) (t : TargetBuffer)
    (p : Transit goal mblk s t) where
  -- The two ends of a frame's content.
  stored-Progress :
      (next : ℕ) (low : s.start_addr < next) (high : next ≤ s.end_addr + 1)
      → Progress goal mblk s (advance next s) (
          if completes next s
          then synchronize (marked goal mblk s t p next low high)
          else marked goal mblk s t p next low high)
  stored-Progress next low high =
      let u = marked goal mblk s t p next low high in
      elim (Bool-cases (ltb s.end_addr next)) [
        | inl last ↦
            let q = advance-is next s true last p.one_range in
            subst₂ (λ a b. Progress goal mblk s a (if b then synchronize u else u)) (sym q.0)
              (sym q.1) (ends (now-Arrived goal mblk s t p next low high (ground arith)))
        | inr more ↦
            let q = advance-is next s false more p.one_range in
            subst₂ (λ a b. Progress goal mblk s a (if b then synchronize u else u)) (sym q.0)
              (sym q.1)
              (goes_on low refl (still-Transit goal mblk s t p next low high (ground arith)))
      ]

module _ (e : Ends) (a : AreFit e) (mblk_id : ℕ) (goal mblk : List ℕ) (s : SourceBuffer)
    (t : TargetBuffer) (p : Transit goal mblk s t) where
  -- The content of a frame that is not held back.
  placed-IsSent :
      (h : Header)
      → IsHeader (some e.sender) mblk_id s.start_addr h
      → (y : Content) → Carries mblk s (e.sender.dst_frame_sz - h.header_sz) y
      → IsSent e mblk_id goal mblk s t (place_content e.os_checksum e.sender s h y)
  unfolding place_content
  placed-IsSent h q y x =
      let c = e.sender in
      let n = length y.content + h.header_sz in
      let small : n ≤ c.dst_frame_sz = omega (arith, x.fits, header_sz-bound q, a.some_room) in
      let flags =
        frame_flags (is_delta s) y.is_compressed (completes y.next_addr s) false
          (flags_of q.extra q.mblk_width q.addr_width) in
      let told =
        frame_flags-data (is_delta s) y.is_compressed (completes y.next_addr s) q.extra q.mblk_width
          q.addr_width in
      let v = marked goal mblk s t p y.next_addr x.goes_on x.within in
      let u = if completes y.next_addr s then synchronize v else v in
      let low = fits goal mblk s t p y.next_addr x.goes_on x.within in
      let high = enough goal mblk s t p y.next_addr x.goes_on x.within in
      let k = y.next_addr - s.start_addr in
      let bytes = delta_bytes mblk s in
      let unpacked : uncompress (has_flag flags 2) (has_flag flags 1) y.content
            (open_part s.start_addr t)
          ≡ unpacks k
              (apply (has_flag flags 1) (slice bytes s.start_addr k) (open_part s.start_addr t)) =
        subst₂
          (λ b d.
            uncompress b d y.content (open_part s.start_addr t)
            ≡ unpacks k (apply d (slice bytes s.start_addr k) (open_part s.start_addr t)))
          (sym told.1) (sym told.0)
          (x.unpacked (is_delta s) (open_part s.start_addr t)
            (open_part-IsBytes t s.start_addr k (is_delta s) bytes p.whole low high
              p.target_IsBytes)
            (omega (
              arith,
              low,
              length-open_part t s.start_addr k (is_delta s) bytes p.whole low high,
            ))) in
      let stored_all : store_data_frame t s.start_addr y.content flags ≡ done (stored, u) =
        store_data_frame-filled t s.start_addr k (has_flag flags 1) bytes p.whole low high y.content
          flags (omega (arith, x.goes_on)) unpacked
        ∙ ap₂
            (λ b d.
              let w =
                invalidate s.start_addr (s.start_addr + k - 1)
                  (record t { newdata = filled t s.start_addr k d bytes }) in
              done (stored, if b then synchronize w else w))
            told.2 told.0 in
      elim (Bool-cases (is_blocked n c)) [
        | inl blocked ↦ rw blocked (held n small blocked refl refl refl)
        | inr free ↦ rw free (
            sent _ y.content flags u refl
              (seal_data-IsDelivered e.os_checksum c e.reader mblk_id s.start_addr h (is_delta s)
                (completes y.next_addr s) y e.frame_sz e.frame_nr e.needed e.data_sz e.before q
                a.sum_bound a.number (omega (arith, small, a.size_bound, header_sz-pos q))
                (omega (arith, small, a.room)))
              stored_all refl (stored-Progress goal mblk s t p y.next_addr x.goes_on x.within))
      ]

  -- The call.
  pub make_data_frame-IsSent :
      (beyond : List ℕ)
      → 0 < length beyond
      → mblk_id < 4294967296
      → length goal ≤ 4294967296
      → Returns
          (IsSent e mblk_id goal mblk s t)
          (make_data_frame e.os_checksum beyond mblk e.sender mblk_id s)
  unfolding make_data_frame
  make_data_frame-IsSent beyond more id_fits small =
      Returns-bind _
        (generate_header-IsHeader (some e.sender) mblk_id s.start_addr id_fits
          (omega (arith, p.ordered, p.inside)))
        (λ h q.
          let max = e.sender.dst_frame_sz - h.header_sz in
          Returns-bind _
            (compress_data-Carries mblk beyond s max (omega (arith, a.some_room, header_sz-bound q))
              p.ordered p.has_bytes more)
            (λ r x. returns (placed-IsSent h q (choose_content mblk s max r) x)))
