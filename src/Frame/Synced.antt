-- ===== src/Frame/Synced.antt =====
-- code/ioc_source_buffer.c, code/ioc_connection_send.c, code/ioc_connection_receive.c and
-- code/ioc_target_buffer.c: the changes of a memory block, from `ioc_sbuf_synchronize` of one end to
-- `ioc_tbuf_synchronize` of the other, in as many frames as it takes.
use iocom.Base.{
  ℕ, zero, suc, ◌+◌, ◌<◌, ◌≤◌, ◌≡◌, ◌⊎◌, ◌∙◌, sym, subst, true, false, Bool-cases, inl, inr, some,
  List, length, at, done, Returns-value, arith,
}
use iocom.SourceBuffer.{SourceBuffer, synchronize}
use iocom.SourceBuffer.Range.{Covers}
use iocom.SourceBuffer.Frame.{IsReady, Sends}
use iocom.SourceBuffer.Kept.{Keeps, synchronize-Keeps}
use iocom.SourceBuffer.Synchronized.{IsSynchronized, synchronize-IsSynchronized}
use iocom.TargetBuffer.{TargetBuffer}
use iocom.TargetBuffer.Received.{Pending}
use iocom.Frame.{Connection, is_serial, is_blocked, next_frame_nr}
use iocom.Frame.Data.{delta_bytes, is_delta, DataFrame, make_data_frame, stored, store_data_frame}
use iocom.Frame.Sized.{arrived}
use iocom.Frame.Delivered.{IsDelivered}
use iocom.Frame.Transit.{Transit, Arrived}
use iocom.Frame.Exchange.{goes_on, ends, Ends, AreFit, IsSent, held, sent, make_data_frame-IsSent}

-- Frames go over one by one, each made of what is left, opened by the reader and stored, until all
-- has come or the flow control holds one back.
pub data Exchange (beyond : List ℕ) (mblk_id : ℕ) (goal mblk : List ℕ)
    : Ends → SourceBuffer → TargetBuffer → Type 0 where
  all_here :
      {e : Ends} {s : SourceBuffer} {t : TargetBuffer}
      → Arrived goal s t
      → Exchange beyond mblk_id goal mblk e s t
  held_back :
      {e : Ends} {s : SourceBuffer} {t : TargetBuffer} (n : ℕ)
      → n ≤ e.sender.dst_frame_sz
      → is_blocked n e.sender ≡ true
      → Exchange beyond mblk_id goal mblk e s t
  one_frame :
      {e : Ends} {s : SourceBuffer} {t : TargetBuffer} (m : DataFrame) (f content : List ℕ)
      (flags : ℕ) (u : TargetBuffer)
      → make_data_frame e.os_checksum beyond mblk e.sender mblk_id s ≡ done m
      → m.frame ≡ some f
      → IsDelivered e.os_checksum e.reader
          (arrived (is_serial e.sender) f e.frame_sz e.frame_nr e.needed e.data_sz e.before)
          mblk_id
          s.start_addr
          flags
          content
          m.connection.frame_out_nr
      → store_data_frame t s.start_addr content flags ≡ done (stored, u)
      → Exchange beyond mblk_id goal mblk (record e { sender = m.connection }) m.sbuf u
      → Exchange beyond mblk_id goal mblk e s t

next_frame_nr-bound : (n : ℕ) → next_frame_nr n ≤ 200
unfolding next_frame_nr
next_frame_nr-bound n = ground arith

-- The ends still fit after a frame.
AreFit-next :
    (e : Ends) (c : Connection)
    → c ≡ record e.sender { frame_out_nr = next_frame_nr e.sender.frame_out_nr }
    → AreFit e
    → AreFit (record e { sender = c })
unfolding is_serial
AreFit-next e c h a =
    subst (λ d. AreFit (record e { sender = d })) (sym h)
      (record {
        sum_bound = a.sum_bound;
        number = next_frame_nr-bound e.sender.frame_out_nr;
        some_room = a.some_room;
        size_bound = a.size_bound;
        room = a.room;
      })

module _ (beyond : List ℕ) (mblk_id : ℕ) (goal mblk : List ℕ) (more : 0 < length beyond)
    (id_fits : mblk_id < 4294967296) (small : length goal ≤ 4294967296) where
  -- One frame, and what `rest` makes of what is left.
  after_frame :
      (fuel : ℕ)
      → ((e : Ends) (s : SourceBuffer) (t : TargetBuffer)
          → AreFit e
          → Transit goal mblk s t
          → s.end_addr + 1 ≤ s.start_addr + fuel
          → Exchange beyond mblk_id goal mblk e s t)
      → (e : Ends) (s : SourceBuffer) (t : TargetBuffer) (m : DataFrame) → AreFit e
      → s.end_addr + 1 ≤ s.start_addr + suc fuel
      → make_data_frame e.os_checksum beyond mblk e.sender mblk_id s ≡ done m
      → IsSent e mblk_id goal mblk s t m
      → Exchange beyond mblk_id goal mblk e s t
  after_frame fuel rest e s t m a h made (held n le blocked no_frame same_s same_c) =
      held_back n le blocked
  after_frame fuel rest e s t m a h made
        (sent f content flags u framed opened kept same_c (ends x)) =
      one_frame m f content flags u made framed opened kept (all_here x)
  after_frame fuel rest e s t m a h made
        (sent f content flags u framed opened kept same_c (goes_on further same_end x)) =
      one_frame m f content flags u made framed opened kept (
        rest (record e { sender = m.connection }) m.sbuf u (AreFit-next e m.connection same_c a) x
          (omega arith))

  -- `fuel` bounds the bytes that are left.
  Exchange-Transit :
      (fuel : ℕ) (e : Ends) (s : SourceBuffer) (t : TargetBuffer)
      → AreFit e
      → Transit goal mblk s t
      → s.end_addr + 1 ≤ s.start_addr + fuel
      → Exchange beyond mblk_id goal mblk e s t
  Exchange-Transit zero e s t a p h = absurd (omega (arith, p.ordered))
  Exchange-Transit (suc fuel) e s t a p h =
      let (m, made, q) =
        Returns-value
          (make_data_frame-IsSent e a mblk_id goal mblk s t p beyond more id_fits small) in
      after_frame fuel (Exchange-Transit fuel) e s t m a h made q

-- What the other end has: the bytes that the source buffer has noted as sent, in a buffer of the same
-- size.
pub record HasSame (mblk old : List ℕ) (t : TargetBuffer) : Type 0 where
  pub target_size : t.ndata ≡ length mblk
  pub room : t.ndata ≤ t.nbytes
  pub whole : length t.newdata ≡ t.nbytes
  pub pending : Pending t
  pub target_IsBytes : (k : ℕ) → k < length t.newdata → at t.newdata k < 256
  pub same_bytes : (k : ℕ) → k < length mblk → at t.newdata k ≡ at old k

-- A range that has just been set up for sending is on its way.
Sends-Transit :
    (mblk : List ℕ) (s u : SourceBuffer) (t : TargetBuffer)
    → IsReady mblk s
    → Keeps s u
    → Sends mblk s.buf u
    → HasSame mblk s.buf t
    → Transit mblk mblk u t
unfolding delta_bytes is_delta
Sends-Transit mblk s u t r k p h =
    let a : u.allocated ≡ true = k.allocated ∙ r.copied in
    record {
      in_use = p.in_use;
      one_range = k.one_range;
      ordered = p.ordered;
      inside = p.inside;
      has_bytes = ground (arith, p.inside, k.delta_size, r.delta_bytes, r.room, r.data_bytes, a);
      source_size = k.ndata ∙ sym r.data_bytes;
      target_size = h.target_size;
      room = h.room;
      whole = h.whole;
      goal_IsBytes = r.mblk_IsBytes;
      target_IsBytes = h.target_IsBytes;
      pending = h.pending;
      to_come = λ i low high.
          let i_in : i < length mblk = omega (arith, p.inside) in
          let old = h.same_bytes i i_in in
          elim (Bool-cases u.is_keyframe) [
            | inl key ↦ ground (arith, a, key, p.key key i i_in)
            | inr no_key ↦
                ground (
                  arith,
                  a,
                  no_key,
                  p.delta no_key i low high,
                  old,
                  p.inside,
                  r.data_bytes,
                  k.ndata,
                )
          ];
      has_come = λ i low out. h.same_bytes i low ∙ p.outside i low out;
    }

-- The changes of a memory block get to the other end. If the source buffer is well formed, not
-- bidirectional, and free, its changed range covers what the other end lacks, and the other end has
-- the bytes that the source buffer has noted as sent, then after `ioc_sbuf_synchronize` either there
-- is nothing to send and the other end has the bytes of the memory block already, or frames that
-- `ioc_make_data_frame` makes, and the reader opens and stores, carry all of them over, so that at
-- the last frame `buf` of the target buffer is the memory block, byte for byte; or the flow control
-- holds a frame back. This holds for check sums of 16 bits, whatever they are, for frame sizes of both
-- ends that fit, for identifiers and addresses of 32 bits, and if a byte can be read behind the delta
-- buffer.
pub synchronize-Exchange :
    (mblk beyond : List ℕ) (mblk_id : ℕ) (e : Ends) (s : SourceBuffer) (t : TargetBuffer)
    → IsReady mblk s
    → Covers mblk s
    → s.used ≡ false
    → s.bidirectional ≡ false
    → s.bidir_range_set ≡ false
    → HasSame mblk s.buf t
    → AreFit e
    → 0 < length beyond
    → mblk_id < 4294967296
    → length mblk ≤ 4294967296
    → ((k : ℕ) → k < length mblk → at t.newdata k ≡ at mblk k)
      ⊎ Exchange beyond mblk_id mblk mblk e (synchronize mblk s).1 t
synchronize-Exchange mblk beyond mblk_id e s t r c free one_way one_range h a more id_fits small =
    let u = (synchronize mblk s).1 in
    elim ((synchronize-IsSynchronized mblk s r c free).1) [
      | IsSynchronized.idle p no_key ↦ inl (λ k k_in. h.same_bytes k k_in ∙ (p.up_to_date k k_in).1)
      | IsSynchronized.sends p no_key ↦ inr (
          Exchange-Transit beyond mblk_id mblk mblk more id_fits small (u.end_addr + 1) e u t a
            (Sends-Transit mblk s u t r (synchronize-Keeps mblk s one_way one_range) p h)
            (omega arith))
    ]
