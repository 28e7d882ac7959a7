-- ===== src/Streamer/Delay.antt =====
-- code/ioc_streamer.c: a stream over a link with delays in both directions.
use iocom.Base.{
  ℕ, ◌+◌, ◌<◌, ◌≡◌, ◌∙◌, sym, subst, ap, List, [], ◌++◌, append-nil, append_assoc, length, drop,
  drop-drop, arith,
}
use iocom.Streamer.Window.{forward, contents, forward-lt}
use iocom.Streamer.Link.{
  Link, opened, send_bytes, receive_bytes, send_tail, receive_tail, Step, write_step, read_step,
  send_bytes_step, receive_bytes_step, send_tail_step, receive_tail_step, Reach, here, next,
}
use iocom.Streamer.Linked.{
  IsLinked, opened-IsLinked, contents-drop, write_some-IsLinked, read_some-IsLinked,
}

module _ (sz : ℕ) (l : Link) (k : IsLinked sz l) where
  -- What the end that reads can read when all is sent.
  now :
      contents l.buf sz l.tail l.head
      ≡ drop (k.back + k.ahead) (contents l.buf sz l.old_tail l.head)
  now =
      ap (λ i. contents l.buf sz i l.head) k.tail_moved
      ∙ contents-drop l.buf sz l.old_tail l.head (k.back + k.ahead) k.heads.0 k.in_ring k.not_past

  pub all_unread :
      contents l.buf sz l.tail l.head
      ≡ contents l.old_buf sz l.tail l.old_head ++ (k.coming ++ k.unsent)
  all_unread =
      now
      ∙ k.written
      ∙ ap (λ xs. xs ++ k.unsent) k.on_the_way
      ∙ append_assoc (contents l.old_buf sz l.tail l.old_head) k.coming k.unsent

  pub send_bytes-IsLinked : IsLinked sz (send_bytes l)
  unfolding send_bytes
  send_bytes-IsLinked =
      let all = contents l.buf sz l.tail l.head in
      record {
        back = k.back;
        ahead = k.ahead;
        coming = k.coming ++ k.unsent;
        unsent = [];
        sizes = (k.sizes.0, k.sizes.0, k.sizes.2);
        heads = (k.heads.0, k.heads.0, k.heads.2);
        in_ring = k.in_ring;
        sent_tail_moved = k.sent_tail_moved;
        tail_moved = k.tail_moved;
        not_past = k.not_past;
        written = sym now ∙ sym (append-nil all);
        on_the_way = all_unread;
        complete =
            ap (λ xs. l.all_read ++ (contents l.old_buf sz l.tail l.old_head ++ xs))
              (append-nil (k.coming ++ k.unsent))
            ∙ k.complete;
      }

  pub receive_bytes-IsLinked : IsLinked sz (receive_bytes l)
  unfolding receive_bytes
  receive_bytes-IsLinked = record {
    back = k.back;
    ahead = k.ahead;
    coming = [];
    unsent = k.unsent;
    sizes = (k.sizes.0, k.sizes.1, k.sizes.1);
    heads = (k.heads.0, k.heads.1, k.heads.1);
    in_ring = k.in_ring;
    sent_tail_moved = k.sent_tail_moved;
    tail_moved = k.tail_moved;
    not_past = k.not_past;
    written = k.written;
    on_the_way = sym (append-nil (contents l.sent_buf sz l.tail l.sent_head));
    complete =
        ap (λ xs. l.all_read ++ xs)
          (ap (λ xs. xs ++ k.unsent) k.on_the_way
            ∙ append_assoc (contents l.old_buf sz l.tail l.old_head) k.coming k.unsent)
        ∙ k.complete;
  }

  pub send_tail-IsLinked : IsLinked sz (send_tail l)
  unfolding send_tail
  send_tail-IsLinked = record {
    back = k.back + k.ahead;
    ahead = 0;
    coming = k.coming;
    unsent = k.unsent;
    sizes = k.sizes;
    heads = k.heads;
    in_ring = k.in_ring;
    sent_tail_moved = k.tail_moved;
    tail_moved = k.tail_moved ∙ ap (forward sz l.old_tail) (omega arith);
    not_past = omega (arith, k.not_past);
    written =
        ap (λ d. drop d (contents l.buf sz l.old_tail l.head))
          (let e : k.back + k.ahead + 0 ≡ k.back + k.ahead = omega arith in e)
        ∙ k.written;
    on_the_way = k.on_the_way;
    complete = k.complete;
  }

  pub receive_tail-IsLinked : IsLinked sz (receive_tail l)
  unfolding receive_tail
  receive_tail-IsLinked =
      let moved = k.sent_tail_moved in
      let p = k.not_past in
      let h = k.heads.0 in
      let i = k.in_ring in
      let now : contents l.buf sz l.sent_tail l.head
          ≡ drop k.back (contents l.buf sz l.old_tail l.head) =
        ap (λ i. contents l.buf sz i l.head) moved
        ∙ contents-drop l.buf sz l.old_tail l.head k.back h i (omega arith) in
      record {
        back = 0;
        ahead = k.ahead;
        coming = k.coming;
        unsent = k.unsent;
        sizes = k.sizes;
        heads = k.heads;
        in_ring =
            subst (λ j. j < sz) (sym moved)
              (forward-lt l.buf sz l.old_tail k.back i (ground arith));
        sent_tail_moved = ground arith;
        tail_moved = k.tail_moved ∙ ground arith;
        not_past = ground arith;
        written =
            ap (drop (0 + k.ahead)) now
            ∙ drop-drop (0 + k.ahead) k.back (contents l.buf sz l.old_tail l.head)
            ∙ ap (λ d. drop d (contents l.buf sz l.old_tail l.head)) (omega arith)
            ∙ k.written;
        on_the_way = k.on_the_way;
        complete = k.complete;
      }

pub Step-IsLinked : {sz : ℕ} {l m : Link} → Step sz l m → IsLinked sz l → IsLinked sz m
Step-IsLinked {sz = sz} (write_step l src) k = write_some-IsLinked sz l k src
Step-IsLinked {sz = sz} (read_step l n) k = read_some-IsLinked sz l k n
Step-IsLinked {sz = sz} (send_bytes_step l) k = send_bytes-IsLinked sz l k
Step-IsLinked {sz = sz} (receive_bytes_step l) k = receive_bytes-IsLinked sz l k
Step-IsLinked {sz = sz} (send_tail_step l) k = send_tail-IsLinked sz l k
Step-IsLinked {sz = sz} (receive_tail_step l) k = receive_tail-IsLinked sz l k

pub Reach-IsLinked :
    (buf : List ℕ) {l : Link}
    → 0 < length buf
    → Reach (length buf) (opened buf) l
    → IsLinked (length buf) l
Reach-IsLinked buf some here = opened-IsLinked buf some
Reach-IsLinked buf some (next r s) = Step-IsLinked s (Reach-IsLinked buf some r)
