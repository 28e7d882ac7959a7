-- ===== src/Streamer/Fifo.antt =====
-- code/ioc_streamer.c: what a stream promises, a queue of bytes with a bound, and that the rings of
-- the two ends keep it.
use iocom.Base.{
  ℕ, zero, suc, ◌∷◌, ◌+◌, ◌-◌, ◌<◌, ◌≤◌, ◌≡◌, ◌∙◌, refl, sym, ap, min, List, [], ◌++◌, length,
  length-append, length-drop, take, take_all, drop, drop_all, take-append, drop-append, arith,
}
use iocom.Streamer.Ring.{write_internal, read_internal}
use iocom.Streamer.Window.{distance, contents}
use iocom.Streamer.Written.{write_internal-IsWritten}
use iocom.Streamer.Taken.{take_count, read_internal-IsTaken}
use iocom.Streamer.Link.{
  Link, opened, write_some, read_some, send_bytes, receive_bytes, send_tail, receive_tail, Step,
  write_step, read_step, send_bytes_step, receive_bytes_step, send_tail_step, receive_tail_step,
  Reach,
}
use iocom.Streamer.Linked.{IsLinked, tail_in_ring, length-contents, write_some-IsLinked}
use iocom.Streamer.Delay.{all_unread, Reach-IsLinked}

-- The bytes that went into a queue, and those that came out.
pub record Fifo : Type 0 where
  pub put_in : List ℕ
  pub got_out : List ℕ

-- One step of a queue that holds at most `bound` bytes: bytes are put behind the others, the bytes
-- that have been in it longest are taken out, or nothing happens.
pub data FifoStep (bound : ℕ) (a b : Fifo) : Type 0 where
  puts :
      (xs : List ℕ)
      → b.put_in ≡ a.put_in ++ xs
      → b.got_out ≡ a.got_out
      → length b.put_in ≤ length b.got_out + bound
      → FifoStep bound a b
  gets :
      (n : ℕ)
      → b.put_in ≡ a.put_in
      → b.got_out ≡ a.got_out ++ take n (drop (length a.got_out) a.put_in)
      → FifoStep bound a b
  idles : b.put_in ≡ a.put_in → b.got_out ≡ a.got_out → FifoStep bound a b

abbrev pub queue : Link → Fifo
queue l = record { put_in = l.all_written; got_out = l.all_read }

take-append_fits : (n : ℕ) (xs ys : List ℕ) → n ≤ length xs → take n (xs ++ ys) ≡ take n xs
take-append_fits zero xs ys h = refl
take-append_fits (suc n) [] ys h = absurd (omega arith)
take-append_fits (suc n) (x ∷ xs) ys h = ap (λ zs. x ∷ zs) (take-append_fits n xs ys (omega arith))

module _ (sz : ℕ) (l : Link) (k : IsLinked sz l) where
  unread :
      drop (length l.all_read) l.all_written
      ≡ contents l.old_buf sz l.tail l.old_head ++ (k.coming ++ k.unsent)
  unread =
      ap (drop (length l.all_read)) (sym k.complete)
      ∙ drop-append l.all_read (contents l.old_buf sz l.tail l.old_head ++ (k.coming ++ k.unsent))

  -- No more is written and not read than the ring holds.
  written_bound : length l.all_written ≤ length l.all_read + (sz - 1)
  written_bound =
      let seen = contents l.old_buf sz l.tail l.old_head in
      let sent = contents l.sent_buf sz l.tail l.sent_head in
      let all = contents l.buf sz l.old_tail l.head in
      let a : length l.all_written
          ≡ length l.all_read + (length seen + (length k.coming + length k.unsent)) =
        ap length (sym k.complete)
        ∙ length-append l.all_read (seen ++ (k.coming ++ k.unsent))
        ∙ ap (λ i. length l.all_read + i)
            (length-append seen (k.coming ++ k.unsent)
              ∙ ap (λ i. length seen + i) (length-append k.coming k.unsent)) in
      let b : length seen + length k.coming + length k.unsent ≡ length all - (k.back + k.ahead) =
        sym (
          sym (length-drop (k.back + k.ahead) all)
          ∙ ap length k.written
          ∙ length-append sent k.unsent
          ∙ ap (λ i. i + length k.unsent) (ap length k.on_the_way ∙ length-append seen k.coming)) in
      let c : length all ≡ distance sz l.old_tail l.head =
        length-contents l.buf sz l.old_tail l.head in
      let h = k.heads.0 in
      let t = k.in_ring in
      let far : distance sz l.old_tail l.head ≤ sz - 1 = ground arith in omega (arith, a, b, c, far)

  pub IsLinked-IsPrefix :
      (take (length l.all_read) l.all_written ≡ l.all_read)
      × (length l.all_written ≤ length l.all_read + (sz - 1))
  IsLinked-IsPrefix =
      let rest = contents l.old_buf sz l.tail l.old_head ++ (k.coming ++ k.unsent) in
      (ap (take (length l.all_read)) (sym k.complete) ∙ take-append l.all_read rest, written_bound)

  read_some-gets : (n : ℕ) → FifoStep (sz - 1) (queue l) (queue (read_some sz n l))
  unfolding read_some
  read_some-gets n =
      let w =
        read_internal-IsTaken l.old_buf sz n l.old_head l.tail k.sizes.2 k.heads.2
          (tail_in_ring sz l k) in
      gets (take_count sz l.tail l.old_head n) refl (
        ap (λ xs. l.all_read ++ xs)
          (w.returned
            ∙ sym (
                ap (take (take_count sz l.tail l.old_head n)) unread
                ∙ take-append_fits (take_count sz l.tail l.old_head n)
                    (contents l.old_buf sz l.tail l.old_head) (k.coming ++ k.unsent)
                    (omega (arith, length-contents l.old_buf sz l.tail l.old_head)))))

write_some-puts :
    (sz : ℕ) (l : Link) (src : List ℕ)
    → IsLinked sz l
    → FifoStep (sz - 1) (queue l) (queue (write_some sz src l))
unfolding write_some
write_some-puts sz l src k =
    puts (take (write_internal l.buf src sz l.head l.old_tail).nbytes src) refl refl
      (written_bound sz (write_some sz src l) (write_some-IsLinked sz l k src))

-- Every step of a link is a step of a queue that holds one byte less than the ring, if the link is
-- as after opening and any steps.
pub Step-FifoStep :
    (buf : List ℕ) {l m : Link}
    → 0 < length buf
    → Reach (length buf) (opened buf) l
    → Step (length buf) l m
    → FifoStep (length buf - 1) (queue l) (queue m)
unfolding send_bytes receive_bytes send_tail receive_tail
Step-FifoStep buf some r (write_step l src) =
    write_some-puts (length buf) l src (Reach-IsLinked buf some r)
Step-FifoStep buf some r (read_step l n) =
    read_some-gets (length buf) l (Reach-IsLinked buf some r) n
Step-FifoStep buf some r (send_bytes_step l) = idles refl refl
Step-FifoStep buf some r (receive_bytes_step l) = idles refl refl
Step-FifoStep buf some r (send_tail_step l) = idles refl refl
Step-FifoStep buf some r (receive_tail_step l) = idles refl refl

-- The end that reads has read the first bytes that were written, in their order, and at most one
-- byte less than the ring has was written and not read yet, whatever writes, reads and deliveries
-- there were since the stream was opened, if the ring is not empty.
pub all_read-IsPrefix :
    (buf : List ℕ) {l : Link}
    → 0 < length buf
    → Reach (length buf) (opened buf) l
    → (take (length l.all_read) l.all_written ≡ l.all_read)
      × (length l.all_written ≤ length l.all_read + (length buf - 1))
all_read-IsPrefix buf {l = l} some r = IsLinked-IsPrefix (length buf) l (Reach-IsLinked buf some r)

-- Both directions are up to date, with a read of as much as the ring has in between.
abbrev pub catch_up : ℕ → Link → Link
catch_up sz l = receive_tail (send_tail (read_some sz sz (receive_bytes (send_bytes l))))

-- Nothing gets lost and nothing blocks: after any steps since the stream was opened, when the bytes
-- arrive and are read, all that was written has been read; when `tail` has arrived too, the next
-- write takes all its bytes, if they are fewer than the ring has.
pub catch_up-IsRead :
    (buf : List ℕ) {l : Link} (src : List ℕ)
    → Reach (length buf) (opened buf) l
    → length src < length buf
    → ((catch_up (length buf) l).all_read ≡ l.all_written)
      × ((write_some (length buf) src (catch_up (length buf) l)).all_written ≡ l.all_written ++ src)
unfolding receive_tail send_tail read_some receive_bytes send_bytes write_some
catch_up-IsRead buf {l = l} src r less =
    let sz = length buf in
    let k = Reach-IsLinked buf (omega arith) r in
    let all = contents l.buf sz l.tail l.head in
    let t = tail_in_ring sz l k in
    let h = k.heads.0 in
    let w = read_internal-IsTaken l.buf sz sz l.head l.tail k.sizes.0 h t in
    let far : length all ≡ distance sz l.tail l.head = length-contents l.buf sz l.tail l.head in
    let whole : length all ≤ take_count sz l.tail l.head sz = ground arith in
    let tail' = (read_internal l.buf sz sz l.head l.tail).tail in
    let emptied : distance sz tail' l.head ≡ 0 =
      sym (length-contents l.buf sz tail' l.head) ∙ ap length (w.left ∙ drop_all _ all whole) in
    let p = write_internal-IsWritten l.buf src sz l.head tail' k.sizes.0 h w.in_ring in
    let room : (write_internal l.buf src sz l.head tail').nbytes ≡ length src =
      p.count ∙ ap (λ d. min (length src) (sz - 1 - d)) emptied ∙ omega arith in
    (
      ap (λ xs. l.all_read ++ xs) (w.returned ∙ take_all _ all whole ∙ all_unread sz l k)
          ∙ k.complete,
      ap (λ xs. l.all_written ++ xs)
          (ap (λ n. take n src) room ∙ take_all (length src) src (omega arith)),
    )
