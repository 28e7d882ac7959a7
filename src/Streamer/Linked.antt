-- ===== src/Streamer/Linked.antt =====
-- code/ioc_streamer.c: a link with delays in both directions, with what is on its way, and what
-- writing to it and reading from it do.
use iocom.Base.{
  ℕ, zero, suc, ◌+◌, ◌-◌, ◌<◌, ◌≤◌, ◌≡◌, ◌∙◌, refl, sym, ap, ap₂, List, [], ◌∷◌, ◌++◌, append_assoc,
  length, length-append, length-drop, take, drop, take-append-drop, drop-drop, arith,
}
use iocom.Streamer.Ring.{write_internal, read_internal}
use iocom.Streamer.Window.{
  forward, distance, window, contents, length-window, drop-window, forward-forward,
}
use iocom.Streamer.Written.{write_internal-IsWritten}
use iocom.Streamer.Taken.{take_count, read_internal-IsTaken}
use iocom.Streamer.Link.{Link, opened, write_some, read_some}

pub drop-append_fits :
    (n : ℕ) (xs ys : List ℕ) → n ≤ length xs → drop n (xs ++ ys) ≡ drop n xs ++ ys
drop-append_fits zero xs ys h = refl
drop-append_fits (suc n) [] ys h = absurd (omega arith)
drop-append_fits (suc n) (x ∷ xs) ys h = drop-append_fits n xs ys (omega arith)

-- What a ring holds after its tail has moved by at most as much as it held.
pub contents-drop :
    (ring : List ℕ) (sz tail head d : ℕ)
    → head < sz
    → tail < sz
    → d ≤ distance sz tail head
    → contents ring sz (forward sz tail d) head ≡ drop d (contents ring sz tail head)
unfolding contents
contents-drop ring sz tail head d h t le =
    ap (window ring sz (forward sz tail d))
      (let e : distance sz (forward sz tail d) head ≡ distance sz tail head - d = ground arith in e)
    ∙ sym (drop-window ring sz tail d (distance sz tail head) t le (ground arith))

pub length-contents :
    (ring : List ℕ) (sz tail head : ℕ) → length (contents ring sz tail head) ≡ distance sz tail head
unfolding contents
length-contents ring sz tail head = length-window ring sz tail (distance sz tail head)

-- `old_tail` is `back` behind `sent_tail`, and that is `ahead` behind `tail`. What the end that
-- writes holds from `tail` on is what the end that reads can read, then `coming` of what was sent,
-- then `unsent`.
pub record IsLinked (sz : ℕ) (l : Link) : Type 0 where
  pub back : ℕ
  pub ahead : ℕ
  pub coming : List ℕ
  pub unsent : List ℕ
  pub sizes : (length l.buf ≡ sz) × (length l.sent_buf ≡ sz) × (length l.old_buf ≡ sz)
  pub heads : (l.head < sz) × (l.sent_head < sz) × (l.old_head < sz)
  pub in_ring : l.old_tail < sz
  pub sent_tail_moved : l.sent_tail ≡ forward sz l.old_tail back
  pub tail_moved : l.tail ≡ forward sz l.old_tail (back + ahead)
  pub not_past : back + ahead ≤ distance sz l.old_tail l.head
  pub written :
      drop (back + ahead) (contents l.buf sz l.old_tail l.head)
      ≡ contents l.sent_buf sz l.tail l.sent_head ++ unsent
  pub on_the_way :
      contents l.sent_buf sz l.tail l.sent_head ≡ contents l.old_buf sz l.tail l.old_head ++ coming
  pub complete :
      l.all_read ++ (contents l.old_buf sz l.tail l.old_head ++ (coming ++ unsent)) ≡ l.all_written

pub opened-IsLinked : (buf : List ℕ) → 0 < length buf → IsLinked (length buf) (opened buf)
unfolding opened contents window
opened-IsLinked buf some = record {
  back = 0;
  ahead = 0;
  coming = [];
  unsent = [];
  sizes = (refl, refl, refl);
  heads = (some, some, some);
  in_ring = some;
  sent_tail_moved = ground arith;
  tail_moved = ground arith;
  not_past = omega arith;
  written = refl;
  on_the_way = refl;
  complete = refl;
}

-- The pieces of what was written, with more behind them.
more_behind : (a b c d e : List ℕ) → a ++ (b ++ (c ++ (d ++ e))) ≡ (a ++ (b ++ (c ++ d))) ++ e
more_behind a b c d e = sym (
    append_assoc a (b ++ (c ++ d)) e
    ∙ ap (λ xs. a ++ xs) (append_assoc b (c ++ d) e ∙ ap (λ xs. b ++ xs) (append_assoc c d e)))

taken_apart : (n : ℕ) (a b c : List ℕ) → (a ++ take n b) ++ (drop n b ++ c) ≡ a ++ (b ++ c)
taken_apart n a b c =
    append_assoc a (take n b) (drop n b ++ c)
    ∙ ap (λ xs. a ++ xs)
        (sym (append_assoc (take n b) (drop n b) c) ∙ ap (λ xs. xs ++ c) (take-append-drop n b))

module _ (sz : ℕ) (l : Link) (k : IsLinked sz l) where
  pub tail_in_ring : l.tail < sz
  tail_in_ring =
      let e = k.tail_moved in
      let i = k.in_ring in let p = k.not_past in let h = k.heads.0 in ground arith

  pub write_some-IsLinked : (src : List ℕ) → IsLinked sz (write_some sz src l)
  unfolding write_some
  write_some-IsLinked src =
      let r = write_internal l.buf src sz l.head l.old_tail in
      let w =
        write_internal-IsWritten l.buf src sz l.head l.old_tail k.sizes.0 k.heads.0 k.in_ring in
      let old = contents l.buf sz l.old_tail l.head in
      let len : length old ≡ distance sz l.old_tail l.head =
        length-contents l.buf sz l.old_tail l.head in
      let fits : k.back + k.ahead ≤ length old = omega (arith, len, k.not_past) in
      let count : distance sz l.old_tail r.head ≡ length old + length (take r.nbytes src) =
        sym (length-contents r.ring sz l.old_tail r.head)
        ∙ ap length w.holds
        ∙ length-append old (take r.nbytes src) in
      record {
        back = k.back;
        ahead = k.ahead;
        coming = k.coming;
        unsent = k.unsent ++ take r.nbytes src;
        sizes = (w.size, k.sizes.1, k.sizes.2);
        heads = (w.in_ring, k.heads.1, k.heads.2);
        in_ring = k.in_ring;
        sent_tail_moved = k.sent_tail_moved;
        tail_moved = k.tail_moved;
        not_past = omega (arith, count, fits);
        written =
            ap (drop (k.back + k.ahead)) w.holds
            ∙ drop-append_fits (k.back + k.ahead) old (take r.nbytes src) fits
            ∙ ap (λ xs. xs ++ take r.nbytes src) k.written
            ∙ append_assoc (contents l.sent_buf sz l.tail l.sent_head) k.unsent (take r.nbytes src);
        on_the_way = k.on_the_way;
        complete =
            more_behind l.all_read (contents l.old_buf sz l.tail l.old_head) k.coming k.unsent
              (take r.nbytes src)
            ∙ ap (λ xs. xs ++ take r.nbytes src) k.complete;
      }

  pub read_some-IsLinked : (n : ℕ) → IsLinked sz (read_some sz n l)
  unfolding read_some
  read_some-IsLinked n =
      let r = read_internal l.old_buf sz n l.old_head l.tail in
      let w =
        read_internal-IsTaken l.old_buf sz n l.old_head l.tail k.sizes.2 k.heads.2 tail_in_ring in
      let i = take_count sz l.tail l.old_head n in
      let seen = contents l.old_buf sz l.tail l.old_head in
      let sent = contents l.sent_buf sz l.tail l.sent_head in
      let all = contents l.buf sz l.old_tail l.head in
      let fits : i ≤ length seen = omega (arith, length-contents l.old_buf sz l.tail l.old_head) in
      let fits_sent : i ≤ length sent =
        omega (arith, fits, ap length k.on_the_way, length-append seen k.coming) in
      let fits_all : k.back + (k.ahead + i) ≤ length all = omega (
        arith,
        fits_sent,
        ap length k.written,
        length-append sent k.unsent,
        length-drop (k.back + k.ahead) all,
        length-contents l.buf sz l.old_tail l.head,
        k.not_past,
      ) in
      let left_sent : contents l.sent_buf sz r.tail l.sent_head ≡ drop i sent =
        ap (λ j. contents l.sent_buf sz j l.sent_head) w.moved
        ∙ contents-drop l.sent_buf sz l.tail l.sent_head i k.heads.1 tail_in_ring
            (omega (arith, fits_sent, length-contents l.sent_buf sz l.tail l.sent_head)) in
      record {
        back = k.back;
        ahead = k.ahead + i;
        coming = k.coming;
        unsent = k.unsent;
        sizes = k.sizes;
        heads = k.heads;
        in_ring = k.in_ring;
        sent_tail_moved = k.sent_tail_moved;
        tail_moved =
            w.moved
            ∙ ap (λ j. forward sz j i) k.tail_moved
            ∙ forward-forward l.buf sz l.old_tail (k.back + k.ahead) i k.in_ring (
                let far : length all ≡ distance sz l.old_tail l.head =
                  length-contents l.buf sz l.old_tail l.head in
                let h = k.heads.0 in let j = k.in_ring in ground arith)
            ∙ ap (forward sz l.old_tail) (omega arith);
        not_past = omega (arith, fits_all, length-contents l.buf sz l.old_tail l.head);
        written =
            ap (λ d. drop d all) (omega arith)
            ∙ sym (drop-drop i (k.back + k.ahead) all)
            ∙ ap (drop i) k.written
            ∙ drop-append_fits i sent k.unsent fits_sent
            ∙ ap (λ xs. xs ++ k.unsent) (sym left_sent);
        on_the_way =
            left_sent
            ∙ ap (drop i) k.on_the_way
            ∙ drop-append_fits i seen k.coming fits
            ∙ ap (λ xs. xs ++ k.coming) (sym w.left);
        complete =
            ap₂ (λ xs ys. (l.all_read ++ xs) ++ (ys ++ (k.coming ++ k.unsent))) w.returned w.left
            ∙ taken_apart i l.all_read seen (k.coming ++ k.unsent)
            ∙ k.complete;
      }
