-- ===== src/Signal/Several.antt =====
-- code/ioc_signal.c: `ioc_move` of several signals writes and reads each of them.
use iocom.Base.{
  ℕ, ◌+◌, ◌<◌, ◌≡◌, ◌∙◌, refl, sym, ap, subst, Bool, if◌then◌else◌, arith, ◌⊎◌, inl, inr, some,
  List, [], ◌∷◌, map, length, set, length-set, All,
}
use iocom.MemoryBlock.{MemoryBlock, mblk_invalidate}
use iocom.SignalAddr.{Signal}
use iocom.Signal.{Osal, Value, with_boolean, state_read, move_size, read_value}
use iocom.Signal.Text.{read_text}
use iocom.Signal.Bits.{AreMasks}
use iocom.Signal.Moved.{Shows, read_value-Shows}
use iocom.Signal.Stored.{HasSize, new_bytes_outside, length-new_bytes}
use iocom.Signal.Move.{
  Item, Blocks, read_signal, write_item, move_write, read_block, read_item, move_read,
}
use iocom.Signal.Placed.{
  Shows-kept, IsReady, AreApart, IsShown, after_write, write_ready, written-IsShown, Place,
  Place-lookup, written, other,
}

-- What is written beside a signal leaves it as it is.
after_write-Shows :
    (o : Osal) (s : Signal) (vv : Value) (y : Item) (m : MemoryBlock)
    → HasSize o y.signal
    → (s.addr + move_size o s < y.signal.addr) ⊎ (y.signal.addr + move_size o y.signal < s.addr)
    → Shows o s vv m
    → Shows o s vv (after_write o y m)
unfolding mblk_invalidate
after_write-Shows o s vv y m size apart h =
    Shows-kept o s vv m (after_write o y m) (length-new_bytes o y.signal y.value m.buf)
      (λ k from to.
        new_bytes_outside o y.signal y.value m.buf k size
          (elim apart [ inl before ↦ inl (omega arith) | inr behind ↦ inr (omega arith) ]))
      h

IsShown-kept :
    (o : Osal) (mblks : Blocks) (x y : Item) (r : IsReady o mblks y)
    → AreApart o x y
    → IsShown o mblks x
    → IsShown o (set mblks r.h (some (after_write o y r.m))) x
unfolding AreApart
IsShown-kept o mblks x y r apart w =
    go (Place-lookup o mblks y r w.h w.m w.place.known w.place.block)
  where
    known : w.h < length (set mblks r.h (some (after_write o y r.m)))
    known = subst (λ n. w.h < n) (sym (length-set mblks r.h _)) w.place.known

    go : Place o mblks y r w.h w.m → IsShown o (set mblks r.h (some (after_write o y r.m))) x
    go (written em eh back) = record {
      h = w.h;
      m = after_write o y r.m;
      place = record { handle = w.place.handle; known = known; block = back };
      shows =
          after_write-Shows o x.signal x.value y r.m r.size
            (apart (w.place.handle ∙ ap some eh ∙ sym r.place.handle))
            (subst (Shows o x.signal x.value) em w.shows);
    }
    go (other back) = record {
      h = w.h;
      m = w.m;
      place = record { handle = w.place.handle; known = known; block = back };
      shows = w.shows;
    }

IsReady-kept :
    (o : Osal) (mblks : Blocks) (x y : Item) (r : IsReady o mblks y)
    → IsReady o mblks x
    → IsReady o (set mblks r.h (some (after_write o y r.m))) x
unfolding mblk_invalidate
IsReady-kept o mblks x y r w = go (Place-lookup o mblks y r w.h w.m w.place.known w.place.block)
  where
    known : w.h < length (set mblks r.h (some (after_write o y r.m)))
    known = subst (λ n. w.h < n) (sym (length-set mblks r.h _)) w.place.known

    go : Place o mblks y r w.h w.m → IsReady o (set mblks r.h (some (after_write o y r.m))) x
    go (written em eh back) = record {
      h = w.h;
      m = after_write o y r.m;
      place = record { handle = w.place.handle; known = known; block = back };
      inside =
          let len = length-new_bytes o y.signal y.value r.m.buf in
          let inside =
            subst (λ z. x.signal.addr + move_size o x.signal < length z.buf) em w.inside in
          omega arith;
      basic = w.basic;
      size = w.size;
      bits = w.bits;
      range = w.range;
    }
    go (other back) = record {
      h = w.h;
      m = w.m;
      place = record { handle = w.place.handle; known = known; block = back };
      inside = w.inside;
      basic = w.basic;
      size = w.size;
      bits = w.bits;
      range = w.range;
    }

-- The signals of a list have no byte in common.
unfoldable pub AllApart : Osal → List Item → Type 0
AllApart o [] = Unit
AllApart o (x ∷ xs) = All (AreApart o x) xs × AllApart o xs

-- The store after the first of the signals, and after the others.
move_write-step :
    (o : Osal) (mblks : Blocks) (x : Item) (xs : List Item) (r : IsReady o mblks x)
    → (move_write o (x ∷ xs) mblks).1
      ≡ (move_write o xs (set mblks r.h (some (after_write o x r.m)))).1
unfolding move_write write_item
move_write-step o mblks x xs r =
    ap (λ h. (write_item o x xs (move_write o xs) h mblks).1) r.place.handle
    ∙ ap (λ b. (move_write o xs b).1) (write_ready o mblks x r)

All-IsReady :
    (o : Osal) (mblks : Blocks) (y : Item) (r : IsReady o mblks y) (xs : List Item)
    → All (IsReady o mblks) xs
    → All (IsReady o (set mblks r.h (some (after_write o y r.m)))) xs
All-IsReady o mblks y r [] a = tt
All-IsReady o mblks y r (x ∷ xs) a =
    (IsReady-kept o mblks x y r a.0, All-IsReady o mblks y r xs a.1)

-- A signal that is shown goes on being shown.
move_write-kept :
    (o : Osal) (mblks : Blocks) (x : Item) (ys : List Item)
    → All (AreApart o x) ys
    → All (IsReady o mblks) ys
    → IsShown o mblks x
    → IsShown o (move_write o ys mblks).1 x
unfolding move_write
move_write-kept o mblks x [] apart ready w = w
move_write-kept o mblks x (y ∷ ys) apart ready w =
    subst (λ b. IsShown o b x) (sym (move_write-step o mblks y ys ready.0))
      (move_write-kept o (set mblks ready.0.h (some (after_write o y ready.0.m))) x ys apart.1
        (All-IsReady o mblks y ready.0 ys ready.1) (IsShown-kept o mblks x y ready.0 apart.0 w))

move_write-IsShown :
    (o : Osal) (mblks : Blocks) (xs : List Item)
    → AllApart o xs
    → All (IsReady o mblks) xs
    → All (IsShown o (move_write o xs mblks).1) xs
unfolding AllApart
move_write-IsShown o mblks [] apart ready = tt
move_write-IsShown o mblks (x ∷ xs) apart ready =
    let after = set mblks ready.0.h (some (after_write o x ready.0.m)) in
    let rest = All-IsReady o mblks x ready.0 xs ready.1 in
    subst (λ b. All (IsShown o b) (x ∷ xs)) (sym (move_write-step o mblks x xs ready.0))
      (
        move_write-kept o after x xs apart.0 rest (written-IsShown o mblks x ready.0),
        move_write-IsShown o after xs apart.1 rest,
      )

-- A signal that is shown is read.
read_shown :
    (o : Osal) (check : Bool) (nbuf : List ℕ) (mblks after : Blocks) (x : Item) (xs : List Item)
    (rest : List Value)
    → AreMasks o
    → IsReady o mblks x
    → (w : IsShown o after x)
    → read_item o check nbuf x xs rest x.handle after
      ≡ record {
        state_bits = state_read o check w.m (with_boolean o x.value.value x.value.state_bits);
        value = x.value.value;
      }
        ∷ rest
unfolding read_item read_block read_signal
read_shown o check nbuf mblks after x xs rest masks r w =
    ap (λ h. read_item o check nbuf x xs rest h after) w.place.handle
    ∙ ap (λ b. read_block o check nbuf x.signal b ∷ rest) w.place.block
    ∙ ap
        (λ b.
          ((if b
              then record {
                state_bits = (read_text o check x.signal nbuf w.m).0;
                value = o.str_to_int (read_text o check x.signal nbuf w.m).1;
              }
              else read_value o check x.signal w.m)
            ∷ rest))
        r.basic
    ∙ ap (λ v. v ∷ rest)
        (read_value-Shows o check x.signal x.value w.m masks r.size r.bits r.range w.shows)

move_read-values :
    (o : Osal) (check : Bool) (nbuf : List ℕ) (mblks after : Blocks) (xs : List Item)
    → AreMasks o
    → All (IsReady o mblks) xs
    → All (IsShown o after) xs
    → map (λ v. v.value) (move_read o check nbuf xs after) ≡ map (λ x. x.value.value) xs
unfolding move_read
move_read-values o check nbuf mblks after [] masks ready shown = refl
move_read-values o check nbuf mblks after (x ∷ xs) masks ready shown =
    ap (map (λ v. v.value)) (
      read_shown o check nbuf mblks after x xs (move_read o check nbuf xs after) masks ready.0
        shown.0)
    ∙ ap (λ z. x.value.value ∷ z)
        (move_read-values o check nbuf mblks after xs masks ready.1 shown.1)

-- `ioc_move` of several signals reads for each the value that it wrote, in order, whatever memory
-- blocks they are in. This holds for signals of basic types with handles whose memory blocks are
-- there and have room for them, no two of which have a byte in common, and for values of their
-- types, with the target buffers tested or not, on processors of either byte order.
pub move_read-move_write :
    (o : Osal) (check : Bool) (nbuf : List ℕ) (mblks : Blocks) (xs : List Item)
    → AreMasks o
    → AllApart o xs
    → All (IsReady o mblks) xs
    → map (λ v. v.value) (move_read o check nbuf xs (move_write o xs mblks).1)
      ≡ map (λ x. x.value.value) xs
move_read-move_write o check nbuf mblks xs masks apart ready =
    move_read-values o check nbuf mblks _ xs masks ready (move_write-IsShown o mblks xs apart ready)
