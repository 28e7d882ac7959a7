-- ===== src/Signal/Placed.antt =====
-- code/ioc_signal.c: signals in the memory blocks of their handles.
use iocom.Base.{
  ℕ, zero, suc, ◌+◌, ◌<◌, ◌≤◌, ◌≡◌, ◌≢◌, ◌∙◌, refl, sym, ap, subst, false, Bool-cases, ◌==◌,
  if◌then◌else◌, arith, ◌⊎◌, inl, inr, Option, none, some, [], ◌∷◌, length, at, get_or, set, take,
  drop, at_ext, at-take, at-drop, length-take, length-drop, length-set,
}
use mathlib.Core.Option.{some-injective}
use iocom.MemoryBlock.{MemoryBlock, mblk_invalidate}
use iocom.SignalAddr.{Signal}
use iocom.Signal.{Osal, Value, move_size, write_value}
use iocom.Signal.Text.{write_text}
use iocom.Signal.Values.{IsValue}
use iocom.Signal.Moved.{Shows, new_bytes-Shows}
use iocom.Signal.Stored.{HasSize, new_bytes, write_value-new_bytes}
use iocom.Signal.Move.{Item, Blocks, is_str, write_signal, write_block}

-- Bytes that stay as they are go on showing a value.
pub Shows-kept :
    (o : Osal) (s : Signal) (vv : Value) (m after : MemoryBlock)
    → length after.buf ≡ length m.buf
    → ((k : ℕ) → s.addr ≤ k → k < s.addr + move_size o s + 1 → at after.buf k ≡ at m.buf k)
    → Shows o s vv m
    → Shows o s vv after
Shows-kept o s vv m after len same h =
    let inside = h.inside in
    record {
      inside = omega arith;
      state = same s.addr (omega arith) (omega arith) ∙ h.state;
      bytes =
          at_ext (take n (drop (s.addr + 1) after.buf)) (take n (drop (s.addr + 1) m.buf)) lengths
            bytes
          ∙ h.bytes;
    }
  where
    n : ℕ
    n = move_size o s

    lengths :
        length (take n (drop (s.addr + 1) after.buf)) ≡ length (take n (drop (s.addr + 1) m.buf))
    lengths =
        let a = length-take n (drop (s.addr + 1) after.buf) in
        let b = length-take n (drop (s.addr + 1) m.buf) in
        let c = length-drop (s.addr + 1) after.buf in
        let d = length-drop (s.addr + 1) m.buf in omega arith

    bytes :
        (k : ℕ)
        → k < length (take n (drop (s.addr + 1) after.buf))
        → at (take n (drop (s.addr + 1) after.buf)) k ≡ at (take n (drop (s.addr + 1) m.buf)) k
    bytes k k_in =
        let a = length-take n (drop (s.addr + 1) after.buf) in
        at-take n (drop (s.addr + 1) after.buf) k (omega arith)
        ∙ at-drop (s.addr + 1) after.buf k
        ∙ same (s.addr + 1 + k) (omega arith) (omega arith)
        ∙ sym (at-drop (s.addr + 1) m.buf k)
        ∙ sym (at-take n (drop (s.addr + 1) m.buf) k (omega arith))

-- The memory block of a signal, in which it has room.
pub record IsIn (o : Osal) (x : Item) (mblks : Blocks) (h : ℕ) (m : MemoryBlock) : Type 0 where
  pub handle : x.handle ≡ some h
  pub known : h < length mblks
  pub block : get_or mblks h none ≡ some m

-- A signal of a basic type in a memory block, with a value of its type.
pub record IsReady (o : Osal) (mblks : Blocks) (x : Item) : Type 0 where
  pub h : ℕ
  pub m : MemoryBlock
  pub place : IsIn o x mblks h m
  pub inside : x.signal.addr + move_size o x.signal < length m.buf
  pub basic : is_str (o.type_of x.signal.type_id) ≡ false
  pub size : HasSize o x.signal
  pub bits : x.value.state_bits < 256
  pub range : IsValue o (o.type_of x.signal.type_id) x.value.value

-- Signals of one memory block have no byte in common.
unfoldable pub AreApart : Osal → Item → Item → Type 0
AreApart o x y =
    x.handle ≡ y.handle
    → (x.signal.addr + move_size o x.signal < y.signal.addr)
      ⊎ (y.signal.addr + move_size o y.signal < x.signal.addr)

-- The memory block of a signal shows its value.
pub record IsShown (o : Osal) (mblks : Blocks) (x : Item) : Type 0 where
  pub h : ℕ
  pub m : MemoryBlock
  pub place : IsIn o x mblks h m
  pub shows : Shows o x.signal x.value m

get_or-set_same :
    (mblks : Blocks) (h : ℕ) (b : Option MemoryBlock)
    → h < length mblks
    → get_or (set mblks h b) h none ≡ b
get_or-set_same [] h b inside = absurd (omega arith)
get_or-set_same (x ∷ xs) zero b inside = refl
get_or-set_same (x ∷ xs) (suc h) b inside = get_or-set_same xs h b (omega arith)

get_or-set_other :
    (mblks : Blocks) (h k : ℕ) (b : Option MemoryBlock)
    → h ≢ k
    → get_or (set mblks h b) k none ≡ get_or mblks k none
get_or-set_other [] h k b other = refl
get_or-set_other (x ∷ xs) zero zero b other = absurd (other refl)
get_or-set_other (x ∷ xs) zero (suc k) b other = refl
get_or-set_other (x ∷ xs) (suc h) zero b other = refl
get_or-set_other (x ∷ xs) (suc h) (suc k) b other =
    get_or-set_other xs h k b (λ e. other (ap suc e))

-- The memory block after the write of a signal.
abbrev pub after_write : Osal → Item → MemoryBlock → MemoryBlock
after_write o x m =
    mblk_invalidate x.signal.addr (x.signal.addr + move_size o x.signal)
      (record m { buf = new_bytes o x.signal x.value m.buf })

pub write_ready :
    (o : Osal) (mblks : Blocks) (x : Item) (r : IsReady o mblks x)
    → (write_block o x.signal x.value r.h (get_or mblks r.h none) mblks).1
      ≡ set mblks r.h (some (after_write o x r.m))
unfolding write_block write_signal
write_ready o mblks x r =
    ap (λ b. (write_block o x.signal x.value r.h b mblks).1) r.place.block
    ∙ ap
        (λ b.
          (set mblks r.h (
            some (
              (if b
                then (
                  record x.value {
                    state_bits =
                        (write_text x.signal (o.int_to_str x.value.value) o.connected r.m).0;
                  },
                  (write_text x.signal (o.int_to_str x.value.value) o.connected r.m).1,
                )
                else write_value o x.signal x.value r.m).1))))
        r.basic
    ∙ ap (λ w. set mblks r.h (some w.1)) (write_value-new_bytes o x.signal x.value r.m r.inside)

pub written-IsShown :
    (o : Osal) (mblks : Blocks) (x : Item) (r : IsReady o mblks x)
    → IsShown o (set mblks r.h (some (after_write o x r.m))) x
unfolding mblk_invalidate
written-IsShown o mblks x r = record {
  h = r.h;
  m = after_write o x r.m;
  place = record {
    handle = r.place.handle;
    known = subst (λ n. r.h < n) (sym (length-set mblks r.h _)) r.place.known;
    block = get_or-set_same mblks r.h _ r.place.known;
  };
  shows = new_bytes-Shows o x.signal x.value r.m _ r.size r.inside refl;
}

-- A memory block of the store after the write of `y`: another, or the one that was written.
pub data Place (o : Osal) (mblks : Blocks) (y : Item) (r : IsReady o mblks y) (h : ℕ)
    (m : MemoryBlock) : Type 0 where
  written :
      m ≡ r.m
      → h ≡ r.h
      → get_or (set mblks r.h (some (after_write o y r.m))) h none ≡ some (after_write o y r.m)
      → Place o mblks y r h m
  other :
      get_or (set mblks r.h (some (after_write o y r.m))) h none ≡ some m → Place o mblks y r h m

pub Place-lookup :
    (o : Osal) (mblks : Blocks) (y : Item) (r : IsReady o mblks y) (h : ℕ) (m : MemoryBlock)
    → h < length mblks
    → get_or mblks h none ≡ some m
    → Place o mblks y r h m
Place-lookup o mblks y r h m known e = elim (Bool-cases (r.h == h)) [
  | inl same ↦
      let k : r.h ≡ h = ground arith in
      let blocks : some m ≡ some r.m =
        sym e ∙ ap (λ z. get_or mblks z none) (sym k) ∙ r.place.block in
      let back =
        ap (λ z. get_or (set mblks r.h (some (after_write o y r.m))) z none) (sym k)
        ∙ get_or-set_same mblks r.h (some (after_write o y r.m)) r.place.known in
      written (some-injective m r.m blocks) (sym k) back
  | inr different ↦ other (get_or-set_other mblks r.h h _ (λ k. absurd (ground arith)) ∙ e)
]
