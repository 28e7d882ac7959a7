-- ===== src/Message/Numbers.antt =====
-- The integers of a frame: what is written is what is read.
use iocom.Base.{
  ℕ, ◌+◌, ◌*◌, ◌/◌, ◌%◌, ◌^◌, ◌<◌, ◌≤◌, ◌>>=◌, ◌≡◌, ◌∙◌, refl, ap, bit_or, bit_or-shifted, shifted,
  Bool, true, false, Option, none, some, List, [], ◌∷◌, ◌++◌, inl, inr, Bool-cases, ◌==◌, Run, done,
  Returns, returns, length, arith,
}
use iocom.Message.{deref, Stored, set_uint, next, get_uint}

pub or_second : (x y : ℕ) → x < 256 → bit_or x (y * 2 ^ 8) ≡ x + 256 * y
or_second x y h = ap (bit_or x) shift ∙ bit_or-shifted 8 x y h ∙ back
  where
    shift : y * 2 ^ 8 ≡ shifted y 8
    shift = omega arith

    back : x + shifted y 8 ≡ x + 256 * y
    back = omega arith

pub or_third : (x y : ℕ) → x < 65536 → bit_or x (y * 2 ^ 16) ≡ x + 65536 * y
or_third x y h = ap (bit_or x) shift ∙ bit_or-shifted 16 x y (omega arith) ∙ back
  where
    shift : y * 2 ^ 16 ≡ shifted y 16
    shift = omega arith

    back : x + shifted y 16 ≡ x + 65536 * y
    back = omega arith

or_fourth : (x y : ℕ) → x < 16777216 → y < 256 → bit_or x (y * 2 ^ 24 % 2 ^ 32) ≡ x + 16777216 * y
or_fourth x y h h' = ap (bit_or x) shift ∙ bit_or-shifted 24 x y (omega arith) ∙ back
  where
    shift : y * 2 ^ 24 % 2 ^ 32 ≡ shifted y 24
    shift = omega arith

    back : x + shifted y 24 ≡ x + 16777216 * y
    back = omega arith

-- How many bytes were stored, as the reader sees it.
pub data Width : Type 0 where
  one two four : Width

unfoldable pub two_bytes : Width → Bool
two_bytes one = false
two_bytes two = true
two_bytes four = false

unfoldable pub four_bytes : Width → Bool
four_bytes one = false
four_bytes two = false
four_bytes four = true

-- The flags, with the bits that tell the width.
unfoldable pub flags_with : Width → ℕ → ℕ → ℕ
flags_with one flags bits = flags
flags_with two flags bits = bit_or flags bits
flags_with four flags bits = flags

unfoldable pub flags4_with : Width → Option ℕ → ℕ → Option ℕ
flags4_with one f bits = f
flags4_with two f bits = f
flags4_with four none bits = none
flags4_with four (some f) bits = some (bit_or f bits)

unfoldable pub size : Width → ℕ
size one = 1
size two = 2
size four = 4

-- Four bytes are told by the extra flags only.
unfoldable pub Tells : Width → Option ℕ → Type 0
Tells one f = Unit
Tells two f = Unit
Tells four none = ⊥
Tells four (some f) = Unit

pub record IsStored (i flags bits : ℕ) (flags4 : Option ℕ) (bits4 : ℕ) (s : Stored) : Type 0 where
  pub width : Width
  pub reads :
      (p : List ℕ) → get_uint (s.bytes ++ p) (two_bytes width) (four_bytes width) ≡ done (i, p)
  pub size_bytes : length s.bytes ≡ size width
  pub told : Tells width flags4
  pub flags_set : s.flags ≡ flags_with width flags bits
  pub flags4_set : s.flags4 ≡ flags4_with width flags4 bits4

get_uint-two :
    (x y : ℕ) (p : List ℕ) → x < 256 → get_uint (x ∷ y ∷ p) true false ≡ done (x + 256 * y, p)
unfolding get_uint next
get_uint-two x y p h = rw (or_second x y h) refl

get_uint-four :
    (x y z w : ℕ) (p : List ℕ)
    → x < 256
    → y < 256
    → z < 256
    → w < 256
    → get_uint (x ∷ y ∷ z ∷ w ∷ p) false true ≡ done (x + 256 * y + 65536 * z + 16777216 * w, p)
unfolding get_uint next
get_uint-four x y z w p hx hy hz hw =
    rw
      (
        or_second x y hx,
        or_third (x + 256 * y) z (omega arith),
        or_fourth (x + 256 * y + 65536 * z) w (omega arith) hw,
      )
      refl

-- A number that needs four bytes has a byte of extra flags to tell it.
unfoldable pub HasRoom : ℕ → Option ℕ → Type 0
HasRoom i none = i < 65536
HasRoom i (some f) = i < 4294967296

get_uint-one : (x : ℕ) (p : List ℕ) → get_uint (x ∷ p) false false ≡ done (x, p)
unfolding get_uint next
get_uint-one x p = refl

-- Reading back is reading the number that the bytes make.
reads_as : {i n : ℕ} {p : List ℕ} {m : Run (ℕ × List ℕ)} → m ≡ done (n, p) → n ≡ i → m ≡ done (i, p)
reads_as {p = p} e h = e ∙ ap (λ k. done (k, p)) h

module _ (i flags bits bits4 : ℕ) (flags4 : Option ℕ) where
  IsStored-one :
      i < 256
      → IsStored i flags bits flags4 bits4
          (record { bytes = i % 256 ∷ []; flags = flags; flags4 = flags4 })
  unfolding two_bytes four_bytes flags_with flags4_with size Tells
  IsStored-one h = record {
    width = one;
    reads = λ p. reads_as (get_uint-one (i % 256) p) (omega arith);
    size_bytes = refl;
    told = tt;
    flags_set = refl;
    flags4_set = refl;
  }

  IsStored-two :
      i < 65536
      → IsStored i flags bits flags4 bits4 (record {
        bytes = i % 256 ∷ i / 256 % 256 ∷ [];
        flags = bit_or flags bits;
        flags4 = flags4;
      })
  unfolding two_bytes four_bytes flags_with flags4_with size Tells
  IsStored-two h = record {
    width = two;
    reads = λ p. reads_as (get_uint-two (i % 256) (i / 256 % 256) p (omega arith)) (omega arith);
    size_bytes = refl;
    told = tt;
    flags_set = refl;
    flags4_set = refl;
  }

  IsStored-four :
      (f : ℕ)
      → i < 4294967296
      → IsStored i flags bits (some f) bits4 (record {
        bytes = i % 256 ∷ i / 256 % 256 ∷ i / 256 / 256 % 256 ∷ i / 256 / 256 / 256 % 256 ∷ [];
        flags = flags;
        flags4 = some (bit_or f bits4);
      })
  unfolding two_bytes four_bytes flags_with flags4_with size Tells
  IsStored-four f h = record {
    width = four;
    reads = λ p.
        reads_as
          (get_uint-four (i % 256) (i / 256 % 256) (i / 256 / 256 % 256) (i / 256 / 256 / 256 % 256)
            p (omega arith) (omega arith) (omega arith) (omega arith))
          (omega arith);
    size_bytes = refl;
    told = tt;
    flags_set = refl;
    flags4_set = refl;
  }

-- `ioc_msg_get_uint` reads what `ioc_msg_set_uint` has stored, told the width that the flags got,
-- if the number has 16 bits, or 32 bits and the header a byte of extra flags.
pub set_uint-IsStored :
    (i flags bits bits4 : ℕ) (flags4 : Option ℕ)
    → HasRoom i flags4
    → Returns (IsStored i flags bits flags4 bits4) (set_uint i flags bits flags4 bits4)
unfolding set_uint deref HasRoom
set_uint-IsStored i flags bits bits4 flags4 h = elim (Bool-cases (i / 256 == 0)) [
  | inl small ↦ rw small (returns (IsStored-one i flags bits bits4 flags4 (ground arith)))
  | inr large ↦ elim (Bool-cases (i / 256 / 256 == 0)) [
    | inl fits ↦ rw (large, fits) (returns (IsStored-two i flags bits bits4 flags4 (ground arith)))
    | inr wide ↦ rw (large, wide) (go flags4 h (ground arith))
  ]
]
  where
    go :
        (f : Option ℕ)
        → HasRoom i f
        → 65536 ≤ i
        → Returns (IsStored i flags bits f bits4) (
            deref f >>= λ x. done (record {
              bytes =
                  i % 256 ∷ i / 256 % 256 ∷ i / 256 / 256 % 256 ∷ i / 256 / 256 / 256 % 256 ∷ [];
              flags = flags;
              flags4 = some (bit_or x bits4);
            }))
    go none room far = absurd (omega arith)
    go (some f) room far = returns (IsStored-four i flags bits bits4 (some f) f room)
