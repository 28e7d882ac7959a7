-- ===== src/Signal/Ordered.antt =====
-- code/ioc_memory_block.c: `ioc_byte_ordered_copy` of numbers. A memory block holds their lowest
-- bytes first, on every processor.
use iocom.Base.{
  ℕ, zero, suc, ◌+◌, ◌*◌, ◌/◌, ◌%◌, ◌<◌, ◌≡◌, ◌∙◌, refl, sym, ap, Bool, true, false, List, [], ◌∷◌,
  ◌++◌, append-nil, length, length-append, arith,
}
use iocom.Signal.{
  swap_two, swap_four, swap_eight, byte_ordered_copy, low_first, high_first, from_low, from_high,
  bytes_of, number_of,
}

-- The sizes of numbers.
pub data IsSize : ℕ → Type 0 where
  one_byte : IsSize 1
  two_bytes : IsSize 2
  four_bytes : IsSize 4
  eight_bytes : IsSize 8

-- An array of numbers of one size.
unfoldable pub array_of : Bool → ℕ → List ℕ → List ℕ
array_of small_endian size [] = []
array_of small_endian size (x ∷ xs) = bytes_of small_endian size x ++ array_of small_endian size xs

swap_array :
    (size : ℕ) (xs : List ℕ)
    → IsSize size
    → byte_ordered_copy false (array_of false size xs) size ≡ array_of true size xs
unfolding byte_ordered_copy array_of bytes_of low_first high_first swap_two swap_four swap_eight
swap_array size [] one_byte = refl
swap_array size [] two_bytes = refl
swap_array size [] four_bytes = refl
swap_array size [] eight_bytes = refl
swap_array size (x ∷ xs) one_byte = ap (λ z. x % 256 ∷ z) (swap_array 1 xs one_byte)
swap_array size (x ∷ xs) two_bytes = ap (λ z. low_first 2 x ++ z) (swap_array 2 xs two_bytes)
swap_array size (x ∷ xs) four_bytes = ap (λ z. low_first 4 x ++ z) (swap_array 4 xs four_bytes)
swap_array size (x ∷ xs) eight_bytes = ap (λ z. low_first 8 x ++ z) (swap_array 8 xs eight_bytes)

swap_back :
    (size : ℕ) (xs : List ℕ)
    → IsSize size
    → byte_ordered_copy false (array_of true size xs) size ≡ array_of false size xs
unfolding byte_ordered_copy array_of bytes_of low_first high_first swap_two swap_four swap_eight
swap_back size [] one_byte = refl
swap_back size [] two_bytes = refl
swap_back size [] four_bytes = refl
swap_back size [] eight_bytes = refl
swap_back size (x ∷ xs) one_byte = ap (λ z. x % 256 ∷ z) (swap_back 1 xs one_byte)
swap_back size (x ∷ xs) two_bytes = ap (λ z. high_first 2 x ++ z) (swap_back 2 xs two_bytes)
swap_back size (x ∷ xs) four_bytes = ap (λ z. high_first 4 x ++ z) (swap_back 4 xs four_bytes)
swap_back size (x ∷ xs) eight_bytes = ap (λ z. high_first 8 x ++ z) (swap_back 8 xs eight_bytes)

-- Every processor stores the same bytes: `ioc_byte_ordered_copy` of an array of numbers of one, two, four
-- or eight bytes, as a processor of either byte order has them, makes an array with the lowest
-- byte of each number first, and of that again the array that the processor has.
pub byte_ordered_copy-array_of :
    (small_endian : Bool) (size : ℕ) (xs : List ℕ)
    → IsSize size
    → (byte_ordered_copy small_endian (array_of small_endian size xs) size ≡ array_of true size xs)
      × (byte_ordered_copy small_endian (array_of true size xs) size
          ≡ array_of small_endian size xs)
unfolding byte_ordered_copy
byte_ordered_copy-array_of true size xs s = (refl, refl)
byte_ordered_copy-array_of false size xs s = (swap_array size xs s, swap_back size xs s)

pub length-low_first : (n x : ℕ) → length (low_first n x) ≡ n
unfolding low_first
length-low_first zero x = refl
length-low_first (suc n) x = ap suc (length-low_first n (x / 256))

pub length-high_first : (n x : ℕ) → length (high_first n x) ≡ n
unfolding high_first
length-high_first zero x = refl
length-high_first (suc n) x =
    omega
      (arith, length-append (high_first n (x / 256)) (x % 256 ∷ []), length-high_first n (x / 256))

-- One number, by itself.
pub copy-number :
    (small_endian : Bool) (size x : ℕ)
    → IsSize size
    → (byte_ordered_copy small_endian (bytes_of small_endian size x) size ≡ low_first size x)
      × (byte_ordered_copy small_endian (low_first size x) size ≡ bytes_of small_endian size x)
unfolding array_of bytes_of
copy-number small_endian size x s =
    let both = byte_ordered_copy-array_of small_endian size (x ∷ []) s in
    (
      ap (λ z. byte_ordered_copy small_endian z size)
            (sym (append-nil (bytes_of small_endian size x)))
          ∙ both.0
          ∙ append-nil (low_first size x),
      ap (λ z. byte_ordered_copy small_endian z size) (sym (append-nil (low_first size x)))
          ∙ both.1
          ∙ append-nil (bytes_of small_endian size x),
    )

-- How many numbers there are of `n` bytes.
abbrev pub limit : ℕ → ℕ
limit zero = 1
limit (suc n) = 256 * limit n

from_low-low_first : (n x : ℕ) → x < limit n → from_low (low_first n x) ≡ x
unfolding from_low low_first
from_low-low_first zero x h = omega arith
from_low-low_first (suc n) x h =
    let rest : from_low (low_first n (x / 256)) ≡ x / 256 =
      from_low-low_first n (x / 256) (omega arith) in
    omega arith

from_high-append :
    (acc : ℕ) (bs : List ℕ) (b : ℕ) → from_high acc (bs ++ (b ∷ [])) ≡ 256 * from_high acc bs + b
unfolding from_high
from_high-append acc [] b = refl
from_high-append acc (c ∷ bs) b = from_high-append (256 * acc + c) bs b

from_high-high_first : (n x : ℕ) → x < limit n → from_high 0 (high_first n x) ≡ x
unfolding from_high high_first
from_high-high_first zero x h = omega arith
from_high-high_first (suc n) x h =
    let rest : from_high 0 (high_first n (x / 256)) ≡ x / 256 =
      from_high-high_first n (x / 256) (omega arith) in
    let last = from_high-append 0 (high_first n (x / 256)) (x % 256) in omega arith

pub number_of-bytes_of :
    (small_endian : Bool) (n x : ℕ)
    → x < limit n
    → number_of small_endian (bytes_of small_endian n x) ≡ x
unfolding number_of bytes_of
number_of-bytes_of true n x h = from_low-low_first n x h
number_of-bytes_of false n x h = from_high-high_first n x h
