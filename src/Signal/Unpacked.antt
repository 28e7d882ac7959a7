-- ===== src/Signal/Unpacked.antt =====
-- code/ioc_signal.c: arrays of booleans, eight in a byte.
use iocom.Base.{
  ℕ, zero, suc, ◌+◌, ◌*◌, ◌/◌, ◌%◌, ◌<◌, ◌≤◌, ◌≡◌, ◌∙◌, refl, sym, ap, ap₂, subst, min, Bool, true,
  false, ◌&&◌, ◌==◌, bit_and, if◌then◌else◌, arith, List, [], ◌∷◌, ◌++◌, length, take, drop,
  length-take, length-drop, take-append-drop, All,
}
use iocom.Signal.Bits.{holds_below, holds_below→true}
use iocom.Signal.Packed.{pack_byte, pack_bytes, unpack_byte, unpack_bytes}

unfoldable same_list : List ℕ → List ℕ → Bool
same_list [] [] = true
same_list [] (y ∷ ys) = false
same_list (x ∷ xs) [] = false
same_list (x ∷ xs) (y ∷ ys) = x == y && same_list xs ys

same_list→eq : (xs ys : List ℕ) → same_list xs ys ≡ true → xs ≡ ys
unfolding same_list
same_list→eq [] [] e = refl
same_list→eq [] (y ∷ ys) e = absurd (ground arith)
same_list→eq (x ∷ xs) [] e = absurd (ground arith)
same_list→eq (x ∷ xs) (y ∷ ys) e = ap₂ ◌∷◌ (ground arith) (same_list→eq xs ys (ground arith))

-- The lists of a length, by number.
unfoldable booleans : ℕ → ℕ → List ℕ
booleans zero code = []
booleans (suc n) code = code % 2 ∷ booleans n (code / 2)

unfoldable code_of : List ℕ → ℕ
code_of [] = 0
code_of (x ∷ xs) = x + 2 * code_of xs

booleans-code_of : (xs : List ℕ) → All (λ x. x < 2) xs → booleans (length xs) (code_of xs) ≡ xs
unfolding booleans code_of
booleans-code_of [] h = refl
booleans-code_of (x ∷ xs) h =
    let small = h.0 in
    let rest : (x + 2 * code_of xs) / 2 ≡ code_of xs = omega arith in
    ap₂ ◌∷◌ (omega arith) (ap (booleans (length xs)) rest ∙ booleans-code_of xs h.1)

abbrev power : ℕ → ℕ
power zero = 1
power (suc n) = 2 * power n

code_of-less : (xs : List ℕ) → All (λ x. x < 2) xs → code_of xs < power (length xs)
unfolding code_of
code_of-less [] h = omega arith
code_of-less (x ∷ xs) h = let small = h.0 in let rest = code_of-less xs h.1 in omega arith

power_mono : (n k : ℕ) → n ≤ k → power n ≤ power k
power_mono zero zero h = omega arith
power_mono zero (suc k) h = let rest = power_mono zero k (omega arith) in omega arith
power_mono (suc n) zero h = absurd (omega arith)
power_mono (suc n) (suc k) h = let rest = power_mono n k (omega arith) in omega arith

is_kept : ℕ → ℕ → Bool
is_kept n code = same_list (unpack_byte 8 1 (pack_byte 8 1 0 (booleans n code)) n) (booleans n code)

table : holds_below (λ n. holds_below (is_kept n) 256) 9 ≡ true
unfolding holds_below is_kept same_list booleans pack_byte unpack_byte
table = refl

-- One byte keeps eight booleans at most.
unpack_byte-pack_byte :
    (xs : List ℕ)
    → All (λ x. x < 2) xs
    → length xs < 9
    → unpack_byte 8 1 (pack_byte 8 1 0 xs) (length xs) ≡ xs
unfolding is_kept
unpack_byte-pack_byte xs h few =
    subst (λ z. unpack_byte 8 1 (pack_byte 8 1 0 z) (length xs) ≡ z) (booleans-code_of xs h)
      (same_list→eq _ _ kept)
  where
    less : code_of xs < 256
    less =
        let a = code_of-less xs h in
        let b : power (length xs) ≤ 256 = power_mono (length xs) 8 (omega arith) in omega arith

    kept : is_kept (length xs) (code_of xs) ≡ true
    kept =
        holds_below→true (is_kept (length xs)) 256 (code_of xs)
          (holds_below→true (λ n. holds_below (is_kept n) 256) 9 (length xs) table few) less

pack_byte-take :
    (left bit ubyte : ℕ) (b : List ℕ)
    → pack_byte left bit ubyte b ≡ pack_byte left bit ubyte (take left b)
unfolding pack_byte
pack_byte-take zero bit ubyte b = refl
pack_byte-take (suc left) bit ubyte [] = refl
pack_byte-take (suc left) bit ubyte (x ∷ b) = pack_byte-take left (2 * bit) _ b

unpack_byte-min :
    (left bit ubyte n : ℕ) → unpack_byte left bit ubyte n ≡ unpack_byte left bit ubyte (min left n)
unfolding unpack_byte
unpack_byte-min zero bit ubyte n = refl
unpack_byte-min (suc left) bit ubyte zero =
    let e : zero ≡ min (suc left) zero = omega arith in ap (unpack_byte (suc left) bit ubyte) e
unpack_byte-min (suc left) bit ubyte (suc n) =
    let e : suc (min left n) ≡ min (suc left) (suc n) = omega arith in
    ap (λ z. (if bit_and ubyte bit == 0 then 0 else 1) ∷ z) (unpack_byte-min left (2 * bit) ubyte n)
    ∙ ap (unpack_byte (suc left) bit ubyte) e

All-take {κ} : (P : ℕ → Type κ) (n : ℕ) (xs : List ℕ) → All P xs → All P (take n xs)
All-take P zero xs h = tt
All-take P (suc n) [] h = tt
All-take P (suc n) (x ∷ xs) h = (h.0, All-take P n xs h.1)

All-drop {κ} : (P : ℕ → Type κ) (n : ℕ) (xs : List ℕ) → All P xs → All P (drop n xs)
All-drop P zero xs h = h
All-drop P (suc n) [] h = tt
All-drop P (suc n) (x ∷ xs) h = All-drop P n xs h.1

-- Booleans that were packed are unpacked, if there are bytes enough for them.
pub unpack_bytes-pack_bytes :
    (groups : ℕ) (b : List ℕ)
    → All (λ x. x < 2) b
    → length b ≤ 8 * groups
    → unpack_bytes (pack_bytes groups b) (length b) ≡ b
unfolding unpack_bytes pack_bytes
unpack_bytes-pack_bytes zero [] h few = refl
unpack_bytes-pack_bytes zero (x ∷ b) h few = absurd (omega arith)
unpack_bytes-pack_bytes (suc groups) b h few =
    ap₂ ◌++◌ first (
      ap (unpack_bytes (pack_bytes groups (drop 8 b))) (sym (length-drop 8 b))
      ∙ unpack_bytes-pack_bytes groups (drop 8 b) (All-drop (λ x. x < 2) 8 b h)
          (omega (arith, length-drop 8 b)))
    ∙ take-append-drop 8 b
  where
    first : unpack_byte 8 1 (pack_byte 8 1 0 b) (length b) ≡ take 8 b
    first =
        unpack_byte-min 8 1 (pack_byte 8 1 0 b) (length b)
        ∙ ap₂ (unpack_byte 8 1) (pack_byte-take 8 1 0 b) (sym (length-take 8 b))
        ∙ unpack_byte-pack_byte (take 8 b) (All-take (λ x. x < 2) 8 b h)
            (omega (arith, length-take 8 b))
