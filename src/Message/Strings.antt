-- ===== src/Message/Strings.antt =====
-- The strings of a frame, `ioc_msg_setstr` of code/ioc_connection_send.c and `ioc_msg_getstr` of
-- code/ioc_connection_receive.c.
use iocom.Base.{
  ℕ, zero, suc, ◌+◌, ◌-◌, ◌%◌, ◌<◌, ◌≡◌, ◌∙◌, refl, ap, Bool, true, false, ◌&&◌, List, [], ◌∷◌,
  ◌++◌, ltb, leb, ◌==◌, length, length-append, length-set, set, at, at-set, drop-append, in_range,
  mem_copy, length-mem_copy, at-mem_copy, Returns, returns, arith,
}
use iocom.Message.{next, setstr, getstr}

at-append : (xs ys : List ℕ) (k : ℕ) → k < length xs → at (xs ++ ys) k ≡ at xs k
at-append [] ys k h = absurd (omega arith)
at-append (x ∷ xs) ys zero h = refl
at-append (x ∷ xs) ys (suc k) h = at-append xs ys k (omega arith)

-- The copy of the string, with a '\0' behind it.
string_bytes :
    (str p dst : List ℕ) (k : ℕ)
    → k < length str
    → length str < length dst
    → at (set (mem_copy dst 0 (str ++ p) 0 (length str)) (length str) 0) k ≡ at str k
string_bytes str p dst k h room =
    let copy = mem_copy dst 0 (str ++ p) 0 (length str) in
    let hit : (in_range 0 (length str) k && ltb k (length dst)) ≡ true = ground arith in
    let miss : (length str == k && ltb k (length copy)) ≡ false = ground arith in
    let same : 0 + (k - 0) ≡ k = omega arith in
    at-set copy (length str) k 0
    ∙ rw miss (
        at-mem_copy dst 0 (str ++ p) 0 (length str) k
        ∙ rw hit (ap (at (str ++ p)) same ∙ at-append str p k h))

string_end : (n : ℕ) (buf : List ℕ) → n < length buf → at (set buf n 0) n ≡ 0
string_end n buf h =
    let hit : (n == n && ltb n (length buf)) ≡ true = ground arith in at-set buf n n 0 ∙ rw hit refl

-- The string was found: its bytes and a '\0' are in the buffer, and the position is behind it.
pub IsString : List ℕ → List ℕ → List ℕ → Bool × List ℕ × List ℕ → Type 0
IsString str p dst (ok, buf, q) =
    (ok ≡ true)
    × (q ≡ p)
    × (length buf ≡ length dst)
    × ((k : ℕ) → k < length str → at buf k ≡ at str k)
    × (at buf (length str) ≡ 0)

-- A string of less than 256 bytes that `ioc_msg_setstr` stored, `ioc_msg_getstr` finds, if the
-- buffer has a byte more than the string: it succeeds, copies the string with a '\0' behind it, and
-- goes on behind the string in the message.
pub getstr-setstr :
    (str p dst : List ℕ)
    → length str < 256
    → length str < length dst
    → Returns (IsString str p dst) (getstr dst (setstr str ++ p))
unfolding getstr setstr next IsString
getstr-setstr str p dst short room =
    let n : length str % 256 ≡ length str = omega arith in
    let fits : leb (length dst) (length str) ≡ false = ground arith in
    let there : ltb (length (str ++ p)) (length str) ≡ false =
      ground (arith, length-append str p) in
    let copy = mem_copy dst 0 (str ++ p) 0 (length str) in
    let size : length copy ≡ length dst = length-mem_copy dst 0 (str ++ p) 0 (length str) in
    rw (n, fits, there)
      (returns (
        refl,
        drop-append str p,
        length-set copy (length str) 0 ∙ size,
        λ k h. string_bytes str p dst k h room,
        string_end (length str) copy (omega (arith, size)),
      ))
