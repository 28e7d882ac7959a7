-- ===== src/Message/Runs.antt =====
-- Runs of the code for the numbers and strings of frames, and the theorem at such an input.
use iocom.Base.{ℕ, ◌≡◌, refl, true, false, List, [], ◌∷◌, ◌++◌, done, Returns, fault, some, arith}
use iocom.Message.{set_uint, setstr, getstr, next, set_ushort, get_ushort}
use iocom.Message.Numbers.{HasRoom, IsStored, set_uint-IsStored}
use iocom.Message.Strings.{IsString, getstr-setstr}

abbrev name : List ℕ
name = 105 ∷ 111 ∷ 99 ∷ []

abbrev screen : List ℕ
screen = 1 ∷ 1 ∷ 1 ∷ 1 ∷ 1 ∷ []

-- A buffer of the length of the string has no room for the '\0'.
get_too_long : getstr (1 ∷ 1 ∷ 1 ∷ []) (setstr name) ≡ done (false, 1 ∷ 1 ∷ 1 ∷ [], name)
unfolding getstr setstr next
get_too_long = refl

-- A message that ends within the string is read past its end.
get_cut : getstr screen (3 ∷ 105 ∷ []) ≡ fault
unfolding getstr next
get_cut = refl

short_number : set_ushort 0x1234 ≡ (0x34 ∷ 0x12 ∷ [], true)
unfolding set_ushort
short_number = refl

short_number_back : get_ushort (0x34 ∷ 0x12 ∷ 7 ∷ []) true ≡ done (0x1234, 7 ∷ [])
unfolding get_ushort next
short_number_back = refl

getstr-setstr_example :
    Returns (IsString name (7 ∷ []) screen) (getstr screen (setstr name ++ (7 ∷ [])))
getstr-setstr_example = getstr-setstr name (7 ∷ []) screen (omega arith) (omega arith)

set_uint-IsStored_example :
    Returns (IsStored 70000 0 4 (some 128) 1) (set_uint 70000 0 4 (some 128) 1)
unfolding HasRoom
set_uint-IsStored_example = set_uint-IsStored 70000 0 4 1 (some 128) (omega arith)
