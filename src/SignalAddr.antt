-- ===== src/SignalAddr.antt =====
-- code/ioc_signal_addr.c: which signals a range of addresses touches.
-- The signals of a memory block are a function from their index, of which the first `n_signals`
-- count. Addresses are not negative.
pub mod Search
pub mod Affected
mod Runs
use iocom.Base.{
  ℕ, zero, suc, ◌+◌, ◌-◌, ◌*◌, ◌/◌, Bool, true, false, ◌&&◌, ◌||◌, Option, none, some, ltb, leb,
  ◌==◌, if◌then◌else◌, Run, done, fault, stuck, ◌>>=◌,
}

-- `iocSignal`, with the type `flags & OSAL_TYPEID_MASK` for its flags.
pub record Signal : Type 0 where
  pub addr : ℕ
  pub n : ℕ
  pub type_id : ℕ

-- The types OS_STR and OS_BOOLEAN and `osal_type_size` of eosal are parameters.
pub record Types : Type 0 where
  pub os_str : ℕ
  pub os_boolean : ℕ
  pub osal_type_size : ℕ → ℕ

-- `ioc_nro_signal_bytes`
unfoldable pub nro_signal_bytes : Types → Signal → ℕ
nro_signal_bytes ty s =
    let n = if ltb s.n 1 then 1 else s.n in
    if s.type_id == ty.os_str
    then n + 1
    else if s.type_id == ty.os_boolean
    then (if ltb 1 n then (n + 7) / 8 + 1 else n)
    else n * ty.osal_type_size s.type_id + 1

-- sig->addr + ioc_nro_signal_bytes(sig) - 1
unfoldable pub signal_end : Types → Signal → ℕ
signal_end ty s = s.addr + nro_signal_bytes ty s - 1

-- `ioc_is_my_address`
unfoldable pub is_my_address : Types → Signal → ℕ → ℕ → Bool
is_my_address ty s start_addr end_addr =
    if ltb end_addr s.addr then false else ltb start_addr (s.addr + nro_signal_bytes ty s)

-- while (last > first + 1) { … }, for the signal at the address `key`: the last `first` and `last`.
unfoldable pub search_signal : Types → (ℕ → Signal) → ℕ → ℕ → ℕ → ℕ → Run (ℕ × ℕ)
search_signal ty sig key zero first last =
    if ltb (first + 1) last then stuck else done (first, last)
search_signal ty sig key (suc fuel) first last =
    let again = search_signal ty sig key fuel in
    let mid = (first + last) / 2 in
    if ltb (first + 1) last
    then if ltb key (sig mid).addr
      then again first (mid - 1)
      else if ltb (signal_end ty (sig mid)) key
      then again (mid + 1) last
      else done (mid, mid)
    else done (first, last)

-- if (key >= sig[last].addr) first = last;
unfoldable pub settle : (ℕ → Signal) → ℕ → ℕ → ℕ → ℕ
settle sig key first last = if leb (sig last).addr key then last else first

-- Whether the range of addresses lies off a signal.
unfoldable pub misses : Types → Signal → Signal → ℕ → ℕ → Bool
misses ty first last start_addr end_addr =
    ltb end_addr first.addr || ltb (signal_end ty last) start_addr

-- The end of the search, from the first signal that was found.
unfoldable pub last_signals : Types → (ℕ → Signal) → ℕ → ℕ → ℕ → ℕ → Run (Option (ℕ × ℕ))
last_signals ty sig n_signals start_addr end_addr first = do
  let rest : ℕ → Signal = λ i. sig (first + i)
  (i, j) ← search_signal ty rest end_addr n_signals 0 (n_signals - first - 1)
  let k = settle rest end_addr i j
  if k == 0 && misses ty (rest 0) (rest 0) start_addr end_addr
      then done none
      else done (some (first, k + 1))

-- `ioc_get_signal_range_by_hdr`: the index of the first effected signal and their number.
unfoldable pub get_signal_range_by_hdr : Types → (ℕ → Signal) → ℕ → ℕ → ℕ → Run (Option (ℕ × ℕ))
get_signal_range_by_hdr ty sig n_signals start_addr end_addr =
    if n_signals == 0
    then fault
    else if misses ty (sig 0) (sig (n_signals - 1)) start_addr end_addr
    then done none
    else do
      (i, j) ← search_signal ty sig start_addr n_signals 0 (n_signals - 1)
      last_signals ty sig n_signals start_addr end_addr (settle sig start_addr i j)
