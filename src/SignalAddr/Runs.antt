-- ===== src/SignalAddr/Runs.antt =====
-- Runs of the code of code/ioc_signal_addr.c, and its theorem at such an input.
use iocom.Base.{ℕ, ◌*◌, ◌≡◌, refl, none, some, done, Returns, arith}
use iocom.SignalAddr.{
  Signal, Types, nro_signal_bytes, signal_end, search_signal, settle, misses, last_signals,
  get_signal_range_by_hdr,
}
use iocom.SignalAddr.Search.{IsSorted}
use iocom.SignalAddr.Affected.{Finds, get_signal_range_by_hdr-Finds}

abbrev types : Types
types = record { os_str = 12; os_boolean = 1; osal_type_size = λ t. 2 }

-- A two byte integer with its state byte every ten bytes.
abbrev signals : ℕ → Signal
signals i = record { addr = 10 * i; n = 0; type_id = 4 }

-- Addresses 5 to 15 touch the signal at 10 only. The one before and the one after it are found too.
find_between : get_signal_range_by_hdr types signals 3 5 15 ≡ done (some (0, 3))
unfolding get_signal_range_by_hdr search_signal settle last_signals misses signal_end
    nro_signal_bytes
find_between = refl

find_hole : get_signal_range_by_hdr types signals 2 5 7 ≡ done none
unfolding get_signal_range_by_hdr search_signal settle last_signals misses signal_end
    nro_signal_bytes
find_hole = refl

signals-IsSorted : IsSorted types signals 7
unfolding IsSorted signal_end nro_signal_bytes
signals-IsSorted i j less j_in = omega arith

get_signal_range_by_hdr-Finds_example :
    Returns (Finds types signals 7 12 35) (get_signal_range_by_hdr types signals 7 12 35)
get_signal_range_by_hdr-Finds_example =
    get_signal_range_by_hdr-Finds types signals 7 12 35 signals-IsSorted (omega arith) (omega arith)
