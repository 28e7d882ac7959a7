-- ===== src/Frame.antt =====
-- code/ioc_connection_send.c and code/ioc_connection_receive.c: the header of a frame, and how
-- the other end finds its parts again. A pointer into a frame is an index.
-- The children from Data on are about frames that carry changes of a memory block.
pub mod Receive
pub mod Data
pub mod DataFlags
pub mod Carried
pub mod Flags
pub mod Made
pub mod Sized
pub mod RoundTrip
pub mod System
pub mod HeaderSize
pub mod Delivered
pub mod Stored
pub mod Transit
pub mod Exchange
pub mod Synced
mod DataRuns
mod Runs
use iocom.Base.{
  ℕ, ◌+◌, ◌-◌, ◌*◌, ◌/◌, ◌%◌, ◌^◌, bit_and, bit_or, Bool, true, false, not, ◌&&◌, ◌||◌, Option,
  none, some, List, [], ◌∷◌, ◌++◌, ltb, leb, ◌==◌, if◌then◌else◌, length, set, at, take, Run, done,
  ◌>>=◌,
}
use iocom.Message.{set_uint}

-- `iocConnection`, as far as it makes and reads frames: the flags IOC_SOCKET and IOC_SERIAL, the
-- number of the frame to send and of the one to receive, the frame sizes of both ends, and the
-- counts of the flow control.
pub record Connection : Type 0 where
  pub socket : Bool
  pub serial : Bool
  pub frame_out_nr : ℕ
  pub frame_in_nr : ℕ
  pub dst_frame_sz : ℕ
  pub frame_sz : ℕ
  pub max_in_air : ℕ
  pub bytes_sent : ℕ
  pub processed_bytes : ℕ

pub is_serial : Connection → Bool
is_serial c = c.serial && not c.socket

-- The flags of a frame, and the extra flags.
abbrev pub delta_encoded : ℕ
delta_encoded = 1

abbrev pub compressed_data : ℕ
compressed_data = 2

abbrev pub addr_has_two_bytes : ℕ
addr_has_two_bytes = 4

abbrev pub mblk_has_two_bytes : ℕ
mblk_has_two_bytes = 8

abbrev pub sync_complete : ℕ
sync_complete = 16

abbrev pub system_frame : ℕ
system_frame = 32

abbrev pub has_extra_flags : ℕ
has_extra_flags = 128

abbrev pub addr_has_four_bytes : ℕ
addr_has_four_bytes = 1

abbrev pub mblk_has_four_bytes : ℕ
mblk_has_four_bytes = 2

abbrev pub extra_no_zero : ℕ
extra_no_zero = 128

-- `flags & bit`
abbrev pub has_flag : ℕ → ℕ → Bool
has_flag flags bit = not (bit_and flags bit == 0)

-- The bytes of a header, and `iocSendHeaderPtrs`.
pub record Header : Type 0 where
  pub hdr : List ℕ
  pub checksum_low : Option ℕ
  pub checksum_high : Option ℕ
  pub flags : ℕ
  pub data_sz_low : ℕ
  pub data_sz_high : Option ℕ
  pub header_sz : ℕ

-- FRAME_NR, CHECKSUM in serial communication, FLAGS and BYTES, and the pointers to them.
unfoldable pub fixed_part : Bool → ℕ → ℕ → List ℕ
fixed_part true frame_nr flags = frame_nr ∷ 0 ∷ 0 ∷ flags ∷ 0 ∷ []
fixed_part false frame_nr flags = frame_nr ∷ flags ∷ 0 ∷ 0 ∷ []

unfoldable pub header : Bool → List ℕ → Header
header true hdr = record {
  hdr = hdr;
  checksum_low = some 1;
  checksum_high = some 2;
  flags = 3;
  data_sz_low = 4;
  data_sz_high = none;
  header_sz = length hdr;
}
header false hdr = record {
  hdr = hdr;
  checksum_low = none;
  checksum_high = none;
  flags = 1;
  data_sz_low = 2;
  data_sz_high = some 3;
  header_sz = length hdr;
}

unfoldable pub extra_part : Option ℕ → List ℕ
extra_part none = []
extra_part (some f) = f ∷ []

-- Whether a number has more than 16 bits.
unfoldable pub needs_extra : ℕ → ℕ → Bool
needs_extra mblk_id addr = not (mblk_id / 2 ^ 16 == 0) || not (addr / 2 ^ 16 == 0)

-- The flags and the extra flags, before the numbers are stored.
abbrev pub start_flags : Bool → ℕ
start_flags true = bit_or 0 has_extra_flags
start_flags false = 0

abbrev pub start_extra : Bool → Option ℕ
start_extra true = some extra_no_zero
start_extra false = none

-- What the header takes from `con`, which may be OS_NULL.
pub serial_to : Option Connection → Bool
serial_to none = false
serial_to (some c) = is_serial c

pub frame_nr_to : Option Connection → ℕ
frame_nr_to none = 0
frame_nr_to (some c) = c.frame_out_nr

-- `ioc_generate_header`
pub generate_header : Option Connection → ℕ → ℕ → Run Header
generate_header con remote_mblk_id addr =
    let serial = serial_to con in
    let frame_nr = frame_nr_to con in
    let extra = needs_extra remote_mblk_id addr in
    do
      m ←
          set_uint remote_mblk_id (start_flags extra) mblk_has_two_bytes (start_extra extra)
            mblk_has_four_bytes
      a ← set_uint addr m.flags addr_has_two_bytes m.flags4 addr_has_four_bytes
      done (
          header serial
            (fixed_part serial frame_nr a.flags ++ (extra_part a.flags4 ++ (m.bytes ++ a.bytes))))

-- `*p = x`, for a pointer that may be OS_NULL.
unfoldable pub poke : Option ℕ → ℕ → List ℕ → List ℕ
poke none x f = f
poke (some p) x f = set f p x

-- *ptrs.flags |= bit
unfoldable pub or_flag : Header → Bool → ℕ → List ℕ → List ℕ
or_flag h true bit f = set f h.flags (bit_or (at f h.flags) bit)
or_flag h false bit f = f

unfoldable pub store_size : Header → ℕ → List ℕ → List ℕ
store_size h n f = poke h.data_sz_high (n / 256 % 256) (set f h.data_sz_low (n % 256))

-- The check sum of eosal, `os_checksum`, is a parameter.
unfoldable pub store_checksum : (List ℕ → ℕ) → Header → List ℕ → List ℕ
store_checksum os_checksum h f = elim (h.checksum_low) [
  | none ↦ f
  | some p ↦ poke h.checksum_high (os_checksum f / 256 % 256) (set f p (os_checksum f % 256))
]

-- The bytes that were sent and are not acknowledged, as `os_uint`.
pub in_air : Connection → ℕ
in_air c =
    (c.bytes_sent + (2 ^ 32 - c.processed_bytes)) % 2 ^ 32 % (if c.socket then 2 ^ 24 else 2 ^ 16)

-- used_bytes > bytes
unfoldable pub is_blocked : ℕ → Connection → Bool
is_blocked used_bytes c = ltb c.max_in_air (used_bytes + in_air c)

-- if (frame_nr++ >= IOC_MAX_FRAME_NR) frame_nr = 1;
unfoldable pub next_frame_nr : ℕ → ℕ
next_frame_nr n = if leb 200 n then 1 else n + 1

-- `ioc_finish_frame`: for the frame with its content behind the header, the frame to send, or
-- `none` for OSAL_PENDING.
pub finish_frame : (List ℕ → ℕ) → Connection → Header → List ℕ → Option (List ℕ) × Connection
finish_frame os_checksum c h content =
    if is_blocked (length content + h.header_sz) c then (none, c) else (
      some (
          store_checksum os_checksum h
            (or_flag h true system_frame (store_size h (length content) (h.hdr ++ content)))),
      record c { frame_out_nr = next_frame_nr c.frame_out_nr },
    )
