-- ===== src/Frame/HeaderSize.antt =====
-- code/ioc_connection_send.c: how long the header of a frame can be.
use iocom.Base.{
  ℕ, ◌+◌, ◌<◌, ◌≤◌, ◌≡◌, ◌∙◌, ap, refl, Bool, true, false, Option, none, some, List, ◌++◌, length,
  length-append, arith,
}
use iocom.Message.Numbers.{Width, size}
use iocom.Frame.{Connection, Header, fixed_part, header, extra_part, serial_to, frame_nr_to}
use iocom.Frame.Flags.{extra_of, flags_of}
use iocom.Frame.Made.{IsHeader}
use iocom.Frame.Sized.{front}

pub parts_length :
    (x mb ab content : List ℕ)
    → length (x ++ (mb ++ (ab ++ content))) ≡ length content + length (x ++ (mb ++ ab))
parts_length x mb ab content = omega (
  arith,
  length-append x (mb ++ (ab ++ content)),
  length-append mb (ab ++ content),
  length-append ab content,
  length-append x (mb ++ ab),
  length-append mb ab,
)

pub length-extra_part : (x : Option ℕ) → length (extra_part x) ≤ 1
unfolding extra_part
length-extra_part none = omega arith
length-extra_part (some f) = omega arith

pub length-whole :
    (serial : Bool) (nr crc g flags : ℕ) (x mb ab content : List ℕ) (n : ℕ)
    → length (front serial nr crc g n ++ (x ++ (mb ++ (ab ++ content))))
      ≡ length content + length (fixed_part serial nr flags ++ (x ++ (mb ++ ab)))
unfolding fixed_part
length-whole true nr crc g flags x mb ab content n = omega (arith, parts_length x mb ab content)
length-whole false nr crc g flags x mb ab content n = omega (arith, parts_length x mb ab content)

pub header_sz-header :
    (serial : Bool) (bytes : List ℕ) → (header serial bytes).header_sz ≡ length bytes
unfolding header
header_sz-header true bytes = refl
header_sz-header false bytes = refl

pub size-bound : (w : Width) → size w ≤ 4
unfolding size
size-bound w = ground arith

pub length-fixed_part :
    (serial : Bool) (nr flags : ℕ) (rest : List ℕ)
    → length (fixed_part serial nr flags ++ rest) ≤ 5 + length rest
unfolding fixed_part
length-fixed_part true nr flags rest = omega arith
length-fixed_part false nr flags rest = omega arith

pub length-fixed_part_pos :
    (serial : Bool) (nr flags : ℕ) (rest : List ℕ) → 0 < length (fixed_part serial nr flags ++ rest)
unfolding fixed_part
length-fixed_part_pos true nr flags rest = omega arith
length-fixed_part_pos false nr flags rest = omega arith

pub header_sz-pos :
    {con : Option Connection} {mblk_id addr : ℕ} {h : Header}
    → IsHeader con mblk_id addr h
    → 0 < h.header_sz
header_sz-pos {con = con} p =
    let rest =
      extra_part (extra_of p.extra p.mblk_width p.addr_width) ++ (p.mblk_bytes ++ p.addr_bytes) in
    omega (
      arith,
      ap (λ g. g.header_sz) p.shape
          ∙ header_sz-header (serial_to con) (
              fixed_part (serial_to con) (frame_nr_to con)
                (flags_of p.extra p.mblk_width p.addr_width)
              ++ rest),
      length-fixed_part_pos (serial_to con) (frame_nr_to con)
          (flags_of p.extra p.mblk_width p.addr_width) rest,
    )

-- A header is not longer than 14 bytes.
pub header_sz-bound :
    {con : Option Connection} {mblk_id addr : ℕ} {h : Header}
    → IsHeader con mblk_id addr h
    → h.header_sz ≤ 14
header_sz-bound {con = con} {h = h} p =
    let x = extra_part (extra_of p.extra p.mblk_width p.addr_width) in
    let rest = x ++ (p.mblk_bytes ++ p.addr_bytes) in
    omega (
      arith,
      ap (λ g. g.header_sz) p.shape
          ∙ header_sz-header (serial_to con) (
              fixed_part (serial_to con) (frame_nr_to con)
                (flags_of p.extra p.mblk_width p.addr_width)
              ++ rest),
      length-fixed_part (serial_to con) (frame_nr_to con)
          (flags_of p.extra p.mblk_width p.addr_width) rest,
      length-append x (p.mblk_bytes ++ p.addr_bytes),
      length-append p.mblk_bytes p.addr_bytes,
      length-extra_part (extra_of p.extra p.mblk_width p.addr_width),
      p.mblk_size,
      p.addr_size,
      size-bound p.mblk_width,
      size-bound p.addr_width,
    )
