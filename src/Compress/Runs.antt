-- ===== src/Compress/Runs.antt =====
-- Runs of the code of code/ioc_compress.c, and its theorems at such inputs.
use iocom.Base.{ℕ, ◌≡◌, refl, true, false, none, some, List, [], ◌∷◌, Returns, done, fault, arith}
use iocom.Compress.{
  literal_test, literal_run, zero_run, pack_zeros, pack_literals, pack_loop, Compressed,
  compress_result, compress, apply, read_bytes, unpack_literals, fill_zeros, unpack_zeros,
  unpack_loop, uncompress,
}
use iocom.Compress.Format.{unpacks}
use iocom.Compress.RoundTrip.{IsCompressed, compress-IsCompressed, uncompress-compress}
use iocom.Compress.Safety.{IsInside, uncompress-IsInside}
use iocom.Compress.Overread.{compress-fault}

-- Eight bytes to pack, and one after them.
abbrev source : List ℕ
source = 0 ∷ 0 ∷ 0 ∷ 0 ∷ 5 ∷ 0 ∷ 0 ∷ 0 ∷ 9 ∷ []

abbrev packed : Compressed
packed = record { rval = some 5; dst = 0 ∷ 4 ∷ 1 ∷ 5 ∷ 3 ∷ []; start_addr = 8 }

abbrev screen : List ℕ
screen = 1 ∷ 2 ∷ 3 ∷ 4 ∷ 5 ∷ 6 ∷ 7 ∷ 255 ∷ 9 ∷ []

pack_source : compress source 0 7 20 ≡ done packed
unfolding compress compress_result pack_loop pack_literals pack_zeros literal_run literal_test
    zero_run
pack_source = refl

unpack_delta :
    uncompress true true packed.dst screen ≡ unpacks 8 (1 ∷ 2 ∷ 3 ∷ 4 ∷ 10 ∷ 6 ∷ 7 ∷ 255 ∷ 9 ∷ [])
unfolding uncompress unpack_loop unpack_literals read_bytes unpack_zeros fill_zeros apply
unpack_delta = refl

-- A count of literals that the frame does not hold.
unpack_corrupted :
    uncompress true false (9 ∷ 1 ∷ []) screen ≡ done (record { rval = none; mem = screen })
unfolding uncompress unpack_loop
unpack_corrupted = refl

uncompress-compress_example :
    uncompress true true packed.dst screen
    ≡ unpacks 8 (apply true (0 ∷ 0 ∷ 0 ∷ 0 ∷ 5 ∷ 0 ∷ 0 ∷ 0 ∷ []) screen)
uncompress-compress_example =
    uncompress-compress source 0 7 20 true screen {r = packed} {n = 5} (omega arith) pack_source
      refl (omega arith) (omega arith)

compress-IsCompressed_example : Returns (IsCompressed source 0 7 20) (compress source 0 7 20)
compress-IsCompressed_example = compress-IsCompressed source 0 7 20 (omega arith)

uncompress-IsInside_example : Returns (IsInside screen) (uncompress true false (9 ∷ 1 ∷ []) screen)
uncompress-IsInside_example = uncompress-IsInside true false (9 ∷ 1 ∷ []) screen

compress-fault_example : compress source 0 8 100 ≡ fault
compress-fault_example = compress-fault source 0 8 100 (omega arith) (omega arith) (omega arith)
