-- ===== src/Frame/DataRuns.antt =====
-- code/ioc_connection_send.c and code/ioc_connection_receive.c: a data frame that is made, opened and
-- stored, and the theorem on the whole way at such a change.
use iocom.Base.{ℕ, ◌<◌, ◌≡◌, ◌⊎◌, refl, true, false, some, [], ◌∷◌, at, at-lt, done, arith}
use iocom.SourceBuffer.{synchronize}
use iocom.SourceBuffer.Runs.{after, changed, changed-IsReady, changed-Covers}
use iocom.TargetBuffer.Runs.{quiet, quiet-Pending}
use iocom.Frame.{
  Connection, is_serial, header, fixed_part, extra_part, generate_header, poke, or_flag, store_size,
  store_checksum, is_blocked, next_frame_nr, serial_to, frame_nr_to, needs_extra, in_air,
}
use iocom.Compress.{compress}
use iocom.Message.{set_uint, deref}
use iocom.Frame.Data.{
  make_data_frame, delta_bytes, is_delta, compress_data, content_of, choose_content, completes,
  advance, seal_data, place_content,
}
use iocom.Frame.Exchange.{Ends, AreFit}
use iocom.Frame.Synced.{Exchange, HasSame, synchronize-Exchange}

abbrev con : Connection
con = record {
  socket = true;
  serial = false;
  frame_out_nr = 200;
  frame_in_nr = 3;
  dst_frame_sz = 464;
  frame_sz = 464;
  max_in_air = 4000;
  bytes_sent = 10;
  processed_bytes = 4;
}

abbrev both : Ends
both = record {
  os_checksum = λ f. 5;
  sender = con;
  reader = con;
  frame_sz = 464;
  frame_nr = 200;
  needed = 0;
  data_sz = 0;
  before = 0;
}

both-AreFit : AreFit both
unfolding is_serial
both-AreFit = record {
  sum_bound = λ g. omega arith;
  number = omega arith;
  some_room = omega arith;
  size_bound = omega arith;
  room = omega arith;
}

quiet-HasSame : HasSame after changed.buf quiet
quiet-HasSame = record {
  target_size = refl;
  room = omega arith;
  whole = refl;
  pending = quiet-Pending;
  target_IsBytes = λ k h. at-lt quiet.newdata (omega arith) k;
  same_bytes = λ k h. refl;
}

synchronize-Exchange_example :
    ((k : ℕ) → k < 3 → at quiet.newdata k ≡ at after k)
    ⊎ Exchange (0 ∷ []) 7 after after both (synchronize after changed).1 quiet
synchronize-Exchange_example =
    synchronize-Exchange after (0 ∷ []) 7 both changed quiet changed-IsReady changed-Covers refl
      refl refl quiet-HasSame both-AreFit (omega arith) (omega arith) (omega arith)

-- A range of one byte goes over without packing, as the difference from the byte before.
made_frame :
    make_data_frame
      (λ f. 5)
      (0 ∷ [])
      after
      con
      7
      (record changed { delta = 0 ∷ 254 ∷ 0 ∷ []; used = true; start_addr = 1; end_addr = 1 })
    ≡ done (record {
      frame = some (200 ∷ 17 ∷ 1 ∷ 0 ∷ 7 ∷ 1 ∷ 254 ∷ []);
      connection = record con { frame_out_nr = 1 };
      sbuf = record changed {
        delta = 0 ∷ 254 ∷ 0 ∷ [];
        used = false;
        start_addr = 2;
        end_addr = 1;
      };
    })
unfolding make_data_frame generate_header set_uint deref header fixed_part extra_part serial_to
    frame_nr_to is_serial needs_extra in_air is_blocked next_frame_nr poke or_flag store_size
    store_checksum delta_bytes is_delta compress_data compress content_of choose_content completes
    advance seal_data place_content
made_frame = refl
