-- ===== src/Lib.antt =====
-- iocom: what is verified of the C library under `code/`.
--
-- iocom keeps memory blocks, arrays of bytes that hold IO signals, the same on devices that are
-- joined by connections. For each memory block that it sends, a connection has a source buffer
-- (the bytes as the other end has them, and the range that has changed since); for each that it
-- receives, a target buffer (the bytes as they arrive). A frame carries the changed range as the
-- difference from the bytes sent before, packed by run-length coding of zeros.
--
-- Files:
--   Base            tests, lists, results of code that reads memory, and arrays of bytes
--   Compress        code/ioc_compress.c: `compress` is ioc_compress, `uncompress` ioc_uncompress
--   SourceBuffer    code/ioc_source_buffer.c: `invalidate`, `invalidate_bytes` and `synchronize`
--                   are ioc_sbuf_invalidate, ioc_sbuf_invalidate_bytes and ioc_sbuf_synchronize
--   TargetBuffer    code/ioc_target_buffer.c: `invalidate` and `synchronize` are
--                   ioc_tbuf_invalidate and ioc_tbuf_synchronize
--   MemoryBlock     code/ioc_memory_block.c: ioc_write, ioc_read, ioc_clear and ioc_send;
--                   MemoryBlock/Received is ioc_receive
--   Message         the integers and strings of frames: ioc_msg_set_uint, ioc_msg_get_uint and the
--                   like of code/ioc_connection_send.c and code/ioc_connection_receive.c
--   Frame           the header of a frame: ioc_generate_header and ioc_finish_frame;
--                   Frame/Receive is ioc_read_frame, and of ioc_connection_receive the part
--                   that takes a frame apart. Frame/Data is ioc_make_data_frame and
--                   ioc_store_data_frame; Frame/Carried to Frame/Synced follow the changes of a
--                   memory block through data frames to the target buffer of the other end
--   FlowControl     code/ioc_connection_send.c: ioc_write_to_stream, ioc_send_acknowledge,
--                   ioc_acknowledge_as_needed and the counts of bytes; FlowControl/Line is what
--                   can happen to them, FlowControl/Pieces a frame written in pieces
--   Streamer        code/ioc_streamer.c: Streamer/Ring is ioc_streamer_write_internal and
--                   ioc_streamer_read_internal, Streamer/Machine the signals and states,
--                   Streamer/Device and Streamer/Controller the steps of the two ends, and
--                   Streamer/Calls open, close, write, read and flush. Streamer/Link and
--                   Streamer/Session join the two ends by signals that arrive late
--   Signal          code/ioc_signal.c: `write_value` and `read_value` are what ioc_move does with a
--                   value; Signal/Move is ioc_move of several signals and ioc_set_state_bits,
--                   Signal/Text the strings of ioc_move_str, Signal/Packed ioc_move_array. The
--                   other children follow the bytes of values, arrays and booleans
--   SignalAddr      code/ioc_signal_addr.c: sizes of signals, and the search for those that a
--                   range of addresses touches
--   AutoDeviceNr    code/ioc_auto_device_nr.c: `get_automatic_device_nr` and `get_reserved_autonr`
--                   are ioc_get_automatic_device_nr and ioc_get_reserved_autonr
--
-- Memory: a byte is a number below 256, an array a list of bytes. In Compress every read tests the
-- end of the array, and an overread is the result `fault`. In the buffers a read out of range gives
-- 0 and a store out of range is lost, and the theorems assume ranges inside.
--
-- The stream that frames are read from and written to, the check sums and the sizes of types
-- belong to another library, eosal, and are parameters, as are random numbers, what is stored
-- persistently, the clock of a streamer, which tells whether a time is up, and the byte that a read
-- behind a delta buffer finds. In Streamer a negative value of a signal is its number without the
-- sign.
--
-- Fuel: the search for signals has as much as there are signals, the packing loop as much as there
-- are source bytes, the unpacking loop as much as there are packed bytes. Running out is the result
-- `stuck`, and the theorems on them show that it does not occur. The loop that reads a frame has
-- its rounds as fuel; what it does in a round is in the theorems, its loop in the tests only. The
-- exchange of data frames has the bytes that are left as fuel: each frame carries one at least.
--
-- Not modelled: locks and threads, triggers and callbacks, the set up and release of objects and
-- the lists that link them, sockets and serial lines and when a connection sends what, keep alives
-- in the theorems on flow control, authentication, the switchbox, the control stream of a device,
-- and the extensions.
pub mod AutoDeviceNr
pub mod Base
pub mod Compress
pub mod FlowControl
pub mod Frame
pub mod MemoryBlock
pub mod Message
pub mod Signal
pub mod SignalAddr
pub mod SourceBuffer
pub mod Streamer
pub mod TargetBuffer
