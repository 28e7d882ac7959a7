-- ===== src/Streamer.antt =====
-- code/ioc_streamer.c: a stream of bytes through a ring buffer in a memory block. Ring to Fifo are
-- about the ring and its late copies, Machine to Calls are the operations, Progress to Ends how the
-- states follow each other, and Moves to Prefix what a reader gets of a transfer.
pub mod Linked
pub mod Delay
pub mod Fifo
pub mod Link
pub mod Rank
pub mod Ring
pub mod Taken
pub mod Window
pub mod Written
pub mod Machine
pub mod Transfer
pub mod Device
pub mod Controller
pub mod Calls
pub mod Progress
pub mod Ends
pub mod Moves
pub mod Gets
pub mod Session
pub mod Delivered
pub mod Prefix
pub mod Advance
pub mod Tests
