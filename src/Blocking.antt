-- ===== src/Blocking.antt =====
-- src/blocking_stream.cc: reading from a stream until enough has come.
pub mod Reader
pub mod Chunks
pub mod Enough
pub mod Leftover
pub mod Writer
pub mod Pieces
pub mod Written
pub mod Life
pub mod Session
pub mod Wire
mod Examples
