-- ===== src/Buffer.antt =====
-- src/buffer.cc, src/buffer-internal.h and src/wte/buffer.h: a byte buffer as a chain of extents.
-- `Extent` has the operations of one extent, `Impl` those of the buffer.
pub mod Extent
pub mod Impl
pub mod Contents
pub mod Drain
pub mod Copy
pub mod Append
pub mod Served
pub mod ReadLoop
pub mod Read
pub mod Peek
pub mod Single
pub mod Agree
pub mod Cut
pub mod Client
pub mod Ring
pub mod Prepend
pub mod Restarts
pub mod Reserve
mod Examples
