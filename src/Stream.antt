-- ===== src/Stream.antt =====
-- src/stream.cc: buffered asynchronous reads and writes on a descriptor.
pub mod Requests
pub mod State
pub mod Writing
pub mod Output
pub mod Reading
pub mod Received
pub mod Connecting
pub mod Connected
pub mod Queueing
pub mod Rounds
pub mod Sending
pub mod Whole
pub mod Pending
pub mod Freed
pub mod Sent
pub mod Directions
pub mod Orderly
mod Examples
