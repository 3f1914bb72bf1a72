-- ===== src/Loop.antt =====
-- `loop` and the operations that reach it, of src/libevent_event_base.cc.
pub mod Driver
pub mod Rounds
pub mod Ends
pub mod Deferred
pub mod Channel
pub mod Burst
mod Examples
