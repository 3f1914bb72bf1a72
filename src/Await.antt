-- ===== src/Await.antt =====
-- `runOnEventLoopAndWait` of src/libevent_event_base.cc: a thread waits until its operation has run.
pub mod System
pub mod Safety
pub mod Progress
mod Examples
