-- ===== src/Stop.antt =====
-- `stop` and `loop` of src/libevent_event_base.cc: one call of each, as steps of their threads.
pub mod System
pub mod Safety
pub mod Progress
mod Examples
