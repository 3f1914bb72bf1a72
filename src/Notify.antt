-- ===== src/Notify.antt =====
-- src/mpsc_queue.h with its use in src/libevent_event_base.cc: `runOnEventLoop`, `signalNotifyQueue`,
-- `consumeNotification`, `receiveNotifications` and `runOpsInQueue`. Any number of threads push
-- operations, the loop thread runs them, and a pipe wakes it up.
pub mod System
pub mod Invariant
pub mod Moves
pub mod Delivery
mod Examples
