-- ===== src/Events.antt =====
-- Registration of event handlers and timeouts with an event base: src/wte/what.h,
-- src/event_handler.cc, src/libevent_event_handler.cc, src/timeout.cc and the registering methods of
-- src/libevent_event_base.cc.
pub mod What
pub mod Libevent
pub mod Handler
pub mod Registration
pub mod Synced
pub mod Timeout
pub mod Lifetime
pub mod Follow
pub mod Table
mod Examples
