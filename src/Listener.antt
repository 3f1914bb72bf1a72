-- ===== src/Listener.antt =====
-- src/libevent_connection_listener.cc: a listening socket and the connections it accepts.
pub mod System
pub mod Bound
pub mod Accepted
mod Examples
