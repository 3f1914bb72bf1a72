-- ===== src/Echo.antt =====
-- example/echo-server.cc: a server that sends back what it receives.
pub mod Server
pub mod Round
pub mod Deaf
pub mod Main
pub mod Admitted
pub mod Served
pub mod Running
mod Examples
