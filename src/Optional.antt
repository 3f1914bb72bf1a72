-- ===== src/Optional.antt =====
-- src/optional.h: a value that may be absent, in storage of its own.
pub mod Storage
pub mod Lives
mod Examples
