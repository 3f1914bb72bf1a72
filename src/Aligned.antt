-- ===== src/Aligned.antt =====
-- src/cache_aligned.h: objects that have their cache lines to themselves.
pub mod Lines
mod Examples
