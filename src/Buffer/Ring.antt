-- ===== src/Buffer/Ring.antt =====
-- The circular list of extents behind a buffer, with its pointers: `listAppend`, `listPrepend` and the
-- removal of an extent of src/buffer.cc.
pub mod Links
pub mod Span
pub mod Appended
pub mod Prepended
pub mod Removed
pub mod Chain
pub mod Refine
mod Examples
