-- ===== src/Mpsc.antt =====
-- src/mpsc_queue.h as one thread sees it: the list of nodes on the heap, from the constructor to the
-- destructor. `Notify` has the steps of several threads.
pub mod Store
pub mod Chain
pub mod Kept
pub mod Life
mod Examples
