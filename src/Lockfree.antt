-- ===== src/Lockfree.antt =====
-- core/common/include/ipb/common/lockfree_queue.hpp: the queues between threads.
pub mod Spsc
mod Examples
