-- ===== src/Scheduler.antt =====
-- core/components/src/scheduler: the queue of tasks and the scheduler that runs them.
pub mod Queue
pub mod Edf
mod Examples
