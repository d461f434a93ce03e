-- ===== src/Scheduler.antt =====
-- kernel/arch/i386/scheduler/: task control blocks, the ready queue, sleeping and dead tasks.
pub mod State
pub mod Switch
pub mod Tasks
pub mod Queue
pub mod RoundRobin
pub mod Fairness
pub mod Block
pub mod Lookup
pub mod Cleanup
pub mod Create
pub mod Start
pub mod Woken
pub mod Sleepers
pub mod Awaken
mod Tests
