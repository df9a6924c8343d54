-- ===== src/Scheduler.antt =====
-- pkg/scheduler: sessions and policies.
pub mod Cache
pub mod Equi
pub mod Hell
pub mod Policies
pub mod Loop
pub mod Outcome
pub mod Session
