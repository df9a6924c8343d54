-- ===== src/Controller.antt =====
-- pkg/controller: the controller that turns PintaJobs into Volcano jobs.
pub mod Result
pub mod JobType
pub mod JobCache
pub mod Updater
pub mod State
pub mod Manager
pub mod Framework
