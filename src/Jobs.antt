-- ===== src/Jobs.antt =====
-- app/jobs: the durable job table, its waiters and the service over them.
pub mod Models
pub mod Store
pub mod Lifecycle
pub mod Calls
pub mod Admission
pub mod Executions
pub mod Retries
pub mod Idle
pub mod Rows
pub mod Invariant
pub mod Progress
pub mod History
pub mod Claims
pub mod Output
pub mod Restart
pub mod Waiters
pub mod Wakeups
mod Examples
mod WaiterExamples
