-- ===== src/Runs.antt =====
-- libs/runs: the run state machine, the enqueue seam and the mapping of exits.
pub mod StatusMapping
pub mod Service
pub mod Index
pub mod Rows
pub mod Lifecycle
pub mod Rejections
pub mod Refinement
pub mod Rescue
pub mod Once
pub mod Questions
pub mod Trigger
mod Examples
