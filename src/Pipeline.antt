-- ===== src/Pipeline.antt =====
-- libs/pipeline: when the tickets that block a ticket let it start.
pub mod Gate
pub mod Triggering
pub mod Decision
pub mod Completion
pub mod StatusChange
pub mod Cycles
pub mod Candidates
pub mod Release
mod Examples
mod RunExamples
mod ReleaseExamples
