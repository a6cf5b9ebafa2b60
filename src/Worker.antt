-- ===== src/Worker.antt =====
-- apps/worker: the process that executes runs.
pub mod ExecutorGate
pub mod Outbox
pub mod Lock
pub mod RunProcessor
pub mod CallbackExit
mod Examples
mod RunExamples
mod OutboxExamples
mod LockExamples
