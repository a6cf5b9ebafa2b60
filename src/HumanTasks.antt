-- ===== src/HumanTasks.antt =====
-- libs/human-tasks: the queue of questions for people, and what their answers do.
pub mod Service
pub mod Requests
pub mod Successor
pub mod Resume
pub mod Resumption
pub mod Resolution
mod Examples
