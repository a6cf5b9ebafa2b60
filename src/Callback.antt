-- ===== src/Callback.antt =====
-- libs/callback: what an agent's calls back to the program do.
mod Examples
pub mod Scrub
pub mod CompletionGate
pub mod Service
