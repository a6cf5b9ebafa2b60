-- ===== src/Setup.antt =====
-- The set-up of a workspace's team: the keys of agents, the linter, and the acceptance of a proposal.
pub mod Keys
pub mod Linter
pub mod Validation
pub mod Service
pub mod Examples
