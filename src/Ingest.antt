-- ===== src/Ingest.antt =====
-- libs/ingest: what a reconcile pass finds and mends, workspace by workspace.
pub mod Watchdog
pub mod Poller
pub mod DriftRepair
pub mod Reconcile
pub mod Examples
