-- ===== src/Jira.antt =====
-- libs/jira: how the program talks to Jira.
mod Examples
pub mod Jql
pub mod RateLimiter
pub mod Transitions
