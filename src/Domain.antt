-- ===== src/Domain.antt =====
-- The data that the processes share: the contracts package, the database schema, and the actions
-- that read and write it.
mod Issues
mod Report
mod Receipt
mod Tables
mod Actions
unfoldable pub use Issues.*
unfoldable pub use Report.*
unfoldable pub use Receipt.*
unfoldable pub use Tables.*
unfoldable pub use Actions.*
