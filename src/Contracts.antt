-- ===== src/Contracts.antt =====
-- ui/src/contracts.ts: the snapshot contract of the window.
mod Types
mod Readers
mod Rows
mod Snapshot
pub mod WellFormed
pub mod Validity
pub mod Built
pub mod Accepted
pub mod Content
pub mod ReadOff
pub mod Faithful
pub mod Rejected
pub use Types.*
unfoldable pub use Readers.*
unfoldable pub use Rows.*
unfoldable pub use Snapshot.*
