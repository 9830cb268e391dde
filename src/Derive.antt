-- ===== src/Derive.antt =====
-- ui/src/derive.ts: the copy and the measurements that the window shows for a snapshot.
mod Copy
mod Budgets
mod Freshness
mod Apps
mod Money
mod Events
pub mod Header
pub mod Alerts
pub mod Access
pub use Copy.*
unfoldable pub use Budgets.*
unfoldable pub use Freshness.*
unfoldable pub use Apps.*
unfoldable pub use Money.*
unfoldable pub use Events.*
