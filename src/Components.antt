-- ===== src/Components.antt =====
-- The components of ui/src/components whose decisions are modelled.
mod Icons
mod ConfirmDialog
mod SafetyStrip
mod ActivityFeed
mod Sparkline
mod BudgetCard
mod AppDetail
mod AppTable
mod FeedLayout
mod FeedPage
mod Header
pub mod Clicks
pub mod TableClicks
mod FirstAt
pub mod FeedLead
pub mod FeedShown
pub mod Cards
pub mod Bars
pub mod Audit
pub mod Controls
pub mod Feed
unfoldable pub use ConfirmDialog.*
unfoldable pub use SafetyStrip.*
unfoldable pub use ActivityFeed.*
unfoldable pub use Sparkline.*
unfoldable pub use BudgetCard.*
unfoldable pub use AppDetail.*
unfoldable pub use AppTable.*
unfoldable pub use FeedLayout.*
unfoldable pub use FeedPage.*
unfoldable pub use Header.*
