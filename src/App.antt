-- ===== src/App.antt =====
-- ui/src/App.tsx: the state of the window and its handlers.
mod State
mod Requests
mod Handlers
mod Steps
mod Page
pub mod Loads
pub mod Invariant
pub mod Entitled
pub mod Busy
pub mod Authority
pub mod Shown
mod Ids
pub mod Races
pub mod Settle
pub mod Offers
pub mod Clicked
pub mod Told
pub mod Unchanged
unfoldable pub use State.*
unfoldable pub use Requests.*
unfoldable pub use Handlers.*
pub use Steps.*
unfoldable pub use Page.*
