-- ===== src/Api.antt =====
-- ui/src/api.ts: the requests that the window makes of Governor, and what it makes of the answers.
mod Fetch
mod Csrf
mod Load
mod Audit
mod Control
mod Actions
pub mod Bodies
pub mod Answers
pub mod Cookies
pub mod Audits
pub use Fetch.*
unfoldable pub use Csrf.*
unfoldable pub use Load.*
unfoldable pub use Audit.*
unfoldable pub use Control.*
unfoldable pub use Actions.*
