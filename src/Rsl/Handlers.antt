-- ===== src/Rsl/Handlers.antt =====
-- The message handlers of rsl/algo.go.
mod Replies
mod Status
mod Prepare
mod Accept
mod Fetch
unfoldable pub use Replies.*
unfoldable pub use Status.*
unfoldable pub use Prepare.*
unfoldable pub use Accept.*
unfoldable pub use Fetch.*
