-- ===== src/Http.antt =====
-- internal/httpapi/httpapi.go: the handlers of the HTTP API. The router calls them with the parts of
-- the path and of the query as arguments.
mod Quiet
mod Along
pub mod Sorted
pub mod Answers
pub mod Cached
pub mod Failed
pub mod Bases
pub mod Gauges
pub mod Effects
pub mod Honest
mod Types
pub mod Site
mod SortedKeys
mod Rates
mod History
mod Status
mod Routes
unfoldable pub use Types.*
unfoldable pub use SortedKeys.*
unfoldable pub use Rates.*
unfoldable pub use History.*
unfoldable pub use Status.*
unfoldable pub use Routes.*
