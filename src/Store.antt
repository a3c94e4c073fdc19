-- ===== src/Store.antt =====
-- internal/store/store.go and internal/store/migrations/0001_init.sql: the tables, and the
-- statements that the program runs on them.
mod Tables
mod Monad
mod Providers
mod Readings
mod Usage
mod History
mod Runs
pub mod Schema
pub mod Migrate
pub mod ReadOnly
pub mod Latest
pub mod Sound
pub mod Writing
pub mod Upsert
pub mod Yields
unfoldable pub use Tables.*
unfoldable pub use Monad.*
unfoldable pub use Providers.*
unfoldable pub use Readings.*
unfoldable pub use Usage.*
unfoldable pub use History.*
pub use Runs.*
