-- ===== src/Aggregator.antt =====
-- internal/aggregator: rates from the latest readings of the providers.
pub mod Stats
pub mod Types
pub mod Direct
pub mod Compute
pub mod History
