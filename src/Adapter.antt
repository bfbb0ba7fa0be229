-- ===== src/Adapter.antt =====
-- src/exchanges/base.py: `BaseExchange`, what every adapter inherits.
pub mod Pagination
pub mod InfoCache
pub mod Timestamps
