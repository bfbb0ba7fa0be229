-- ===== src/Client.antt =====
-- client/exchange_router_client: the Python client of the service, without the data frames.
pub mod Errors
pub mod Requests
pub mod Retries
pub mod Preflight
pub mod Batch
pub mod Gathered
pub mod Streams
pub mod Service
