-- ===== src/Messages.antt =====
-- The messages between clients, matching engine and market data.
mod ClientRequest
mod ClientResponse
mod MarketUpdate
pub use ClientRequest.*
pub use ClientResponse.*
pub use MarketUpdate.*
