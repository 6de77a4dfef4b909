-- ===== src/MarketData.antt =====
-- Market data: what the exchange tells everyone (ch06/exchange/market_data), and how a client
-- follows it (ch06/trading/market_data).
pub mod Publisher
pub mod Synthesizer
pub mod Consumer
pub mod Follow
