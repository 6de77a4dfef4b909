-- ===== src/MarketBook.antt =====
-- The client's copy of a book: market_order_book.h and market_order.h of ch06/trading/strategy.
pub mod Order
pub mod State
pub mod Links
pub mod Bbo
pub mod Access
pub mod First
pub mod Unseen
pub mod Ring
pub mod Append
pub mod Arrival
pub mod Update
pub mod Total
pub mod Clear
mod Tests
