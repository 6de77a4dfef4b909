-- ===== src/Matcher.antt =====
-- The matching engine of ch06/exchange/matcher.
pub mod Order
pub mod State
pub mod Links
pub mod Trade
pub mod Fill
pub mod Unlink
pub mod Removal
pub mod Ends
mod Tests
