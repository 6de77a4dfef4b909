-- ===== src/Texts.antt =====
-- The `toString` functions of ch06: what a value looks like in a log file.
pub mod Decimal
pub mod Fields
pub mod Values
pub mod Messages
pub mod Unique
pub mod Orders
pub mod Book
mod Tests
