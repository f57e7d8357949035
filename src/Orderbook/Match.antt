-- ===== src/Orderbook/Match.antt =====
-- `Orderbook::match` and `placeOrder` on a well-formed book.
pub mod Fills
pub mod Queue
pub mod TakeLimit
pub mod Levels
pub mod Sweep
pub mod Enqueue
pub mod OpenLevel
pub mod Rest
pub mod Refine
