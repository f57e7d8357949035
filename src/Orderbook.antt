-- ===== src/Orderbook.antt =====
-- The order book of Core_Infra/orderbook.hpp and orderbook.cpp over an explicit heap.
pub mod Rep
pub mod Types
pub mod Command
pub mod Methods
pub mod Modify
pub mod Cancel
pub mod Match
pub mod Safety
pub mod Reachable
pub mod Views
pub mod Volumes
pub mod Changes
pub mod Quotes
mod Tests
mod Examples
