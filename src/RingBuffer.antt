-- ===== src/RingBuffer.antt =====
-- The two ring buffers of Core_Infra/ring_buffer.hpp and Core_Infra/ring_buffer.cpp. A sequence number
-- starts at 0 and only rises; `seq & mask` is its slot.
pub mod Types
pub mod Inbox
pub mod Outbox
pub mod Slots
pub mod Protocol
pub mod Inbound
pub mod Outbound
pub mod Producers
pub mod Overtake
pub mod Deliveries
mod Examples
