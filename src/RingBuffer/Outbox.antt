-- ===== src/RingBuffer/Outbox.antt =====
-- The members of `RingBuffer_outbound` in Core_Infra/ring_buffer.cpp.
use distributed_orderbook.Prelude.{ℕ, ◌-◌, bit_and, true, false, get_or, set, replicate}
use distributed_orderbook.RingBuffer.Types.{OutboundEvent, default_outbound, OutboundRing}

abbrev pub new : ℕ → OutboundRing
new size = record { buffer = replicate size default_outbound; size = size; mask = size - 1 }

abbrev pub get : ℕ → OutboundRing → OutboundEvent
get seq r = get_or r.buffer (bit_and seq r.mask) default_outbound

abbrev pub amend : ℕ → (OutboundEvent → OutboundEvent) → OutboundRing → OutboundRing
amend seq f r = record r { buffer = set r.buffer (bit_and seq r.mask) (f (get seq r)) }

abbrev pub publish : ℕ → OutboundRing → OutboundRing
publish seq = amend seq λ e. record e { is_ready = true }

abbrev pub release : ℕ → OutboundRing → OutboundRing
release seq = amend seq λ e. record e { is_ready = false }
