-- ===== src/RingBuffer/Inbox.antt =====
-- The members of `RingBuffer_inbound` in Core_Infra/ring_buffer.cpp.
use distributed_orderbook.Prelude.{
  ℕ, ◌+◌, ◌-◌, bit_and, true, false, Option, none, some, if◌then◌else◌, get_or, set, replicate,
}
use distributed_orderbook.RingBuffer.Types.{InboundEvent, default_inbound, InboundRing}

-- `amend` is an assignment through the pointer that `get` gives.
abbrev pub new : ℕ → InboundRing
new size = record {
  buffer = replicate size default_inbound;
  size = size;
  mask = size - 1;
  write_pointer = 0;
}

abbrev pub get : ℕ → InboundRing → InboundEvent
get seq r = get_or r.buffer (bit_and seq r.mask) default_inbound

abbrev pub amend : ℕ → (InboundEvent → InboundEvent) → InboundRing → InboundRing
amend seq f r = record r { buffer = set r.buffer (bit_and seq r.mask) (f (get seq r)) }

-- A round of `claim` in which no other producer moves `write_pointer` between the load and the
-- compare and swap; `none` is a spin on a slot that is still ready.
unfoldable pub claim : InboundRing → Option (ℕ × InboundRing)
claim r =
    if (get r.write_pointer r).is_ready
    then none
    else some (r.write_pointer, record r { write_pointer = r.write_pointer + 1 })

abbrev pub publish : ℕ → InboundRing → InboundRing
publish seq = amend seq λ e. record e { is_ready = true }

abbrev pub release : ℕ → InboundRing → InboundRing
release seq = amend seq λ e. record e { is_ready = false }
