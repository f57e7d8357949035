-- ===== src/MatchingEngine/Overflow.antt =====
-- A round of the engine for a gateway that has read none of the acknowledgements in its ring.
use distributed_orderbook.Prelude.{ℕ, ◌≡◌, true, List, set}
use distributed_orderbook.RingBuffer.Types.{InboundEvent, InboundRing, OutboundRing}
use distributed_orderbook.RingBuffer.Outbox.{get}
use distributed_orderbook.Gateway.{Gateway, Reading, read_from_ring_buffer}
use distributed_orderbook.MatchingEngine.{MatchingEngine, Outcome, handled, run}
use distributed_orderbook.MatchingEngine.Acks.{Reads}

-- The round handles `e`, though the slot where the gateway reads next has an acknowledgement that is not
-- read, and what the gateway reads there is the outcome of `e`.
pub record Overwrites (e : InboundEvent) (m : MatchingEngine) (inbound : InboundRing)
    (outbounds : List OutboundRing) (gid : ℕ) (outbound : OutboundRing) (g : Gateway)
    (out : Reading) : Type 0 where
  pub outcome : Outcome
  pub engine : MatchingEngine
  pub inbound' : InboundRing
  pub outbound' : OutboundRing
  pub unread_yet : (get g.outbound_read_p outbound).is_ready ≡ true
  pub ran : run m inbound outbounds ≡ handled engine inbound' (set outbounds gid outbound')
  pub reads : Reads e outcome g (read_from_ring_buffer out g outbound')
