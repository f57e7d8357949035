-- ===== src/Main.antt =====
-- The program of main.cpp: an inbound ring, an engine, four gateways with a ring each.
pub mod Runs
mod Examples
use distributed_orderbook.Prelude.{
  ℕ, zero, suc, ◌≡◌, false, none, some, List, [], ◌∷◌, get_elem?, set, replicate,
}
use distributed_orderbook.Prelude.Int.{pos}
use distributed_orderbook.RingBuffer.Types.{InboundRing, OutboundRing}
use distributed_orderbook.RingBuffer.Inbox
use distributed_orderbook.RingBuffer.Outbox
use distributed_orderbook.Gateway.{
  Gateway, live, replay, new_gateway, Reading, read_from_ring_buffer,
}
use distributed_orderbook.Gateway.Calls.{Calls}
use distributed_orderbook.MatchingEngine.{MatchingEngine, new_engine, handled, run}

pub record System : Type 0 where
  pub gateways : List Gateway
  pub inbound : InboundRing
  pub outbounds : List OutboundRing
  pub engine : MatchingEngine

abbrev pub num_gateways : ℕ
num_gateways = 4

-- The gateways 0 to 2 are live, and 3 is a replay that is not silent.
abbrev pub gateways_of_main : List Gateway
gateways_of_main =
    new_gateway (pos 0) live none
    ∷ new_gateway (pos 1) live none
    ∷ new_gateway (pos 2) live none
    ∷ new_gateway (pos 3) replay (some false)
    ∷ []

abbrev pub set_up : System
set_up = record {
  gateways = gateways_of_main;
  inbound = Inbox.new 1024;
  outbounds = replicate num_gateways (Outbox.new 1024);
  engine = new_engine num_gateways;
}

-- What a thread does next: a call of a gateway that returns, a read of a gateway, or a round of the
-- engine with an event.
pub data Step (s : System) : System → Type 0 where
  called :
      (i : ℕ) (g g' : Gateway) (ring' : InboundRing)
      → get_elem? s.gateways i ≡ some g
      → Calls g s.inbound g' ring'
      → Step s (record s { gateways = set s.gateways i g'; inbound = ring' })
  looked :
      (i : ℕ) (g : Gateway) (outbound : OutboundRing) (out : Reading)
      → get_elem? s.gateways i ≡ some g
      → get_elem? s.outbounds i ≡ some outbound
      → Step s (record s {
        gateways = set s.gateways i (read_from_ring_buffer out g outbound).2;
        outbounds = set s.outbounds i (read_from_ring_buffer out g outbound).3;
      })
  worked :
      (m' : MatchingEngine) (ring' : InboundRing) (outbounds' : List OutboundRing)
      → run s.engine s.inbound s.outbounds ≡ handled m' ring' outbounds'
      → Step s (record s { engine = m'; inbound = ring'; outbounds = outbounds' })

-- The states of the program, in any order of its threads
pub data Reaches : System → Type 0 where
  at_start : Reaches set_up
  then_step : {s : System} (s' : System) → Reaches s → Step s s' → Reaches s'
