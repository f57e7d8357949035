-- ===== src/GatewayReader.antt =====
-- The thread of Core_Infra/gateway_reader.hpp and Core_Infra/gateway_reader.cpp that moves a gateway's
-- acknowledgements into a queue.
pub mod Rounds
pub mod Streams
mod Examples
use distributed_orderbook.Prelude.{ℕ, ◌+◌, Bool, true, false, List, if◌then◌else◌}
use distributed_orderbook.Prelude.Int.{ℤ}
use distributed_orderbook.Orderbook.Types.{Fill}
use distributed_orderbook.RingBuffer.Types.{OutboundRing}
use distributed_orderbook.Gateway.{Gateway, Reading, read_from_ring_buffer}
use distributed_orderbook.SpscQueue.{SpscQueue, try_push}

-- `Ack` has the fields of the variables that a read assigns.
abbrev pub Ack : Type 0
Ack = Reading

pub record GatewayReader : Type 0 where
  pub gateway : Gateway
  pub queue : SpscQueue Ack
  pub dropped_count : ℕ
  pub ack : Ack

-- A round of the loop of `run` that finds `stop_` false. `tail` is the value of the queue's `tail` that
-- `try_push` loads.
unfoldable pub poll : ℕ → GatewayReader → OutboundRing → GatewayReader × OutboundRing
poll tail r ring =
    let (success, ack, gateway, ring') = read_from_ring_buffer r.ack r.gateway ring in
    if success
    then (let (stored, queue) = try_push tail ack r.queue in
        (
          record {
            gateway = gateway;
            queue = queue;
            dropped_count = if stored then r.dropped_count else r.dropped_count + 1;
            ack = ack;
          },
          ring',
        ))
    else (r, ring')
