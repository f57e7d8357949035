-- ===== src/GatewayReader/Examples.antt =====
-- The theorem on a round at a ring with one acknowledgement and a queue of capacity 2.
use distributed_orderbook.Prelude.{refl, true, none, [], ◌∷◌, false, arith, replicate}
use distributed_orderbook.Prelude.Int.{pos}
use distributed_orderbook.RingBuffer.Types.{op_new, default_inbound, OutboundRing}
use distributed_orderbook.RingBuffer.Outbox
use distributed_orderbook.Gateway.{live, new_gateway}
use distributed_orderbook.SpscQueue.{new_queue}
use distributed_orderbook.SpscQueue.Refine.{new_queue-Valid}
use distributed_orderbook.MatchingEngine.{Outcome, acknowledge}
use distributed_orderbook.GatewayReader.Streams.{
  Stream, published, wrote, polled, at_start, then_step, Accounted, KeepsUp-Accounted,
}
use distributed_orderbook.GatewayReader.{Ack, GatewayReader, poll}
use distributed_orderbook.GatewayReader.Rounds.{Polled, poll-Polled}

abbrev no_ack : Ack
no_ack = record {
  fills = replicate 16 (record { price = pos 0; volume = pos 0; timestamp = pos 0 });
  fill_count = 0;
  order_id = pos 0;
  fulfilled = false;
  remaining_qty = pos 0;
  op = op_new;
}

abbrev ring : OutboundRing
ring = Outbox.publish 0 (Outbox.new 2)

abbrev reader : GatewayReader
reader = record {
  gateway = new_gateway (pos 0) live none;
  queue = new_queue no_ack 2;
  dropped_count = 0;
  ack = no_ack;
}

poll-Polled_example : Polled 1 no_ack 0 reader ring (poll 0 reader ring)
poll-Polled_example = poll-Polled 1 no_ack 0 reader ring (new_queue-Valid 1 no_ack) (omega arith)

abbrev outbound : OutboundRing
outbound = Outbox.new 2

abbrev started : Stream
started = record {
  ring = outbound;
  write_p = 0;
  reader = reader;
  stop = false;
  written = [];
  delivered = [];
}

abbrev outcome : Outcome
outcome = record { order_id = pos 1; fulfilled = true; remaining_qty = pos 0; trades = [] }

-- The engine writes an acknowledgement, and the reader takes it.
abbrev written : Stream
written = record started {
  ring = Outbox.publish 0 (Outbox.amend 0 (acknowledge default_inbound outcome) outbound);
  write_p = 1;
  written = published default_inbound outcome 0 outbound ∷ [];
}

abbrev read : Stream
read = record written {
  reader = (poll 0 reader written.ring).0;
  ring = (poll 0 reader written.ring).1;
}

KeepsUp-Accounted_example : Accounted 1 1 no_ack read
KeepsUp-Accounted_example = KeepsUp-Accounted read (
    then_step read
      (then_step written (at_start (new_gateway (pos 0) live none) no_ack refl)
        (wrote default_inbound outcome) (omega arith))
      (polled 0 refl (omega arith)) (omega arith))
