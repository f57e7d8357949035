-- ===== src/GatewayReader/Rounds.antt =====
-- A round of the reader's loop.
use mathlib.Core.Path.{subst}
use distributed_orderbook.Prelude.{
  ℕ, ◌+◌, ◌≤◌, ◌≡◌, refl, sym, Bool, true, false, inl, inr, Bool-cases, [], ◌∷◌, ◌++◌,
  if◌then◌else◌,
}
use distributed_orderbook.RingBuffer.Types.{OutboundRing}
use distributed_orderbook.RingBuffer.Outbox.{get, release}
use distributed_orderbook.Gateway.Reads.{reading_of, read-ready, read-unready}
use distributed_orderbook.SpscQueue.{SpscQueue, try_push}
use distributed_orderbook.SpscQueue.Refine.{Valid, values, Pushed, stored, full, try_push_refines}
use distributed_orderbook.GatewayReader.{Ack, GatewayReader, poll}

-- What a round does: nothing, or it takes one acknowledgement from the ring and puts it behind those in
-- the queue, or drops it and counts it.
pub data Polled (k : ℕ) (d : Ack) (tail : ℕ) (r : GatewayReader) (ring : OutboundRing)
    : GatewayReader × OutboundRing → Type 0 where
  idle : (get r.gateway.outbound_read_p ring).is_ready ≡ false → Polled k d tail r ring (r, ring)
  kept :
      (r' : GatewayReader)
      → (get r.gateway.outbound_read_p ring).is_ready ≡ true
      → Valid k r'.queue
      → values d r'.queue
        ≡ values d r.queue ++ reading_of (get r.gateway.outbound_read_p ring) r.ack ∷ []
      → r'.dropped_count ≡ r.dropped_count
      → r'.gateway.outbound_read_p ≡ r.gateway.outbound_read_p + 1
      → Polled k d tail r ring (r', release r.gateway.outbound_read_p ring)
  dropped :
      (r' : GatewayReader)
      → (get r.gateway.outbound_read_p ring).is_ready ≡ true
      → tail + r.queue.capacity ≤ r.queue.head
      → r'.queue ≡ r.queue
      → r'.dropped_count ≡ r.dropped_count + 1
      → r'.gateway.outbound_read_p ≡ r.gateway.outbound_read_p + 1
      → Polled k d tail r ring (r', release r.gateway.outbound_read_p ring)

module _ (k : ℕ) (d : Ack) (tail : ℕ) (r : GatewayReader) (ring : OutboundRing) where
  abbrev seq : ℕ
  seq = r.gateway.outbound_read_p

  abbrev ack : Ack
  ack = reading_of (get seq ring) r.ack

  -- The state after a read that succeeds, for the result of the push
  abbrev after : Bool × SpscQueue Ack → GatewayReader × OutboundRing
  after push = (
    record {
      gateway = record (r.gateway) { outbound_read_p = seq + 1 };
      queue = push.1;
      dropped_count = if push.0 then r.dropped_count else r.dropped_count + 1;
      ack = ack;
    },
    release seq ring,
  )

  poll-ready : (get seq ring).is_ready ≡ true → poll tail r ring ≡ after (try_push tail ack r.queue)
  unfolding poll
  poll-ready ready = rw (read-ready r.ack r.gateway ring ready) refl

  poll-unready : (get seq ring).is_ready ≡ false → poll tail r ring ≡ (r, ring)
  unfolding poll
  poll-unready unready = rw (read-unready r.ack r.gateway ring unready) refl

  after-Polled :
      (push : Bool × SpscQueue Ack)
      → (get seq ring).is_ready ≡ true
      → Pushed k d tail ack r.queue push
      → Polled k d tail r ring (after push)
  after-Polled push ready (stored q' _ valid same _) = kept _ ready valid same refl refl
  after-Polled push ready (full is_full) = dropped _ ready is_full refl refl refl

  -- With a valid queue, and when the reader sees a value of the queue's `tail` that the consumer has
  -- passed or is at, a round takes the acknowledgement that is ready, if one is, and releases its slot.
  -- The acknowledgement joins the end of the queue, which keeps the others, or it is counted as dropped
  -- when the queue is seen full.
  pub poll-Polled :
      Valid k r.queue → tail ≤ r.queue.tail → Polled k d tail r ring (poll tail r ring)
  poll-Polled valid old = elim (Bool-cases (get seq ring).is_ready) [
    | inl ready ↦
        subst (Polled k d tail r ring) (sym (poll-ready ready))
          (after-Polled _ ready (try_push_refines k r.queue valid d tail ack old))
    | inr unready ↦ subst (Polled k d tail r ring) (sym (poll-unready unready)) (idle unready)
  ]
