-- ===== src/Gateway/Examples.antt =====
-- A live gateway that places two orders in a ring of four slots, and calls of a live gateway and of a
-- replay gateway at a ring of two.
use distributed_orderbook.Prelude.{◌≡◌, refl, true, false, none, [], ◌∷◌}
use distributed_orderbook.Prelude.Int.{pos, ◌+ℤ◌}
use distributed_orderbook.RingBuffer.Inbox
use distributed_orderbook.RingBuffer.Inbox.{claim}
use distributed_orderbook.RingBuffer.Types.{InboundRing}
use distributed_orderbook.RingBuffer.Inbound.{new-Valid}
use distributed_orderbook.Gateway.{
  Gateway, live, replay, new_gateway, place_order_to_ring_buffer, cancel_order_to_ring_buffer,
  modify_order_to_ring_buffer,
}
use distributed_orderbook.Gateway.Contents.{
  Submits, Requests, IsCancellation, IsReduction, place_order_posts, cancel_order_posts,
  modify_order_posts,
}
use distributed_orderbook.Gateway.Ids.{Session, over, placed, Session-ids}

abbrev two_orders : (g : Gateway) × Session (new_gateway (pos 3) live none) (pos 0 ∷ pos 1 ∷ []) g
unfolding place_order_to_ring_buffer claim ◌+ℤ◌
two_orders = (
  _,
  placed (pos 100) (pos 10) true (pos 0) (pos 0) (pos 7) (pos 0) (Inbox.new 4) _ refl
      (placed (pos 90) (pos 5) false (pos 0) (pos 0) (pos 8) (pos 1) (Inbox.new 4) _ refl over),
)

Session-ids_example : pos 1 ≡ pos 1
Session-ids_example = Session-ids (pos 3) none two_orders.1 1 (pos 1) refl

abbrev ring : InboundRing
ring = Inbox.new 2

abbrev trader : Gateway
trader = new_gateway (pos 0) live none

abbrev feed : Gateway
feed = new_gateway (pos 0) replay none

place_order_posts_example :
    Submits 1 0
      (pos 100)
      (pos 5)
      true
      (pos 0)
      (pos 0)
      (pos 7)
      trader
      ring
      (place_order_to_ring_buffer (pos 100) (pos 5) true (pos 0) (pos 0) (pos 7) trader ring)
place_order_posts_example =
    place_order_posts ring trader (new-Valid 1) (pos 100) (pos 5) true (pos 0) (pos 0) (pos 7)

cancel_order_posts_example :
    Requests 1 0
      (IsCancellation (pos 3) feed (Inbox.get 0 ring))
      (pos 9)
      (pos 7)
      feed
      ring
      (cancel_order_to_ring_buffer (pos 3) (pos 9) (pos 7) feed ring)
cancel_order_posts_example = cancel_order_posts ring feed (new-Valid 1) (pos 3) (pos 9) (pos 7)

modify_order_posts_example :
    Requests 1 0
      (IsReduction (pos 3) (pos 2) feed (Inbox.get 0 ring))
      (pos 9)
      (pos 7)
      feed
      ring
      (modify_order_to_ring_buffer (pos 3) (pos 2) (pos 9) (pos 7) feed ring)
modify_order_posts_example =
    modify_order_posts ring feed (new-Valid 1) (pos 3) (pos 2) (pos 9) (pos 7)
