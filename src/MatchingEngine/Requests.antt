-- ===== src/MatchingEngine/Requests.antt =====
-- What an event asks of the order book, without the fields that its operation does not read.
use distributed_orderbook.Prelude.{◌≡◌, refl, Bool, List}
use distributed_orderbook.Prelude.Int.{ℤ}
use distributed_orderbook.Orderbook.Command.{Command, pure, ◌>>=◌}
use distributed_orderbook.Orderbook.Methods.{place_order}
use distributed_orderbook.Orderbook.Methods
use distributed_orderbook.Orderbook.Command.Sequence.{run_all}
use distributed_orderbook.RingBuffer.Types.{Op, op_new, op_cancel, op_modify, InboundEvent}
use distributed_orderbook.MatchingEngine.{Outcome, placed_outcome, changed_outcome, handle}

pub data Request : Type 0 where
  new_order : (price volume : ℤ) (side : Bool) (time order_id gateway_id : ℤ) → Request
  cancel_order : (order_id : ℤ) → Request
  modify_order : (order_id new_size : ℤ) → Request

abbrev pub request : InboundEvent → Request
request e = elim e.op [
  | op_new ↦ new_order e.price e.volume e.side e.order_arrival_time e.internal_order_id e.gateway_id
  | op_cancel ↦ cancel_order e.internal_order_id
  | op_modify ↦ modify_order e.internal_order_id e.volume
]

-- The call of the order book for a request
unfoldable pub serve : Request → Command Outcome
serve (new_order price volume side time order_id gateway_id) = do
  res ← place_order price volume side time order_id gateway_id
  pure (placed_outcome res.0)
serve (cancel_order order_id) = do ok ← Methods.cancel order_id; pure (changed_outcome order_id ok)
serve (modify_order order_id new_size) = do
  ok ← Methods.modify order_id new_size
  pure (changed_outcome order_id ok)

-- The order book after a list of requests, one after the other
abbrev pub serve_all : List Request → Command (Unit {0})
serve_all = run_all serve

-- An event is handled as its request.
pub handle-serve : (e : InboundEvent) → handle e ≡ serve (request e)
unfolding handle serve
handle-serve e = go e.op refl
  where
    go : (op : Op) → e.op ≡ op → handle e ≡ serve (request e)
    go op_new h = rw h refl
    go op_cancel h = rw h refl
    go op_modify h = rw h refl
