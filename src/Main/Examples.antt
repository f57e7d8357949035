-- ===== src/Main/Examples.antt =====
-- The first call of main.cpp: gateway 0 places an order to sell.
use distributed_orderbook.Prelude.{◌≢◌, refl, true}
use distributed_orderbook.Prelude.Int.{pos, ◌+ℤ◌}
use distributed_orderbook.RingBuffer.Inbox.{claim}
use distributed_orderbook.Gateway.{place_order_to_ring_buffer}
use distributed_orderbook.Gateway.Calls
use distributed_orderbook.MatchingEngine.{failed, run}
use distributed_orderbook.Main.{System, set_up, Step, called, at_start, then_step}
use distributed_orderbook.Main.Runs.{Reaches-run}

abbrev after_call : (s : System) × Step set_up s
unfolding place_order_to_ring_buffer claim ◌+ℤ◌
after_call = (
  _,
  called 0 _ _ _ refl
      (Calls.Calls.place (pos 100) (pos 10) true (pos 0) (pos 0) (pos 7) _ _ _ refl),
)

Reaches-run_example : run after_call.0.engine after_call.0.inbound after_call.0.outbounds ≢ failed
Reaches-run_example = Reaches-run after_call.0 (then_step after_call.0 at_start after_call.1)
