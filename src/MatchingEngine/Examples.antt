-- ===== src/MatchingEngine/Examples.antt =====
-- The theorems on the rings and the engine at rings of two slots.
use distributed_orderbook.Prelude.{
  ◌+◌, ◌<◌, ◌≡◌, ◌↔◌, refl, true, false, none, some, List, [], ◌∷◌, arith, replicate,
}
use distributed_orderbook.Prelude.Int.{pos, ◌+ℤ◌, ◌-ℤ◌}
use distributed_orderbook.Orderbook.Types.{Fill, Limit, Orderbook, empty_book, write}
use distributed_orderbook.Orderbook.Reachable.{empty-Rep}
use distributed_orderbook.RingBuffer.Types.{op_new, InboundEvent, InboundRing, OutboundRing}
use distributed_orderbook.RingBuffer.Inbox
use distributed_orderbook.RingBuffer.Outbox
use distributed_orderbook.RingBuffer.Slots.{Ring}
use distributed_orderbook.RingBuffer.Inbound.{
  Valid, new-Valid, sent, sent-Valid, pending-sent, message,
}
use distributed_orderbook.Gateway.{
  Gateway, live, new_gateway, Reading, fill_new, place_order_to_ring_buffer, read_from_ring_buffer,
}
use distributed_orderbook.Gateway.Calls.{Calls}
use distributed_orderbook.MatchingEngine.{
  MatchingEngine, new_engine, Outcome, index, acknowledge, failed, run,
}
use distributed_orderbook.MatchingEngine.Rounds.{Addressed, at_ring, Handles, run-Handles}
use distributed_orderbook.MatchingEngine.Failures.{run-failed_iff}
use distributed_orderbook.MatchingEngine.Pipeline.{started, called, Consistent, Reached-Consistent}
use distributed_orderbook.MatchingEngine.Requests.{
  Request, new_order, cancel_order, modify_order, serve,
}
use distributed_orderbook.MatchingEngine.Contract.{Answers, serve_each, serve_each-Answers}
use distributed_orderbook.Orderbook.Rep.{Queues, Rep}
use distributed_orderbook.Orderbook.Match.Refine.{book_of}
use distributed_orderbook.Orderbook.Command.{
  Run, done, load_order, load_limit, update_order, update_limit, alloc_order, alloc_limit,
}
use distributed_orderbook.Orderbook.Methods.{
  place_order, match, rest_order, open_level, take_levels,
}
use distributed_orderbook.Prelude.Maps.{find, assign, erase, insert}
use distributed_orderbook.MatchingEngine.Bounds.{IsBounded, serve_each-IsBounded}
use distributed_orderbook.RingBuffer.Outbound.{new-Unread}
use distributed_orderbook.RingBuffer.Outbound as Acknowledgements
use distributed_orderbook.MatchingEngine.Acks.{Reads, acknowledge-Reads}

abbrev ring : InboundRing
ring = Inbox.new 2

ring-Valid : Valid 1 0 ring
ring-Valid = new-Valid 1

abbrev gateway : Gateway
gateway = new_gateway (pos 0) live none

abbrev order : InboundEvent → InboundEvent
order = fill_new (pos 100) (pos 5) true (pos 0) (pos 7) gateway

room : ring.write_pointer < 0 + ring.size
room = omega arith

abbrev ring' : InboundRing
ring' = sent ring ring-Valid order

abbrev event : InboundEvent
event = message ring ring-Valid order

abbrev outbounds : List OutboundRing
outbounds = Outbox.new 2 ∷ []

to_gateway : Addressed event (new_engine 1) outbounds
unfolding index
to_gateway = at_ring 0 (Outbox.new 2) 0 refl refl refl

run-Handles_example :
    Handles 1 event [] (new_engine 1) outbounds to_gateway (run (new_engine 1) ring' outbounds)
run-Handles_example =
    run-Handles (new_engine 1) ring' outbounds (sent-Valid ring ring-Valid order room)
      (λ _ _. [], empty-Rep, tt) event [] (pending-sent ring ring-Valid order room) to_gateway

one_call : Calls gateway ring (record gateway { internal_id_counter = pos 1 }) ring'
unfolding place_order_to_ring_buffer Inbox.claim ◌+ℤ◌
one_call = Calls.place (pos 100) (pos 5) true (pos 0) (pos 0) (pos 7) (pos 0) _ ring' refl

Reached-Consistent_example : Consistent 1 (new_engine 1) ring' (Inbox.get 0 ring' ∷ [])
Reached-Consistent_example =
    Reached-Consistent {rings = 1} (new_engine 1) ring' outbounds (Inbox.get 0 ring' ∷ [])
      (called _ _ ring' (started outbounds) one_call)

abbrev outcome : Outcome
outcome = record {
  order_id = pos 0;
  fulfilled = true;
  remaining_qty = pos 0;
  trades = record { price = pos 100; volume = pos 5; timestamp = pos 7 } ∷ [];
}

abbrev no_fill : Fill
no_fill = record { price = pos 0; volume = pos 0; timestamp = pos 0 }

abbrev reading : Reading
reading = record {
  fills = replicate 16 no_fill;
  fill_count = 0;
  order_id = pos 0;
  fulfilled = false;
  remaining_qty = pos 0;
  op = op_new;
}

outbound-Ring : Ring 1 (Outbox.new 2).buffer 2 1
outbound-Ring = record { power = refl; masks = refl; filled = refl }

acknowledge-Reads_example : Reads event outcome gateway (
    read_from_ring_buffer reading gateway
      (Outbox.publish 0 (Outbox.amend 0 (acknowledge event outcome) (Outbox.new 2))))
acknowledge-Reads_example =
    acknowledge-Reads event outcome reading gateway (Outbox.new 2) outbound-Ring refl (omega arith)

-- A ring of one slot, with an acknowledgement that the gateway has not read
abbrev full_ring : OutboundRing
full_ring = Acknowledgements.sent {k = 0} (Outbox.new 1) (new-Unread 0) (acknowledge event outcome)

abbrev busy : MatchingEngine
busy = record (new_engine 1) { write_p_outbound = 1 ∷ [] }

abbrev full_rings : List OutboundRing
full_rings = full_ring ∷ []

-- A sell order of 5 shares at 100 rests, a buy order of 8 takes it, the rest is reduced and cancelled.
abbrev requests : List Request
requests =
    new_order (pos 100) (pos 5) true (pos 7) (pos 1) (pos 0)
    ∷ new_order (pos 100) (pos 8) false (pos 8) (pos 2) (pos 1)
    ∷ modify_order (pos 2) (pos 1)
    ∷ cancel_order (pos 2)
    ∷ []

serve_each-Answers_example :
    (outcomes : List Outcome) × (b' : Orderbook) × (queues' : Queues) × (serve_each requests
        empty_book
      ≡ done outcomes b')
    × Rep b' queues'
    × Answers requests (book_of empty_book (λ _ _. [])) outcomes (book_of b' queues')
serve_each-Answers_example = serve_each-Answers requests empty_book (λ _ _. []) empty-Rep

-- The gateway 3 has no ring.
abbrev stray : InboundEvent → InboundEvent
stray e = record e { gateway_id = pos 3; silent = false }

run-failed_iff_example :
    (run (new_engine 1) (sent ring ring-Valid stray) outbounds ≡ failed)
    ↔ (Addressed (message ring ring-Valid stray) (new_engine 1) outbounds → ⊥)
run-failed_iff_example =
    run-failed_iff (new_engine 1) (sent ring ring-Valid stray) outbounds
      (sent-Valid ring ring-Valid stray room) (λ _ _. [], empty-Rep, tt)
      (message ring ring-Valid stray) [] (pending-sent ring ring-Valid stray room)

-- Order 1 rests alone.
abbrev one_request : List Request
one_request = new_order (pos 100) (pos 5) true (pos 7) (pos 1) (pos 0) ∷ []

book_after : Run (List Outcome) → Orderbook
book_after (done _ b) = b
book_after _ = empty_book

abbrev rested : Orderbook
unfolding book_after serve_each serve place_order match rest_order open_level take_levels load_order
    load_limit update_order update_limit alloc_order alloc_limit find assign erase insert write ◌+ℤ◌
    ◌-ℤ◌
rested = book_after (serve_each one_request empty_book)

serve_each-IsBounded_example : (h : Limit) × (rested.limits 2 ≡ some h) × IsBounded 5 1 h
unfolding serve_each serve place_order match rest_order open_level take_levels load_order load_limit
    update_order update_limit alloc_order alloc_limit find assign erase insert write ◌+ℤ◌ ◌-ℤ◌
    rested
serve_each-IsBounded_example =
    serve_each-IsBounded 5 one_request (omega arith, tt) _ rested refl true (pos 100) 2 refl
