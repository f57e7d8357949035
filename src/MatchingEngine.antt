-- ===== src/MatchingEngine.antt =====
-- The matching engine of Core_Infra/matching_engine.hpp and Core_Infra/matching_engine.cpp. A round of
-- its loop takes the rings and gives them back.
pub mod Rounds
pub mod Failures
pub mod Pipeline
pub mod Acks
pub mod Overflow
pub mod Requests
pub mod Contract
pub mod Bounds
mod Examples
use distributed_orderbook.Prelude.{
  ℕ, zero, suc, ◌+◌, min, Bool, true, false, Option, none, some, List, [], if◌then◌else◌, length,
  get_elem?, set, replicate,
}
use distributed_orderbook.Prelude.Int.{ℤ, pos, negsuc}
use distributed_orderbook.Orderbook.Types.{Fill, OrderResult, Orderbook, empty_book}
use distributed_orderbook.Orderbook.Command.{Run, done, fault, out_of_fuel, Command, pure, ◌>>=◌}
use distributed_orderbook.Orderbook.Methods.{place_order}
use distributed_orderbook.Orderbook.Methods
use distributed_orderbook.RingBuffer.Types.{
  Op, op_new, op_cancel, op_modify, InboundEvent, OutboundEvent, InboundRing, OutboundRing,
}
use distributed_orderbook.RingBuffer.Inbox
use distributed_orderbook.RingBuffer.Outbox
use distributed_orderbook.Gateway.{copy_fills}

pub record MatchingEngine : Type 0 where
  pub orderbook : Orderbook
  pub read_p : ℕ
  pub write_p_outbound : List ℕ

-- The constructor, for a number of outbound rings
abbrev pub new_engine : ℕ → MatchingEngine
new_engine rings = record {
  orderbook = empty_book;
  read_p = 0;
  write_p_outbound = replicate rings 0;
}

-- What an acknowledgement says of an event
pub record Outcome : Type 0 where
  pub order_id : ℤ
  pub fulfilled : Bool
  pub remaining_qty : ℤ
  pub trades : List Fill

abbrev pub placed_outcome : OrderResult → Outcome
placed_outcome res = record {
  order_id = res.order_id;
  fulfilled = res.fulfilled;
  remaining_qty = res.remaining_qty;
  trades = res.trades;
}

abbrev pub changed_outcome : ℤ → Bool → Outcome
changed_outcome order_id ok = record {
  order_id = order_id;
  fulfilled = ok;
  remaining_qty = pos 0;
  trades = [];
}

-- The call of the order book that an event asks for
unfoldable pub handle : InboundEvent → Command Outcome
handle e = elim e.op [
  | op_new ↦ (do
    res ← place_order e.price e.volume e.side e.order_arrival_time e.internal_order_id e.gateway_id
    pure (placed_outcome res.0))
  | op_cancel ↦ (do
    ok ← Methods.cancel e.internal_order_id
    pure (changed_outcome e.internal_order_id ok))
  | op_modify ↦ (do
    ok ← Methods.modify e.internal_order_id e.volume
    pure (changed_outcome e.internal_order_id ok))
]

-- The assignments to the slot of an acknowledgement. `fills` has room for 16.
abbrev pub acknowledge : InboundEvent → Outcome → OutboundEvent → OutboundEvent
acknowledge event res out = record out {
  op = event.op;
  order_id = res.order_id;
  gateway_id = event.gateway_id;
  fulfilled = res.fulfilled;
  remaining_qty = res.remaining_qty;
  fill_count = min (length res.trades) 16;
  fills = copy_fills (min (length res.trades) 16) res.trades out.fills;
}

-- `v[i]` for a vector; out of range it is undefined.
unfoldable pub index {ℓ} : {A : Type ℓ} → List A → ℤ → Option (ℕ × A)
index xs (negsuc n) = none
index xs (pos n) = elim (get_elem? xs n) [ none ↦ none | some x ↦ some (n, x) ]

-- A round of the loop: no event is ready, or one is handled, or the behaviour is undefined.
pub data Round : Type 0 where
  idle : Round
  handled : MatchingEngine → InboundRing → List OutboundRing → Round
  failed : Round

abbrev pub finish : Run Outcome → (Outcome → Orderbook → Round) → Round
finish (done res b) k = k res b
finish fault k = failed
finish out_of_fuel k = failed

-- The round for a silent event, and for another
unfoldable pub silent_round :
    InboundEvent → MatchingEngine → InboundRing → List OutboundRing → Round
silent_round event m inbound outbounds = finish (handle event m.orderbook) λ _ b.
    handled (record m { orderbook = b; read_p = m.read_p + 1 }) (Inbox.release m.read_p inbound)
      outbounds

unfoldable pub loud_round : InboundEvent → MatchingEngine → InboundRing → List OutboundRing → Round
loud_round event m inbound outbounds = elim (index outbounds event.gateway_id) [
  | none ↦ failed
  | some (gid, outbound) ↦ elim (get_elem? m.write_p_outbound gid) [
    | none ↦ failed
    | some write_p ↦ finish (handle event m.orderbook) λ res b.
        handled
          (record m {
            orderbook = b;
            read_p = m.read_p + 1;
            write_p_outbound = set m.write_p_outbound gid (write_p + 1);
          })
          (Inbox.release m.read_p inbound)
          (set outbounds gid
            (Outbox.publish write_p (Outbox.amend write_p (acknowledge event res) outbound)))
  ]
]

unfoldable pub run : MatchingEngine → InboundRing → List OutboundRing → Round
run m inbound outbounds =
    let event = Inbox.get m.read_p inbound in
    if event.is_ready
    then (if event.silent
        then silent_round event m inbound outbounds
        else loud_round event m inbound outbounds)
    else idle
