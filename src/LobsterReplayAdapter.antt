-- ===== src/LobsterReplayAdapter.antt =====
-- The dispatch of parsed rows in Core_Infra/lobster_replay_adapter.hpp and
-- Core_Infra/lobster_replay_adapter.cpp.
pub mod Rows
pub mod Strto
pub mod Parser
pub mod Decimals
pub mod Grammar
pub mod RoundTrip
pub mod Malformed
pub mod Stream
pub mod Asks
mod Examples
use distributed_orderbook.Prelude.{
  ℕ, ◌+◌, ◌==◌, Bool, true, false, none, some, List, [], ◌∷◌, if◌then◌else◌,
}
use distributed_orderbook.Prelude.Int.{ℤ, pos, negsuc, ◌-ℤ◌, leb_ℤ, eqb_ℤ}
use distributed_orderbook.Prelude.Maps.{find, assign, erase}
use distributed_orderbook.RingBuffer.Types.{InboundRing}
use distributed_orderbook.Gateway.{
  Gateway, Call, returned, waits, aborts, place_order_to_ring_buffer, cancel_order_to_ring_buffer,
  modify_order_to_ring_buffer,
}

-- `time_ns` is `static_cast<int64_t>(time_seconds * 1e9)`.
pub record Row : Type 0 where
  pub time_ns : ℤ
  pub type : ℤ
  pub order_id : ℤ
  pub size : ℤ
  pub price : ℤ
  pub direction : ℤ

pub record LobsterReplayAdapter : Type 0 where
  pub gateway : Gateway
  pub live_sizes : List (ℤ × ℤ)
  pub rows_processed : ℕ
  pub rows_skipped : ℕ
  pub rows_failed : ℕ

-- The constructor
abbrev pub new_adapter : Gateway → LobsterReplayAdapter
new_adapter gateway = record {
  gateway = gateway;
  live_sizes = [];
  rows_processed = 0;
  rows_skipped = 0;
  rows_failed = 0;
}

-- A call of the gateway, and what follows it if it returns
abbrev pub then_call : {A B : Type 0} → Call A → (A → B) → Call B
then_call (returned a) k = returned (k a)
then_call waits k = waits
then_call aborts k = aborts

abbrev pub processed : List (ℤ × ℤ) → LobsterReplayAdapter → LobsterReplayAdapter
processed live_sizes a = record a { live_sizes = live_sizes; rows_processed = a.rows_processed + 1 }

abbrev pub skipped : LobsterReplayAdapter → LobsterReplayAdapter
skipped a = record a { rows_skipped = a.rows_skipped + 1 }

abbrev pub failed : LobsterReplayAdapter → LobsterReplayAdapter
failed a = record a { rows_failed = a.rows_failed + 1 }

-- Submission of a new limit order: `row.direction == -1` is a sell.
unfoldable pub dispatch_new :
    Row → ℤ → LobsterReplayAdapter → InboundRing → Call (LobsterReplayAdapter × InboundRing)
dispatch_new row now a ring =
    then_call
      (place_order_to_ring_buffer row.price row.size (eqb_ℤ row.direction (negsuc 0)) row.order_id
        row.time_ns now a.gateway ring)
      λ r.
        (record (processed (assign row.order_id row.size a.live_sizes) a) { gateway = r.0.1 }, r.1)

-- Partial cancellation: `size` is what is removed.
unfoldable pub dispatch_reduce :
    Row → ℤ → LobsterReplayAdapter → InboundRing → Call (LobsterReplayAdapter × InboundRing)
dispatch_reduce row now a ring = elim (find row.order_id a.live_sizes) [
  | none ↦ returned (failed a, ring)
  | some size ↦
      if leb_ℤ (size -ℤ row.size) (pos 0)
      then returned (failed a, ring)
      else then_call
          (modify_order_to_ring_buffer row.order_id (size -ℤ row.size) row.time_ns now a.gateway
            ring)
          λ r. (processed (assign row.order_id (size -ℤ row.size) a.live_sizes) a, r.1)
]

-- Full deletion
unfoldable pub dispatch_delete :
    Row → ℤ → LobsterReplayAdapter → InboundRing → Call (LobsterReplayAdapter × InboundRing)
dispatch_delete row now a ring =
    then_call (cancel_order_to_ring_buffer row.order_id row.time_ns now a.gateway ring)
      λ r. (processed (erase row.order_id a.live_sizes) a, r.1)

-- The cases of the switch
unfoldable pub dispatch :
    Row → ℤ → LobsterReplayAdapter → InboundRing → Call (LobsterReplayAdapter × InboundRing)
dispatch row now a ring =
    if eqb_ℤ row.type (pos 1)
    then dispatch_new row now a ring
    else if eqb_ℤ row.type (pos 2)
    then dispatch_reduce row now a ring
    else if eqb_ℤ row.type (pos 3)
    then dispatch_delete row now a ring
    else if leb_ℤ (pos 4) row.type
    then (if leb_ℤ row.type (pos 7) then returned (skipped a, ring) else returned (failed a, ring))
    else returned (failed a, ring)
