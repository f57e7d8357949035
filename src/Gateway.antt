-- ===== src/Gateway.antt =====
-- The gateways of Core_Infra/gateway.hpp and Core_Infra/gateway.cpp. The ring buffers are shared: a
-- method takes the ring that it uses and gives it back.
pub mod Posts
pub mod Reads
pub mod Contents
pub mod Calls
pub mod Ids
mod Examples
use distributed_orderbook.Prelude.{
  ℕ, zero, suc, ◌+◌, Bool, true, false, ◌||◌, Option, none, some, List, [], ◌∷◌, if◌then◌else◌,
}
use distributed_orderbook.Prelude.Int.{ℤ, pos, ◌+ℤ◌, ltb_ℤ}
use distributed_orderbook.Orderbook.Types.{Fill}
use distributed_orderbook.RingBuffer.Types.{
  Op, op_new, op_cancel, op_modify, InboundEvent, InboundRing, OutboundRing,
}
use distributed_orderbook.RingBuffer.Inbox.{amend, claim, publish}
use distributed_orderbook.RingBuffer.Outbox

pub data GatewayMode : Type 0 where
  live : GatewayMode
  replay : GatewayMode

pub record Gateway : Type 0 where
  pub gateway_id : ℤ
  pub outbound_read_p : ℕ
  pub internal_id_counter : ℤ
  pub mode : GatewayMode
  pub silent : Bool

-- `m == GatewayMode::REPLAY`
abbrev pub is_replay : GatewayMode → Bool
is_replay live = false
is_replay replay = true

abbrev pub new_gateway : ℤ → GatewayMode → Option Bool → Gateway
new_gateway id mode silent_override = record {
  gateway_id = id;
  outbound_read_p = 0;
  internal_id_counter = pos 0;
  mode = mode;
  silent = elim silent_override [ some silent ↦ silent | none ↦ is_replay mode ];
}

-- What a call does: it returns, it spins in `claim` on a slot that is not released, or an `assert`
-- fails.
pub data Call (A : Type 0) : Type 0 where
  returned : A → Call A
  waits : Call A
  aborts : Call A

-- `claim`, the assignments to the slot, and `publish`
abbrev pub post :
    {A : Type 0} → (InboundEvent → InboundEvent) → InboundRing → A → Call (A × InboundRing)
post f ring a = elim (claim ring) [
  | none ↦ waits
  | some (write_pointer, ring') ↦ returned (a, publish write_pointer (amend write_pointer f ring'))
]

-- The fields that the three methods assign
abbrev pub fill_new : ℤ → ℤ → Bool → ℤ → ℤ → Gateway → InboundEvent → InboundEvent
fill_new price volume side order_id time g e = record e {
  op = op_new;
  internal_order_id = order_id;
  price = price;
  volume = volume;
  order_arrival_time = time;
  side = side;
  gateway_id = g.gateway_id;
  silent = g.silent;
}

abbrev pub fill_cancel : ℤ → ℤ → Gateway → InboundEvent → InboundEvent
fill_cancel order_id time g e = record e {
  op = op_cancel;
  internal_order_id = order_id;
  gateway_id = g.gateway_id;
  order_arrival_time = time;
  silent = g.silent;
}

abbrev pub fill_modify : ℤ → ℤ → ℤ → Gateway → InboundEvent → InboundEvent
fill_modify order_id new_size time g e = record e {
  op = op_modify;
  internal_order_id = order_id;
  volume = new_size;
  gateway_id = g.gateway_id;
  order_arrival_time = time;
  silent = g.silent;
}

abbrev pub is_negative : ℤ → Bool
is_negative v = ltb_ℤ v (pos 0)

-- `now` is what `getCurrentTime` gives. The result is the order's id.
unfoldable pub place_order_to_ring_buffer :
    ℤ → ℤ → Bool → ℤ → ℤ → ℤ → Gateway → InboundRing → Call ((ℤ × Gateway) × InboundRing)
place_order_to_ring_buffer price volume side external_id external_ts now g ring = elim g.mode [
  | live ↦
      post (fill_new price volume side g.internal_id_counter now g) ring
        (g.internal_id_counter, record g { internal_id_counter = g.internal_id_counter +ℤ pos 1 })
  | replay ↦
      if is_negative external_id || is_negative external_ts
      then aborts
      else post (fill_new price volume side external_id external_ts g) ring (external_id, g)
]

-- The time that `cancel` and `modify` stamp, unless an `assert` fails
abbrev pub stamp : ℤ → ℤ → Gateway → Option ℤ
stamp external_ts now g = elim g.mode [
  | live ↦ some now
  | replay ↦ if is_negative external_ts then none else some external_ts
]

unfoldable pub cancel_order_to_ring_buffer :
    ℤ → ℤ → ℤ → Gateway → InboundRing → Call (Unit {0} × InboundRing)
cancel_order_to_ring_buffer order_id external_ts now g ring = elim (stamp external_ts now g) [
  | none ↦ aborts
  | some time ↦ post (fill_cancel order_id time g) ring tt
]

unfoldable pub modify_order_to_ring_buffer :
    ℤ → ℤ → ℤ → ℤ → Gateway → InboundRing → Call (Unit {0} × InboundRing)
modify_order_to_ring_buffer order_id new_size external_ts now g ring =
    elim (stamp external_ts now g) [
      | none ↦ aborts
      | some time ↦ post (fill_modify order_id new_size time g) ring tt
    ]

-- `for (i = 0; i < n; i++) to[i] = from[i];`
abbrev pub copy_fills : ℕ → List Fill → List Fill → List Fill
copy_fills zero from to = to
copy_fills (suc n) [] to = to
copy_fills (suc n) (f ∷ from) [] = []
copy_fills (suc n) (f ∷ from) (_ ∷ to) = f ∷ copy_fills n from to

-- The variables of the caller that `read_from_ring_buffer` assigns. `op` is the target of `out_op`; a
-- caller that passes none does not look at it.
pub record Reading : Type 0 where
  pub fills : List Fill
  pub fill_count : ℕ
  pub order_id : ℤ
  pub fulfilled : Bool
  pub remaining_qty : ℤ
  pub op : Op

unfoldable pub read_from_ring_buffer :
    Reading → Gateway → OutboundRing → Bool × Reading × Gateway × OutboundRing
read_from_ring_buffer out g ring =
    let order = Outbox.get g.outbound_read_p ring in
    if order.is_ready
    then (
      true,
      record {
        fills = copy_fills order.fill_count order.fills out.fills;
        fill_count = order.fill_count;
        order_id = order.order_id;
        fulfilled = order.fulfilled;
        remaining_qty = order.remaining_qty;
        op = order.op;
      },
      record g { outbound_read_p = g.outbound_read_p + 1 },
      Outbox.release g.outbound_read_p ring,
    )
    else (false, out, g, ring)
