-- ===== src/RingBuffer/Types.antt =====
-- The data of Core_Infra/ring_buffer.hpp.
use distributed_orderbook.Prelude.{ℕ, Bool, true, false, List, replicate}
use distributed_orderbook.Prelude.Int.{ℤ, pos}
use distributed_orderbook.Orderbook.Types.{Fill}

pub data Op : Type 0 where
  op_new : Op
  op_cancel : Op
  op_modify : Op

pub record InboundEvent : Type 0 where
  pub op : Op
  pub price : ℤ
  pub side : Bool
  pub volume : ℤ
  pub order_arrival_time : ℤ
  pub internal_order_id : ℤ
  pub gateway_id : ℤ
  pub silent : Bool
  pub is_ready : Bool

abbrev pub default_inbound : InboundEvent
default_inbound = record {
  op = op_new;
  price = pos 0;
  side = true;
  volume = pos 0;
  order_arrival_time = pos 0;
  internal_order_id = pos 0;
  gateway_id = pos 0;
  silent = false;
  is_ready = false;
}

-- `fills` is an array of 16.
pub record OutboundEvent : Type 0 where
  pub op : Op
  pub order_id : ℤ
  pub gateway_id : ℤ
  pub fulfilled : Bool
  pub remaining_qty : ℤ
  pub fills : List Fill
  pub fill_count : ℕ
  pub is_ready : Bool

abbrev pub default_outbound : OutboundEvent
default_outbound = record {
  op = op_new;
  order_id = pos 0;
  gateway_id = pos 0;
  fulfilled = false;
  remaining_qty = pos 0;
  fills = replicate 16 (record { price = pos 0; volume = pos 0; timestamp = pos 0 });
  fill_count = 0;
  is_ready = false;
}

pub record InboundRing : Type 0 where
  pub buffer : List InboundEvent
  pub size : ℕ
  pub mask : ℕ
  pub write_pointer : ℕ

pub record OutboundRing : Type 0 where
  pub buffer : List OutboundEvent
  pub size : ℕ
  pub mask : ℕ
