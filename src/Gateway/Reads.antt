-- ===== src/Gateway/Reads.antt =====
-- What `read_from_ring_buffer` gets from the outbound ring.
use distributed_orderbook.Prelude.{
  ℕ, zero, suc, ◌+◌, ◌≤◌, bit_and, ◌≡◌, refl, ap, ◌∙◌, true, false, List, [], ◌∷◌, arith, length,
  take, length-set,
}
use distributed_orderbook.Orderbook.Types.{Fill}
use distributed_orderbook.RingBuffer.Types.{OutboundEvent, OutboundRing, default_outbound}
use distributed_orderbook.RingBuffer.Outbox.{get, amend, release}
use distributed_orderbook.RingBuffer.Slots.{Ring, get-set_self}
use distributed_orderbook.Gateway.{Gateway, Reading, copy_fills, read_from_ring_buffer}

pub length-copy_fills : (n : ℕ) (from to : List Fill) → length (copy_fills n from to) ≡ length to
length-copy_fills zero from to = refl
length-copy_fills (suc n) [] to = refl
length-copy_fills (suc n) (f ∷ from) [] = refl
length-copy_fills (suc n) (f ∷ from) (g ∷ to) = ap suc (length-copy_fills n from to)

-- The first `n` places are copied.
pub take-copy_fills :
    (n : ℕ) (from to : List Fill)
    → n ≤ length from
    → n ≤ length to
    → take n (copy_fills n from to) ≡ take n from
take-copy_fills zero from to h h' = refl
take-copy_fills (suc n) [] to h h' = absurd (omega arith)
take-copy_fills (suc n) (f ∷ from) [] h h' = absurd (omega arith)
take-copy_fills (suc n) (f ∷ from) (g ∷ to) h h' =
    ap (λ (t : List Fill). f ∷ t) (take-copy_fills n from to (omega arith) (omega arith))

module _ {k : ℕ} (ring : OutboundRing) (valid : Ring k ring.buffer ring.size ring.mask) (seq : ℕ)
    (f : OutboundEvent → OutboundEvent) where
  pub get-amend : get seq (amend seq f ring) ≡ f (get seq ring)
  get-amend = get-set_self valid seq (f (get seq ring)) default_outbound

  pub amended : Ring k (amend seq f ring).buffer ring.size ring.mask
  amended = record {
    power = valid.power;
    masks = valid.masks;
    filled = length-set ring.buffer (bit_and seq ring.mask) (f (get seq ring)) ∙ valid.filled;
  }

-- What the caller's variables get from a slot
abbrev pub reading_of : OutboundEvent → Reading → Reading
reading_of order out = record {
  fills = copy_fills order.fill_count order.fills out.fills;
  fill_count = order.fill_count;
  order_id = order.order_id;
  fulfilled = order.fulfilled;
  remaining_qty = order.remaining_qty;
  op = order.op;
}

module _ (out : Reading) (g : Gateway) (ring : OutboundRing) where
  pub read-ready :
      (get g.outbound_read_p ring).is_ready ≡ true
      → read_from_ring_buffer out g ring ≡ (
        true,
        reading_of (get g.outbound_read_p ring) out,
        record g { outbound_read_p = g.outbound_read_p + 1 },
        release g.outbound_read_p ring,
      )
  unfolding read_from_ring_buffer
  read-ready ready = rw ready refl

  pub read-unready :
      (get g.outbound_read_p ring).is_ready ≡ false
      → read_from_ring_buffer out g ring ≡ (false, out, g, ring)
  unfolding read_from_ring_buffer
  read-unready unready = rw unready refl
