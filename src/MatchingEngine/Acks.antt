-- ===== src/MatchingEngine/Acks.antt =====
-- An acknowledgement from the engine to the gateway.
use mathlib.Core.Path.{subst}
use distributed_orderbook.Prelude.{
  ℕ, zero, suc, [], ◌∷◌, ◌+◌, ◌≤◌, min, ◌≡◌, refl, sym, ap, ◌∙◌, Bool, true, false, List, arith,
  length, take,
}
use distributed_orderbook.Orderbook.Types.{Fill}
use distributed_orderbook.RingBuffer.Types.{InboundEvent, OutboundEvent, OutboundRing}
use distributed_orderbook.RingBuffer.Outbox.{get, amend, publish, release}
use distributed_orderbook.RingBuffer.Slots.{Ring}
use distributed_orderbook.Gateway.{Gateway, Reading, read_from_ring_buffer, copy_fills}
use distributed_orderbook.Gateway.Reads.{
  length-copy_fills, take-copy_fills, get-amend, amended, reading_of, read-ready,
}
use distributed_orderbook.MatchingEngine.{Outcome, acknowledge}

-- The variables hold the outcome, with its first 16 fills.
pub record Holds (e : InboundEvent) (res : Outcome) (out : Reading) : Type 0 where
  pub op : out.op ≡ e.op
  pub order_id : out.order_id ≡ res.order_id
  pub fulfilled : out.fulfilled ≡ res.fulfilled
  pub remaining_qty : out.remaining_qty ≡ res.remaining_qty
  pub fill_count : out.fill_count ≡ min (length res.trades) 16
  pub fills : take out.fill_count out.fills ≡ take 16 res.trades

-- What a read gives the gateway
pub record Reads (e : InboundEvent) (res : Outcome) (g : Gateway)
    (read : Bool × Reading × Gateway × OutboundRing) : Type 0 where
  pub success : read.0 ≡ true
  pub holds : Holds e res read.1
  pub moved : read.2.outbound_read_p ≡ g.outbound_read_p + 1
  pub released : (get g.outbound_read_p read.3).is_ready ≡ false

take-min : (n : ℕ) (xs : List Fill) → take (min (length xs) n) xs ≡ take n xs
take-min zero xs = let none : min (length xs) zero ≡ zero = omega arith in ap (λ m. take m xs) none
take-min (suc n) [] = let none : min 0 (suc n) ≡ zero = omega arith in ap (λ m. take m []) none
take-min (suc n) (x ∷ xs) =
    let more : min (length (x ∷ xs)) (suc n) ≡ suc (min (length xs) n) = omega arith in
    ap (λ m. take m (x ∷ xs)) more ∙ ap (λ (t : List Fill). x ∷ t) (take-min n xs)

module _ {k : ℕ} (e : InboundEvent) (res : Outcome) (out : Reading) (g : Gateway)
    (ring : OutboundRing) (valid : Ring k ring.buffer ring.size ring.mask)
    (room : length (get g.outbound_read_p ring).fills ≡ 16) (enough : 16 ≤ length out.fills) where
  abbrev seq : ℕ
  seq = g.outbound_read_p

  abbrev filled : OutboundRing
  filled = amend seq (acknowledge e res) ring

  abbrev published : OutboundRing
  published = publish seq filled

  abbrev slot : OutboundEvent
  slot = record (acknowledge e res (get seq ring)) { is_ready = true }

  slot-published : get seq published ≡ slot
  slot-published =
      get-amend filled (amended ring valid seq (acknowledge e res)) seq
        (λ x. record x { is_ready = true })
      ∙ ap (λ (x : OutboundEvent). record x { is_ready = true })
          (get-amend ring valid seq (acknowledge e res))

  fills-slot :
      take slot.fill_count (copy_fills slot.fill_count slot.fills out.fills) ≡ take 16 res.trades
  fills-slot =
      take-copy_fills slot.fill_count slot.fills out.fills
        (omega (arith, length-copy_fills slot.fill_count res.trades (get seq ring).fills))
        (omega arith)
      ∙ take-copy_fills slot.fill_count res.trades (get seq ring).fills (omega arith) (omega arith)
      ∙ take-min 16 res.trades

  released : (get seq (release seq published)).is_ready ≡ false
  released =
      ap (λ (x : OutboundEvent). x.is_ready)
        (get-amend published
          (amended filled (amended ring valid seq (acknowledge e res)) seq
            (λ x. record x { is_ready = true }))
          seq (λ x. record x { is_ready = false }))

  -- What the engine acknowledges is what the gateway reads. If the engine has put the outcome of an event
  -- into the slot that the gateway reads next, the slot and the caller's array have room for 16 fills,
  -- then the read succeeds, gives the operation, the id, the flag, the remaining shares, the number of
  -- fills, at most 16, and the first 16 fills of the outcome, and releases the slot.
  pub acknowledge-Reads : Reads e res g (read_from_ring_buffer out g published)
  acknowledge-Reads =
      subst (Reads e res g)
        (sym (read-ready out g published (ap (λ (x : OutboundEvent). x.is_ready) slot-published)))
        (record {
          success = refl;
          holds =
              subst (λ x. Holds e res (reading_of x out)) (sym slot-published)
                (record {
                  op = refl;
                  order_id = refl;
                  fulfilled = refl;
                  remaining_qty = refl;
                  fill_count = refl;
                  fills = fills-slot;
                });
          moved = refl;
          released = released;
        })
