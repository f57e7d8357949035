-- ===== src/Gateway/Calls.antt =====
-- A call of a gateway that returns, whichever its method.
use mathlib.Core.Path.{subst}
use distributed_orderbook.Prelude.{ℕ, ◌≡◌, refl, sym, ap, ◌∙◌, Bool, [], ◌∷◌, ◌++◌}
use distributed_orderbook.Prelude.Int.{ℤ}
use distributed_orderbook.RingBuffer.Types.{InboundEvent, InboundRing}
use distributed_orderbook.RingBuffer.Inbox
use distributed_orderbook.RingBuffer.Inbound.{Valid, pending}
use distributed_orderbook.Gateway.{
  Gateway, Call, returned, place_order_to_ring_buffer, cancel_order_to_ring_buffer,
  modify_order_to_ring_buffer,
}
use distributed_orderbook.Gateway.Posts.{
  Posted, joined, full, Placed, minted, given, Stamped, stamped, placing-Placed, cancelling-Stamped,
  modifying-Stamped,
}

pub data Calls (g : Gateway) (ring : InboundRing) : Gateway → InboundRing → Type 0 where
  place :
      (price volume : ℤ) (side : Bool) (external_id external_ts now order_id : ℤ) (g' : Gateway)
      (ring' : InboundRing)
      → place_order_to_ring_buffer price volume side external_id external_ts now g ring
        ≡ returned ((order_id, g'), ring')
      → Calls g ring g' ring'
  cancel :
      (order_id external_ts now : ℤ) (ring' : InboundRing)
      → cancel_order_to_ring_buffer order_id external_ts now g ring ≡ returned (tt, ring')
      → Calls g ring g ring'
  modify :
      (order_id new_size external_ts now : ℤ) (ring' : InboundRing)
      → modify_order_to_ring_buffer order_id new_size external_ts now g ring ≡ returned (tt, ring')
      → Calls g ring g ring'

-- A call puts one event behind the waiting ones, which names the gateway.
pub record Joins (k read : ℕ) (g : Gateway) (ring : InboundRing) (g' : Gateway)
    (ring' : InboundRing) : Type 0 where
  pub valid : Valid k read ring'
  pub waiting : pending read ring' ≡ pending read ring ++ Inbox.get ring.write_pointer ring' ∷ []
  pub sender : (Inbox.get ring.write_pointer ring').gateway_id ≡ g.gateway_id
  pub same_gateway : g'.gateway_id ≡ g.gateway_id

result_of : {A : Type 0} → A × InboundRing → Call (A × InboundRing) → A × InboundRing
result_of d (returned r) = r
result_of d _ = d

waits-returned : {A : Type 0} {x : A} → Call.waits ≡ returned x → ⊥
waits-returned e = cc

aborts-returned : {A : Type 0} {x : A} → Call.aborts ≡ returned x → ⊥
aborts-returned e = cc

module _ {k read : ℕ} {g : Gateway} {ring : InboundRing} where
  -- `keep` is the gateway in the result of the method.
  Posted-Joins :
      {A : Type 0} (keep : A → Gateway) (f : InboundEvent → InboundEvent) (a a' : A)
      (c : Call (A × InboundRing)) (ring' : InboundRing)
      → ((e : InboundEvent) → (f e).gateway_id ≡ g.gateway_id)
      → (keep a).gateway_id ≡ g.gateway_id
      → Posted k read f ring a c
      → c ≡ returned (a', ring')
      → Joins k read g ring (keep a') ring'
  unfolding result_of
  Posted-Joins {A} keep f a a' c ring' sends keeps (joined r _ v w is) e =
      subst (λ (x : A × InboundRing). Joins k read g ring (keep x.0) x.1)
        (ap (result_of (a, ring)) e)
        (record {
          valid = v;
          waiting = w ∙ ap (λ x. pending read ring ++ x ∷ []) (sym is);
          sender =
              ap (λ (x : InboundEvent). x.gateway_id) is
              ∙ sends (Inbox.get ring.write_pointer ring);
          same_gateway = keeps;
        })
  Posted-Joins keep f a a' c ring' sends keeps (full _) e = absurd (waits-returned e)

  Placed-Joins :
      {price volume : ℤ} {side : Bool} {external_id external_ts now : ℤ} (x : ℤ × Gateway)
      (c : Call ((ℤ × Gateway) × InboundRing)) (ring' : InboundRing)
      → Placed k read price volume side external_id external_ts now g ring c
      → c ≡ returned (x, ring')
      → Joins k read g ring x.1 ring'
  Placed-Joins x c ring' (minted _ p) e =
      Posted-Joins (λ (y : ℤ × Gateway). y.1) _ _ x _ ring' (λ _. refl) refl p e
  Placed-Joins x c ring' (given _ _ p) e =
      Posted-Joins (λ (y : ℤ × Gateway). y.1) _ _ x _ ring' (λ _. refl) refl p e
  Placed-Joins x c ring' (Placed.refused _ _) e = absurd (aborts-returned e)

  Stamped-Joins :
      {fill : ℤ → InboundEvent → InboundEvent} {external_ts now : ℤ}
      (c : Call (Unit {0} × InboundRing)) (ring' : InboundRing)
      → ((time : ℤ) (e : InboundEvent) → (fill time e).gateway_id ≡ g.gateway_id)
      → Stamped k read fill external_ts now g ring c
      → c ≡ returned (tt, ring')
      → Joins k read g ring g ring'
  Stamped-Joins c ring' sends (stamped time _ p) e =
      Posted-Joins (λ _. g) _ _ tt _ ring' (sends time) refl p e
  Stamped-Joins c ring' sends (Stamped.refused _ _) e = absurd (aborts-returned e)

  pub Calls-Joins :
      (g' : Gateway) (ring' : InboundRing)
      → Valid k read ring
      → Calls g ring g' ring'
      → Joins k read g ring g' ring'
  Calls-Joins _ _ v (place price volume side id ts now order_id g' ring' e) =
      Placed-Joins (order_id, g') _ ring' (placing-Placed ring v g price volume side id ts now) e
  Calls-Joins _ _ v (cancel order_id ts now ring' e) =
      Stamped-Joins _ ring' (λ _ _. refl) (cancelling-Stamped ring v g ts now order_id) e
  Calls-Joins _ _ v (modify order_id new_size ts now ring' e) =
      Stamped-Joins _ ring' (λ _ _. refl) (modifying-Stamped ring v g ts now order_id new_size) e
