-- ===== src/Gateway/Ids.antt =====
-- The ids that a live gateway gives to its orders.
use mathlib.Core.Path.{subst}
use mathlib.Core.Option.{some-injective}
use distributed_orderbook.Prelude.{
  ℕ, zero, suc, ◌+◌, ◌≡◌, refl, sym, ap, ◌∙◌, Bool, Option, some, List, [], ◌∷◌, get_elem?,
  Option-cases, inl, inr, Bool-cases, arith,
}
use distributed_orderbook.Prelude.Int.{ℤ, pos, ◌+ℤ◌}
use distributed_orderbook.RingBuffer.Types.{InboundEvent, InboundRing, OutboundRing}
use distributed_orderbook.RingBuffer.Inbox.{claim}
use distributed_orderbook.RingBuffer.Outbox
use distributed_orderbook.Gateway.{
  Gateway, live, Call, returned, post, fill_new, new_gateway, place_order_to_ring_buffer, Reading,
  read_from_ring_buffer,
}

-- Calls of one gateway, and the ids that its `place_order_to_ring_buffer` gives out. Before each call
-- the ring can be any ring, since other threads use it too. `cancel` and `modify` leave the gateway as
-- it is.
pub data Session : Gateway → List ℤ → Gateway → Type 0 where
  over : {g : Gateway} → Session g [] g
  placed :
      {g g₁ g' : Gateway} {ids : List ℤ} (price volume : ℤ) (side : Bool)
      (external_id external_ts now order_id : ℤ) (ring ring' : InboundRing)
      → place_order_to_ring_buffer price volume side external_id external_ts now g ring
        ≡ returned ((order_id, g₁), ring')
      → Session g₁ ids g'
      → Session g (order_id ∷ ids) g'
  looked :
      {g g' : Gateway} {ids : List ℤ} (out : Reading) (ring : OutboundRing)
      → Session (read_from_ring_buffer out g ring).2 ids g'
      → Session g ids g'

-- The part of a gateway that the ids depend on
abbrev Counts : ℕ → Gateway → Type 0
Counts n g = (g.mode ≡ live) × (g.internal_id_counter ≡ pos n)

value_of : {A : Type 0} → A → Call (A × InboundRing) → A
value_of d (returned r) = r.0
value_of d _ = d

value_of-post :
    {A : Type 0} (f : InboundEvent → InboundEvent) (ring : InboundRing) (a : A)
    → value_of a (post f ring a) ≡ a
unfolding value_of
value_of-post f ring a = elim (Option-cases (claim ring)) [
  | inl full ↦ rw (post, full) refl
  | inr (r, is) ↦ rw (post, is) refl
]

post-returned :
    {A : Type 0} (f : InboundEvent → InboundEvent) (ring : InboundRing) (a b : A)
    (ring' : InboundRing)
    → post f ring a ≡ returned (b, ring')
    → a ≡ b
unfolding value_of
post-returned f ring a b ring' e = sym (value_of-post f ring a) ∙ ap (value_of a) e

next_counter : (n : ℕ) → pos n +ℤ pos 1 ≡ pos (n + 1)
unfolding ◌+ℤ◌
next_counter n = ground arith

placed-post :
    (price volume : ℤ) (side : Bool) (external_id external_ts now : ℤ) (g : Gateway)
    (ring : InboundRing)
    → g.mode ≡ live
    → place_order_to_ring_buffer price volume side external_id external_ts now g ring
      ≡ post
          (fill_new price volume side g.internal_id_counter now g)
          ring
          (g.internal_id_counter, record g { internal_id_counter = g.internal_id_counter +ℤ pos 1 })
unfolding place_order_to_ring_buffer
placed-post price volume side external_id external_ts now g ring m = rw m refl

placed-Counts :
    (price volume : ℤ) (side : Bool) (external_id external_ts now : ℤ) (g : Gateway)
    (ring : InboundRing) {order_id : ℤ} {g' : Gateway} {ring' : InboundRing} (n : ℕ)
    → Counts n g
    → place_order_to_ring_buffer price volume side external_id external_ts now g ring
      ≡ returned ((order_id, g'), ring')
    → (order_id ≡ pos n) × Counts (n + 1) g'
placed-Counts price volume side id ts now g ring {ring' = ring'} n (m, at_n) e =
    let r =
      post-returned (fill_new price volume side g.internal_id_counter now g) ring _ _ ring'
        (sym (placed-post price volume side id ts now g ring m) ∙ e) in
    (
      sym (ap (λ (x : ℤ × Gateway). x.0) r) ∙ at_n,
      subst (Counts (n + 1)) (ap (λ (x : ℤ × Gateway). x.1) r)
          (m, ap (λ c. c +ℤ pos 1) at_n ∙ next_counter n),
    )

read-Counts :
    (n : ℕ) (out : Reading) (g : Gateway) (ring : OutboundRing)
    → Counts n g
    → Counts n (read_from_ring_buffer out g ring).2
unfolding read_from_ring_buffer
read-Counts n out g ring c = elim (Bool-cases (Outbox.get g.outbound_read_p ring).is_ready) [
  | inl ready ↦ rw (read_from_ring_buffer, ready) c
  | inr empty ↦ rw (read_from_ring_buffer, empty) c
]

Session-Counts :
    {g g' : Gateway} {ids : List ℤ} (n : ℕ)
    → Session g ids g'
    → Counts n g
    → (i : ℕ) (x : ℤ) → get_elem? ids i ≡ some x
    → x ≡ pos (n + i)
Session-Counts n over c i x at = cc
Session-Counts n (placed price volume side id ts now order_id ring ring' e rest) c zero x at =
    sym (some-injective _ x at)
    ∙ (placed-Counts price volume side id ts now _ ring n c e).0
    ∙ ap pos (omega arith)
Session-Counts n (placed price volume side id ts now order_id ring ring' e rest) c (suc i) x at =
    Session-Counts (n + 1) rest (placed-Counts price volume side id ts now _ ring n c e).1 i x at
    ∙ ap pos (omega arith)
Session-Counts n (looked out ring rest) c i x at =
    Session-Counts n rest (read-Counts n out _ ring c) i x at

-- In a session of a new live gateway, whatever other threads do to the rings between its calls, the
-- order that it places as number `i`, counted from 0, gets the id `i`. So no two of its orders have the
-- same id.
pub Session-ids :
    {g' : Gateway} {ids : List ℤ} (gateway_id : ℤ) (silent_override : Option Bool)
    → Session (new_gateway gateway_id live silent_override) ids g'
    → (i : ℕ) (x : ℤ) → get_elem? ids i ≡ some x
    → x ≡ pos i
Session-ids gateway_id silent_override session i x at =
    Session-Counts 0 session (refl, refl) i x at ∙ ap pos (omega arith)
