-- ===== src/Gateway/Contents.antt =====
-- What the methods of a gateway put into the inbound ring, field by field.
use mathlib.Core.Path.{subst}
use mathlib.Core.Option.{some-injective}
use distributed_orderbook.Prelude.{
  ℕ, ◌+◌, ◌<◌, ◌≡◌, ◌⊎◌, refl, sym, ◌∙◌, Bool, true, false, ◌||◌, none, some, [], ◌∷◌, ◌++◌, arith,
  inl, inr, Bool-cases,
}
use distributed_orderbook.Prelude.Int.{ℤ, pos, ◌+ℤ◌, ◌≤ℤ◌, ◌<ℤ◌}
use distributed_orderbook.RingBuffer.Types.{op_new, op_cancel, op_modify, InboundEvent, InboundRing}
use distributed_orderbook.RingBuffer.Inbox.{get}
use distributed_orderbook.RingBuffer.Inbound.{Valid, pending}
use distributed_orderbook.Gateway.{
  Gateway, live, replay, Call, returned, waits, aborts, is_negative, place_order_to_ring_buffer,
  cancel_order_to_ring_buffer, modify_order_to_ring_buffer,
}
use distributed_orderbook.Gateway.Posts.{
  Posted, joined, full, Placed, minted, given, Stamped, stamped, mode-cases, stamp-live, stamp-good,
  stamp-bad, placing-Placed, cancelling-Stamped, modifying-Stamped,
}
use distributed_orderbook.Gateway.Posts

-- A new order of the gateway, published
pub record IsSubmission (price volume : ℤ) (side : Bool) (order_id time : ℤ) (g : Gateway)
    (e : InboundEvent) : Type 0 where
  pub op : e.op ≡ op_new
  pub order_id_is : e.internal_order_id ≡ order_id
  pub price_is : e.price ≡ price
  pub volume_is : e.volume ≡ volume
  pub time_is : e.order_arrival_time ≡ time
  pub side_is : e.side ≡ side
  pub sender : e.gateway_id ≡ g.gateway_id
  pub silent : e.silent ≡ g.silent
  pub is_ready : e.is_ready ≡ true

-- A cancellation, published. The other fields are those of `old`, the slot's last event.
pub record IsCancellation (order_id : ℤ) (g : Gateway) (old : InboundEvent) (time : ℤ)
    (e : InboundEvent) : Type 0 where
  pub op : e.op ≡ op_cancel
  pub order_id_is : e.internal_order_id ≡ order_id
  pub time_is : e.order_arrival_time ≡ time
  pub sender : e.gateway_id ≡ g.gateway_id
  pub silent : e.silent ≡ g.silent
  pub is_ready : e.is_ready ≡ true
  pub price_stays : e.price ≡ old.price
  pub volume_stays : e.volume ≡ old.volume
  pub side_stays : e.side ≡ old.side

-- A reduction to `new_size`, published
pub record IsReduction (order_id new_size : ℤ) (g : Gateway) (old : InboundEvent) (time : ℤ)
    (e : InboundEvent) : Type 0 where
  pub op : e.op ≡ op_modify
  pub order_id_is : e.internal_order_id ≡ order_id
  pub volume_is : e.volume ≡ new_size
  pub time_is : e.order_arrival_time ≡ time
  pub sender : e.gateway_id ≡ g.gateway_id
  pub silent : e.silent ≡ g.silent
  pub is_ready : e.is_ready ≡ true
  pub price_stays : e.price ≡ old.price
  pub side_stays : e.side ≡ old.side

-- A call gets to `claim`: its event, of which `Is` holds, joins the waiting ones as the newest, or the
-- ring is full and the call waits.
pub data Arrives {A : Type 0} (k read : ℕ) (Is : InboundEvent → Type 0) (ring : InboundRing) (a : A)
    : Call (A × InboundRing) → Type 0 where
  arrived :
      (ring' : InboundRing) (e : InboundEvent)
      → Is e
      → ring.write_pointer < read + ring.size
      → Valid k read ring'
      → pending read ring' ≡ pending read ring ++ e ∷ []
      → Arrives k read Is ring a (returned (a, ring'))
  no_room : ring.write_pointer ≡ read + ring.size → Arrives k read Is ring a waits

-- A submission: by a live gateway with the next id of its counter and the clock's time, by a replay
-- gateway with the id and time that it is given, or refused
pub data Submits (k read : ℕ) (price volume : ℤ) (side : Bool) (external_id external_ts now : ℤ)
    (g : Gateway) (ring : InboundRing) : Call ((ℤ × Gateway) × InboundRing) → Type 0 where
  by_live :
      {c : Call ((ℤ × Gateway) × InboundRing)}
      → g.mode ≡ live
      → Arrives k read
          (IsSubmission price volume side g.internal_id_counter now g)
          ring
          (g.internal_id_counter, record g { internal_id_counter = g.internal_id_counter +ℤ pos 1 })
          c
      → Submits k read price volume side external_id external_ts now g ring c
  by_replay :
      {c : Call ((ℤ × Gateway) × InboundRing)}
      → g.mode ≡ replay
      → pos 0 ≤ℤ external_id
      → pos 0 ≤ℤ external_ts
      → Arrives k read
          (IsSubmission price volume side external_id external_ts g)
          ring
          (external_id, g)
          c
      → Submits k read price volume side external_id external_ts now g ring c
  refused :
      g.mode ≡ replay
      → (external_id <ℤ pos 0) ⊎ (external_ts <ℤ pos 0)
      → Submits k read price volume side external_id external_ts now g ring aborts

-- A call whose event has a time alone: the clock's, or the one that a replay gateway is given
pub data Requests (k read : ℕ) (Is : ℤ → InboundEvent → Type 0) (external_ts now : ℤ) (g : Gateway)
    (ring : InboundRing) : Call (Unit {0} × InboundRing) → Type 0 where
  by_live :
      {c : Call (Unit {0} × InboundRing)}
      → g.mode ≡ live
      → Arrives k read (Is now) ring tt c
      → Requests k read Is external_ts now g ring c
  by_replay :
      {c : Call (Unit {0} × InboundRing)}
      → g.mode ≡ replay
      → pos 0 ≤ℤ external_ts
      → Arrives k read (Is external_ts) ring tt c
      → Requests k read Is external_ts now g ring c
  refused :
      g.mode ≡ replay → external_ts <ℤ pos 0 → Requests k read Is external_ts now g ring aborts

Posted-Arrives :
    {k read : ℕ} {A : Type 0} {f : InboundEvent → InboundEvent} {ring : InboundRing} {a : A}
    {c : Call (A × InboundRing)} (Is : InboundEvent → Type 0)
    → Is (record (f (get ring.write_pointer ring)) { is_ready = true })
    → Posted k read f ring a c
    → Arrives k read Is ring a c
Posted-Arrives Is is (joined ring' room valid waiting _) = arrived ring' _ is room valid waiting
Posted-Arrives Is is (full e) = no_room e

negative : (v : ℤ) → is_negative v ≡ true → v <ℤ pos 0
negative v e = ground arith

not_negative : (v : ℤ) → is_negative v ≡ false → pos 0 ≤ℤ v
not_negative v e = ground arith

both_false : (x y : Bool) → (x || y) ≡ false → (x ≡ false) × (y ≡ false)
both_false false y e = (refl, e)
both_false true y e = cc

one_true : (x y : Bool) → (x || y) ≡ true → (x ≡ true) ⊎ (y ≡ true)
one_true true y e = inl refl
one_true false y e = inr e

some_negative : (v w : ℤ) → (is_negative v || is_negative w) ≡ true → (v <ℤ pos 0) ⊎ (w <ℤ pos 0)
some_negative v w e = elim (one_true (is_negative v) (is_negative w) e) [
  | inl h ↦ inl (negative v h)
  | inr h ↦ inr (negative w h)
]

none-some : {v : ℤ} → none ≡ some v → ⊥
none-some e = cc

module _ {k read : ℕ} (ring : InboundRing) (g : Gateway) where
  Placed-Submits :
      {price volume : ℤ} {side : Bool} {external_id external_ts now : ℤ}
      (c : Call ((ℤ × Gateway) × InboundRing))
      → Placed k read price volume side external_id external_ts now g ring c
      → Submits k read price volume side external_id external_ts now g ring c
  Placed-Submits {price} {volume} {side} {now = now} c (minted m p) = by_live m (
      Posted-Arrives (IsSubmission price volume side g.internal_id_counter now g)
        (record {
          op = refl;
          order_id_is = refl;
          price_is = refl;
          volume_is = refl;
          time_is = refl;
          side_is = refl;
          sender = refl;
          silent = refl;
          is_ready = refl;
        })
        p)
  Placed-Submits {price} {volume} {side} {external_id} {external_ts} c (given m good p) =
      let (id, time) = both_false (is_negative external_id) (is_negative external_ts) good in
      by_replay m (not_negative external_id id) (not_negative external_ts time) (
        Posted-Arrives (IsSubmission price volume side external_id external_ts g)
          (record {
            op = refl;
            order_id_is = refl;
            price_is = refl;
            volume_is = refl;
            time_is = refl;
            side_is = refl;
            sender = refl;
            silent = refl;
            is_ready = refl;
          })
          p)
  Placed-Submits {external_id = external_id} {external_ts} c (Posts.Placed.refused m bad) =
      refused m (some_negative external_id external_ts bad)

  Stamped-Requests :
      {fill : ℤ → InboundEvent → InboundEvent} {external_ts now : ℤ}
      (Is : ℤ → InboundEvent → Type 0) (c : Call (Unit {0} × InboundRing))
      → ((time : ℤ)
          → Is time (record (fill time (get ring.write_pointer ring)) { is_ready = true }))
      → Stamped k read fill external_ts now g ring c
      → Requests k read Is external_ts now g ring c
  Stamped-Requests {external_ts = external_ts} {now} Is c is (stamped time at p) =
      elim (mode-cases g.mode) [
        | inl m ↦
            let same : time ≡ now = some-injective _ _ (sym at ∙ stamp-live g external_ts now m) in
            by_live m (
              subst (λ t. Arrives k read (Is t) ring tt c) same
                (Posted-Arrives (Is time) (is time) p))
        | inr m ↦ elim (Bool-cases (is_negative external_ts)) [
          | inl bad ↦ absurd (none-some (sym (stamp-bad g external_ts now m bad) ∙ at))
          | inr good ↦
              let same : time ≡ external_ts =
                some-injective _ _ (sym at ∙ stamp-good g external_ts now m good) in
              by_replay m (not_negative external_ts good) (
                subst (λ t. Arrives k read (Is t) ring tt c) same
                  (Posted-Arrives (Is time) (is time) p))
        ]
      ]
  Stamped-Requests {external_ts = external_ts} Is c is (Posts.Stamped.refused m bad) =
      refused m (negative external_ts bad)

  module _ (valid : Valid k read ring) where
    -- On a valid ring a call of `place_order_to_ring_buffer` puts one event behind the waiting ones, a
    -- new order with the price, the volume, the side, and the id and silence of the gateway; or it
    -- waits, since the ring is full. The order has, by a live gateway, the next id of the counter and the
    -- clock's time; by a replay gateway the id and the time that it is given, and if one of these is
    -- negative the call aborts.
    pub place_order_posts :
        (price volume : ℤ) (side : Bool) (external_id external_ts now : ℤ)
        → Submits k read price volume side external_id external_ts now g ring
            (place_order_to_ring_buffer price volume side external_id external_ts now g ring)
    place_order_posts price volume side external_id external_ts now =
        Placed-Submits _ (placing-Placed ring valid g price volume side external_id external_ts now)

    -- On a valid ring a call of `cancel_order_to_ring_buffer` puts one event behind the waiting ones, a
    -- cancellation with the order's id and the id and silence of the gateway, which leaves the price,
    -- the volume and the side of the slot's last event; or it waits, since the ring is full. The time is
    -- the clock's by a live gateway, and the one that it is given by a replay gateway, whose call aborts
    -- if that is negative.
    pub cancel_order_posts :
        (order_id external_ts now : ℤ)
        → Requests k read
            (IsCancellation order_id g (get ring.write_pointer ring))
            external_ts
            now
            g
            ring
            (cancel_order_to_ring_buffer order_id external_ts now g ring)
    cancel_order_posts order_id external_ts now =
        Stamped-Requests _ _
          (λ time. record {
            op = refl;
            order_id_is = refl;
            time_is = refl;
            sender = refl;
            silent = refl;
            is_ready = refl;
            price_stays = refl;
            volume_stays = refl;
            side_stays = refl;
          })
          (cancelling-Stamped ring valid g external_ts now order_id)

    -- On a valid ring a call of `modify_order_to_ring_buffer` puts one event behind the waiting ones, a
    -- reduction with the order's id, the new size as its volume, and the id and silence of the gateway,
    -- which leaves the price and the side of the slot's last event; or it waits, since the ring is full.
    -- The time is the clock's by a live gateway, and the one that it is given by a replay gateway, whose
    -- call aborts if that is negative.
    pub modify_order_posts :
        (order_id new_size external_ts now : ℤ)
        → Requests k read
            (IsReduction order_id new_size g (get ring.write_pointer ring))
            external_ts
            now
            g
            ring
            (modify_order_to_ring_buffer order_id new_size external_ts now g ring)
    modify_order_posts order_id new_size external_ts now =
        Stamped-Requests _ _
          (λ time. record {
            op = refl;
            order_id_is = refl;
            volume_is = refl;
            time_is = refl;
            sender = refl;
            silent = refl;
            is_ready = refl;
            price_stays = refl;
            side_stays = refl;
          })
          (modifying-Stamped ring valid g external_ts now order_id new_size)
