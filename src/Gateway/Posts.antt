-- ===== src/Gateway/Posts.antt =====
-- The methods of a gateway at the inbound ring, with the assignments to the event's slot.
use mathlib.Core.Path.{subst}
use distributed_orderbook.Prelude.{
  ℕ, ◌+◌, ◌<◌, ◌≡◌, ◌⊎◌, refl, sym, ap, ◌∙◌, Bool, true, false, ◌||◌, Option, none, some, [], ◌∷◌,
  ◌++◌, arith, inl, inr, Bool-cases, ltb, ltb→lt, if◌then◌else◌, if_true, if_false,
}
use distributed_orderbook.Prelude.Int.{ℤ, pos, ◌+ℤ◌}
use distributed_orderbook.RingBuffer.Types.{InboundEvent, InboundRing}
use distributed_orderbook.RingBuffer.Inbox.{get}
use distributed_orderbook.RingBuffer.Inbound.{
  Valid, pending, sent, sent-Valid, pending-sent, get-sent_self, claim-none, claim-some,
}
use distributed_orderbook.Gateway.{
  Gateway, GatewayMode, live, replay, Call, returned, waits, aborts, post, fill_new, fill_cancel,
  fill_modify, is_negative, stamp, place_order_to_ring_buffer, cancel_order_to_ring_buffer,
  modify_order_to_ring_buffer,
}

-- What a call does to the ring when it gets to `claim`: its event joins the waiting ones, or the ring
-- is full and the call waits.
pub data Posted {A : Type 0} (k read : ℕ) (f : InboundEvent → InboundEvent) (ring : InboundRing)
    (a : A) : Call (A × InboundRing) → Type 0 where
  joined :
      (ring' : InboundRing)
      → ring.write_pointer < read + ring.size
      → Valid k read ring'
      → pending read ring'
        ≡ pending read ring ++ record (f (get ring.write_pointer ring)) { is_ready = true } ∷ []
      → get ring.write_pointer ring' ≡ record (f (get ring.write_pointer ring)) { is_ready = true }
      → Posted k read f ring a (returned (a, ring'))
  full : ring.write_pointer ≡ read + ring.size → Posted k read f ring a waits

module _ {k read : ℕ} (ring : InboundRing) (valid : Valid k read ring) where
  pub post-Posted :
      {A : Type 0} (f : InboundEvent → InboundEvent) (a : A)
      → Posted k read f ring a (post f ring a)
  post-Posted f a = elim (Bool-cases (ltb ring.write_pointer (read + ring.size))) [
    | inl e ↦
        let room = ltb→lt ring.write_pointer (read + ring.size) e in
        rw (post, claim-some ring valid room)
          (joined (sent ring valid f) room (sent-Valid ring valid f room)
            (pending-sent ring valid f room) (get-sent_self ring valid f room))
    | inr e ↦
        let is_full : ring.write_pointer ≡ read + ring.size = all_taken e in
        rw (post, claim-none ring valid is_full) (full is_full)
  ]
    where
      all_taken :
          ltb ring.write_pointer (read + ring.size) ≡ false → ring.write_pointer ≡ read + ring.size
      all_taken e = ground (arith, valid.fits)

-- What `place_order_to_ring_buffer` does: a live gateway takes the next id of its counter, a replay
-- gateway the id and time that it is given, unless one of them is negative.
pub data Placed (k read : ℕ) (price volume : ℤ) (side : Bool) (external_id external_ts now : ℤ)
    (g : Gateway) (ring : InboundRing) : Call ((ℤ × Gateway) × InboundRing) → Type 0 where
  minted :
      {c : Call ((ℤ × Gateway) × InboundRing)}
      → g.mode ≡ live
      → Posted k read
          (fill_new price volume side g.internal_id_counter now g)
          ring
          (g.internal_id_counter, record g { internal_id_counter = g.internal_id_counter +ℤ pos 1 })
          c
      → Placed k read price volume side external_id external_ts now g ring c
  given :
      {c : Call ((ℤ × Gateway) × InboundRing)}
      → g.mode ≡ replay
      → (is_negative external_id || is_negative external_ts) ≡ false
      → Posted k read (fill_new price volume side external_id external_ts g) ring (external_id, g) c
      → Placed k read price volume side external_id external_ts now g ring c
  refused :
      g.mode ≡ replay
      → (is_negative external_id || is_negative external_ts) ≡ true
      → Placed k read price volume side external_id external_ts now g ring aborts

-- What `cancel_order_to_ring_buffer` and `modify_order_to_ring_buffer` do with the event of `fill`
pub data Stamped (k read : ℕ) (fill : ℤ → InboundEvent → InboundEvent) (external_ts now : ℤ)
    (g : Gateway) (ring : InboundRing) : Call (Unit {0} × InboundRing) → Type 0 where
  stamped :
      {c : Call (Unit {0} × InboundRing)} (time : ℤ)
      → stamp external_ts now g ≡ some time
      → Posted k read (fill time) ring tt c
      → Stamped k read fill external_ts now g ring c
  refused :
      g.mode ≡ replay
      → is_negative external_ts ≡ true
      → Stamped k read fill external_ts now g ring aborts

pub mode-cases : (m : GatewayMode) → (m ≡ live) ⊎ (m ≡ replay)
mode-cases live = inl refl
mode-cases replay = inr refl

module _ (g : Gateway) (external_ts now : ℤ) where
  pub stamp-live : g.mode ≡ live → stamp external_ts now g ≡ some now
  stamp-live m = rw m refl

  pub stamp-good :
      g.mode ≡ replay → is_negative external_ts ≡ false → stamp external_ts now g ≡ some external_ts
  stamp-good m good = rw (m, good) refl

  pub stamp-bad : g.mode ≡ replay → is_negative external_ts ≡ true → stamp external_ts now g ≡ none
  stamp-bad m bad = rw (m, bad) refl

module _ {k read : ℕ} (ring : InboundRing) (valid : Valid k read ring) (g : Gateway) where
  module _ (price volume : ℤ) (side : Bool) (external_id external_ts now : ℤ) where
    abbrev placing : Call ((ℤ × Gateway) × InboundRing)
    placing = place_order_to_ring_buffer price volume side external_id external_ts now g ring

    abbrev with_id : Call ((ℤ × Gateway) × InboundRing)
    with_id = post (fill_new price volume side external_id external_ts g) ring (external_id, g)

    placing-live :
        g.mode ≡ live
        → placing
          ≡ post (fill_new price volume side g.internal_id_counter now g) ring (
            g.internal_id_counter,
            record g { internal_id_counter = g.internal_id_counter +ℤ pos 1 },
          )
    unfolding place_order_to_ring_buffer
    placing-live m = rw m refl

    placing-replay :
        g.mode ≡ replay
        → placing ≡ (if is_negative external_id || is_negative external_ts then aborts else with_id)
    unfolding place_order_to_ring_buffer
    placing-replay m = rw m refl

    -- the call, with the assignments to its event
    pub placing-Placed :
        Placed k read price volume side external_id external_ts now g ring
          (place_order_to_ring_buffer price volume side external_id external_ts now g ring)
    placing-Placed = elim (mode-cases g.mode) [
      | inl m ↦
          minted m
            (subst (Posted k read _ ring _) (sym (placing-live m)) (post-Posted ring valid _ _))
      | inr m ↦ elim (Bool-cases (is_negative external_id || is_negative external_ts)) [
        | inl bad ↦
            subst (Placed k read price volume side external_id external_ts now g ring)
              (sym (placing-replay m ∙ if_true _ aborts with_id bad)) (refused m bad)
        | inr good ↦ given m good (
            subst (Posted k read _ ring _) (sym (placing-replay m ∙ if_false _ aborts with_id good))
              (post-Posted ring valid _ _))
      ]
    ]

  module _ (external_ts now : ℤ) where
    -- The two methods are the same but for the fields that they fill.
    post_stamped :
        (fill : ℤ → InboundEvent → InboundEvent) → Option ℤ → Call (Unit {0} × InboundRing)
    post_stamped fill none = aborts
    post_stamped fill (some time) = post (fill time) ring tt

    post_stamped-Stamped :
        (fill : ℤ → InboundEvent → InboundEvent) (c : Call (Unit {0} × InboundRing))
        → c ≡ post_stamped fill (stamp external_ts now g)
        → Stamped k read fill external_ts now g ring c
    unfolding post_stamped
    post_stamped-Stamped fill c is = elim (mode-cases g.mode) [
      | inl m ↦ stamped now (stamp-live g external_ts now m) (
          subst (Posted k read (fill now) ring tt)
            (sym (is ∙ ap (post_stamped fill) (stamp-live g external_ts now m)))
            (post-Posted ring valid (fill now) tt))
      | inr m ↦ elim (Bool-cases (is_negative external_ts)) [
        | inl bad ↦
            subst (Stamped k read fill external_ts now g ring)
              (sym (is ∙ ap (post_stamped fill) (stamp-bad g external_ts now m bad)))
              (refused m bad)
        | inr good ↦ stamped external_ts (stamp-good g external_ts now m good) (
            subst (Posted k read (fill external_ts) ring tt)
              (sym (is ∙ ap (post_stamped fill) (stamp-good g external_ts now m good)))
              (post-Posted ring valid (fill external_ts) tt))
      ]
    ]

    pub cancelling-Stamped :
        (order_id : ℤ)
        → Stamped k read
            (λ time. fill_cancel order_id time g)
            external_ts
            now
            g
            ring
            (cancel_order_to_ring_buffer order_id external_ts now g ring)
    unfolding cancel_order_to_ring_buffer post_stamped
    cancelling-Stamped order_id = post_stamped-Stamped _ _ refl

    pub modifying-Stamped :
        (order_id new_size : ℤ)
        → Stamped k read
            (λ time. fill_modify order_id new_size time g)
            external_ts
            now
            g
            ring
            (modify_order_to_ring_buffer order_id new_size external_ts now g ring)
    unfolding modify_order_to_ring_buffer post_stamped
    modifying-Stamped order_id new_size = post_stamped-Stamped _ _ refl
