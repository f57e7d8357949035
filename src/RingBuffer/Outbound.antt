-- ===== src/RingBuffer/Outbound.antt =====
-- The acknowledgements that wait in an outbound ring, between the engine's write pointer and the
-- gateway's read pointer.
use mathlib.Core.Path.{subst}
use distributed_orderbook.Prelude.{
  ℕ, ◌+◌, ◌-◌, ◌^◌, ◌<◌, ◌≤◌, bit_and, ◌≡◌, refl, sym, ap, ◌∙◌, Bool, true, false, List, [], ◌∷◌,
  ◌++◌, arith, set, set-set, length-replicate, get_or-replicate, inl, inr, Bool-cases, ltb, ltb→lt,
}
use distributed_orderbook.RingBuffer.Types.{OutboundEvent, default_outbound, OutboundRing}
use distributed_orderbook.RingBuffer.Outbox.{new, get, amend, publish, release}
use distributed_orderbook.RingBuffer.Slots.{get-set_self, size_pos}
use distributed_orderbook.RingBuffer.Protocol.{
  values_from, put, Open, put-Open, put-values, take-Open, take-values,
}

abbrev pub ready : OutboundEvent → Bool
ready e = e.is_ready

abbrev pub Unread : ℕ → ℕ → ℕ → OutboundRing → Type 0
Unread k lo hi ring = Open default_outbound ready k lo hi ring.buffer ring.size ring.mask

-- The acknowledgements that are written and not read, the oldest first
abbrev pub unread : ℕ → ℕ → OutboundRing → List OutboundEvent
unread lo hi ring = values_from default_outbound ring.buffer ring.mask lo (hi - lo)

module _ {k lo hi : ℕ} (ring : OutboundRing) (waits : Unread k lo hi ring) where
  -- The engine writes an acknowledgement and publishes it.
  module _ (f : OutboundEvent → OutboundEvent) where
    abbrev pub written : OutboundEvent
    written = record (f (get hi ring)) { is_ready = true }

    abbrev pub sent : OutboundRing
    sent = publish hi (amend hi f ring)

    sent-put : sent.buffer ≡ put default_outbound ring.buffer ring.mask hi written
    sent-put =
        set-set ring.buffer (bit_and hi ring.mask) (f (get hi ring)) _
        ∙ ap
            (λ (e : OutboundEvent).
              set ring.buffer (bit_and hi ring.mask) (record e { is_ready = true }))
            (get-set_self waits.ring hi (f (get hi ring)) default_outbound)

    pub sent-Unread : hi < lo + ring.size → Unread k lo (hi + 1) sent
    sent-Unread room =
        subst (λ b. Open default_outbound ready k lo (hi + 1) b ring.size ring.mask) (sym sent-put)
          (put-Open default_outbound ready ring.buffer waits written refl room)

    pub unread-sent :
        hi < lo + ring.size → unread lo (hi + 1) sent ≡ unread lo hi ring ++ written ∷ []
    unread-sent room =
        ap (λ b. values_from default_outbound b ring.mask lo (hi + 1 - lo)) sent-put
        ∙ put-values default_outbound ready ring.buffer waits written room

  -- The gateway reads the oldest one and releases its slot.
  pub release-Unread : lo < hi → Unread k (lo + 1) hi (release lo ring)
  release-Unread some_left =
      take-Open default_outbound ready ring.buffer waits (record (get lo ring) { is_ready = false })
        refl some_left

  pub unread-release :
      lo < hi → unread lo hi ring ≡ get lo ring ∷ unread (lo + 1) hi (release lo ring)
  unread-release some_left =
      take-values default_outbound ready ring.buffer waits
        (record (get lo ring) { is_ready = false }) some_left

  -- A slot that is ready at the read pointer is one of those written.
  pub ready-some : (get lo ring).is_ready ≡ true → lo < hi
  ready-some is_ready = elim (Bool-cases (ltb lo hi)) [
    | inl e ↦ ltb→lt lo hi e
    | inr e ↦
        absurd
          (cc (sym is_ready ∙ waits.is_free lo (not_below e) (omega (arith, size_pos waits.ring))))
  ]
    where
      not_below : ltb lo hi ≡ false → hi ≤ lo
      not_below e = ground arith

pub new-Unread : (k : ℕ) → Unread k 0 0 (new (2 ^ k))
new-Unread k = record {
  ring = record { power = refl; masks = refl; filled = length-replicate (2 ^ k) default_outbound };
  behind = omega arith;
  fits = omega arith;
  is_ready = λ seq low high. absurd (omega arith);
  is_free = λ seq low high.
      ap (λ (e : OutboundEvent). e.is_ready)
        (get_or-replicate (2 ^ k) (bit_and seq (2 ^ k - 1)) default_outbound);
}
