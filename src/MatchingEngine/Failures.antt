-- ===== src/MatchingEngine/Failures.antt =====
-- When a round of the engine fails.
use distributed_orderbook.Prelude.{
  ℕ, ◌≡◌, ◌↔◌, refl, sym, ap, ◌∙◌, false, inl, inr, Bool-cases, Option-cases, List, ◌∷◌, get_elem?,
}
use distributed_orderbook.Orderbook.Reachable.{Sound}
use distributed_orderbook.RingBuffer.Types.{InboundEvent, InboundRing, OutboundRing}
use distributed_orderbook.RingBuffer.Inbox
use distributed_orderbook.RingBuffer.Inbound.{Valid, pending}
use distributed_orderbook.MatchingEngine.{MatchingEngine, index, handled, failed, loud_round, run}
use distributed_orderbook.MatchingEngine.Rounds.{
  Addressed, nowhere, at_ring, oldest, run-loud, run-Handles,
}

failed-handled :
    {m' : MatchingEngine} {ring' : InboundRing} {outbounds' : List OutboundRing}
    → failed ≡ handled m' ring' outbounds'
    → ⊥
failed-handled f = cc

lost :
    (e : InboundEvent) (m : MatchingEngine) (inbound : InboundRing) (outbounds : List OutboundRing)
    → e.silent ≡ false
    → (Addressed e m outbounds → ⊥)
    → loud_round e m inbound outbounds ≡ failed
unfolding loud_round
lost e m inbound outbounds loud stray = elim (Option-cases (index outbounds e.gateway_id)) [
  | inl no_ring ↦ rw (loud_round, no_ring) refl
  | inr ((gid, outbound), ring) ↦ elim (Option-cases (get_elem? m.write_p_outbound gid)) [
    | inl no_pointer ↦ rw (loud_round, ring, no_pointer) refl
    | inr (write_p, pointer) ↦ absurd (stray (at_ring gid outbound write_p loud ring pointer))
  ]
]

module _ {k : ℕ} (m : MatchingEngine) (inbound : InboundRing) (outbounds : List OutboundRing)
    (valid : Valid k m.read_p inbound) (sound : Sound m.orderbook) (e : InboundEvent)
    (rest : List InboundEvent) (queued : pending m.read_p inbound ≡ e ∷ rest) where
  same_event : Inbox.get m.read_p inbound ≡ e
  same_event = oldest m inbound outbounds valid sound e rest queued

  -- On a valid ring and a sound order book a round for the oldest waiting event fails exactly if the
  -- event is not silent and its gateway has no outbound ring, or none with a write pointer: the call of
  -- the order book never fails.
  pub run-failed_iff : (run m inbound outbounds ≡ failed) ↔ (Addressed e m outbounds → ⊥)
  run-failed_iff = (
    λ f to.
        failed-handled
          (sym f ∙ (run-Handles m inbound outbounds valid sound e rest queued to).ends),
    λ stray. elim (Bool-cases e.silent) [
      | inl quiet ↦ absurd (stray (nowhere quiet))
      | inr loud ↦
          run-loud m inbound outbounds valid sound e rest queued
            (ap (λ (x : InboundEvent). x.silent) same_event ∙ loud)
          ∙ ap (λ x. loud_round x m inbound outbounds) same_event
          ∙ lost e m inbound outbounds loud stray
    ],
  )
