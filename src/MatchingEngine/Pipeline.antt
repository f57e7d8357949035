-- ===== src/MatchingEngine/Pipeline.antt =====
-- The gateways, the inbound ring and the engine together.
use mathlib.Core.Path.{subst₂}
use distributed_orderbook.Prelude.{
  ℕ, ◌+◌, ◌^◌, ◌≡◌, refl, sym, ap, ◌∙◌, List, [], ◌∷◌, ◌++◌, append_assoc, length, length-append,
  arith,
}
use distributed_orderbook.Orderbook.Types.{empty_book}
use distributed_orderbook.Orderbook.Command.{done, Command}
use distributed_orderbook.Orderbook.Command.Sequence.{run_all, run_all_last}
use distributed_orderbook.Orderbook.Reachable.{Sound, empty-Rep}
use distributed_orderbook.RingBuffer.Types.{InboundEvent, InboundRing, OutboundRing}
use distributed_orderbook.RingBuffer.Inbox
use distributed_orderbook.RingBuffer.Inbound.{Valid, pending, new-Valid}
use distributed_orderbook.Gateway.Calls.{Calls, Calls-Joins}
use distributed_orderbook.Gateway.{Gateway}
use distributed_orderbook.MatchingEngine.{
  MatchingEngine, new_engine, handle, Round, idle, handled, failed, run,
}
use distributed_orderbook.MatchingEngine.Rounds.{Addressed, Handles, run-Handles}

-- The order book after a list of events, one after the other
abbrev pub replay : List InboundEvent → Command (Unit {0})
replay = run_all handle

-- The states that calls of gateways and rounds of the engine reach, with the events that the calls put
-- into the ring so far
pub data Reached (k rings : ℕ)
    : MatchingEngine → InboundRing → List OutboundRing → List InboundEvent → Type 0 where
  started :
      (outbounds : List OutboundRing)
      → Reached k rings (new_engine rings) (Inbox.new (2 ^ k)) outbounds []
  called :
      {m : MatchingEngine} {ring : InboundRing} {outbounds : List OutboundRing}
      {past : List InboundEvent} (g g' : Gateway) (ring' : InboundRing)
      → Reached k rings m ring outbounds past
      → Calls g ring g' ring'
      → Reached k rings m ring' outbounds (past ++ Inbox.get ring.write_pointer ring' ∷ [])
  worked :
      {m : MatchingEngine} {ring : InboundRing} {outbounds : List OutboundRing}
      {past : List InboundEvent} (m' : MatchingEngine) (ring' : InboundRing)
      (outbounds' : List OutboundRing) (e : InboundEvent) (rest : List InboundEvent)
      → Reached k rings m ring outbounds past
      → pending m.read_p ring ≡ e ∷ rest
      → Addressed e m outbounds
      → run m ring outbounds ≡ handled m' ring' outbounds'
      → Reached k rings m' ring' outbounds' past

-- What the events so far have done: those before the waiting ones have gone through the order book, in
-- the order of their claims.
pub record Consistent (k : ℕ) (m : MatchingEngine) (ring : InboundRing) (past : List InboundEvent)
    : Type 0 where
  pub valid : Valid k m.read_p ring
  pub sound : Sound m.orderbook
  pub finished : List InboundEvent
  pub counted : length finished ≡ m.read_p
  pub split : past ≡ finished ++ pending m.read_p ring
  pub replayed : replay finished empty_book ≡ done tt m.orderbook

engine_in : MatchingEngine → Round → MatchingEngine
engine_in m idle = m
engine_in m (handled m' _ _) = m'
engine_in m failed = m

ring_in : InboundRing → Round → InboundRing
ring_in r idle = r
ring_in r (handled _ r' _) = r'
ring_in r failed = r

module _ {k : ℕ} (m : MatchingEngine) (ring : InboundRing) (outbounds : List OutboundRing)
    (past : List InboundEvent) (m' : MatchingEngine) (ring' : InboundRing)
    (outbounds' : List OutboundRing) (e : InboundEvent) (rest : List InboundEvent)
    (queued : pending m.read_p ring ≡ e ∷ rest) (to : Addressed e m outbounds) where
  worked-Consistent :
      run m ring outbounds ≡ handled m' ring' outbounds'
      → Consistent k m ring past
      → Handles k e rest m outbounds to (run m ring outbounds)
      → Consistent k m' ring' past
  unfolding engine_in ring_in
  worked-Consistent ran c h =
      let same_engine = ap (engine_in m) (sym h.ends ∙ ran) in
      let same_ring = ap (ring_in ring) (sym h.ends ∙ ran) in
      subst₂ (λ n r. Consistent k n r past) same_engine same_ring
        (record {
          valid = h.valid;
          sound = h.sound;
          finished = c.finished ++ e ∷ [];
          counted = omega (arith, length-append c.finished (e ∷ []), c.counted);
          split =
              c.split
              ∙ ap (λ es. c.finished ++ es)
                  (queued ∙ ap (λ (es : List InboundEvent). e ∷ es) (sym h.waiting))
              ∙ sym (append_assoc c.finished (e ∷ []) (pending (m.read_p + 1) h.inbound));
          replayed =
              run_all_last handle c.finished e empty_book m.orderbook h.orderbook h.outcome
                c.replayed h.calls;
        })

-- Every state that calls of gateways reach, with rounds of the engine for events that are silent or
-- whose gateway has an outbound ring, is consistent: the inbound ring is valid, the order book is sound
-- and is the one that the finished events give one after the other, in the order in which the calls put
-- them into the ring, and the other events wait in that order.
pub Reached-Consistent :
    {k rings : ℕ} (m : MatchingEngine) (ring : InboundRing) (outbounds : List OutboundRing)
    (past : List InboundEvent)
    → Reached k rings m ring outbounds past
    → Consistent k m ring past
unfolding run_all
Reached-Consistent {k} _ _ _ _ (started outbounds) = record {
  valid = new-Valid k;
  sound = (λ _ _. [], empty-Rep, tt);
  finished = [];
  counted = refl;
  split = refl;
  replayed = refl;
}
Reached-Consistent _ _ _ _ (called {m} {ring} {outbounds} {past} g g' ring' earlier call) =
    let c = Reached-Consistent m ring outbounds past earlier in
    let j = Calls-Joins g' ring' c.valid call in
    record {
      valid = j.valid;
      sound = c.sound;
      finished = c.finished;
      counted = c.counted;
      split =
          ap (λ es. es ++ Inbox.get ring.write_pointer ring' ∷ []) c.split
          ∙ append_assoc c.finished (pending m.read_p ring)
              (Inbox.get ring.write_pointer ring' ∷ [])
          ∙ ap (λ es. c.finished ++ es) (sym j.waiting);
      replayed = c.replayed;
    }
Reached-Consistent _ _ _ _
      (worked {m} {ring} {outbounds} {past} m' ring' outbounds' e rest earlier queued to ran) =
    let c = Reached-Consistent m ring outbounds past earlier in
    let h = run-Handles m ring outbounds c.valid c.sound e rest queued to in
    worked-Consistent m ring outbounds past m' ring' outbounds' e rest queued to ran c h
