-- ===== src/MatchingEngine/Rounds.antt =====
-- A round of the engine on a valid ring and a sound order book.
use distributed_orderbook.Prelude.{
  ℕ, ◌+◌, ◌<◌, ◌≡◌, refl, sym, ap, ◌∙◌, Bool, true, false, ◌⊎◌, inl, inr, some, List, [], ◌∷◌, set,
  get_elem?, arith, List-cases,
}
use distributed_orderbook.Prelude.Int.{ℤ}
use distributed_orderbook.Orderbook.Types.{Orderbook}
use distributed_orderbook.Orderbook.Command.{Run, done}
use distributed_orderbook.Orderbook.Methods.{place_order}
use distributed_orderbook.Orderbook.Modify.{Modified, modify_refines}
use distributed_orderbook.Orderbook.Modify
use distributed_orderbook.Orderbook.Cancel.{Cancelled, cancel_refines}
use distributed_orderbook.Orderbook.Cancel
use distributed_orderbook.Orderbook.Match.Refine.{book_of, match_refines}
use distributed_orderbook.Book.{place}
use distributed_orderbook.Orderbook.Reachable.{Sound, match-Sound, Modified-Sound, Cancelled-Sound}
use distributed_orderbook.RingBuffer.Types.{
  Op, op_new, op_cancel, op_modify, InboundEvent, InboundRing, OutboundRing,
}
use distributed_orderbook.RingBuffer.Inbox
use distributed_orderbook.RingBuffer.Outbox
use distributed_orderbook.RingBuffer.Inbound.{
  Valid, pending, pending-nil, pending-cons, release-Valid, pending-release,
}
use distributed_orderbook.RingBuffer.Slots.{size_pos}
use distributed_orderbook.MatchingEngine.{
  MatchingEngine, Outcome, placed_outcome, changed_outcome, handle, acknowledge, index, Round, idle,
  handled, silent_round, loud_round, run,
}

Modified-done :
    {b : Orderbook} {queues : _} {order_id new_size : ℤ} {r : Run Bool}
    → Modified b queues order_id new_size r
    → (ok : Bool) × (b' : Orderbook) × (r ≡ done ok b')
Modified-done (Modify.unknown _) = (_, _, refl)
Modified-done (Modify.not_positive _) = (_, _, refl)
Modified-done (Modify.not_smaller _ _ _) = (_, _, refl)
Modified-done (Modify.reduced _ _ _ _ _ _ _ _ _) = (_, _, refl)

Cancelled-done :
    {b : Orderbook} {queues : _} {order_id : ℤ} {r : Run Bool}
    → Cancelled b queues order_id r
    → (ok : Bool) × (b' : Orderbook) × (r ≡ done ok b')
Cancelled-done (Cancel.unknown _) = (_, _, refl)
Cancelled-done (Cancel.removed _ _ _ _ _ _) = (_, _, refl)

op-cases : (op : Op) → (op ≡ op_new) ⊎ ((op ≡ op_cancel) ⊎ (op ≡ op_modify))
op-cases op_new = inl refl
op-cases op_cancel = inr (inl refl)
op-cases op_modify = inr (inr refl)

-- A run that ends, without a fault, in a sound order book
abbrev pub Completes : Run Outcome → Type 0
Completes r = (res : Outcome) × (b' : Orderbook) × (r ≡ done res b') × Sound b'

module _ (e : InboundEvent) (b : Orderbook) (sound : Sound b) where
  handle-new : e.op ≡ op_new → Completes (handle e b)
  unfolding handle place_order
  handle-new op =
      let (b', _, ran, _, _) =
        match_refines e.price e.volume e.side e.order_arrival_time e.internal_order_id b sound.0
          sound.1 in
      (
        placed_outcome
            (place b.unused e.price e.volume e.side e.order_arrival_time e.internal_order_id
              (book_of b sound.0)).0,
        b',
        rw (op, ran) refl,
        match-Sound sound b' e.price e.volume e.side e.order_arrival_time e.internal_order_id _ ran,
      )

  handle-cancel : e.op ≡ op_cancel → Completes (handle e b)
  unfolding handle
  handle-cancel op =
      let can = cancel_refines sound.1 e.internal_order_id in
      let (ok, b', ran) = Cancelled-done can in
      (
        changed_outcome e.internal_order_id ok,
        b',
        rw (op, ran) refl,
        Cancelled-Sound sound e.internal_order_id ok b' _ can ran,
      )

  handle-modify : e.op ≡ op_modify → Completes (handle e b)
  unfolding handle
  handle-modify op =
      let change = modify_refines sound.1 e.internal_order_id e.volume in
      let (ok, b', ran) = Modified-done change in
      (
        changed_outcome e.internal_order_id ok,
        b',
        rw (op, ran) refl,
        Modified-Sound sound e.internal_order_id e.volume ok b' _ change ran,
      )

  -- On a sound order book every event is handled without a fault and leaves a sound order book.
  pub handle-Completes : Completes (handle e b)
  handle-Completes = elim (op-cases e.op) [
    | inl op ↦ handle-new op
    | inr (inl op) ↦ handle-cancel op
    | inr (inr op) ↦ handle-modify op
  ]

-- The outbound ring that an event's acknowledgement goes to, and the sequence number there
pub data Addressed (e : InboundEvent) (m : MatchingEngine) (outbounds : List OutboundRing)
    : Type 0 where
  nowhere : e.silent ≡ true → Addressed e m outbounds
  at_ring :
      (gid : ℕ) (outbound : OutboundRing) (write_p : ℕ)
      → e.silent ≡ false
      → index outbounds e.gateway_id ≡ some (gid, outbound)
      → get_elem? m.write_p_outbound gid ≡ some write_p
      → Addressed e m outbounds

-- The write pointers and the outbound rings after an event: one acknowledgement more, or none if the
-- event is silent
abbrev pub acked :
    {e : InboundEvent} {m : MatchingEngine} {outbounds : List OutboundRing}
    → Addressed e m outbounds
    → Outcome
    → List ℕ × List OutboundRing
acked {e} {m} {outbounds} (nowhere _) res = (m.write_p_outbound, outbounds)
acked {e} {m} {outbounds} (at_ring gid outbound write_p _ _ _) res = (
  set m.write_p_outbound gid (write_p + 1),
  set outbounds gid (Outbox.publish write_p (Outbox.amend write_p (acknowledge e res) outbound)),
)

-- What a round does with the oldest event `e`, when `rest` waits behind it
pub record Handles (k : ℕ) (e : InboundEvent) (rest : List InboundEvent) (m : MatchingEngine)
    (outbounds : List OutboundRing) (to : Addressed e m outbounds) (round : Round) : Type 0 where
  pub outcome : Outcome
  pub orderbook : Orderbook
  pub inbound : InboundRing
  pub calls : handle e m.orderbook ≡ done outcome orderbook
  pub sound : Sound orderbook
  pub valid : Valid k (m.read_p + 1) inbound
  pub waiting : pending (m.read_p + 1) inbound ≡ rest
  pub ends :
      round
      ≡ handled
          (record {
            orderbook = orderbook;
            read_p = m.read_p + 1;
            write_p_outbound = (acked to outcome).0;
          })
          inbound
          (acked to outcome).1

cons-head : {A : Type 0} {x y : A} {xs ys : List A} → x ∷ xs ≡ y ∷ ys → x ≡ y
cons-head {x = x} e = ap (λ l. elim l [ [] ↦ x | z ∷ _ ↦ z ]) e

cons-tail : {A : Type 0} {x y : A} {xs ys : List A} → x ∷ xs ≡ y ∷ ys → xs ≡ ys
cons-tail {xs = xs} e = ap (λ l. elim l [ [] ↦ xs | _ ∷ zs ↦ zs ]) e

module _ {k : ℕ} (m : MatchingEngine) (inbound : InboundRing) (outbounds : List OutboundRing)
    (valid : Valid k m.read_p inbound) where
  abbrev event : InboundEvent
  event = Inbox.get m.read_p inbound

  -- On a valid ring with no waiting event a round does nothing.
  pub run-idle : pending m.read_p inbound ≡ [] → run m inbound outbounds ≡ idle
  unfolding run
  run-idle none_left =
      rw
        (valid.is_free m.read_p (pending-nil inbound m.read_p none_left)
          (omega (arith, size_pos valid.ring)))
        refl

  idle-handled :
      {m' : MatchingEngine} {ring' : InboundRing} {outbounds' : List OutboundRing} {r : Round}
      → r ≡ idle
      → r ≡ handled m' ring' outbounds'
      → ⊥
  idle-handled e f = cc

  -- A round that handles an event has one.
  pub run-handled :
      (m' : MatchingEngine) (ring' : InboundRing) (outbounds' : List OutboundRing)
      → run m inbound outbounds ≡ handled m' ring' outbounds'
      → (e : InboundEvent) × (rest : List InboundEvent) × (pending m.read_p inbound ≡ e ∷ rest)
  run-handled m' ring' outbounds' ran = elim (List-cases (pending m.read_p inbound)) [
    | inl none_left ↦ absurd (idle-handled (run-idle none_left) ran)
    | inr waiting ↦ waiting
  ]

  module _ (sound : Sound m.orderbook) (e : InboundEvent) (rest : List InboundEvent)
      (queued : pending m.read_p inbound ≡ e ∷ rest) where
    some_left : m.read_p < inbound.write_pointer
    some_left = pending-cons inbound m.read_p e rest queued

    pub oldest : event ≡ e
    oldest = cons-head (sym (pending-release inbound valid some_left) ∙ queued)

    behind : pending (m.read_p + 1) (Inbox.release m.read_p inbound) ≡ rest
    behind = cons-tail (sym (pending-release inbound valid some_left) ∙ queued)

    is_ready : event.is_ready ≡ true
    is_ready = valid.is_ready m.read_p (omega arith) some_left

    run-silent :
        event.silent ≡ true → run m inbound outbounds ≡ silent_round event m inbound outbounds
    unfolding run
    run-silent s = rw (is_ready, s) refl

    pub run-loud :
        event.silent ≡ false → run m inbound outbounds ≡ loud_round event m inbound outbounds
    unfolding run
    run-loud s = rw (is_ready, s) refl

    round_ends :
        (res : Outcome) (b' : Orderbook)
        → handle e m.orderbook ≡ done res b'
        → (to : Addressed e m outbounds)
        → run m inbound outbounds
          ≡ handled
              (record {
                orderbook = b';
                read_p = m.read_p + 1;
                write_p_outbound = (acked to res).0;
              })
              (Inbox.release m.read_p inbound)
              (acked to res).1
    unfolding silent_round loud_round
    round_ends res b' ran (nowhere s) =
        run-silent (ap (λ (x : InboundEvent). x.silent) oldest ∙ s)
        ∙ ap (λ x. silent_round x m inbound outbounds) oldest
        ∙ rw ran refl
    round_ends res b' ran (at_ring gid outbound write_p s ring pointer) =
        run-loud (ap (λ (x : InboundEvent). x.silent) oldest ∙ s)
        ∙ ap (λ x. loud_round x m inbound outbounds) oldest
        ∙ rw (loud_round, ring, pointer, ran) refl

    -- On a valid ring and a sound order book a round handles the oldest waiting event, if it is silent
    -- or its gateway has an outbound ring: it makes the event's call of the order book, without a fault,
    -- releases the event's slot, so that the others still wait in order, and writes one acknowledgement
    -- to the gateway's ring, or none if the event is silent. The order book stays sound.
    pub run-Handles :
        (to : Addressed e m outbounds) → Handles k e rest m outbounds to (run m inbound outbounds)
    run-Handles to =
        let (res, b', ran, sound') = handle-Completes e m.orderbook sound in
        record {
          outcome = res;
          orderbook = b';
          inbound = Inbox.release m.read_p inbound;
          calls = ran;
          sound = sound';
          valid = release-Valid inbound valid some_left;
          waiting = behind;
          ends = round_ends res b' ran to;
        }
