-- ===== src/Main/Runs.antt =====
-- The engine of main.cpp never does anything undefined.
use mathlib.Core.Path.{subst}
use mathlib.Core.Option.{some-injective}
use distributed_orderbook.Prelude.{
  ℕ, zero, suc, ◌<◌, ◌≡◌, ◌≢◌, refl, sym, ap, ◌∙◌, inl, inr, Bool-cases, some, List, [], ◌∷◌,
  length, length-set, get_elem?, set, get_elem?-lt, get_elem?-set, All, All-append_one, List-cases,
  arith,
}
use distributed_orderbook.Prelude.Int.{pos}
use distributed_orderbook.Orderbook.Reachable.{Sound, empty-Rep}
use distributed_orderbook.RingBuffer.Types.{InboundEvent, InboundRing, OutboundRing}
use distributed_orderbook.RingBuffer.Inbox
use distributed_orderbook.RingBuffer.Outbox
use distributed_orderbook.RingBuffer.Inbound.{Valid, pending, new-Valid}
use distributed_orderbook.Gateway.{Gateway, Reading, read_from_ring_buffer}
use distributed_orderbook.Gateway.Calls.{Joins, Calls-Joins}
use distributed_orderbook.MatchingEngine.{
  MatchingEngine, Outcome, index, Round, idle, handled, failed, run,
}
use distributed_orderbook.MatchingEngine.Rounds.{
  Addressed, nowhere, at_ring, acked, Handles, run-idle, run-handled, run-Handles,
}
use distributed_orderbook.Main.{
  System, num_gateways, gateways_of_main, set_up, Step, called, looked, worked, Reaches, at_start,
  then_step,
}

-- An event with the id of one of the gateways
abbrev pub FromGateway : InboundEvent → Type 0
FromGateway e = (n : ℕ) × (e.gateway_id ≡ pos n) × (n < num_gateways)

pub record Fit (s : System) : Type 0 where
  pub ids :
      (i : ℕ) (g : Gateway)
      → get_elem? s.gateways i ≡ some g
      → (g.gateway_id ≡ pos i) × (i < num_gateways)
  pub valid : Valid 10 s.engine.read_p s.inbound
  pub sound : Sound s.engine.orderbook
  pub senders : All FromGateway (pending s.engine.read_p s.inbound)
  pub rings : length s.outbounds ≡ num_gateways
  pub pointers : length s.engine.write_p_outbound ≡ num_gateways

index-lt :
    {A : Type 0} (xs : List A) (n : ℕ) → n < length xs → (x : A) × (index xs (pos n) ≡ some (n, x))
unfolding index
index-lt xs n h = let (x, e) = get_elem?-lt xs n h in (x, rw (index, e) refl)

Addressed-of :
    (e : InboundEvent) (m : MatchingEngine) (outbounds : List OutboundRing)
    → FromGateway e
    → length outbounds ≡ num_gateways
    → length m.write_p_outbound ≡ num_gateways
    → Addressed e m outbounds
Addressed-of e m outbounds (n, id, low) rings pointers = elim (Bool-cases e.silent) [
  | inl quiet ↦ nowhere quiet
  | inr loud ↦
      let (ring, at) = index-lt outbounds n (omega arith) in
      let (write_p, pointer) = get_elem?-lt m.write_p_outbound n (omega arith) in
      at_ring n ring write_p loud (ap (index outbounds) id ∙ at) pointer
]

acked-lengths :
    {e : InboundEvent} {m : MatchingEngine} {outbounds : List OutboundRing}
    (to : Addressed e m outbounds) (res : Outcome)
    → (length (acked to res).0 ≡ length m.write_p_outbound)
      × (length (acked to res).1 ≡ length outbounds)
acked-lengths (nowhere _) res = (refl, refl)
acked-lengths {m = m} {outbounds} (at_ring gid outbound write_p _ _ _) res =
    (length-set m.write_p_outbound gid _, length-set outbounds gid _)

read-same_gateway :
    (out : Reading) (g : Gateway) (ring : OutboundRing)
    → (read_from_ring_buffer out g ring).2.gateway_id ≡ g.gateway_id
unfolding read_from_ring_buffer
read-same_gateway out g ring = elim (Bool-cases (Outbox.get g.outbound_read_p ring).is_ready) [
  | inl ready ↦ rw (read_from_ring_buffer, ready) refl
  | inr empty ↦ rw (read_from_ring_buffer, empty) refl
]

called-Fit :
    {s : System} (i : ℕ) (g g' : Gateway) (ring' : InboundRing)
    → Fit s
    → get_elem? s.gateways i ≡ some g
    → Joins 10 s.engine.read_p g s.inbound g' ring'
    → Fit (record s { gateways = set s.gateways i g'; inbound = ring' })
called-Fit {s} i g g' ring' h at j = record {
  ids =
      get_elem?-set (λ n (x : Gateway). (x.gateway_id ≡ pos n) × (n < num_gateways)) s.gateways i g'
        h.ids (j.same_gateway ∙ (h.ids i g at).0, (h.ids i g at).1);
  valid = j.valid;
  sound = h.sound;
  senders = subst (All FromGateway) (sym j.waiting) (
      All-append_one FromGateway (pending s.engine.read_p s.inbound)
        (Inbox.get s.inbound.write_pointer ring') h.senders
        (i, j.sender ∙ (h.ids i g at).0, (h.ids i g at).1));
  rings = h.rings;
  pointers = h.pointers;
}

looked-Fit :
    {s : System} (i : ℕ) (g : Gateway) (outbound : OutboundRing) (out : Reading)
    → Fit s
    → get_elem? s.gateways i ≡ some g
    → Fit (record s {
      gateways = set s.gateways i (read_from_ring_buffer out g outbound).2;
      outbounds = set s.outbounds i (read_from_ring_buffer out g outbound).3;
    })
looked-Fit {s} i g outbound out h at = record {
  ids =
      get_elem?-set (λ n (x : Gateway). (x.gateway_id ≡ pos n) × (n < num_gateways)) s.gateways i _
        h.ids (read-same_gateway out g outbound ∙ (h.ids i g at).0, (h.ids i g at).1);
  valid = h.valid;
  sound = h.sound;
  senders = h.senders;
  rings = length-set s.outbounds i _ ∙ h.rings;
  pointers = h.pointers;
}

system_of : System → Round → System
system_of s (handled m ring outbounds) = record s {
  engine = m;
  inbound = ring;
  outbounds = outbounds;
}
system_of s _ = s

module _ {s : System} (h : Fit s) where
  module _ (e : InboundEvent) (rest : List InboundEvent)
      (queued : pending s.engine.read_p s.inbound ≡ e ∷ rest) where
    senders-left : FromGateway e × All FromGateway rest
    senders-left = subst (All FromGateway) queued h.senders

    pub to : Addressed e s.engine s.outbounds
    to = Addressed-of e s.engine s.outbounds senders-left.0 h.rings h.pointers

    pub round-Handles :
        Handles 10 e rest s.engine s.outbounds to (run s.engine s.inbound s.outbounds)
    round-Handles = run-Handles s.engine s.inbound s.outbounds h.valid h.sound e rest queued to

    round-Fit : Fit (system_of s (run s.engine s.inbound s.outbounds))
    unfolding system_of
    round-Fit =
        let g = round-Handles in
        subst (λ r. Fit (system_of s r)) (sym g.ends)
          (record {
            ids = h.ids;
            valid = g.valid;
            sound = g.sound;
            senders = subst (All FromGateway) (sym g.waiting) senders-left.1;
            rings = (acked-lengths to g.outcome).1 ∙ h.rings;
            pointers = (acked-lengths to g.outcome).0 ∙ h.pointers;
          })

  Step-Fit : {s' : System} → Step s s' → Fit s'
  unfolding system_of
  Step-Fit (called i g g' ring' at call) =
      called-Fit i g g' ring' h at (Calls-Joins g' ring' h.valid call)
  Step-Fit (looked i g outbound out at _) = looked-Fit i g outbound out h at
  Step-Fit (worked m' ring' outbounds' ran) =
      let (e, rest, queued) =
        run-handled s.engine s.inbound s.outbounds h.valid m' ring' outbounds' ran in
      subst (λ r. Fit (system_of s r)) ran (round-Fit e rest queued)

set_up-Fit : Fit set_up
set_up-Fit = record {
  ids = ids_at;
  valid = new-Valid 10;
  sound = (λ _ _. [], empty-Rep, tt);
  senders = tt;
  rings = refl;
  pointers = refl;
}
  where
    ids_at :
        (i : ℕ) (g : Gateway)
        → get_elem? gateways_of_main i ≡ some g
        → (g.gateway_id ≡ pos i) × (i < num_gateways)
    ids_at zero g e = (ap (λ (x : Gateway). x.gateway_id) (sym (some-injective _ g e)), omega arith)
    ids_at (suc zero) g e =
        (ap (λ (x : Gateway). x.gateway_id) (sym (some-injective _ g e)), omega arith)
    ids_at (suc (suc zero)) g e =
        (ap (λ (x : Gateway). x.gateway_id) (sym (some-injective _ g e)), omega arith)
    ids_at (suc (suc (suc zero))) g e =
        (ap (λ (x : Gateway). x.gateway_id) (sym (some-injective _ g e)), omega arith)
    ids_at (suc (suc (suc (suc i)))) g e = cc

Reaches-Fit : {s : System} → Reaches s → Fit s
Reaches-Fit at_start = set_up-Fit
Reaches-Fit (then_step s' earlier step) = Step-Fit (Reaches-Fit earlier) step

idle-failed : {r : Round} → r ≡ idle → r ≡ failed → ⊥
idle-failed e f = cc

handled-failed :
    {m : MatchingEngine} {ring : InboundRing} {outbounds : List OutboundRing} {r : Round}
    → r ≡ handled m ring outbounds
    → r ≡ failed
    → ⊥
handled-failed e f = cc

-- In every state of main.cpp, in any order of its calls, reads and rounds, a round of the engine does
-- not fail: it never indexes the outbound rings or their write pointers out of range, and the order book
-- never follows a bad pointer.
pub Reaches-run : (s : System) → Reaches s → run s.engine s.inbound s.outbounds ≢ failed
Reaches-run s reached =
    let h = Reaches-Fit reached in
    elim (List-cases (pending s.engine.read_p s.inbound)) [
      | inl none_left ↦ idle-failed (run-idle s.engine s.inbound s.outbounds h.valid none_left)
      | inr (e, rest, queued) ↦ handled-failed (round-Handles h e rest queued).ends
    ]
