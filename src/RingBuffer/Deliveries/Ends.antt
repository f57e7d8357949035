-- ===== src/RingBuffer/Deliveries/Ends.antt =====
-- Runs of several producers and the consumer in which `write_pointer` stays within one ring
use distributed_orderbook.Prelude.{
  ℕ, ◌+◌, ◌≤◌, ◌^◌, bit_and, ◌≡◌, ◌≢◌, refl, sym, ap, ◌∙◌, false, none, List, [], arith,
}
use distributed_orderbook.RingBuffer.Types.{InboundEvent}
use distributed_orderbook.RingBuffer.Inbox.{new}
use distributed_orderbook.RingBuffer.Slots.{slot_mod, mod_differ}
use distributed_orderbook.RingBuffer.Inbound.{new-Valid}
use distributed_orderbook.RingBuffer.Producers.{
  Phase, idle, loaded, cleared, owns, State, Step, load, spin, pass, swap, retry, send, take,
  Reaches, start, after, Fair, Reaches-Fair, is_owner,
}
use distributed_orderbook.RingBuffer.Deliveries.{
  Log, logged, taken_by, Runs, begin, then_step, none_yet, Delivers, Delivers-phase,
}
use distributed_orderbook.RingBuffer.Deliveries.Orders.{owned_low}
use distributed_orderbook.RingBuffer.Deliveries.Claims.{Delivers-swap}
use distributed_orderbook.RingBuffer.Deliveries.Sends.{Delivers-send}
use distributed_orderbook.RingBuffer.Deliveries.Takes.{Delivers-take}

Runs-Reaches :
    {k : ℕ} {log : Log} {taken : List InboundEvent} (s : State) → Runs k s log taken → Reaches k s
Runs-Reaches _ begin = start
Runs-Reaches _ (then_step {s} s' earlier step _) = after s' (Runs-Reaches s earlier) step

begin-Delivers :
    (k : ℕ) → Delivers k (record { ring = new (2 ^ k); read = 0; phase = λ _. idle }) (λ _. none) []
begin-Delivers k =
    let v = new-Valid k in
    record {
      ring = v.ring;
      behind = v.behind;
      fits = v.fits;
      in_order = none_yet;
      held = λ seq low high. absurd (omega arith);
      free = v.is_free;
      unclaimed = λ seq low. refl;
      unsent = λ p seq e. refl;
    }

owns_not : {x y : Phase} → x ≡ y → is_owner y ≡ false → is_owner x ≡ false
owns_not e inert = ap is_owner e ∙ inert

Step-Delivers :
    {k : ℕ} {s : State} {log : Log} {taken : List InboundEvent} (s' : State)
    → Delivers k s log taken
    → Fair s
    → (step : Step s s') → s'.ring.write_pointer ≤ s'.read + 2 ^ k
    → Delivers k s' (logged step log) (taken_by step taken)
Step-Delivers _ h fair (load p seq at _) room =
    Delivers-phase h p (loaded seq) (owns_not at refl) refl
Step-Delivers _ h fair (spin p seq seq' at _ _) room =
    Delivers-phase h p (loaded seq') (owns_not at refl) refl
Step-Delivers _ h fair (pass p seq at _) room =
    Delivers-phase h p (cleared seq) (owns_not at refl) refl
Step-Delivers _ h fair (swap p at) room =
    Delivers-swap h p (owns_not at refl) (omega (arith, room, h.ring.power))
Step-Delivers _ h fair (retry p seq at) room = Delivers-phase h p idle (owns_not at refl) refl
Step-Delivers _ h fair (send p seq f at) room = Delivers-send h fair p seq f at
Step-Delivers _ h fair (take ready) room = Delivers-take h ready

-- While `write_pointer` stays within one ring of the consumer, whatever the order of the accesses of the
-- producers and the consumer: the consumer has taken the events published at the numbers from 0 on, one
-- for each number, in their order. Each claimed number behind these has its event, as it was published,
-- in its slot, or is owned by a producer that has not published yet. No event is published at a number
-- that is not claimed, or that a producer owns.
pub Runs-Delivers :
    {k : ℕ} {log : Log} {taken : List InboundEvent} (s : State)
    → Runs k s log taken
    → Delivers k s log taken
Runs-Delivers {k} _ begin = begin-Delivers k
Runs-Delivers _ (then_step {s} s' earlier step room) =
    Step-Delivers s' (Runs-Delivers s earlier) (Reaches-Fair s (Runs-Reaches s earlier)) step room

-- While `write_pointer` stays within one ring of the consumer, two producers that have claimed and not
-- published have different slots of the ring, so neither writes into the event of the other.
pub Runs-own_slots :
    {k : ℕ} {log : Log} {taken : List InboundEvent} (s : State) (p q a b : ℕ)
    → Runs k s log taken
    → s.phase p ≡ owns a
    → s.phase q ≡ owns b
    → p ≢ q
    → bit_and a s.ring.mask ≢ bit_and b s.ring.mask
Runs-own_slots s p q a b run at_a at_b ne same =
    let h = Runs-Delivers s run in
    let fair = Reaches-Fair s (Runs-Reaches s run) in
    let differ : a ≢ b = λ e. ne (fair.apart p q b (at_a ∙ ap owns e) at_b) in
    mod_differ s.ring.size a b differ
      (omega (arith, fair.below p a at_a, h.fits, owned_low q b h at_b))
      (omega (arith, fair.below q b at_b, h.fits, owned_low p a h at_a))
      (sym (slot_mod h.ring a) ∙ same ∙ slot_mod h.ring b)
