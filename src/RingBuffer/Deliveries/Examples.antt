-- ===== src/RingBuffer/Deliveries/Examples.antt =====
-- Two producers at a ring of two slots: producer 1 claims the second slot and publishes first.
use distributed_orderbook.Prelude.{ℕ, bit_and, ◌≢◌, refl, List, arith}
use distributed_orderbook.Prelude.Int.{pos}
use distributed_orderbook.RingBuffer.Types.{InboundEvent}
use distributed_orderbook.RingBuffer.Producers.{State, load, pass, swap, send, take}
use distributed_orderbook.RingBuffer.Deliveries.{Log, Runs, begin, then_step, Delivers}
use distributed_orderbook.RingBuffer.Deliveries.Ends.{Runs-Delivers, Runs-own_slots}

abbrev Some : Type 0
Some = (s : State) × (log : Log) × (taken : List InboundEvent) × Runs 1 s log taken

abbrev one_claimed : Some
one_claimed = (
  _,
  _,
  _,
  then_step _
      (then_step _ (then_step _ begin (load 0 0 refl (omega arith)) (omega arith))
        (pass 0 0 refl refl) (omega arith))
      (swap 0 refl) (omega arith),
)

abbrev both_claimed : Some
both_claimed = (
  _,
  _,
  _,
  then_step _
      (then_step _ (then_step _ one_claimed.3 (load 1 1 refl (omega arith)) (omega arith))
        (pass 1 1 refl refl) (omega arith))
      (swap 1 refl) (omega arith),
)

abbrev of_gateway : ℕ → InboundEvent → InboundEvent
of_gateway n e = record e { gateway_id = pos n }

abbrev one_taken : Some
one_taken = (
  _,
  _,
  _,
  then_step _
      (then_step _ (then_step _ both_claimed.3 (send 1 1 (of_gateway 1) refl) (omega arith))
        (send 0 0 (of_gateway 0) refl) (omega arith))
      (take refl) (omega arith),
)

two_producers : ◌≢◌ {A = ℕ} 0 1
two_producers e = absurd (omega arith)

Runs-own_slots_example : bit_and 0 both_claimed.0.ring.mask ≢ bit_and 1 both_claimed.0.ring.mask
Runs-own_slots_example =
    Runs-own_slots both_claimed.0 0 1 0 1 both_claimed.3 refl refl two_producers

Runs-Delivers_example : Delivers 1 one_taken.0 one_taken.1 one_taken.2
Runs-Delivers_example = Runs-Delivers one_taken.0 one_taken.3
