-- ===== src/RingBuffer/Deliveries/Claims.antt =====
-- What the compare and swap of a producer does to the claimed numbers
use mathlib.Core.Path.{subst}
use distributed_orderbook.Prelude.{
  ℕ, ◌+◌, ◌≤◌, ◌≡◌, ◌≢◌, sym, ap, ◌∙◌, false, List, inl, inr, arith, ◌==◌, ==→eq, Bool-cases,
}
use distributed_orderbook.RingBuffer.Types.{InboundEvent}
use distributed_orderbook.RingBuffer.Producers.{
  owns, State, set_phase, set_phase-cases, phase_self, phase_ne, is_owner, owned,
}
use distributed_orderbook.RingBuffer.Deliveries.{Log, Held, waiting, unfinished, Delivers}

module _ {k : ℕ} {s : State} {log : Log} {taken : List InboundEvent}
    (h : Delivers k s log taken) where
  -- `write_pointer` moves on, to the claim of producer `p`.
  abbrev bumped : State
  bumped = record s { ring = record (s.ring) { write_pointer = s.ring.write_pointer + 1 } }

  abbrev swapped : ℕ → State
  swapped p = set_phase p (owns s.ring.write_pointer) bumped

  swapped-Held :
      (p seq : ℕ) → is_owner (s.phase p) ≡ false → Held s log seq → Held (swapped p) log seq
  swapped-Held p seq before (waiting ready is) = waiting ready is
  swapped-Held p seq before (unfinished q owner empty not_yet) =
      let other : q ≢ p =
        λ same. cc (sym before ∙ ap (λ r. is_owner (s.phase r)) (sym same) ∙ ap is_owner owner) in
      unfinished q (phase_ne p q (owns s.ring.write_pointer) bumped other ∙ owner) empty not_yet

  pub Delivers-swap :
      (p : ℕ)
      → is_owner (s.phase p) ≡ false
      → s.ring.write_pointer + 1 ≤ s.read + s.ring.size
      → Delivers k (swapped p) log taken
  Delivers-swap p before room = record {
    ring = h.ring;
    behind = omega (arith, h.behind);
    fits = room;
    in_order = h.in_order;
    held = λ seq low high. elim (Bool-cases (seq == s.ring.write_pointer)) [
      | inl same ↦ subst (Held (swapped p) log) (sym (==→eq seq s.ring.write_pointer same)) (
          unfinished p (phase_self p (owns s.ring.write_pointer) bumped)
            (h.free s.ring.write_pointer (omega arith) (omega arith))
            (h.unclaimed s.ring.write_pointer (omega arith)))
      | inr other ↦ swapped-Held p seq before (h.held seq low (ground arith))
    ];
    free = λ seq low high. h.free seq (omega arith) high;
    unclaimed = λ seq low. h.unclaimed seq (omega arith);
    unsent = λ q seq e. elim (set_phase-cases p q (owns s.ring.write_pointer) (owns seq) bumped e) [
      | inl (_, is) ↦ h.unclaimed seq (omega (arith, ap owned is))
      | inr (_, old) ↦ h.unsent q seq old
    ];
  }
