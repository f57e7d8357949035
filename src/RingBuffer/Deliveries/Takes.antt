-- ===== src/RingBuffer/Deliveries/Takes.antt =====
-- What the consumer's turn does to the claimed numbers
use native.Mathlib.Nat.{add-mod_right}
use distributed_orderbook.Prelude.{
  ℕ, ◌+◌, ◌<◌, ◌≡◌, sym, ap, ◌∙◌, true, false, some, List, [], ◌∷◌, ◌++◌, inl, inr, arith, ◌==◌,
  ==→eq, ltb, ltb→lt, get_or, Bool-cases,
}
use distributed_orderbook.RingBuffer.Types.{InboundEvent, InboundRing, default_inbound}
use distributed_orderbook.RingBuffer.Inbox.{get, release}
use distributed_orderbook.RingBuffer.Slots.{slot_mod, size_pos}
use distributed_orderbook.RingBuffer.Inbound.{amend-Ring, get-amend_self, get-amend_ne}
use distributed_orderbook.RingBuffer.Producers.{State}
use distributed_orderbook.RingBuffer.Deliveries.{Log, next, Held, waiting, unfinished, Delivers}

module _ {k : ℕ} {s : State} {log : Log} {taken : List InboundEvent} (h : Delivers k s log taken)
    (ready : (get s.read s.ring).is_ready ≡ true) where
  abbrev left : InboundRing
  left = release s.read s.ring

  abbrev moved : State
  moved = record s { ring = left; read = s.read + 1 }

  some_left : s.read < s.ring.write_pointer
  some_left = elim (Bool-cases (ltb s.read s.ring.write_pointer)) [
    | inl low ↦ ltb→lt s.read s.ring.write_pointer low
    | inr not_low ↦
        (let empty = h.free s.read (ground arith) (omega (arith, size_pos h.ring)) in
          cc (sym ready ∙ empty))
  ]

  oldest : log s.read ≡ some (get s.read s.ring)
  oldest = elim (h.held s.read (omega arith) some_left) [
    | waiting _ is ↦ is
    | unfinished _ _ empty _ ↦ cc (sym ready ∙ empty)
  ]

  left_other : (a : ℕ) → s.read < a → a < s.read + s.ring.size → get a left ≡ get a s.ring
  left_other a low high =
      get-amend_ne s.ring h.ring s.read (λ e. record e { is_ready = false }) a (omega arith)
        (omega arith) high

  left-Held : (a : ℕ) → s.read < a → a < s.ring.write_pointer → Held moved log a
  left-Held a low high =
      let same = left_other a low (omega (arith, h.fits)) in
      elim (h.held a (omega arith) high) [
        | waiting full is ↦
            waiting (ap (λ (e : InboundEvent). e.is_ready) same ∙ full) (is ∙ ap some (sym same))
        | unfinished q owner empty not_yet ↦
            unfinished q owner (ap (λ (e : InboundEvent). e.is_ready) same ∙ empty) not_yet
      ]

  -- The slot of the oldest number is that of the number a ring later.
  left_free : (get (s.read + s.ring.size) left).is_ready ≡ false
  left_free =
      ap (λ i. (get_or left.buffer i default_inbound).is_ready)
        (slot_mod h.ring (s.read + s.ring.size)
          ∙ add-mod_right s.read s.ring.size
          ∙ sym (slot_mod h.ring s.read))
      ∙ ap (λ (e : InboundEvent). e.is_ready)
          (get-amend_self s.ring h.ring s.read (λ e. record e { is_ready = false }))

  pub Delivers-take : Delivers k moved log (taken ++ get s.read s.ring ∷ [])
  Delivers-take = record {
    ring = amend-Ring s.ring h.ring s.read (λ e. record e { is_ready = false });
    behind = omega (arith, some_left);
    fits = omega (arith, h.fits);
    in_order = next (get s.read s.ring) h.in_order oldest;
    held = λ a low high. left-Held a (omega arith) high;
    free = λ a low high. elim (Bool-cases (a == s.read + s.ring.size)) [
      | inl same ↦ ap (λ x. (get x left).is_ready) (==→eq a (s.read + s.ring.size) same) ∙ left_free
      | inr other ↦
          ap (λ (e : InboundEvent). e.is_ready)
            (left_other a (omega (arith, some_left)) (ground arith))
          ∙ h.free a low (ground arith)
    ];
    unclaimed = h.unclaimed;
    unsent = h.unsent;
  }
