-- ===== src/RingBuffer/Deliveries/Sends.antt =====
-- What `publish` by the owner of a number does to the claimed numbers
use mathlib.Core.Path.{subst}
use distributed_orderbook.Prelude.{
  ℕ, ◌+◌, ◌<◌, ◌≤◌, ◌≡◌, ◌≢◌, refl, sym, ap, ◌∙◌, true, some, List, inl, inr, arith, ◌==◌, ==→eq,
  ==-refl, ne→==, Bool-cases,
}
use distributed_orderbook.RingBuffer.Types.{InboundEvent, InboundRing}
use distributed_orderbook.RingBuffer.Inbox.{get, amend, publish}
use distributed_orderbook.RingBuffer.Slots.{Ring}
use distributed_orderbook.RingBuffer.Inbound.{amend-Ring, get-amend_self, get-amend_ne}
use distributed_orderbook.RingBuffer.Producers.{
  idle, owns, State, set_phase, Fair, set_phase-cases, phase_ne, is_owner, owned,
}
use distributed_orderbook.RingBuffer.Deliveries.{Log, note, Held, waiting, unfinished, Delivers}
use distributed_orderbook.RingBuffer.Deliveries.Orders.{InOrder-same, owned_low}

note_self : (seq : ℕ) (e : InboundEvent) (log : Log) → note seq e log seq ≡ some e
note_self seq e log = rw (==-refl seq) refl

note_ne : (seq i : ℕ) (e : InboundEvent) (log : Log) → i ≢ seq → note seq e log i ≡ log i
note_ne seq i e log ne = rw (ne→== i seq ne) refl

module _ {k : ℕ} {s : State} {log : Log} {taken : List InboundEvent} (h : Delivers k s log taken)
    (fair : Fair s) (p seq : ℕ) (f : InboundEvent → InboundEvent)
    (owner : s.phase p ≡ owns seq) where
  abbrev filled : InboundRing
  filled = amend seq f s.ring

  abbrev posted : InboundRing
  posted = publish seq filled

  abbrev log' : Log
  log' = note seq (get seq posted) log

  abbrev sent : State
  sent = set_phase p idle (record s { ring = posted })

  filled-Ring : Ring k filled.buffer s.ring.size s.ring.mask
  filled-Ring = amend-Ring s.ring h.ring seq f

  posted_ready : (get seq posted).is_ready ≡ true
  posted_ready =
      ap (λ (e : InboundEvent). e.is_ready)
        (get-amend_self filled filled-Ring seq (λ e. record e { is_ready = true }))

  behind_seq : s.read ≤ seq
  behind_seq = owned_low p seq h owner

  posted_other :
      (a : ℕ) → a ≢ seq → s.read ≤ a → a < s.read + s.ring.size → get a posted ≡ get a s.ring
  posted_other a ne low high =
      let near : seq < a + s.ring.size = omega (arith, fair.below p seq owner, h.fits) in
      let near' : a < seq + s.ring.size = omega (arith, behind_seq) in
      let other : seq ≢ a = λ e. ne (sym e) in
      get-amend_ne filled filled-Ring seq (λ e. record e { is_ready = true }) a other near near'
      ∙ get-amend_ne s.ring h.ring seq f a other near near'

  sent-Held : (a : ℕ) → a ≢ seq → s.read ≤ a → a < s.ring.write_pointer → Held sent log' a
  sent-Held a ne low high =
      let same = posted_other a ne low (omega (arith, h.fits)) in
      elim (h.held a low high) [
        | waiting ready is ↦
            waiting (ap (λ (e : InboundEvent). e.is_ready) same ∙ ready)
              (note_ne seq a (get seq posted) log ne ∙ is ∙ ap some (sym same))
        | unfinished q other empty not_yet ↦
            unfinished q
              (phase_ne p q idle (record s { ring = posted })
                  (λ here. ne (ap owned (sym other ∙ ap s.phase here ∙ owner)))
                ∙ other)
              (ap (λ (e : InboundEvent). e.is_ready) same ∙ empty)
              (note_ne seq a (get seq posted) log ne ∙ not_yet)
      ]

  pub Delivers-send : Delivers k sent log' taken
  Delivers-send = record {
    ring = amend-Ring filled filled-Ring seq (λ e. record e { is_ready = true });
    behind = h.behind;
    fits = h.fits;
    in_order =
        InOrder-same h.in_order
          (λ i low. note_ne seq i (get seq posted) log (omega (arith, behind_seq)));
    held = λ a low high. elim (Bool-cases (a == seq)) [
      | inl same ↦
          subst (Held sent log') (sym (==→eq a seq same))
            (waiting posted_ready (note_self seq (get seq posted) log))
      | inr other ↦ sent-Held a (ground arith) low high
    ];
    free = λ a low high.
        ap (λ (e : InboundEvent). e.is_ready)
          (posted_other a (omega (arith, fair.below p seq owner)) (omega (arith, h.behind)) high)
        ∙ h.free a low high;
    unclaimed = λ a low.
        note_ne seq a (get seq posted) log (omega (arith, fair.below p seq owner))
        ∙ h.unclaimed a low;
    unsent = λ q a e. elim (set_phase-cases p q idle (owns a) (record s { ring = posted }) e) [
      | inl (_, is) ↦ (let wrong = ap is_owner is in cc)
      | inr (ne, old) ↦
          note_ne seq a (get seq posted) log
            (λ same. ne (fair.apart q p seq (old ∙ ap owns same) owner))
          ∙ h.unsent q a old
    ];
  }
