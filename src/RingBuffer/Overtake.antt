-- ===== src/RingBuffer/Overtake.antt =====
-- A producer that stops between `claim` and `publish` is overtaken: the others go round the ring.
use mathlib.Core.Path.{subst}
use distributed_orderbook.Prelude.{
  ℕ, zero, suc, ◌+◌, ◌-◌, ◌%◌, ◌<◌, ◌≤◌, ◌^◌, bit_and, ◌≡◌, ◌≢◌, refl, sym, ap, ap₂, ◌∙◌, true,
  false, get_or-replicate, arith,
}
use distributed_orderbook.Prelude.Bits.{pow_pos}
use distributed_orderbook.RingBuffer.Types.{InboundEvent, InboundRing, default_inbound}
use distributed_orderbook.RingBuffer.Inbox.{new, get, amend, publish}
use distributed_orderbook.RingBuffer.Slots.{Ring, slot_mod}
use distributed_orderbook.RingBuffer.Inbound.{new-Valid, amend-Ring, get-amend_ne}
use distributed_orderbook.RingBuffer.Producers.{
  idle, loaded, cleared, owns, State, set_phase, phase_self, phase_ne, load, pass, swap, send,
  Reaches, start, after,
}
use native.Mathlib.Nat.{mod_self}

-- A round of `claim` that no other producer disturbs
module _ {k : ℕ} (s : State) (reached : Reaches k s) (p : ℕ) (rests : s.phase p ≡ idle)
    (is_free : (get s.ring.write_pointer s.ring).is_ready ≡ false) where
  abbrev seq : ℕ
  seq = s.ring.write_pointer

  abbrev tested : State
  tested = set_phase p (cleared seq) (set_phase p (loaded seq) s)

  abbrev claimed : State
  claimed =
      set_phase p (owns seq) (record tested { ring = record (s.ring) { write_pointer = seq + 1 } })

  claimed-Reaches : Reaches k claimed
  claimed-Reaches =
      after claimed
        (after tested (after (set_phase p (loaded seq) s) reached (load p seq rests (omega arith)))
          (pass p seq (phase_self p (loaded seq) s) is_free))
        (swap p (phase_self p (cleared seq) (set_phase p (loaded seq) s)))

  claimed-owns : claimed.phase p ≡ owns seq
  claimed-owns =
      phase_self p (owns seq) (record tested { ring = record (s.ring) { write_pointer = seq + 1 } })

  claimed_other : (q : ℕ) → q ≢ p → claimed.phase q ≡ s.phase q
  claimed_other q ne =
      phase_ne p q (owns seq) (record tested { ring = record (s.ring) { write_pointer = seq + 1 } })
        ne
      ∙ phase_ne p q (cleared seq) (set_phase p (loaded seq) s) ne
      ∙ phase_ne p q (loaded seq) s ne

-- Producer 0 owns the first slot, and producer 1 has published the next `i`.
record Stalled (k i : ℕ) (s : State) : Type 0 where
  pub reached : Reaches k s
  pub stopped : s.phase 0 ≡ owns 0
  pub rests : s.phase 1 ≡ idle
  pub pointer : s.ring.write_pointer ≡ i + 1
  pub ring : Ring k s.ring.buffer s.ring.size s.ring.mask
  pub free : (x : ℕ) → i < x → x ≤ 2 ^ k → (get x s.ring).is_ready ≡ false

module _ (k : ℕ) where
  abbrev first : State
  first = record { ring = new (2 ^ k); read = 0; phase = λ _. idle }

  all_free : (x : ℕ) → (get x (new (2 ^ k))).is_ready ≡ false
  all_free x =
      ap (λ (e : InboundEvent). e.is_ready)
        (get_or-replicate (2 ^ k) (bit_and x (2 ^ k - 1)) default_inbound)

  Stalled-zero : Stalled k 0 (claimed first start 0 refl (all_free 0))
  Stalled-zero = record {
    reached = claimed-Reaches first start 0 refl (all_free 0);
    stopped = claimed-owns first start 0 refl (all_free 0);
    rests = claimed_other first start 0 refl (all_free 0) 1 (omega arith);
    pointer = refl;
    ring = (new-Valid k).ring;
    free = λ x _ _. all_free x;
  }

  module _ (i : ℕ) (s : State) (h : Stalled k i s) (more : i + 1 < 2 ^ k) where
    is_free : (get s.ring.write_pointer s.ring).is_ready ≡ false
    is_free =
        ap (λ x. (get x s.ring).is_ready) h.pointer ∙ h.free (i + 1) (omega arith) (omega arith)

    abbrev mid : State
    mid = claimed s h.reached 1 h.rests is_free

    abbrev posted : InboundRing
    posted = amend s.ring.write_pointer (λ e. e) mid.ring

    abbrev sent : State
    sent = set_phase 1 idle (record mid { ring = publish s.ring.write_pointer posted })

    posted-Ring : Ring k posted.buffer s.ring.size s.ring.mask
    posted-Ring = amend-Ring s.ring h.ring s.ring.write_pointer (λ e. e)

    sent_other : (x : ℕ) → i + 1 < x → x ≤ 2 ^ k → get x sent.ring ≡ get x s.ring
    sent_other x above below =
        let ne : s.ring.write_pointer ≢ x = omega (arith, h.pointer) in
        let low : s.ring.write_pointer < x + s.ring.size = omega (arith, h.pointer) in
        let high : x < s.ring.write_pointer + s.ring.size =
          omega (arith, h.pointer, h.ring.power) in
        get-amend_ne posted posted-Ring s.ring.write_pointer (λ e. record e { is_ready = true }) x
          ne low high
        ∙ get-amend_ne s.ring h.ring s.ring.write_pointer (λ e. e) x ne low high

    Stalled-suc : Stalled k (i + 1) sent
    Stalled-suc = record {
      reached =
          after sent (claimed-Reaches s h.reached 1 h.rests is_free)
            (send 1 s.ring.write_pointer (λ e. e) (claimed-owns s h.reached 1 h.rests is_free));
      stopped = claimed_other s h.reached 1 h.rests is_free 0 (omega arith) ∙ h.stopped;
      rests = refl;
      pointer = ap (λ x. x + 1) h.pointer;
      ring = amend-Ring posted posted-Ring s.ring.write_pointer (λ e. record e { is_ready = true });
      free = λ x above below.
          ap (λ (e : InboundEvent). e.is_ready) (sent_other x above below)
          ∙ h.free x (omega arith) below;
    }

  stalled : (i : ℕ) → i < 2 ^ k → (s : State) × Stalled k i s
  stalled zero h = (claimed first start 0 refl (all_free 0), Stalled-zero)
  stalled (suc i) h =
      let (s, st) = stalled i (omega arith) in
      let next : i + 1 ≡ suc i = omega arith in
      (
        sent i s st (omega arith),
        subst (λ j. Stalled k j (sent i s st (omega arith))) next
            (Stalled-suc i s st (omega arith)),
      )

-- A slot is claimed twice: whatever the size of the ring, there is a run in which a producer has claimed
-- a slot and not published it, and another claims the same slot, at a sequence number a ring later.
pub claim-overtakes :
    (k : ℕ)
    → (s : State) × (a : ℕ) × (b : ℕ) × Reaches k s
      × (s.phase 0 ≡ owns a)
      × (s.phase 1 ≡ owns b)
      × (b ≡ a + 2 ^ k)
      × (bit_and a s.ring.mask ≡ bit_and b s.ring.mask)
claim-overtakes k =
    let (s, h) = stalled k (2 ^ k - 1) (omega (arith, pow_pos k)) in
    let last : s.ring.write_pointer ≡ 2 ^ k = omega (arith, h.pointer, pow_pos k) in
    let is_free : (get s.ring.write_pointer s.ring).is_ready ≡ false =
      ap (λ x. (get x s.ring).is_ready) last
      ∙ h.free (2 ^ k) (omega (arith, pow_pos k)) (omega arith) in
    (
      claimed s h.reached 1 h.rests is_free,
      0,
      s.ring.write_pointer,
      claimed-Reaches s h.reached 1 h.rests is_free,
      claimed_other s h.reached 1 h.rests is_free 0 (omega arith) ∙ h.stopped,
      claimed-owns s h.reached 1 h.rests is_free,
      last ∙ from_zero,
      slot_mod h.ring 0
          ∙ ap (λ m. 0 % m) h.ring.power
          ∙ zero_slot
          ∙ sym (
              slot_mod h.ring s.ring.write_pointer
              ∙ ap₂ (λ x m. x % m) last h.ring.power
              ∙ mod_self (2 ^ k)),
    )
  where
    zero_slot : 0 % 2 ^ k ≡ 0
    zero_slot = omega (arith, pow_pos k)

    from_zero : 2 ^ k ≡ 0 + 2 ^ k
    from_zero = omega arith
