-- ===== src/MainReplay/Released.antt =====
-- The test of main_replay.cpp for a ring that the engine has emptied.
use native.Mathlib.Nat.{mod-lt, mod-mod, mod-add-mod, add-mod_left}
use distributed_orderbook.Prelude.{
  ℕ, zero, suc, ◌+◌, ◌-◌, ◌%◌, ◌<◌, ◌≤◌, ◌≡◌, refl, sym, ap, ◌∙◌, Bool, true, false, not, ◌&&◌, ◌↔◌,
  inl, inr, Bool-cases, ltb, ltb→lt, ◌==◌, ==→eq, if◌then◌else◌, get_or, [], arith,
}
use distributed_orderbook.RingBuffer.Types.{InboundEvent, InboundRing, default_inbound}
use distributed_orderbook.RingBuffer.Inbox
use distributed_orderbook.RingBuffer.Inbound.{Valid, pending, pending-nil}
use distributed_orderbook.RingBuffer.Protocol.{values_from}
use distributed_orderbook.RingBuffer.Slots.{slot_mod, size_pos}
use distributed_orderbook.MainReplay.{released, all_released}

released-true :
    (n : ℕ) (ring : InboundRing)
    → ((i : ℕ) → i < n → (Inbox.get i ring).is_ready ≡ false)
    → released n ring ≡ true
released-true zero ring h = refl
released-true (suc n) ring h =
    rw (h n (omega arith), released-true n ring (λ i g. h i (omega arith))) refl

not-true : (b : Bool) → not b ≡ true → b ≡ false
not-true true h = sym h
not-true false h = refl

and-true : (b c : Bool) → (b && c) ≡ true → (b ≡ true) × (c ≡ true)
and-true true c h = (refl, h)
and-true false c h = cc

released-at :
    (n i : ℕ) (ring : InboundRing)
    → released n ring ≡ true
    → i < n
    → (Inbox.get i ring).is_ready ≡ false
released-at zero i ring h g = absurd (omega arith)
released-at (suc n) i ring h g = elim (Bool-cases (i == n)) [
  | inl e ↦ ap (λ j. (Inbox.get j ring).is_ready) (==→eq i n e) ∙ not-true _ (and-true _ _ h).0
  | inr e ↦ released-at n i ring (and-true _ _ h).1 (ground arith)
]

module _ {k read : ℕ} (ring : InboundRing) (valid : Valid k read ring) where
  -- Sequence numbers with the same remainder have the same slot.
  same_slot : (a b : ℕ) → a % ring.size ≡ b % ring.size → Inbox.get a ring ≡ Inbox.get b ring
  same_slot a b e =
      ap (λ i. get_or ring.buffer i default_inbound)
        (slot_mod valid.ring a ∙ e ∙ sym (slot_mod valid.ring b))

  module _ (i : ℕ) (h : i < ring.size) where
    -- the first sequence number from `read` on that has slot `i`
    seq : ℕ
    seq =
        if ltb i (read % ring.size)
        then read + (ring.size + i - read % ring.size)
        else read + (i - read % ring.size)

    seq_low : read ≤ seq
    unfolding seq
    seq_low = ground arith

    seq_high : seq < read + ring.size
    unfolding seq
    seq_high = ground (arith, mod-lt read (size_pos valid.ring))

    at_distance :
        (d : ℕ)
        → (read % ring.size + d) % ring.size ≡ i % ring.size
        → (read + d) % ring.size ≡ i % ring.size
    at_distance d e = sym (mod-add-mod read ring.size d) ∙ e

    seq_slot : seq % ring.size ≡ i % ring.size
    unfolding seq
    seq_slot = elim (Bool-cases (ltb i (read % ring.size))) [
      | inl e ↦ rw e (
          at_distance (ring.size + i - read % ring.size)
            (ap (λ x. x % ring.size) (around e) ∙ add-mod_left ring.size i))
      | inr e ↦ rw e (at_distance (i - read % ring.size) (ap (λ x. x % ring.size) (ahead e)))
    ]
      where
        around :
            ltb i (read % ring.size) ≡ true
            → read % ring.size + (ring.size + i - read % ring.size) ≡ ring.size + i
        around e = ground (arith, mod-lt read (size_pos valid.ring))

        ahead : ltb i (read % ring.size) ≡ false → read % ring.size + (i - read % ring.size) ≡ i
        ahead e = ground arith

  empty-released : pending read ring ≡ [] → all_released ring ≡ true
  unfolding all_released
  empty-released none_left = released-true ring.size ring λ i h.
      ap (λ (e : InboundEvent). e.is_ready) (same_slot i (seq i h) (sym (seq_slot i h)))
      ∙ valid.is_free (seq i h) (omega (arith, pending-nil ring read none_left, seq_low i h))
          (seq_high i h)

  released-empty : all_released ring ≡ true → ring.write_pointer ≤ read
  unfolding all_released
  released-empty h = elim (Bool-cases (ltb read ring.write_pointer)) [
    | inl e ↦ absurd (
        cc (
          sym (valid.is_ready read (omega arith) (ltb→lt read ring.write_pointer e))
          ∙ ap (λ (x : InboundEvent). x.is_ready)
              (same_slot read (read % ring.size) (sym (mod-mod read ring.size)))
          ∙ released-at ring.size (read % ring.size) ring h (mod-lt read (size_pos valid.ring))))
    | inr e ↦ ground arith
  ]

  -- On a valid ring the program's wait ends exactly when no event waits: no slot is ready.
  pub all_released_iff : (all_released ring ≡ true) ↔ (pending read ring ≡ [])
  all_released_iff = (λ h. no_events (released-empty h), empty-released)
    where
      no_events : ring.write_pointer ≤ read → pending read ring ≡ []
      no_events h =
          let nothing : ring.write_pointer - read ≡ 0 = omega arith in
          ap (values_from default_inbound ring.buffer ring.mask read) nothing
