-- ===== src/RingBuffer/Inbound.antt =====
-- The inbound ring holds the events that are published and not released, in the order of their claims.
use mathlib.Core.Path.{subst}
use native.Mathlib.Nat.{add-mod_right}
use distributed_orderbook.Prelude.{
  ℕ, zero, suc, ◌+◌, ◌-◌, ◌%◌, ◌^◌, ◌<◌, ◌≤◌, bit_and, ◌≡◌, ◌≢◌, refl, sym, ap, ◌∙◌, Bool, set,
  set-set, true, false, none, some, List, [], ◌∷◌, ◌++◌, arith, length, get_or, length-set,
  length-replicate, get_or-replicate,
}
use distributed_orderbook.RingBuffer.Types.{InboundEvent, default_inbound, InboundRing}
use distributed_orderbook.RingBuffer.Inbox.{new, get, amend, claim, publish, release}
use distributed_orderbook.RingBuffer.Protocol.{
  values_from, put, Open, put-Open, put-values, take-Open, take-values,
}
use distributed_orderbook.RingBuffer.Slots.{Ring, slot_mod, size_pos, get-set_self, get-set_ne}

abbrev pub ready : InboundEvent → Bool
ready e = e.is_ready

-- The consumer is at `read`. The slots from there to `write_pointer` are ready and the others are not.
abbrev pub Valid : ℕ → ℕ → InboundRing → Type 0
Valid k read r = Open default_inbound ready k read r.write_pointer r.buffer r.size r.mask

-- The events that wait for the consumer, the oldest first
abbrev pub pending : ℕ → InboundRing → List InboundEvent
pending read r = values_from default_inbound r.buffer r.mask read (r.write_pointer - read)

module _ {k : ℕ} (r : InboundRing) (ring : Ring k r.buffer r.size r.mask) (seq : ℕ)
    (f : InboundEvent → InboundEvent) where
  pub amend-Ring : Ring k (amend seq f r).buffer r.size r.mask
  amend-Ring = record {
    power = ring.power;
    masks = ring.masks;
    filled = length-set r.buffer (bit_and seq r.mask) (f (get seq r)) ∙ ring.filled;
  }

  pub get-amend_self : get seq (amend seq f r) ≡ f (get seq r)
  get-amend_self = get-set_self ring seq (f (get seq r)) default_inbound

  pub get-amend_ne :
      (a : ℕ) → seq ≢ a → seq < a + r.size → a < seq + r.size → get a (amend seq f r) ≡ get a r
  get-amend_ne a ne above below =
      get-set_ne ring seq a (f (get seq r)) default_inbound ne above below

length-values :
    (r : InboundRing) (lo n : ℕ) → length (values_from default_inbound r.buffer r.mask lo n) ≡ n
length-values r lo zero = refl
length-values r lo (suc n) = ap suc (length-values r (lo + 1) n)

pub length-pending : (r : InboundRing) (read : ℕ) → length (pending read r) ≡ r.write_pointer - read
length-pending r read = length-values r read (r.write_pointer - read)

pub pending-nil : (r : InboundRing) (read : ℕ) → pending read r ≡ [] → r.write_pointer ≤ read
pending-nil r read e = omega (arith, ap length e, length-values r read (r.write_pointer - read))

pub pending-cons :
    (r : InboundRing) (read : ℕ) (x : InboundEvent) (xs : List InboundEvent)
    → pending read r ≡ x ∷ xs
    → read < r.write_pointer
pending-cons r read x xs e =
    omega (arith, ap length e, length-values r read (r.write_pointer - read))

module _ {k read : ℕ} (r : InboundRing) (valid : Valid k read r) where
  abbrev pub sent : (InboundEvent → InboundEvent) → InboundRing
  sent f =
      publish r.write_pointer
        (amend r.write_pointer f (record r { write_pointer = r.write_pointer + 1 }))

  abbrev pub message : (InboundEvent → InboundEvent) → InboundEvent
  message f = record (f (get r.write_pointer r)) { is_ready = true }

  pub claim-none : r.write_pointer ≡ read + r.size → claim r ≡ none
  unfolding claim
  claim-none full = rw (is_full) refl
    where
      -- The slot of `write_pointer` is that of the oldest event.
      is_full : (get r.write_pointer r).is_ready ≡ true
      is_full =
          let slots : bit_and r.write_pointer r.mask ≡ bit_and read r.mask =
            slot_mod valid.ring r.write_pointer
            ∙ ap (λ a. a % r.size) full
            ∙ add-mod_right read r.size
            ∙ sym (slot_mod valid.ring read) in
          ap (λ i. (get_or r.buffer i default_inbound).is_ready) slots
          ∙ valid.is_ready read (omega arith) (omega (arith, size_pos valid.ring))

  pub claim-some :
      r.write_pointer < read + r.size
      → claim r ≡ some (r.write_pointer, record r { write_pointer = r.write_pointer + 1 })
  unfolding claim
  claim-some room = rw (valid.is_free r.write_pointer (omega arith) room) refl

  module _ (f : InboundEvent → InboundEvent) (room : r.write_pointer < read + r.size) where
    sent-put : (sent f).buffer ≡ put default_inbound r.buffer r.mask r.write_pointer (message f)
    sent-put =
        set-set r.buffer (bit_and r.write_pointer r.mask) (f (get r.write_pointer r)) _
        ∙ ap
            (λ (e : InboundEvent).
              set r.buffer (bit_and r.write_pointer r.mask) (record e { is_ready = true }))
            (get-set_self valid.ring r.write_pointer (f (get r.write_pointer r)) default_inbound)

    pub get-sent_self : get r.write_pointer (sent f) ≡ message f
    get-sent_self =
        ap (λ b. get_or b (bit_and r.write_pointer r.mask) default_inbound) sent-put
        ∙ get-set_self valid.ring r.write_pointer (message f) default_inbound

    pub sent-Valid : Valid k read (sent f)
    sent-Valid =
        subst (λ b. Open default_inbound ready k read (r.write_pointer + 1) b r.size r.mask)
          (sym sent-put) (put-Open default_inbound ready r.buffer valid (message f) refl room)

    pub pending-sent : pending read (sent f) ≡ pending read r ++ message f ∷ []
    pending-sent =
        ap (λ b. values_from default_inbound b r.mask read (r.write_pointer + 1 - read)) sent-put
        ∙ put-values default_inbound ready r.buffer valid (message f) room

  -- The consumer gives the slot of the oldest event back.
  module _ (some_left : read < r.write_pointer) where
    pub release-Valid : Valid k (read + 1) (release read r)
    release-Valid =
        take-Open default_inbound ready r.buffer valid (record (get read r) { is_ready = false })
          refl some_left

    pub pending-release : pending read r ≡ get read r ∷ pending (read + 1) (release read r)
    pending-release =
        take-values default_inbound ready r.buffer valid (record (get read r) { is_ready = false })
          some_left

pub new-Valid : (k : ℕ) → Valid k 0 (new (2 ^ k))
new-Valid k = record {
  ring = record { power = refl; masks = refl; filled = length-replicate (2 ^ k) default_inbound };
  behind = omega arith;
  fits = omega arith;
  is_ready = λ seq low high. absurd (omega arith);
  is_free = λ seq low high.
      ap (λ (e : InboundEvent). e.is_ready)
        (get_or-replicate (2 ^ k) (bit_and seq (2 ^ k - 1)) default_inbound);
}
