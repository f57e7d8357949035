-- ===== src/RingBuffer/Deliveries.antt =====
-- What several producers publish, and what the consumer takes, while `write_pointer` stays within one
-- ring of the consumer.
pub mod Orders
pub mod Claims
pub mod Sends
pub mod Takes
pub mod Ends
mod Examples
use distributed_orderbook.Prelude.{
  ℕ, ◌+◌, ◌<◌, ◌≤◌, ◌^◌, ◌≡◌, ◌≢◌, refl, sym, ap, ◌∙◌, true, false, Option, none, some, List, [],
  ◌∷◌, ◌++◌, inl, inr, arith, ◌==◌, ==-refl, ne→==, if◌then◌else◌,
}
use distributed_orderbook.RingBuffer.Types.{InboundEvent}
use distributed_orderbook.RingBuffer.Inbox.{new, get, amend, publish}
use distributed_orderbook.RingBuffer.Slots.{Ring}
use distributed_orderbook.RingBuffer.Producers.{
  Phase, idle, owns, State, set_phase, Step, load, spin, pass, swap, retry, send, take, Fair,
  set_phase-cases, phase_ne, is_owner,
}

-- The event that was published at a sequence number, if there was one
abbrev pub Log : Type 0
Log = ℕ → Option InboundEvent

abbrev pub note : ℕ → InboundEvent → Log → Log
note seq e log = λ i. if i == seq then some e else log i

abbrev pub logged : {s s' : State} → Step s s' → Log → Log
logged (load _ _ _ _) log = log
logged (spin _ _ _ _ _ _) log = log
logged (pass _ _ _ _) log = log
logged (swap _ _) log = log
logged (retry _ _ _) log = log
logged {s} (send _ seq f _) log = note seq (get seq (publish seq (amend seq f s.ring))) log
logged (take _) log = log

abbrev pub taken_by : {s s' : State} → Step s s' → List InboundEvent → List InboundEvent
taken_by (load _ _ _ _) taken = taken
taken_by (spin _ _ _ _ _ _) taken = taken
taken_by (pass _ _ _ _) taken = taken
taken_by (swap _ _) taken = taken
taken_by (retry _ _ _) taken = taken
taken_by (send _ _ _ _) taken = taken
taken_by {s} (take _) taken = taken ++ get s.read s.ring ∷ []

-- The runs of a ring of 2 ^ k slots in which `write_pointer` stays within one ring of the consumer, with
-- what was published and what was taken
pub data Runs (k : ℕ) : State → Log → List InboundEvent → Type 0 where
  begin : Runs k (record { ring = new (2 ^ k); read = 0; phase = λ _. idle }) (λ _. none) []
  then_step :
      {s : State} {log : Log} {taken : List InboundEvent} (s' : State)
      → Runs k s log taken
      → (step : Step s s') → s'.ring.write_pointer ≤ s'.read + 2 ^ k
      → Runs k s' (logged step log) (taken_by step taken)

-- The events of the sequence numbers below `n`, in their order
pub data InOrder (log : Log) : ℕ → List InboundEvent → Type 0 where
  none_yet : InOrder log 0 []
  next :
      {n : ℕ} {xs : List InboundEvent} (e : InboundEvent)
      → InOrder log n xs
      → log n ≡ some e
      → InOrder log (n + 1) (xs ++ e ∷ [])

-- A claimed number: its event waits in its slot, or a producer still owns it.
pub data Held (s : State) (log : Log) (seq : ℕ) : Type 0 where
  waiting : (get seq s.ring).is_ready ≡ true → log seq ≡ some (get seq s.ring) → Held s log seq
  unfinished :
      (p : ℕ)
      → s.phase p ≡ owns seq
      → (get seq s.ring).is_ready ≡ false
      → log seq ≡ none
      → Held s log seq

pub record Delivers (k : ℕ) (s : State) (log : Log) (taken : List InboundEvent) : Type 0 where
  pub ring : Ring k s.ring.buffer s.ring.size s.ring.mask
  pub behind : s.read ≤ s.ring.write_pointer
  pub fits : s.ring.write_pointer ≤ s.read + s.ring.size
  pub in_order : InOrder log s.read taken
  pub held : (seq : ℕ) → s.read ≤ seq → seq < s.ring.write_pointer → Held s log seq
  pub free :
      (seq : ℕ)
      → s.ring.write_pointer ≤ seq
      → seq < s.read + s.ring.size
      → (get seq s.ring).is_ready ≡ false
  pub unclaimed : (seq : ℕ) → s.ring.write_pointer ≤ seq → log seq ≡ none
  pub unsent : (p seq : ℕ) → s.phase p ≡ owns seq → log seq ≡ none

-- A producer that owns nothing moves.
module _ {k : ℕ} {s : State} {log : Log} {taken : List InboundEvent} (h : Delivers k s log taken)
    (p : ℕ) (x : Phase) (before : is_owner (s.phase p) ≡ false) (after : is_owner x ≡ false) where
  pub still_owns : (q seq : ℕ) → s.phase q ≡ owns seq → (set_phase p x s).phase q ≡ owns seq
  still_owns q seq e =
      let other : q ≢ p =
        λ same. cc (sym before ∙ ap (λ r. is_owner (s.phase r)) (sym same) ∙ ap is_owner e) in
      phase_ne p q x s other ∙ e

  pub Delivers-phase : Delivers k (set_phase p x s) log taken
  Delivers-phase = record {
    ring = h.ring;
    behind = h.behind;
    fits = h.fits;
    in_order = h.in_order;
    held = λ seq low high. elim (h.held seq low high) [
      | waiting ready is ↦ waiting ready is
      | unfinished q owner empty not_yet ↦ unfinished q (still_owns q seq owner) empty not_yet
    ];
    free = h.free;
    unclaimed = h.unclaimed;
    unsent = λ q seq e. elim (set_phase-cases p q x (owns seq) s e) [
      | inl (_, is) ↦ (let wrong = ap is_owner is in cc (sym after ∙ wrong))
      | inr (_, old) ↦ h.unsent q seq old
    ];
  }
