-- ===== src/RingBuffer/Deliveries/Orders.antt =====
-- Lists of events in the order of their numbers
use distributed_orderbook.Prelude.{
  ℕ, ◌<◌, ◌≡◌, ◌≢◌, ◌∙◌, none, List, inl, inr, arith, ◌==◌, ==→eq, Bool-cases, ◌≤◌, ltb, ltb→lt,
}
use distributed_orderbook.RingBuffer.Types.{InboundEvent}
use distributed_orderbook.RingBuffer.Producers.{State, owns}
use distributed_orderbook.RingBuffer.Deliveries.{Log, InOrder, none_yet, next, Delivers}

pub InOrder-some :
    {log : Log} {n : ℕ} {xs : List InboundEvent} (i : ℕ) → InOrder log n xs → i < n → log i ≢ none
InOrder-some i none_yet low absent = absurd (omega arith)
InOrder-some i (next {n = n} e xs is) low absent = elim (Bool-cases (i == n)) [
  | inl same ↦ (let at = ==→eq i n same in cc)
  | inr other ↦ InOrder-some i xs (ground arith) absent
]

pub InOrder-same :
    {log log' : Log} {n : ℕ} {xs : List InboundEvent}
    → InOrder log n xs
    → ((i : ℕ) → i < n → log' i ≡ log i)
    → InOrder log' n xs
InOrder-same none_yet same = none_yet
InOrder-same (next {n = n} e xs is) same =
    next e (InOrder-same xs (λ i low. same i (omega arith))) (same n (omega arith) ∙ is)

-- The consumer has not taken what a producer owns.
pub owned_low :
    {k : ℕ} {s : State} {log : Log} {taken : List InboundEvent} (p seq : ℕ)
    → Delivers k s log taken
    → s.phase p ≡ owns seq
    → s.read ≤ seq
owned_low {s = s} p seq h owner = elim (Bool-cases (ltb seq s.read)) [
  | inl low ↦ absurd (InOrder-some seq h.in_order (ltb→lt seq s.read low) (h.unsent p seq owner))
  | inr not_low ↦ ground arith
]
