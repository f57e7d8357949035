-- ===== src/SpscQueue.antt =====
-- The queue of Core_Infra/spsc_queue.hpp between one producer and one consumer.
pub mod Refine
mod Examples
use distributed_orderbook.Prelude.{
  ℕ, ◌+◌, ◌-◌, bit_and, Bool, true, false, List, leb, if◌then◌else◌, get_or, set, replicate,
}

module _ {ℓ} (T : Type ℓ) where
  -- `head` is the producer's and `tail` the consumer's; both only rise.
  pub record SpscQueue : Type ℓ where
    pub capacity : ℕ
    pub mask : ℕ
    pub buffer : List T
    pub head : ℕ
    pub tail : ℕ

module _ {ℓ} {T : Type ℓ} where
  -- The constructor: `default` is what `make_unique<T[]>` fills the buffer with.
  abbrev pub new_queue : T → ℕ → SpscQueue T
  new_queue default capacity = record {
    capacity = capacity;
    mask = capacity - 1;
    buffer = replicate capacity default;
    head = 0;
    tail = 0;
  }

  -- The producer loads its own `head`, and for `tail` a value that the consumer has stored, which need
  -- not be its last.
  unfoldable pub try_push : ℕ → T → SpscQueue T → Bool × SpscQueue T
  try_push tail value q = if leb q.capacity (q.head - tail) then (false, q) else (
    true,
    record q { buffer = set q.buffer (bit_and q.head q.mask) value; head = q.head + 1 },
  )

  -- The consumer loads its own `tail`, and for `head` a value that the producer has stored. The third
  -- part of the result is the value of `out`.
  unfoldable pub try_pop : ℕ → T → SpscQueue T → Bool × SpscQueue T × T
  try_pop head out q =
      if leb head q.tail
      then (false, q, out)
      else (true, record q { tail = q.tail + 1 }, get_or q.buffer (bit_and q.tail q.mask) out)
