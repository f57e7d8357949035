-- ===== src/RingBuffer/Examples.antt =====
-- The theorems on several producers at a ring of two slots.
use distributed_orderbook.Prelude.{ℕ, ◌+◌, ◌<◌, ◌^◌, bit_and, ◌≡◌, ◌≢◌, arith}
use distributed_orderbook.RingBuffer.Producers.{State, owns, Reaches, Reaches-apart}
use distributed_orderbook.RingBuffer.Overtake.{claim-overtakes}

claim-overtakes_example :
    (s : State) × (a : ℕ) × (b : ℕ) × Reaches 1 s
    × (s.phase 0 ≡ owns a)
    × (s.phase 1 ≡ owns b)
    × (b ≡ a + 2 ^ 1)
    × (bit_and a s.ring.mask ≡ bit_and b s.ring.mask)
claim-overtakes_example = claim-overtakes 1

abbrev overtaken : State
overtaken = (claim-overtakes 1).0

abbrev behind : ℕ
behind = (claim-overtakes 1).1

abbrev ahead : ℕ
ahead = (claim-overtakes 1).2

two_producers : ◌≢◌ {A = ℕ} 0 1
two_producers e = absurd (omega arith)

Reaches-apart_example :
    (behind ≢ ahead)
    × (behind < overtaken.ring.write_pointer)
    × (ahead < overtaken.ring.write_pointer)
Reaches-apart_example =
    Reaches-apart overtaken 0 1 behind ahead (claim-overtakes 1).3 (claim-overtakes 1).4
      (claim-overtakes 1).5 two_producers
