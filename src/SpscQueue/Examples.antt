-- ===== src/SpscQueue/Examples.antt =====
-- The theorems at a queue of capacity 2.
use distributed_orderbook.Prelude.{ℕ, refl, [], ◌∷◌, arith}
use distributed_orderbook.SpscQueue.{SpscQueue, try_push, try_pop}
use distributed_orderbook.SpscQueue.Refine.{
  Pushed, Popped, Valid, try_push_refines, try_pop_refines,
}

abbrev one_value : SpscQueue ℕ
one_value = record { capacity = 2; mask = 1; buffer = 7 ∷ 0 ∷ []; head = 1; tail = 0 }

one_value-Valid : Valid 1 one_value
one_value-Valid = record {
  power = refl;
  masks = refl;
  filled = refl;
  behind = omega arith;
  fits = omega arith;
}

try_push_refines_example : Pushed 1 0 0 9 one_value (try_push 0 9 one_value)
try_push_refines_example = try_push_refines 1 one_value one_value-Valid 0 0 9 (omega arith)

try_pop_refines_example : Popped 1 0 1 3 one_value (try_pop 1 3 one_value)
try_pop_refines_example = try_pop_refines 1 one_value one_value-Valid 0 1 3 (omega arith)
