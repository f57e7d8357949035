-- ===== src/Orderbook/Tests.antt =====
-- Runs of the methods on the scenarios of tests/orderbook_test.cpp.
use distributed_orderbook.Prelude.{ℕ, Bool, true, false, [], ◌∷◌, ◌≡◌, refl}
use distributed_orderbook.Prelude.Int.{pos, ◌+ℤ◌, ◌-ℤ◌}
use distributed_orderbook.Prelude.Maps.{find, erase, assign, insert}
use distributed_orderbook.Orderbook.Types.{empty_book, OrderResult, write}
use distributed_orderbook.Orderbook.Command.{
  Run, done, fault, out_of_fuel, Command, pure, ◌>>=◌, ◌>>◌, load_order, load_limit, update_order,
  update_limit, alloc_order, alloc_limit, delete_order, erase_id, erase_level,
}
use distributed_orderbook.Orderbook.Methods.{
  fill, crosses, before, fill_part, fill_whole, take_limit, take_levels, enqueue, open_level,
  rest_order, match, unlink_order, cancel, modify,
}

-- The value that a run of commands returns.
abbrev Gives : {A : Type 0} → A → Run A → Type 0
Gives a (done b _) = a ≡ b
Gives a fault = ⊥
Gives a out_of_fuel = ⊥

sell : ℕ → ℕ → ℕ → Command OrderResult
unfolding match rest_order open_level enqueue take_levels take_limit fill_whole fill_part crosses
    before load_order load_limit update_order update_limit alloc_order alloc_limit delete_order
    erase_id erase_level find erase assign insert write ◌+ℤ◌ ◌-ℤ◌
sell price volume order_id = match (pos price) (pos volume) true (pos 0) (pos order_id)

buy : ℕ → ℕ → ℕ → Command OrderResult
unfolding sell
buy price volume order_id = match (pos price) (pos volume) false (pos 0) (pos order_id)

-- A buy of 12 takes the older of two sells at 100 whole, and 2 of the younger.
fifo :
    Gives
      (record {
        order_id = pos 3;
        fulfilled = true;
        remaining_qty = pos 0;
        trades = fill (pos 100) (pos 10) (pos 0) ∷ fill (pos 100) (pos 2) (pos 0) ∷ [];
      })
      ((sell 100 10 1 >> sell 100 5 2 >> buy 105 12 3) empty_book)
unfolding sell buy
fifo = refl

script : Command (Bool × Bool × Bool × OrderResult)
unfolding sell buy cancel unlink_order modify
script = do
  sell 100 10 1
  sell 101 10 2
  sell 100 5 3
  a ← cancel (pos 1)
  b ← cancel (pos 1)
  c ← modify (pos 2) (pos 4)
  r ← buy 101 20 4
  pure (a, b, c, r)

script_lem :
    Gives
      (
        true,
        false,
        true,
        record {
          order_id = pos 4;
          fulfilled = false;
          remaining_qty = pos 11;
          trades = fill (pos 100) (pos 5) (pos 0) ∷ fill (pos 101) (pos 4) (pos 0) ∷ [];
        },
      )
      (script empty_book)
unfolding script
script_lem = refl
