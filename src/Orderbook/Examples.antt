-- ===== src/Orderbook/Examples.antt =====
-- The theorems at a book with one resting order: order 1 sells 5 shares at 100.
use distributed_orderbook.Prelude.{◌≡◌, refl, true, false, none, some, [], ◌∷◌, arith}
use distributed_orderbook.Prelude.Int.{pos, ◌<ℤ◌}
use distributed_orderbook.Prelude.Maps.{find, insert}
use distributed_orderbook.Orderbook.Types.{Orderbook, empty_book, OrderResult}
use distributed_orderbook.Orderbook.Command.{done, levels}
use distributed_orderbook.Orderbook.Methods.{take_limit, take_levels, match, cancel, modify}
use distributed_orderbook.Orderbook.Rep.{Cell, Queues, put_queue, Rep}
use distributed_orderbook.Orderbook.Rep.Enter.{Enters-Rep}
use distributed_orderbook.Orderbook.Rep.Frame.{Rep-unused}
use distributed_orderbook.Orderbook.Modify.{Modified, modify_refines}
use distributed_orderbook.Orderbook.Cancel.{Cancelled, cancel_refines}
use distributed_orderbook.Orderbook.Match.OpenLevel.{opened, opened-Enters}
use distributed_orderbook.Orderbook.Match.Queue.{TookBy}
use distributed_orderbook.Orderbook.Match.TakeLimit.{take_limit-Took}
use distributed_orderbook.Orderbook.Match.Levels.{view, SweptBy}
use distributed_orderbook.Orderbook.Match.Sweep.{take_levels-Swept}
use distributed_orderbook.Orderbook.Match.Refine.{book_of, Yields, match_refines}
use distributed_orderbook.Orderbook.Safety.{match-Correct}
use distributed_orderbook.Orderbook.Reachable.{
  empty-Rep, Sound, Reachable, started, matched, Reachable-Sound,
}
use distributed_orderbook.Orderbook.Changes.{cancel-withdraw, modify-reduce}
use distributed_orderbook.Orderbook.Quotes.{ShowSame, match-ShowSame}
use distributed_orderbook.Book.Changes.{withdraw, reduce}
use distributed_orderbook.Book.{take_queue, sweep, place}
use distributed_orderbook.Book.Accounts.{Correct}

abbrev cell : Cell
cell = record { addr = 1; order_id = pos 1; volume = pos 5 }

abbrev no_order : Queues
no_order _ _ = []

no_level : find (pos 100) (levels true empty_book) ≡ none
unfolding find
no_level = refl

five : pos 0 <ℤ pos 5
five = omega arith

abbrev one_order : Orderbook
one_order = opened empty-Rep true (pos 100) (pos 1) (pos 5) no_level five

abbrev one_queue : Queues
one_queue = put_queue no_order true (pos 100) (cell ∷ [])

one_order-Rep : Rep one_order one_queue
one_order-Rep =
    Enters-Rep empty-Rep (opened-Enters empty-Rep true (pos 100) (pos 1) (pos 5) no_level five)
      (λ side price _. Rep-unused empty-Rep 2 side price refl)

modify_refines_example :
    Modified one_order one_queue (pos 1) (pos 3) (modify (pos 1) (pos 3) one_order)
modify_refines_example = modify_refines one_order-Rep (pos 1) (pos 3)

cancel_refines_example : Cancelled one_order one_queue (pos 1) (cancel (pos 1) one_order)
cancel_refines_example = cancel_refines one_order-Rep (pos 1)

cancel-withdraw_example :
    Yields (cancel (pos 1) one_order) (withdraw (pos 1) (book_of one_order one_queue))
cancel-withdraw_example = cancel-withdraw one_order-Rep (pos 1)

modify-reduce_example :
    Yields (modify (pos 1) (pos 3) one_order) (reduce (pos 1) (pos 3) (book_of one_order one_queue))
modify-reduce_example = modify-reduce one_order-Rep (pos 1) (pos 3)

match_refines_example :
    Yields
      (match (pos 100) (pos 3) false (pos 7) (pos 2) one_order)
      (place 3 (pos 100) (pos 3) false (pos 7) (pos 2) (book_of one_order one_queue))
match_refines_example =
    match_refines (pos 100) (pos 3) false (pos 7) (pos 2) one_order one_queue one_order-Rep

match-Correct_example :
    (r : OrderResult) × (b' : Orderbook) × (match (pos 100) (pos 8) false (pos 7) (pos 2) one_order
      ≡ done r b')
    × Correct false (pos 100) (pos 7) (pos 8) (pos 2) r
match-Correct_example = match-Correct one_order-Rep (pos 100) (pos 8) false (pos 7) (pos 2)

abbrev new_result : OrderResult
new_result = record { order_id = pos 2; fulfilled = false; remaining_qty = pos 3; trades = [] }

found : find (pos 100) (levels true one_order) ≡ some 2
unfolding find insert
found = refl

take_limit-Took_example :
    TookBy one_order one_queue true
      (pos 100)
      (take_queue (pos 100) (pos 7) (pos 3) new_result one_order.global_map (cell ∷ []))
      (take_limit 1 false (pos 100) 2 (pos 7) (pos 3) new_result one_order)
take_limit-Took_example =
    take_limit-Took false (pos 100) 2 (pos 7) 1 (pos 3) new_result cell [] one_order one_queue
      one_order-Rep found refl (omega arith)

one_level : levels true one_order ≡ (pos 100, 2) ∷ []
unfolding insert
one_level = refl

take_levels-Swept_example :
    SweptBy one_order one_queue true
      (sweep false
        (pos 100)
        (pos 7)
        (pos 3)
        new_result
        one_order.global_map
        (view (one_queue true) ((pos 100, 2) ∷ [])))
      (take_levels 2 false (pos 100) (pos 7) (pos 3) new_result one_order)
take_levels-Swept_example =
    take_levels-Swept false (pos 100) (pos 7) 2 ((pos 100, 2) ∷ []) (pos 3) new_result one_order
      one_queue one_order-Rep one_level (omega arith)

abbrev after_sell : Orderbook
after_sell = (match_refines (pos 100) (pos 5) true (pos 7) (pos 1) empty_book no_order empty-Rep).0

after_sell-Reachable : Reachable after_sell
after_sell-Reachable =
    matched after_sell (pos 100) (pos 5) true (pos 7) (pos 1) _ started
      (match_refines (pos 100) (pos 5) true (pos 7) (pos 1) empty_book no_order empty-Rep).2

Reachable-Sound_example : Sound after_sell
Reachable-Sound_example = Reachable-Sound after_sell after_sell-Reachable

-- The same order at other addresses
abbrev late_book : Orderbook
late_book = record empty_book { unused = 9 }

late_book-Rep : Rep late_book no_order
late_book-Rep = record {
  level = empty-Rep.level;
  ordered = empty-Rep.ordered;
  indexed = empty-Rep.indexed;
  fresh = λ a u. (refl, refl);
  nonnull = omega arith;
}

abbrev late_order : Orderbook
late_order = opened late_book-Rep true (pos 100) (pos 1) (pos 5) no_level five

abbrev late_queue : Queues
late_queue =
    put_queue no_order true (pos 100) (record { addr = 9; order_id = pos 1; volume = pos 5 } ∷ [])

late_order-Rep : Rep late_order late_queue
late_order-Rep =
    Enters-Rep late_book-Rep
      (opened-Enters late_book-Rep true (pos 100) (pos 1) (pos 5) no_level five)
      (λ side price _. Rep-unused late_book-Rep 10 side price refl)

show_same : ShowSame one_order one_queue late_order late_queue
unfolding insert
show_same = record { asks = refl; bids = refl }

match-ShowSame_example :
    (res : OrderResult) × (b' : Orderbook) × (c' : Orderbook) × (queues : Queues)
    × (others : Queues) × (match (pos 100) (pos 3) false (pos 7) (pos 2) one_order ≡ done res b')
    × (match (pos 100) (pos 3) false (pos 7) (pos 2) late_order ≡ done res c')
    × Rep b' queues
    × Rep c' others
    × ShowSame b' queues c' others
match-ShowSame_example =
    match-ShowSame (pos 100) (pos 3) false (pos 7) (pos 2) one_order late_order one_queue late_queue
      one_order-Rep late_order-Rep show_same
