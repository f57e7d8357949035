-- ===== src/MatchingEngine/Contract.antt =====
-- The engine's requests, answered as the specification of the order book says.
use mathlib.Core.Path.{subst}
use distributed_orderbook.Prelude.{
  ◌≡◌, refl, sym, ap, ◌∙◌, Bool, true, false, inl, inr, Bool-cases, Option, none, some, List, [],
  ◌∷◌, All, arith,
}
use distributed_orderbook.Prelude.Int.{ℤ}
use distributed_orderbook.Prelude.Maps.{find}
use distributed_orderbook.Orderbook.Types.{Ptr, null, Orderbook, empty_book}
use distributed_orderbook.Orderbook.Command.{
  Run, done, fault, out_of_fuel, Command, and_then, pure, ◌>>=◌, levels,
}
use distributed_orderbook.Orderbook.Command.Sequence.{run_all, same_state}
use distributed_orderbook.Orderbook.Reachable.{empty-Rep}
use distributed_orderbook.Orderbook.Methods.{place_order}
use distributed_orderbook.Orderbook.Rep.{Cell, has, Level, Queues, Rep}
use distributed_orderbook.Orderbook.Rep.Segments.{Segment-node}
use distributed_orderbook.Orderbook.Match.Levels.{view}
use distributed_orderbook.Orderbook.Match.Refine.{book_of, Yields, match_refines}
use distributed_orderbook.Orderbook.Changes.{cancel-withdraw, modify-reduce}
use distributed_orderbook.Book.{Side, Book, place}
use distributed_orderbook.Book.Changes.{withdraw, reduce}
use distributed_orderbook.MatchingEngine.{Outcome, placed_outcome, changed_outcome}
use distributed_orderbook.MatchingEngine.Requests.{
  Request, new_order, cancel_order, modify_order, serve, serve_all,
}

abbrev pub on_outcome : {A : Type 0} → (A → Outcome) → A × Book → Outcome × Book
on_outcome f (a, book) = (f a, book)

-- The answer to a request. An order that rests gets the address `addr`.
unfoldable pub answer : Ptr → Request → Book → Outcome × Book
answer addr (new_order price volume side time order_id gateway_id) book =
    on_outcome placed_outcome (place addr price volume side time order_id book)
answer addr (cancel_order order_id) book =
    on_outcome (changed_outcome order_id) (withdraw order_id book)
answer addr (modify_order order_id new_size) book =
    on_outcome (changed_outcome order_id) (reduce order_id new_size book)

-- No order has the address.
abbrev pub Unused : Ptr → Side → Type 0
Unused p = All (λ (e : ℤ × List Cell). has p e.1 ≡ false)

-- The answers that the specification allows to requests, one after the other: an order that rests gets
-- an address that no order has.
pub data Answers : List Request → Book → List Outcome → Book → Type 0 where
  no_request : {book : Book} → Answers [] book [] book
  then_answer :
      {r : Request} {rs : List Request} {book book' : Book} {outcomes : List Outcome} (addr : Ptr)
      → Unused addr book.asks
      → Unused addr book.bids
      → Answers rs (answer addr r book).1 outcomes book'
      → Answers (r ∷ rs) book ((answer addr r book).0 ∷ outcomes) book'

-- The outcomes of the order book's methods for requests, one after the other
unfoldable pub serve_each : List Request → Command (List Outcome)
serve_each [] = pure []
serve_each (r ∷ rs) = do outcome ← serve r; outcomes ← serve_each rs; pure (outcome ∷ outcomes)

module _ {b : Orderbook} {queues : Queues} (rep : Rep b queues) where
  unused_at :
      (side : Bool) (price : ℤ) (entry : Option Ptr)
      → Level b side price entry (queues side price)
      → has b.unused (queues side price) ≡ false
  unused_at side price none v = ap (has b.unused) v
  unused_at side price (some l) v = elim (Bool-cases (has b.unused (queues side price))) [
    | inl i ↦
        let (o, held, _, _, _) =
          Segment-node b.orders side price l null null (queues side price) b.unused v.3 i in
        absurd (cc (sym held ∙ (rep.fresh b.unused (omega arith)).0))
    | inr out ↦ out
  ]

  unused_in : (side : Bool) (m : List (ℤ × Ptr)) → Unused b.unused (view (queues side) m)
  unused_in side [] = tt
  unused_in side ((price, l) ∷ m) =
      (unused_at side price (find price (levels side b)) (rep.level side price), unused_in side m)

  module _ {A : Type 0} (f : A → Outcome) where
    outcome-Yields :
        (run : Run A) (expected : A × Book)
        → Yields run expected
        → Yields (and_then run λ a b'. done (f a) b') (on_outcome f expected)
    outcome-Yields run expected (b', queues', ran, rep', same) =
        (b', queues', ap (λ r. and_then r λ a b''. done (f a) b'') ran, rep', same)

  serve-answer : (r : Request) → Yields (serve r b) (answer b.unused r (book_of b queues))
  unfolding serve answer place_order
  serve-answer (new_order price volume side time order_id gateway_id) =
      let (b', queues', ran, rep', same) =
        match_refines price volume side time order_id b queues rep in
      (b', queues', rw ran refl, rep', same)
  serve-answer (cancel_order order_id) =
      outcome-Yields (changed_outcome order_id) _ _ (cancel-withdraw rep order_id)
  serve-answer (modify_order order_id new_size) =
      outcome-Yields (changed_outcome order_id) _ _ (modify-reduce rep order_id new_size)

-- On a well-formed book the methods, called for any list of requests, end without a fault, with outcomes
-- that the specification allows, in its order, and leave a well-formed state that stands for the book
-- that the specification leaves.
pub serve_each-Answers :
    (rs : List Request) (b : Orderbook) (queues : Queues)
    → Rep b queues
    → (outcomes : List Outcome) × (b' : Orderbook) × (queues' : Queues) × (serve_each rs b
        ≡ done outcomes b')
      × Rep b' queues'
      × Answers rs (book_of b queues) outcomes (book_of b' queues')
unfolding serve_each
serve_each-Answers [] b queues rep = ([], b, queues, refl, rep, no_request)
serve_each-Answers (r ∷ rs) b queues rep =
    let (b', queues', ran, rep', same) = serve-answer rep r in
    let (outcomes, b'', queues'', rest, rep'', answers) = serve_each-Answers rs b' queues' rep' in
    (
      (answer b.unused r (book_of b queues)).0 ∷ outcomes,
      b'',
      queues'',
      rw (serve_each, ran, rest) refl,
      rep'',
      then_answer b.unused (unused_in rep true b.asks) (unused_in rep false b.bids)
          (subst (λ book. Answers rs book outcomes (book_of b'' queues'')) same answers),
    )

-- Commands that differ in their results alone
forget_one :
    (outcome : Outcome) (run : Run (List Outcome))
    → and_then run (λ _ b. done tt b)
      ≡ and_then (and_then run λ outcomes b. done (outcome ∷ outcomes) b) (λ _ b. done tt b)
forget_one outcome (done outcomes b) = refl
forget_one outcome fault = refl
forget_one outcome out_of_fuel = refl

forget_rest :
    (rs : List Request) (run : Run Outcome)
    → ((b : Orderbook) → serve_all rs b ≡ and_then (serve_each rs b) (λ _ b'. done tt b'))
    → and_then run (λ _ b. serve_all rs b)
      ≡ and_then
          (and_then run
            λ outcome b. and_then (serve_each rs b) λ outcomes b'. done (outcome ∷ outcomes) b')
          (λ _ b. done tt b)
forget_rest rs (done outcome b) same = same b ∙ forget_one outcome (serve_each rs b)
forget_rest rs fault same = refl
forget_rest rs out_of_fuel same = refl

serve_all_each :
    (rs : List Request) (b : Orderbook)
    → serve_all rs b ≡ and_then (serve_each rs b) (λ _ b'. done tt b')
unfolding serve_each run_all
serve_all_each [] b = refl
serve_all_each (r ∷ rs) b = forget_rest rs (serve r b) (serve_all_each rs)

-- The order book that requests give from an empty one stands for a book that the specification allows.
pub serve_all-Answers :
    (rs : List Request) (b : Orderbook)
    → serve_all rs empty_book ≡ done tt b
    → (outcomes : List Outcome) × (queues : Queues) × Rep b queues
      × Answers rs (book_of empty_book (λ _ _. [])) outcomes (book_of b queues)
serve_all-Answers rs b ran =
    let (outcomes, b', queues, each, rep, answers) =
      serve_each-Answers rs empty_book (λ _ _. []) empty-Rep in
    let same : b' ≡ b =
      same_state
        (sym (serve_all_each rs empty_book ∙ ap (λ r. and_then r λ _ s. done tt s) each) ∙ ran) in
    (
      outcomes,
      queues,
      subst (λ s. Rep s queues) same rep,
      subst (λ s. Answers rs (book_of empty_book (λ _ _. [])) outcomes (book_of s queues)) same
          answers,
    )
