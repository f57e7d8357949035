-- ===== src/Orderbook/Match/Refine.antt =====
-- `match` and `placeOrder` do what the specification says.
use mathlib.Core.Path.{subst}
use distributed_orderbook.Prelude.{
  ℕ, suc, ◌≡◌, refl, sym, ap, ap₂, ◌∙◌, Bool, true, false, not, arith, inl, inr, Bool-cases,
  if_true, if_false, length,
}
use distributed_orderbook.Prelude.Int.{ℤ, pos, ltb_ℤ, ltb_ℤ→lt}
use distributed_orderbook.Orderbook.Types.{Orderbook, OrderResult}
use distributed_orderbook.Orderbook.Command.{Run, done, levels}
use distributed_orderbook.Orderbook.Methods.{Exit, returned, left, take_levels, match}
use distributed_orderbook.Orderbook.Rep.{Cell, Queues, Rep}
use distributed_orderbook.Orderbook.Match.Levels.{view, Sweeps, SweptBy}
use distributed_orderbook.Book.Loops.{Exit-cases}
use distributed_orderbook.Orderbook.Match.Sweep.{take_levels-Swept}
use distributed_orderbook.Orderbook.Match.Rest.{Rests, rest_order-Rests}
use distributed_orderbook.Book.{
  Book, Swept, sweep, side_of, swept_book, rested_book, arrived, settle, place,
}

-- The book that the specification has for the state of the class
abbrev pub book_of : Orderbook → Queues → Book
book_of b queues = record {
  asks = view (queues true) b.asks;
  bids = view (queues false) b.bids;
  index = b.global_map;
}

-- A run that ends, without a fault, in a well-formed book with the given result
abbrev pub Yields : {A : Type 0} → Run A → A × Book → Type 0
Yields run expected =
    (b' : Orderbook) × (queues' : Queues) × (run ≡ done expected.0 b')
    × Rep b' queues'
    × (book_of b' queues' ≡ expected.1)

pub Book-eq : {x y : Book} → x.asks ≡ y.asks → x.bids ≡ y.bids → x.index ≡ y.index → x ≡ y
Book-eq p q r = λ i. record { asks = p i; bids = q i; index = r i }

side_of-book_of :
    (side : Bool) (b : Orderbook) (queues : Queues)
    → side_of side (book_of b queues) ≡ view (queues side) (levels side b)
side_of-book_of true b queues = refl
side_of-book_of false b queues = refl

book_of-swept :
    (side : Bool) (b b' : Orderbook) (queues queues' : Queues) (s : Swept)
    → Sweeps b queues (not side) s b' queues'
    → book_of b' queues' ≡ swept_book side s (book_of b queues)
book_of-swept true b b' queues queues' s h =
    Book-eq (ap₂ view h.other_queues h.other) h.levels_left h.index
book_of-swept false b b' queues queues' s h =
    Book-eq h.levels_left (ap₂ view h.other_queues h.other) h.index

book_of-rested :
    (side : Bool) (price : ℤ) (c : Cell) (b b' : Orderbook) (queues queues' : Queues)
    → Rests b queues side price c b' queues'
    → book_of b' queues' ≡ rested_book side price c (book_of b queues)
book_of-rested true price c b b' queues queues' h = Book-eq h.own h.other h.index
book_of-rested false price c b b' queues queues' h = Book-eq h.other h.own h.index

module _ (price volume : ℤ) (side : Bool) (time order_id : ℤ) (b : Orderbook) (queues : Queues)
    (rep : Rep b queues) where
  abbrev fuel : ℕ
  fuel = suc (length (levels (not side) b))

  abbrev swept : Swept
  swept =
      sweep side price time volume (arrived order_id volume) b.global_map
        (side_of (not side) (book_of b queues))

  abbrev loops : Run Exit
  loops = take_levels fuel side price time volume (arrived order_id volume) b

  loops-Swept : SweptBy b queues (not side) swept loops
  loops-Swept =
      subst
        (λ m.
          SweptBy b queues (not side)
            (sweep side price time volume (arrived order_id volume) b.global_map m) loops)
        (sym (side_of-book_of (not side) b queues))
        (take_levels-Swept side price time fuel (levels (not side) b) volume
          (arrived order_id volume) b queues rep refl (omega arith))

  abbrev Goal : Type 0
  Goal =
      Yields (match price volume side time order_id b)
        (place b.unused price volume side time order_id (book_of b queues))

  module _ (b' : Orderbook) (queues' : Queues) (ran : loops ≡ done swept.exit b')
      (sweeps : Sweeps b queues (not side) swept b' queues') where
    ended : (e : Exit) → swept.exit ≡ e → loops ≡ done e b'
    ended e is = ran ∙ ap (λ x. done x b') is

    placed :
        (e : Exit)
        → swept.exit ≡ e
        → settle b.unused price side order_id (swept_book side swept (book_of b queues)) e
          ≡ place b.unused price volume side time order_id (book_of b queues)
    unfolding place
    placed e is =
        ap (settle b.unused price side order_id (swept_book side swept (book_of b queues))) (sym is)

    returned-case : (r : OrderResult) → swept.exit ≡ returned r → Goal
    unfolding match
    returned-case r is =
        subst (Yields (match price volume side time order_id b)) (placed (returned r) is) (
          b',
          queues',
          rw (ended (returned r) is) refl,
          sweeps.rep,
          book_of-swept side b b' queues queues' swept sweeps,
        )

    spent-case : (v : ℤ) (r : OrderResult) → swept.exit ≡ left v r → ltb_ℤ (pos 0) v ≡ false → Goal
    unfolding match
    spent-case v r is spent =
        subst (Yields (match price volume side time order_id b))
          (sym (if_false _ _ _ spent) ∙ placed (left v r) is)
          (
            b',
            queues',
            rw (ended (left v r) is, spent) refl,
            sweeps.rep,
            book_of-swept side b b' queues queues' swept sweeps,
          )

    rest-case : (v : ℤ) (r : OrderResult) → swept.exit ≡ left v r → ltb_ℤ (pos 0) v ≡ true → Goal
    unfolding match
    rest-case v r is more =
        let (b'', queues'', rested, rests) =
          rest_order-Rests b' queues' side price order_id v sweeps.rep (ltb_ℤ→lt (pos 0) v more) in
        subst (Yields (match price volume side time order_id b))
          (sym (if_true _ _ _ more) ∙ placed (left v r) is)
          (
            b'',
            queues'',
            rw (ended (left v r) is, more, rested) refl,
            rests.rep,
            book_of-rested side price _ b' b'' queues' queues'' rests
                ∙ ap₂
                    (λ p.
                      rested_book side price (record { addr = p; order_id = order_id; volume = v }))
                    sweeps.unused (book_of-swept side b b' queues queues' swept sweeps),
          )

  -- On a well-formed book, `match` ends without a fault and within its fuel, gives the result that
  -- `Book.place` gives on the book that the state stands for, and leaves a well-formed state, which
  -- stands for the book that `Book.place` gives.
  pub match_refines :
      Yields
        (match price volume side time order_id b)
        (place b.unused price volume side time order_id (book_of b queues))
  match_refines =
      let (b', queues', ran, sweeps) = loops-Swept in
      elim (Exit-cases swept.exit) [
        | inl (r, is) ↦ returned-case b' queues' ran sweeps r is
        | inr (v, r, is) ↦ elim (Bool-cases (ltb_ℤ (pos 0) v)) [
          | inl more ↦ rest-case b' queues' ran sweeps v r is more
          | inr spent ↦ spent-case b' queues' ran sweeps v r is spent
        ]
      ]
