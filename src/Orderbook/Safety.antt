-- ===== src/Orderbook/Safety.antt =====
-- What holds of the order book after any sequence of calls of its methods.
use mathlib.Core.Path.{subst}
use distributed_orderbook.Prelude.{
  ◌≡◌, sym, Bool, true, false, not, Option, none, some, List, [], ◌∷◌, All,
}
use distributed_orderbook.Prelude.Int.{ℤ}
use distributed_orderbook.Orderbook.Types.{Ptr, null, Order, Orderbook, OrderResult}
use distributed_orderbook.Orderbook.Command.{done}
use distributed_orderbook.Orderbook.Methods.{match, before}
use distributed_orderbook.Orderbook.Rep.{Cell, Level, Segment, Ordered, Queues, Rep}
use distributed_orderbook.Orderbook.Match.Levels.{view}
use distributed_orderbook.Orderbook.Match.Refine.{book_of, match_refines}
use distributed_orderbook.Book.{side_of}
use distributed_orderbook.Book.Loops.{Positive}
use distributed_orderbook.Book.Accounts.{Correct, place-Correct}
use distributed_orderbook.Book.Crossing.{Sorted}

Segment-Positive :
    (h : Ptr → Option Order) (side : Bool) (price : ℤ) (l prev after : Ptr) (cs : List Cell)
    → Segment h side price l prev after cs
    → Positive cs
Segment-Positive h side price l prev after [] s = tt
Segment-Positive h side price l prev after (c ∷ cs) s =
    (s.2, Segment-Positive h side price l c.addr after cs s.4)

Level-Positive :
    (b : Orderbook) (side : Bool) (price : ℤ) (entry : Option Ptr) (cs : List Cell)
    → Level b side price entry cs
    → Positive cs
Level-Positive b side price none cs v = subst Positive (sym v) tt
Level-Positive b side price (some l) cs v = Segment-Positive b.orders side price l null null cs v.3

view-All :
    (P : List Cell → Type 0) (queue : ℤ → List Cell) (m : List (ℤ × Ptr))
    → ((price : ℤ) → P (queue price))
    → All (λ (e : ℤ × List Cell). P e.1) (view queue m)
view-All P queue [] h = tt
view-All P queue ((price, _) ∷ m) h = (h price, view-All P queue m h)

pub view-keys :
    (P : ℤ → Type 0) (queue : ℤ → List Cell) (m : List (ℤ × Ptr))
    → All (λ (e : ℤ × Ptr). P e.0) m
    → All (λ (e : ℤ × List Cell). P e.0) (view queue m)
view-keys P queue [] h = tt
view-keys P queue ((price, _) ∷ m) h = (h.0, view-keys P queue m h.1)

view-Sorted :
    (lt : ℤ → ℤ → Bool) (queue : ℤ → List Cell) (m : List (ℤ × Ptr))
    → Ordered lt m
    → Sorted lt (view queue m)
view-Sorted lt queue [] h = tt
view-Sorted lt queue ((price, _) ∷ m) h =
    (view-keys (λ q. lt price q ≡ true) queue m h.0, view-Sorted lt queue m h.1)

module _ {b : Orderbook} {queues : Queues} (rep : Rep b queues) where
  book_of-Positive :
      (side : Bool) → All (λ (e : ℤ × List Cell). Positive e.1) (side_of side (book_of b queues))
  book_of-Positive true =
      view-All Positive (queues true) b.asks
        (λ price. Level-Positive b true price _ _ (rep.level true price))
  book_of-Positive false =
      view-All Positive (queues false) b.bids
        (λ price. Level-Positive b false price _ _ (rep.level false price))

  pub book_of-Sorted : (side : Bool) → Sorted (before side) (side_of side (book_of b queues))
  book_of-Sorted true = view-Sorted (before true) (queues true) b.asks (rep.ordered true)
  book_of-Sorted false = view-Sorted (before false) (queues false) b.bids (rep.ordered false)

  -- On a well-formed book `match` ends without a fault, with a result in which the trades and the
  -- shares that are left make up the order, `fulfilled` says whether none are left, and each fill
  -- trades at least a share, at a price that the order accepts and at the order's time.
  pub match-Correct :
      (price volume : ℤ) (side : Bool) (time order_id : ℤ)
      → (r : OrderResult) × (b' : Orderbook) × (match price volume side time order_id b ≡ done r b')
        × Correct side price time volume order_id r
  match-Correct price volume side time order_id =
      let (b', _, ran, _, _) = match_refines price volume side time order_id b queues rep in
      (
        _,
        b',
        ran,
        place-Correct side price time volume order_id b.unused (book_of b queues)
            (book_of-Positive (not side)),
      )
