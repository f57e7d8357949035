-- ===== src/Book.antt =====
-- What the order book promises, with no memory: each side is a list of prices, the best first, with
-- the queue of its orders, the oldest first. An incoming order trades with the best price and, at a
-- price, with the oldest order.
pub mod Loops
pub mod Accounts
pub mod Crossing
pub mod Changes
pub mod Bounds
pub mod Quotes
use distributed_orderbook.Prelude.{
  Bool, true, false, not, ◌&&◌, Option, none, some, List, [], ◌∷◌, ◌++◌, if◌then◌else◌,
}
use distributed_orderbook.Prelude.Int.{ℤ, pos, ◌-ℤ◌, ltb_ℤ, eqb_ℤ}
use distributed_orderbook.Prelude.Maps.{erase, assign}
use distributed_orderbook.Orderbook.Types.{Ptr, Fill, OrderResult}
use distributed_orderbook.Orderbook.Methods.{Exit, returned, left, fill, crosses, before}
use distributed_orderbook.Orderbook.Rep.{Cell}

abbrev pub Side : Type 0
Side = List (ℤ × List Cell)

-- `index` gives the address of the order that an id stands for.
pub record Book : Type 0 where
  pub asks : Side
  pub bids : Side
  pub index : List (ℤ × Ptr)

-- What is left of a queue after a trade, with the index, and how the loop over the queue ends
pub record Taken : Type 0 where
  pub queue : List Cell
  pub index : List (ℤ × Ptr)
  pub exit : Exit

-- The result of a trade that uses up the incoming order
abbrev pub settled : OrderResult → ℤ → ℤ → ℤ → OrderResult
settled res price volume time = record res {
  fulfilled = true;
  remaining_qty = pos 0;
  trades = res.trades ++ fill price volume time ∷ [];
}

-- The result of a trade that uses up the resting order
abbrev pub traded : OrderResult → ℤ → ℤ → ℤ → OrderResult
traded res price volume time = record res {
  remaining_qty = res.remaining_qty -ℤ volume;
  trades = res.trades ++ fill price volume time ∷ [];
}

unfoldable pub take_queue : ℤ → ℤ → ℤ → OrderResult → List (ℤ × Ptr) → List Cell → Taken
take_queue price time volume res index [] = record {
  queue = [];
  index = index;
  exit = left volume res;
}
take_queue price time volume res index (c ∷ cs) =
    let rest =
      take_queue price time (volume -ℤ c.volume) (traded res price c.volume time)
        (erase c.order_id index) cs in
    if ltb_ℤ (pos 0) volume
    then (if ltb_ℤ volume c.volume
        then record {
          queue = record c { volume = c.volume -ℤ volume } ∷ cs;
          index = index;
          exit = returned (settled res price volume time);
        }
        else rest)
    else record { queue = c ∷ cs; index = index; exit = left volume res }

-- The same for the levels of a side
pub record Swept : Type 0 where
  pub levels : Side
  pub index : List (ℤ × Ptr)
  pub exit : Exit

abbrev pub put_level : ℤ → List Cell → Side → Side
put_level price [] rest = rest
put_level price (c ∷ cs) rest = (price, c ∷ cs) ∷ rest

-- What follows a trade at the best level: the next level, if this one is used up and shares are left
abbrev pub after_level : ℤ → Side → (ℤ → OrderResult → List (ℤ × Ptr) → Swept) → Taken → Swept
after_level best rest next t = elim t.exit [
  | returned r ↦ record { levels = put_level best t.queue rest; index = t.index; exit = returned r }
  | left v r ↦ elim t.queue [
    | [] ↦ next v r t.index
    | c ∷ cs ↦ record { levels = (best, c ∷ cs) ∷ rest; index = t.index; exit = left v r }
  ]
]

unfoldable pub sweep : Bool → ℤ → ℤ → ℤ → OrderResult → List (ℤ × Ptr) → Side → Swept
sweep side price time volume res index [] = record {
  levels = [];
  index = index;
  exit = left volume res;
}
sweep side price time volume res index ((best, cs) ∷ rest) =
    if crosses side price best && ltb_ℤ (pos 0) volume
    then after_level best rest (λ v r i. sweep side price time v r i rest)
        (take_queue best time volume res index cs)
    else record { levels = (best, cs) ∷ rest; index = index; exit = left volume res }

-- The new order goes to the end of the queue of its price.
unfoldable pub enter : (ℤ → ℤ → Bool) → ℤ → Cell → Side → Side
enter lt price c [] = (price, c ∷ []) ∷ []
enter lt price c ((q, cs) ∷ rest) =
    if eqb_ℤ q price
    then (q, cs ++ c ∷ []) ∷ rest
    else if lt price q
    then (price, c ∷ []) ∷ (q, cs) ∷ rest
    else (q, cs) ∷ enter lt price c rest

abbrev pub side_of : Bool → Book → Side
side_of side book = if side then book.asks else book.bids

abbrev pub with_side : Bool → Side → Book → Book
with_side side levels book = record book {
  asks = if side then levels else book.asks;
  bids = if side then book.bids else levels;
}

-- The book after the trades of an incoming order, and with what is left of the order
abbrev pub swept_book : Bool → Swept → Book → Book
swept_book side s book = record (with_side (not side) s.levels book) { index = s.index }

abbrev pub rested_book : Bool → ℤ → Cell → Book → Book
rested_book side price c book =
    record (with_side side (enter (before side) price c (side_of side book)) book) {
      index = assign c.order_id c.addr book.index;
    }

abbrev pub arrived : ℤ → ℤ → OrderResult
arrived order_id volume = record {
  order_id = order_id;
  fulfilled = false;
  remaining_qty = volume;
  trades = [];
}

abbrev pub settle : Ptr → ℤ → Bool → ℤ → Book → Exit → OrderResult × Book
settle addr price side order_id book (returned r) = (r, book)
settle addr price side order_id book (left v r) =
    if ltb_ℤ (pos 0) v
    then (r, rested_book side price (record { addr = addr; order_id = order_id; volume = v }) book)
    else (record r { fulfilled = true }, book)

-- An incoming order, which gets the address `addr` if a part of it rests
unfoldable pub place : Ptr → ℤ → ℤ → Bool → ℤ → ℤ → Book → OrderResult × Book
place addr price volume side time order_id book =
    let s =
      sweep side price time volume (arrived order_id volume) book.index (side_of (not side) book) in
    settle addr price side order_id (swept_book side s book) s.exit
