-- ===== src/Book/Changes.antt =====
-- What the order book promises of a cancellation and of a reduction.
use distributed_orderbook.Prelude.{
  Bool, true, false, Option, none, some, List, [], ◌∷◌, ◌==◌, if◌then◌else◌,
}
use distributed_orderbook.Prelude.Int.{ℤ, pos, leb_ℤ}
use distributed_orderbook.Prelude.Maps.{find, erase}
use distributed_orderbook.Orderbook.Types.{Ptr}
use distributed_orderbook.Orderbook.Rep.{Cell}
use distributed_orderbook.Orderbook.Rep.Locate.{set_volume, remove}
use distributed_orderbook.Book.{Side, Book, put_level}

-- Every queue of a side is changed, and a price without an order goes.
abbrev pub change : (List Cell → List Cell) → Side → Side
change f [] = []
change f ((price, cs) ∷ rest) = put_level price (f cs) (change f rest)

abbrev pub change_book : (List Cell → List Cell) → Book → Book
change_book f book = record book { asks = change f book.asks; bids = change f book.bids }

-- The volume of the order at an address
abbrev pub volume_in : Ptr → List Cell → Option ℤ
volume_in p [] = none
volume_in p (c ∷ cs) = if p == c.addr then some c.volume else volume_in p cs

abbrev pub or_else : Option ℤ → Option ℤ → Option ℤ
or_else (some v) o = some v
or_else none o = o

abbrev pub volume_on : Ptr → Side → Option ℤ
volume_on p [] = none
volume_on p ((_, cs) ∷ rest) = or_else (volume_in p cs) (volume_on p rest)

abbrev pub volume_of : Ptr → Book → Option ℤ
volume_of p book = or_else (volume_on p book.asks) (volume_on p book.bids)

-- A known order is withdrawn, and its id is no longer known.
unfoldable pub withdraw : ℤ → Book → Bool × Book
withdraw order_id book = elim (find order_id book.index) [
  | none ↦ (false, book)
  | some p ↦ (true, record (change_book (remove p) book) { index = erase order_id book.index })
]

-- A known order gets a smaller size that is positive, where it stands.
unfoldable pub reduce : ℤ → ℤ → Book → Bool × Book
reduce order_id new_size book = elim (find order_id book.index) [
  | none ↦ (false, book)
  | some p ↦ if leb_ℤ new_size (pos 0) then (false, book) else elim (volume_of p book) [
    | none ↦ (false, book)
    | some volume ↦
        if leb_ℤ volume new_size
        then (false, book)
        else (true, change_book (set_volume p new_size) book)
  ]
]
