-- ===== src/LobsterReplayAdapter/Asks.antt =====
-- What a line of the message file asks of the order book, as a function of the line and of the sizes of
-- the orders so far.
pub mod Outcomes
pub mod Takes
pub mod Streamed
use distributed_orderbook.Prelude.{
  ℕ, Bool, true, false, none, some, List, [], ◌∷◌, ◌++◌, if◌then◌else◌,
}
use distributed_orderbook.Prelude.Int.{ℤ, pos, negsuc, ◌-ℤ◌, leb_ℤ, eqb_ℤ}
use distributed_orderbook.Prelude.Maps.{find, assign, erase}
use distributed_orderbook.MatchingEngine.Requests.{Request, new_order, cancel_order, modify_order}
use distributed_orderbook.LobsterReplayAdapter.{Row}
use distributed_orderbook.LobsterReplayAdapter.Strto.{Text}
use distributed_orderbook.LobsterReplayAdapter.Parser.{Reader, parse_row}

abbrev pub Sizes : Type 0
Sizes = List (ℤ × ℤ)

-- A smaller size is asked for only if something is left of a known order.
unfoldable pub asks_reduce : Row → Sizes → List Request × Sizes
asks_reduce row sizes = elim (find row.order_id sizes) [
  | none ↦ ([], sizes)
  | some size ↦ if leb_ℤ (size -ℤ row.size) (pos 0) then ([], sizes) else (
    modify_order row.order_id (size -ℤ row.size) ∷ [],
    assign row.order_id (size -ℤ row.size) sizes,
  )
]

-- The request of a row, or none, and the sizes after it
unfoldable pub asks : ℤ → Row → Sizes → List Request × Sizes
unfolding asks_reduce
asks gateway_id row sizes =
    if eqb_ℤ row.type (pos 1)
    then (
      new_order row.price row.size (eqb_ℤ row.direction (negsuc 0)) row.time_ns row.order_id
            gateway_id
          ∷ [],
      assign row.order_id row.size sizes,
    )
    else if eqb_ℤ row.type (pos 2)
    then asks_reduce row sizes
    else if eqb_ℤ row.type (pos 3)
    then (cancel_order row.order_id ∷ [], erase row.order_id sizes)
    else ([], sizes)

module _ (strtod : Reader) (gateway_id : ℤ) where
  -- An empty line and a malformed one ask for nothing.
  unfoldable pub asks_line : Text → Sizes → List Request × Sizes
  asks_line [] sizes = ([], sizes)
  asks_line (c ∷ s) sizes = elim (parse_row strtod (c ∷ s)) [
    | none ↦ ([], sizes)
    | some row ↦ asks gateway_id row sizes
  ]

  -- The requests of the lines, one after the other
  unfoldable pub asks_all : List Text → Sizes → List Request
  asks_all [] sizes = []
  asks_all (line ∷ rest) sizes =
      let asked = asks_line line sizes in asked.0 ++ asks_all rest asked.1
