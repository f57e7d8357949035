-- ===== src/LobsterReplayAdapter/RoundTrip.antt =====
-- A row that is written in decimal is read back.
use distributed_orderbook.Prelude.{◌≡◌, refl, false, some, ◌∷◌, ◌++◌}
use distributed_orderbook.LobsterReplayAdapter.{Row}
use distributed_orderbook.LobsterReplayAdapter.Strto.{Text, starts_digit}
use distributed_orderbook.LobsterReplayAdapter.Parser.{Reader, parse_row}
use distributed_orderbook.LobsterReplayAdapter.Decimals.{
  IsInt64, IsInt, print, strtoll-print, strtol_int-print,
}
use distributed_orderbook.LobsterReplayAdapter.Grammar.{parse_row_iff}

-- A row that the types of its fields can hold
pub record InRange (row : Row) : Type 0 where
  pub type : IsInt row.type
  pub order_id : IsInt64 row.order_id
  pub size : IsInt64 row.size
  pub price : IsInt64 row.price
  pub direction : IsInt row.direction

-- A line of the message file, from the text of its time, and what trails it
abbrev pub print_row : Text → Row → Text → Text
print_row time row trailing =
    time
    ++ b','
      ∷ (print row.type
          ++ b','
            ∷ (print row.order_id
                ++ b','
                  ∷ (print row.size
                      ++ b',' ∷ (print row.price ++ b',' ∷ (print row.direction ++ trailing)))))

-- A line that has the fields of a row in decimal, for values that their types hold, is parsed as that
-- row, whatever trails it if that does not start with a digit, provided that `strtod` reads the text of
-- the time and stops at the comma.
pub parse_row-print_row :
    (strtod : Reader) (time : Text) (row : Row) (trailing : Text)
    → ((rest : Text) → strtod (time ++ b',' ∷ rest) ≡ some (row.time_ns, b',' ∷ rest))
    → InRange row
    → starts_digit trailing ≡ false
    → parse_row strtod (print_row time row trailing) ≡ some row
parse_row-print_row strtod time row trailing reads fits stops =
    (parse_row_iff strtod (print_row time row trailing) row).1 record {
      after_time = _;
      after_type = _;
      after_order_id = _;
      after_size = _;
      after_price = _;
      trailing = trailing;
      time = reads _;
      type = strtol_int-print _ row.type refl fits.type;
      order_id = strtoll-print _ refl row.order_id fits.order_id;
      size = strtoll-print _ refl row.size fits.size;
      price = strtoll-print _ refl row.price fits.price;
      direction = strtol_int-print trailing row.direction stops fits.direction;
    }
