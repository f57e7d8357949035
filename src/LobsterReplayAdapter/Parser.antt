-- ===== src/LobsterReplayAdapter/Parser.antt =====
-- `parse_row` of Core_Infra/lobster_replay_adapter.cpp.
use distributed_orderbook.Prelude.{◌==◌, Option, none, some, [], ◌∷◌, if◌then◌else◌}
use distributed_orderbook.Prelude.Int.{ℤ}
use distributed_orderbook.LobsterReplayAdapter.Strto.{Text, strtoll, strtol_int}
use distributed_orderbook.LobsterReplayAdapter.{Row}

-- A conversion: the value, and the text from `end` on
abbrev pub Reader : Type 0
Reader = Text → Option (ℤ × Text)

-- `*end == ','`, and `p = end + 1`
abbrev pub comma : ℤ → Text → Option (ℤ × Text)
comma v [] = none
comma v (c ∷ s) = if c == b',' then some (v, s) else none

-- A conversion with the test that follows it
unfoldable pub field : Reader → Reader
field read p = elim (read p) [ none ↦ none | some (v, end) ↦ comma v end ]

infixl 5 ◌>>=◌
abbrev pub ◌>>=◌ {ℓ} : {A B : Type ℓ} → Option A → (A → Option B) → Option B
none >>= f = none
some a >>= f = f a

-- `strtod` stands for `std::strtod` with the cast of its value times 1e9 to `int64_t`.
unfoldable pub parse_row : Reader → Text → Option Row
parse_row strtod line = do
  (time, p) ← field strtod line
  (type, p) ← field strtol_int p
  (order_id, p) ← field strtoll p
  (size, p) ← field strtoll p
  (price, p) ← field strtoll p
  (direction, _) ← strtol_int p
  some record {
    time_ns = time;
    type = type;
    order_id = order_id;
    size = size;
    price = price;
    direction = direction;
  }
