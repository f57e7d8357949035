-- ===== src/LobsterReplayAdapter/Asks/Outcomes.antt =====
-- The state after a line that does what it asks for
use distributed_orderbook.Prelude.{
  suc, refl, ap, ℕ, ◌+◌, ◌≤◌, ◌≡◌, true, false, some, List, [], ◌∷◌, ◌++◌, map, length, All,
}
use distributed_orderbook.RingBuffer.Types.{InboundEvent, InboundRing}
use distributed_orderbook.RingBuffer.Inbound.{Valid, pending}
use distributed_orderbook.Gateway.{Gateway, replay, Call, returned, waits, is_negative}
use distributed_orderbook.MatchingEngine.Requests.{Request, request}
use distributed_orderbook.LobsterReplayAdapter.{Row, LobsterReplayAdapter}
use distributed_orderbook.LobsterReplayAdapter.Strto.{Text}
use distributed_orderbook.LobsterReplayAdapter.Parser.{Reader, parse_row}
use distributed_orderbook.LobsterReplayAdapter.Asks.{Sizes}

abbrev pub Silent : List InboundEvent → Type 0
Silent = All (λ (e : InboundEvent). e.silent ≡ true)

-- The rows that are counted
abbrev pub counted : LobsterReplayAdapter → ℕ
counted a = a.rows_processed + a.rows_skipped + a.rows_failed

-- A silent gateway of a replay
pub record Replaying (g : Gateway) : Type 0 where
  pub mode : g.mode ≡ replay
  pub silent : g.silent ≡ true

-- The row of a line, if it is one, has an id and a time that the gateway takes.
abbrev pub Clean : Reader → Text → Type 0
Clean strtod line =
    (row : Row)
    → parse_row strtod line ≡ some row
    → (is_negative row.order_id ≡ false) × (is_negative row.time_ns ≡ false)

-- An empty line is not counted.
abbrev pub rows_in : Text → ℕ
rows_in [] = 0
rows_in (c ∷ s) = 1

-- The state after a line that asks for `asked` and adds `rows` to the counters
pub record Takes (k read : ℕ) (a : LobsterReplayAdapter) (ring : InboundRing)
    (asked : List Request × Sizes) (rows : ℕ) (a' : LobsterReplayAdapter) (ring' : InboundRing)
    : Type 0 where
  pub sizes : a'.live_sizes ≡ asked.1
  pub gateway : a'.gateway ≡ a.gateway
  pub sent : a'.rows_processed ≡ a.rows_processed + length asked.0
  pub one : length asked.0 ≤ 1
  pub rows_counted : counted a' ≡ counted a + rows
  pub valid : Valid k read ring'
  pub waiting : map request (pending read ring') ≡ map request (pending read ring) ++ asked.0
  pub silent : Silent (pending read ring) → Silent (pending read ring')

pub data Took (k read : ℕ) (a : LobsterReplayAdapter) (ring : InboundRing)
    (asked : List Request × Sizes) (rows : ℕ)
    : Call (LobsterReplayAdapter × InboundRing) → Type 0 where
  took :
      (a' : LobsterReplayAdapter) (ring' : InboundRing)
      → Takes k read a ring asked rows a' ring'
      → Took k read a ring asked rows (returned (a', ring'))
  blocked :
      ring.write_pointer ≡ read + ring.size
      → length asked.0 ≡ 1
      → Took k read a ring asked rows waits

-- The lines that are not empty
abbrev pub rows_of : List Text → ℕ
rows_of [] = 0
rows_of (line ∷ rest) = rows_in line + rows_of rest

pub length-map : {A B : Type 0} (f : A → B) (xs : List A) → length (map f xs) ≡ length xs
length-map f [] = refl
length-map f (x ∷ xs) = ap suc (length-map f xs)
