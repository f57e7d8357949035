-- ===== src/LobsterReplayAdapter/Examples.antt =====
-- The adapter's theorems at lines of the message file, at a submission and at a ring of two slots.
use Prim.Native.Char.{code}
use mathlib.Core.Path.{subst}
use Prim.Native.String.{String}
use distributed_orderbook.Prelude.{
  ◌+◌, ◌*◌, ◌^◌, ◌==◌, ◌≡◌, ◌↔◌, refl, sym, ◌∙◌, false, none, some, Option, [], ◌∷◌, if◌then◌else◌,
  arith, All,
}
use distributed_orderbook.Prelude.Int.{ℤ, pos, negsuc}
use distributed_orderbook.RingBuffer.Types.{InboundRing}
use distributed_orderbook.RingBuffer.Inbox
use distributed_orderbook.RingBuffer.Inbound.{new-Valid}
use distributed_orderbook.Gateway.{is_negative, replay, new_gateway}
use distributed_orderbook.LobsterReplayAdapter.{Row, LobsterReplayAdapter, new_adapter, dispatch}
use distributed_orderbook.LobsterReplayAdapter.Rows.{Dispatched, dispatch-Dispatched}
use distributed_orderbook.LobsterReplayAdapter.Strto.{
  Text, skip_space, digits, strtoll, to_int, strtol_int,
}
use distributed_orderbook.LobsterReplayAdapter.Parser.{field, parse_row}
use distributed_orderbook.LobsterReplayAdapter.Stream.{lines, process_line, process_stream}
use distributed_orderbook.LobsterReplayAdapter.Grammar.{Parsed, some-injective, parse_row_iff}
use distributed_orderbook.LobsterReplayAdapter.RoundTrip.{InRange, print_row, parse_row-print_row}
use distributed_orderbook.LobsterReplayAdapter.Malformed.{strtoll-Gives, parse_row-few_commas}
use distributed_orderbook.LobsterReplayAdapter.Asks.{asks_line}
use distributed_orderbook.LobsterReplayAdapter.Asks.Outcomes.{Clean, Took}
use distributed_orderbook.LobsterReplayAdapter.Asks.Outcomes.{rows_of}
use distributed_orderbook.LobsterReplayAdapter.Asks.Takes.{process_line-Took}
use distributed_orderbook.LobsterReplayAdapter.Asks.Streamed.{
  Streamed, asked_by, process_stream-Streamed,
}

abbrev codes : String → Text
codes String.[] = []
codes (String.◌∷◌ c s) = code c ∷ codes s

-- Seconds, with nine digits after the point or none, as nanoseconds
abbrev fraction : ℤ → Text → ℤ × Text
fraction (pos n) (c ∷ s) =
    if c == b'.'
    then (pos (n * 10 ^ 9 + (digits 0 s).0), (digits 0 s).1)
    else (pos (n * 10 ^ 9), c ∷ s)
fraction (pos n) [] = (pos (n * 10 ^ 9), [])
fraction (negsuc n) s = (negsuc n, s)

abbrev seconds : Text → Option (ℤ × Text)
seconds s = elim (strtoll s) [ none ↦ none | some (v, end) ↦ some (fraction v end) ]

abbrev adapter : LobsterReplayAdapter
adapter = new_adapter (new_gateway (pos 0) replay none)

abbrev submission : Row
submission = record {
  time_ns = pos 34200004241176;
  type = pos 1;
  order_id = pos 11;
  size = pos 18;
  price = pos 5853;
  direction = negsuc 0;
}

abbrev ring : InboundRing
ring = Inbox.new 2

abbrev line : Text
line = codes "34200.004241176,1,11,18,5853,-1"

parse_row-line : parse_row seconds line ≡ some submission
unfolding parse_row field strtoll strtol_int skip_space digits to_int
parse_row-line = refl

parse_row_iff_example : (parse_row seconds line ≡ some submission) ↔ Parsed seconds line submission
parse_row_iff_example = parse_row_iff seconds line submission

submission-InRange : InRange submission
submission-InRange = record {
  type = omega arith;
  order_id = omega arith;
  size = omega arith;
  price = omega arith;
  direction = omega arith;
}

parse_row-print_row_example :
    parse_row seconds (print_row (codes "34200.004241176") submission (codes "\r"))
    ≡ some submission
unfolding strtoll skip_space digits
parse_row-print_row_example =
    parse_row-print_row seconds (codes "34200.004241176") submission (codes "\r") (λ rest. refl)
      submission-InRange refl

parse_row-few_commas_example : parse_row strtoll (codes "34200,1,11,18") ≡ none
parse_row-few_commas_example =
    parse_row-few_commas strtoll (codes "34200,1,11,18")
      (λ s end v e. (strtoll-Gives s end v e).fewer) (omega arith)

dispatch-Dispatched_example :
    Dispatched 1 0 submission (pos 7) adapter ring (dispatch submission (pos 7) adapter ring)
dispatch-Dispatched_example = dispatch-Dispatched adapter ring (new-Valid 1) submission (pos 7)

line-Clean : Clean seconds line
line-Clean row e =
    subst (λ (r : Row). (is_negative r.order_id ≡ false) × (is_negative r.time_ns ≡ false))
      (some-injective (sym parse_row-line ∙ e)) (refl, refl)

process_line-Took_example :
    Took 1 0 adapter ring
      (asks_line seconds (pos 0) line adapter.live_sizes)
      1
      (process_line seconds line (pos 7) adapter ring)
process_line-Took_example =
    process_line-Took adapter ring (new-Valid 1) (record { mode = refl; silent = refl }) seconds
      (pos 7) line line-Clean

-- The line with its end, and nothing after it
abbrev text : Text
text = codes "34200.004241176,1,11,18,5853,-1\n"

text-lines : lines text ≡ line ∷ []
unfolding lines
text-lines = refl

process_stream-Streamed_example :
    Streamed 1 0 adapter ring
      (asked_by seconds adapter (lines text))
      (rows_of (lines text))
      (process_stream 40 seconds (λ _. pos 7) text adapter ring)
process_stream-Streamed_example =
    process_stream-Streamed seconds (λ _. pos 7) 40 text adapter ring (omega arith) (new-Valid 1)
      (record { mode = refl; silent = refl })
      (subst (All (Clean seconds)) (sym text-lines) (line-Clean, tt))
