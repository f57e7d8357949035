-- ===== src/MainReplay/Examples.antt =====
-- A run over a file of three lines, of which the second is empty and the third is no row.
use Prim.Native.Char.{code}
use Prim.Native.String.{String}
use mathlib.Core.Path.{subst}
use distributed_orderbook.Prelude.{
  ◌*◌, ◌≤◌, ◌≡◌, ◌↔◌, ◌⊎◌, refl, sym, ◌∙◌, true, false, some, none, [], ◌∷◌, length, All,
}
use distributed_orderbook.Prelude.Int.{pos}
use distributed_orderbook.Prelude.Maps.{assign, erase}
use distributed_orderbook.RingBuffer.Types.{InboundRing}
use distributed_orderbook.RingBuffer.Inbox
use distributed_orderbook.RingBuffer.Inbox.{claim}
use distributed_orderbook.RingBuffer.Inbound.{pending, new-Valid}
use distributed_orderbook.Gateway.{is_negative, place_order_to_ring_buffer}
use distributed_orderbook.LobsterReplayAdapter.{Row, dispatch, dispatch_new}
use distributed_orderbook.LobsterReplayAdapter.Strto.{
  Text, skip_space, digits, strtoll, to_int, strtol_int,
}
use distributed_orderbook.LobsterReplayAdapter.Parser.{field, parse_row}
use distributed_orderbook.LobsterReplayAdapter.Stream.{lines, process_line}
use distributed_orderbook.LobsterReplayAdapter.Grammar.{some-injective}
use distributed_orderbook.LobsterReplayAdapter.Asks.Outcomes.{Clean}
use distributed_orderbook.MainReplay.{
  Process, set_up, Step, fed, Reaches, at_start, then_step, all_released,
}
use distributed_orderbook.MainReplay.Released.{all_released_iff}
use distributed_orderbook.MainReplay.Runs.{Running}
use distributed_orderbook.MainReplay.Ends.{Drained, Reaches-Running, Reaches-ends}

abbrev codes : String → Text
codes String.[] = []
codes (String.◌∷◌ c s) = code c ∷ codes s

-- Whole nanoseconds stand for the times.
abbrev row_line : Text
row_line = codes "34,1,11,18,5853,1\r"

abbrev file : Text
file = codes "34,1,11,18,5853,1\r\n\nbad\n"

file-lines : lines file ≡ row_line ∷ [] ∷ codes "bad" ∷ []
unfolding lines
file-lines = refl

abbrev row : Row
row = record {
  time_ns = pos 34;
  type = pos 1;
  order_id = pos 11;
  size = pos 18;
  price = pos 5853;
  direction = pos 1;
}

row_parsed : parse_row strtoll row_line ≡ some row
unfolding parse_row field strtoll strtol_int skip_space digits to_int
row_parsed = refl

bad_parsed : parse_row strtoll (codes "bad") ≡ none
unfolding parse_row field strtoll skip_space
bad_parsed = refl

empty_parsed : parse_row strtoll [] ≡ none
unfolding parse_row field strtoll skip_space
empty_parsed = refl

row-Clean : Clean strtoll row_line
row-Clean r e =
    subst (λ (x : Row). (is_negative x.order_id ≡ false) × (is_negative x.time_ns ≡ false))
      (some-injective (sym row_parsed ∙ e)) (refl, refl)

no_row-Clean : (line : Text) → parse_row strtoll line ≡ none → Clean strtoll line
no_row-Clean line bad r e = cc (sym bad ∙ e)

file-Clean : All (Clean strtoll) (lines file)
file-Clean =
    subst (All (Clean strtoll)) (sym file-lines)
      (row-Clean, (no_row-Clean [] empty_parsed, (no_row-Clean (codes "bad") bad_parsed, tt)))

-- The adapter reads the first line.
abbrev after_line : (s : Process) × Step strtoll (set_up file) s
unfolding process_line dispatch dispatch_new place_order_to_ring_buffer claim parse_row field
    strtoll strtol_int skip_space digits to_int assign erase
after_line = (_, fed row_line ([] ∷ codes "bad" ∷ []) (pos 0) _ _ file-lines refl)

abbrev read_one : Reaches strtoll file 1 after_line.0
read_one = then_step after_line.0 at_start after_line.1

Reaches-Running_example : Running strtoll file after_line.0
Reaches-Running_example = Reaches-Running strtoll file file-Clean read_one

Reaches-ends_example :
    (1 ≤ 2 * length (lines file))
    × (Drained strtoll file after_line.0 ⊎ ((s' : Process) × Step strtoll after_line.0 s'))
Reaches-ends_example = Reaches-ends strtoll file file-Clean 1 after_line.0 read_one

abbrev ring : InboundRing
ring = Inbox.new 2

all_released_iff_example : (all_released ring ≡ true) ↔ (pending 0 ring ≡ [])
all_released_iff_example = all_released_iff ring (new-Valid 1)
