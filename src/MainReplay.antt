-- ===== src/MainReplay.antt =====
-- The program of main_replay.cpp: a thread that streams a message file into the inbound ring, and the
-- engine's thread.
pub mod Released
pub mod Runs
pub mod Ends
mod Examples
use distributed_orderbook.Prelude.{ℕ, zero, suc, ◌≡◌, Bool, true, not, ◌&&◌, none, List, [], ◌∷◌}
use distributed_orderbook.Prelude.Int.{ℤ, pos}
use distributed_orderbook.RingBuffer.Types.{InboundRing, OutboundRing}
use distributed_orderbook.RingBuffer.Inbox
use distributed_orderbook.RingBuffer.Outbox
use distributed_orderbook.Gateway.{Gateway, replay, new_gateway, returned}
use distributed_orderbook.MatchingEngine.{MatchingEngine, new_engine, handled, run}
use distributed_orderbook.LobsterReplayAdapter.{LobsterReplayAdapter, new_adapter}
use distributed_orderbook.LobsterReplayAdapter.Strto.{Text}
use distributed_orderbook.LobsterReplayAdapter.Parser.{Reader}
use distributed_orderbook.LobsterReplayAdapter.Stream.{lines, process_line}

-- The objects that the two threads share, and the lines that the adapter has still to read
pub record Process : Type 0 where
  pub left : List Text
  pub adapter : LobsterReplayAdapter
  pub inbound : InboundRing
  pub engine : MatchingEngine
  pub outbounds : List OutboundRing

abbrev pub replay_gateway : Gateway
replay_gateway = new_gateway (pos 0) replay none

-- The state before the adapter reads the first line of a file
abbrev pub set_up : Text → Process
set_up file = record {
  left = lines file;
  adapter = new_adapter replay_gateway;
  inbound = Inbox.new 1024;
  engine = new_engine 1;
  outbounds = Outbox.new 64 ∷ [];
}

-- What a thread does next, if nothing stops it: a line, or a round with an event. A thread that waits
-- takes no step.
pub data Step (strtod : Reader) (s : Process) : Process → Type 0 where
  fed :
      (line : Text) (rest : List Text) (now : ℤ) (a' : LobsterReplayAdapter) (ring' : InboundRing)
      → s.left ≡ line ∷ rest
      → process_line strtod line now s.adapter s.inbound ≡ returned (a', ring')
      → Step strtod s (record s { left = rest; adapter = a'; inbound = ring' })
  worked :
      (m' : MatchingEngine) (ring' : InboundRing) (outbounds' : List OutboundRing)
      → run s.engine s.inbound s.outbounds ≡ handled m' ring' outbounds'
      → Step strtod s (record s { engine = m'; inbound = ring'; outbounds = outbounds' })

-- The states after `n` steps of the program, in any order of the threads
pub data Reaches (strtod : Reader) (file : Text) : ℕ → Process → Type 0 where
  at_start : Reaches strtod file 0 (set_up file)
  then_step :
      {n : ℕ} {s : Process} (s' : Process)
      → Reaches strtod file n s
      → Step strtod s s'
      → Reaches strtod file (suc n) s'

-- No slot from `0` to `n - 1` is ready.
abbrev pub released : ℕ → InboundRing → Bool
released zero ring = true
released (suc n) ring = not (Inbox.get n ring).is_ready && released n ring

-- The test that the program waits for
unfoldable pub all_released : InboundRing → Bool
all_released ring = released ring.size ring
