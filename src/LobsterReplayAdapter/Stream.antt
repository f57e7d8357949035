-- ===== src/LobsterReplayAdapter/Stream.antt =====
-- `process_stream` of Core_Infra/lobster_replay_adapter.cpp: the lines of a stream, and what is done with
-- each.
use distributed_orderbook.Prelude.{
  ℕ, zero, suc, ◌≡◌, refl, inl, inr, Bool-cases, ◌==◌, Option, none, some, List, [], ◌∷◌,
  if◌then◌else◌,
}
use distributed_orderbook.Prelude.Int.{ℤ}
use distributed_orderbook.RingBuffer.Types.{InboundRing}
use distributed_orderbook.Gateway.{Call, returned, waits, aborts}
use distributed_orderbook.LobsterReplayAdapter.{LobsterReplayAdapter, failed, dispatch}
use distributed_orderbook.LobsterReplayAdapter.Strto.{Text}
use distributed_orderbook.LobsterReplayAdapter.Parser.{Reader, parse_row}

-- The text up to the first end of line, and the text after it
unfoldable pub cut : Text → Text × Text
cut [] = ([], [])
cut (c ∷ s) = let rest = cut s in if c == b'\n' then ([], s) else (c ∷ rest.0, rest.1)

-- `std::getline`: a line without its end, and the rest of the stream; it fails where nothing is left.
unfoldable pub getline : Text → Option (Text × Text)
unfolding cut
getline [] = none
getline (c ∷ s) = some (cut (c ∷ s))

-- a byte before the lines
abbrev lead : ℕ → List Text → List Text
lead c [] = (c ∷ []) ∷ []
lead c (line ∷ rest) = (c ∷ line) ∷ rest

-- The lines that the loop reads
unfoldable pub lines : Text → List Text
lines [] = []
lines (c ∷ s) = let rest = lines s in if c == b'\n' then [] ∷ rest else lead c rest

pub lines-cut : (c : ℕ) (s : Text) → lines (c ∷ s) ≡ (cut (c ∷ s)).0 ∷ lines (cut (c ∷ s)).1
unfolding cut lines
lines-cut c [] = elim (Bool-cases (c == b'\n')) [ inl e ↦ rw e refl | inr e ↦ rw e refl ]
lines-cut c (d ∷ s) = elim (Bool-cases (c == b'\n')) [
  | inl e ↦ rw e refl
  | inr e ↦ rw (e, lines-cut d s) refl
]

-- What the loop does with a line
unfoldable pub process_line :
    Reader
    → Text
    → ℤ
    → LobsterReplayAdapter
    → InboundRing
    → Call (LobsterReplayAdapter × InboundRing)
process_line strtod [] now a ring = returned (a, ring)
process_line strtod (c ∷ s) now a ring = elim (parse_row strtod (c ∷ s)) [
  | none ↦ returned (failed a, ring)
  | some row ↦ dispatch row now a ring
]

-- The loop goes on after a line whose call returns.
abbrev pub after_line :
    (LobsterReplayAdapter × InboundRing → Option (Call (LobsterReplayAdapter × InboundRing)))
    → Call (LobsterReplayAdapter × InboundRing)
    → Option (Call (LobsterReplayAdapter × InboundRing))
after_line next (returned p) = next p
after_line next waits = some waits
after_line next aborts = some aborts

-- The loop, on fuel, while no other thread acts; `none` is that the fuel was not enough. `clock` gives
-- the time of a line.
unfoldable pub process_stream :
    ℕ
    → Reader
    → (Text → ℤ)
    → Text
    → LobsterReplayAdapter
    → InboundRing
    → Option (Call (LobsterReplayAdapter × InboundRing))
process_stream zero strtod clock text a ring = none
process_stream (suc n) strtod clock text a ring = elim (getline text) [
  | none ↦ some (returned (a, ring))
  | some (line, rest) ↦
      after_line (λ p. process_stream n strtod clock rest p.0 p.1)
        (process_line strtod line (clock text) a ring)
]
