-- ===== src/LobsterReplayAdapter/Asks/Streamed.antt =====
-- What `process_stream` does with a text.
use mathlib.Core.Path.{subst}
use distributed_orderbook.Prelude.{
  ℕ, zero, suc, ◌+◌, ◌<◌, ◌≤◌, ◌≡◌, refl, sym, ap, ◌∙◌, Option, some, List, [], ◌∷◌, ◌++◌, map,
  append-nil, append_assoc, length, length-append, All, arith, inl, inr, Bool-cases, ◌==◌,
}
use distributed_orderbook.Prelude.Int.{ℤ}
use distributed_orderbook.RingBuffer.Types.{InboundRing}
use distributed_orderbook.RingBuffer.Inbound.{Valid, pending, length-pending}
use distributed_orderbook.Gateway.{Gateway, Call, returned, waits}
use distributed_orderbook.MatchingEngine.Requests.{Request, request}
use distributed_orderbook.LobsterReplayAdapter.{LobsterReplayAdapter}
use distributed_orderbook.LobsterReplayAdapter.Strto.{Text}
use distributed_orderbook.LobsterReplayAdapter.Parser.{Reader}
use distributed_orderbook.LobsterReplayAdapter.Stream.{
  cut, getline, lines, lines-cut, after_line, process_line, process_stream,
}
use distributed_orderbook.LobsterReplayAdapter.Asks.{asks_line, asks_all}
use distributed_orderbook.LobsterReplayAdapter.Asks.Outcomes.{
  Clean, counted, rows_of, length-map, Replaying, Takes, Took, took, blocked,
}
use distributed_orderbook.LobsterReplayAdapter.Asks.Takes.{process_line-Took}

-- The loop has read all the lines and put what they ask for behind the waiting requests, or it waits,
-- since the ring has not the room for it.
pub data Streamed (k read : ℕ) (a : LobsterReplayAdapter) (ring : InboundRing)
    (asked : List Request) (rows : ℕ)
    : Option (Call (LobsterReplayAdapter × InboundRing)) → Type 0 where
  whole :
      (a' : LobsterReplayAdapter) (ring' : InboundRing)
      → a'.gateway ≡ a.gateway
      → a'.rows_processed ≡ a.rows_processed + length asked
      → counted a' ≡ counted a + rows
      → Valid k read ring'
      → map request (pending read ring') ≡ map request (pending read ring) ++ asked
      → Streamed k read a ring asked rows (some (returned (a', ring')))
  no_room :
      read + ring.size < ring.write_pointer + length asked
      → Streamed k read a ring asked rows (some waits)

cut-length : (c : ℕ) (s : Text) → length (cut (c ∷ s)).1 ≤ length s
unfolding cut
cut-length c [] = elim (Bool-cases (c == b'\n')) [
  | inl e ↦ rw e (omega arith)
  | inr e ↦ rw e (omega arith)
]
cut-length c (d ∷ s) = elim (Bool-cases (c == b'\n')) [
  | inl e ↦ rw e (omega arith)
  | inr e ↦ rw e (omega (arith, cut-length d s))
]

-- A line, and the rest of the text
module _ {k read : ℕ} {a : LobsterReplayAdapter} {ring : InboundRing} (valid : Valid k read ring)
    {asked : List Request × List (ℤ × ℤ)} {rows : ℕ} (more : List Request) (others : ℕ) where
  moved :
      {a' : LobsterReplayAdapter} {ring' : InboundRing}
      → Takes k read a ring asked rows a' ring'
      → (ring'.write_pointer ≡ ring.write_pointer + length asked.0) × (ring'.size ≡ ring.size)
  moved {ring' = ring'} t =
      let counts =
        sym (length-map request (pending read ring'))
        ∙ ap length t.waiting
        ∙ length-append (map request (pending read ring)) asked.0 in
      (
        omega (
          arith,
          counts,
          length-map request (pending read ring),
          length-pending ring read,
          length-pending ring' read,
          valid.behind,
          t.valid.behind,
        ),
        t.valid.ring.power ∙ sym valid.ring.power,
      )

  Takes-Streamed :
      (a' : LobsterReplayAdapter) (ring' : InboundRing)
      (r : Option (Call (LobsterReplayAdapter × InboundRing)))
      → Takes k read a ring asked rows a' ring'
      → Streamed k read a' ring' more others r
      → Streamed k read a ring (asked.0 ++ more) (rows + others) r
  Takes-Streamed a' ring' r t (whole a'' ring'' same sent tally valid'' waiting) =
      whole a'' ring'' (same ∙ t.gateway) (omega (arith, sent, t.sent, length-append asked.0 more))
        (omega (arith, tally, t.rows_counted)) valid''
        (waiting
          ∙ ap (λ (l : List Request). l ++ more) t.waiting
          ∙ append_assoc (map request (pending read ring)) asked.0 more)
  Takes-Streamed a' ring' r t (no_room h) =
      no_room (omega (arith, h, (moved t).0, (moved t).1, length-append asked.0 more))

  after-Streamed :
      (next : LobsterReplayAdapter × InboundRing
        → Option (Call (LobsterReplayAdapter × InboundRing)))
      (c : Call (LobsterReplayAdapter × InboundRing))
      → Took k read a ring asked rows c
      → ((a' : LobsterReplayAdapter) (ring' : InboundRing)
          → Takes k read a ring asked rows a' ring'
          → Streamed k read a' ring' more others (next (a', ring')))
      → Streamed k read a ring (asked.0 ++ more) (rows + others) (after_line next c)
  after-Streamed next c (took a' ring' t) rest =
      Takes-Streamed a' ring' (next (a', ring')) t (rest a' ring' t)
  after-Streamed next c (blocked full one) rest =
      no_room (omega (arith, full, one, length-append asked.0 more))

-- What the lines of a text ask for, after the sizes of an adapter
abbrev pub asked_by : Reader → LobsterReplayAdapter → List Text → List Request
asked_by strtod a ls = asks_all strtod a.gateway.gateway_id ls a.live_sizes

module _ (strtod : Reader) (clock : Text → ℤ) where
  stream-line :
      {k read : ℕ} (n : ℕ) (line rest : Text) (now : ℤ) (a : LobsterReplayAdapter)
      (ring : InboundRing)
      → Valid k read ring
      → Replaying a.gateway
      → Clean strtod line
      → ((a' : LobsterReplayAdapter) (ring' : InboundRing)
          → Valid k read ring'
          → Replaying a'.gateway
          → Streamed k read a' ring'
              (asked_by strtod a' (lines rest))
              (rows_of (lines rest))
              (process_stream n strtod clock rest a' ring'))
      → Streamed k read a ring
          (asked_by strtod a (line ∷ lines rest))
          (rows_of (line ∷ lines rest))
          (after_line
            (λ p. process_stream n strtod clock rest p.0 p.1)
            (process_line strtod line now a ring))
  unfolding asks_all
  stream-line {k} {read} n line rest now a ring valid replaying clean loop =
      after-Streamed valid
        (asks_all strtod a.gateway.gateway_id (lines rest)
          (asks_line strtod a.gateway.gateway_id line a.live_sizes).1)
        (rows_of (lines rest)) (λ p. process_stream n strtod clock rest p.0 p.1)
        (process_line strtod line now a ring)
        (process_line-Took a ring valid replaying strtod now line clean)
        (λ a' ring' t.
          subst
            (λ l.
              Streamed k read a' ring' l (rows_of (lines rest))
                (process_stream n strtod clock rest a' ring'))
            (ap (λ (g : Gateway). asks_all strtod g.gateway_id (lines rest) a'.live_sizes) t.gateway
              ∙ ap (asks_all strtod a.gateway.gateway_id (lines rest)) t.sizes)
            (loop a' ring' t.valid (subst Replaying (sym t.gateway) replaying)))

  -- With more fuel than the text has bytes the loop of `process_stream` ends, by the silent gateway of a
  -- replay, on a valid ring, over a text whose rows have no negative id or time. If the ring has the
  -- room for what the lines ask for, it has put just that behind the waiting requests, line by line,
  -- counted each line that is not empty once, and as processed those that ask for something. Otherwise
  -- it waits on the full ring.
  pub process_stream-Streamed :
      {k read : ℕ} (n : ℕ) (text : Text) (a : LobsterReplayAdapter) (ring : InboundRing)
      → length text < n
      → Valid k read ring
      → Replaying a.gateway
      → All (Clean strtod) (lines text)
      → Streamed k read a ring
          (asked_by strtod a (lines text))
          (rows_of (lines text))
          (process_stream n strtod clock text a ring)
  unfolding process_stream getline lines asks_all
  process_stream-Streamed zero text a ring enough valid replaying clean = absurd (omega arith)
  process_stream-Streamed {read = read} (suc n) [] a ring enough valid replaying clean =
      whole a ring refl (omega arith) (omega arith) valid
        (sym (append-nil (map request (pending read ring))))
  process_stream-Streamed {k} {read} (suc n) (c ∷ s) a ring enough valid replaying clean =
      let cleans = subst (All (Clean strtod)) (lines-cut c s) clean in
      subst
        (λ ls.
          Streamed k read a ring (asked_by strtod a ls) (rows_of ls)
            (process_stream (suc n) strtod clock (c ∷ s) a ring))
        (sym (lines-cut c s))
        (stream-line n (cut (c ∷ s)).0 (cut (c ∷ s)).1 (clock (c ∷ s)) a ring valid replaying
          cleans.0
          (λ a' ring' v r.
            process_stream-Streamed n (cut (c ∷ s)).1 a' ring'
              (omega (arith, enough, cut-length c s)) v r cleans.1))
