-- ===== src/MainReplay/Runs.antt =====
-- What holds in every state of a run of main_replay.cpp.
use mathlib.Core.Path.{subst, subst₂}
use distributed_orderbook.Prelude.{
  ℕ, ◌+◌, ◌≤◌, ◌≡◌, refl, sym, ap, ap₂, ◌∙◌, List, [], ◌∷◌, ◌++◌, append_assoc, map, length,
  length-append, All, arith,
}
use distributed_orderbook.Prelude.Int.{ℤ, pos}
use distributed_orderbook.Orderbook.Types.{empty_book}
use distributed_orderbook.Orderbook.Command.{done}
use distributed_orderbook.Orderbook.Command.Sequence.{run_all_last}
use distributed_orderbook.Orderbook.Reachable.{Sound}
use distributed_orderbook.RingBuffer.Types.{InboundEvent, InboundRing, OutboundRing}
use distributed_orderbook.RingBuffer.Inbound.{Valid, pending}
use distributed_orderbook.Gateway.{Gateway, Call, returned}
use distributed_orderbook.MatchingEngine.{run}
use distributed_orderbook.MatchingEngine.Rounds.{Addressed, nowhere, Handles, run-Handles}
use distributed_orderbook.MatchingEngine.Requests.{Request, request, serve, serve_all, handle-serve}
use distributed_orderbook.LobsterReplayAdapter.{LobsterReplayAdapter}
use distributed_orderbook.LobsterReplayAdapter.Strto.{Text}
use distributed_orderbook.LobsterReplayAdapter.Parser.{Reader}
use distributed_orderbook.LobsterReplayAdapter.Stream.{lines, process_line}
use distributed_orderbook.LobsterReplayAdapter.Asks.{asks_line, asks_all}
use distributed_orderbook.LobsterReplayAdapter.Asks.Outcomes.{
  Clean, Silent, counted, rows_in, Replaying, Takes, Took, took, blocked, rows_of, length-map,
}
use distributed_orderbook.LobsterReplayAdapter.Asks.Takes.{process_line-Took}
use distributed_orderbook.MainReplay.{Process, replay_gateway}

-- The requests of the file are those that the engine has served, those that wait in the ring, and those
-- of the lines that are left, in this order.
pub record Running (strtod : Reader) (file : Text) (s : Process) : Type 0 where
  pub gateway : s.adapter.gateway ≡ replay_gateway
  pub valid : Valid 10 s.engine.read_p s.inbound
  pub silent : Silent (pending s.engine.read_p s.inbound)
  pub sound : Sound s.engine.orderbook
  pub clean : All (Clean strtod) s.left
  pub served : List Request
  pub split :
      asks_all strtod (pos 0) (lines file) []
      ≡ served
        ++ (map request (pending s.engine.read_p s.inbound)
            ++ asks_all strtod (pos 0) s.left s.adapter.live_sizes)
  pub replayed : serve_all served empty_book ≡ done tt s.engine.orderbook
  pub tally : rows_of (lines file) ≡ counted s.adapter + rows_of s.left
  pub sent : s.adapter.rows_processed ≡ length served + length (pending s.engine.read_p s.inbound)

is_Replaying : {g : Gateway} → g ≡ replay_gateway → Replaying g
is_Replaying e = subst Replaying (sym e) (record { mode = refl; silent = refl })

pair_of :
    LobsterReplayAdapter × InboundRing
    → Call (LobsterReplayAdapter × InboundRing)
    → LobsterReplayAdapter × InboundRing
pair_of d (returned p) = p
pair_of d _ = d

module _ {k read : ℕ} {a : LobsterReplayAdapter} {ring : InboundRing} where
  pub Took-returned :
      {asked : List Request × List (ℤ × ℤ)} {rows : ℕ}
      (c : Call (LobsterReplayAdapter × InboundRing)) (a' : LobsterReplayAdapter)
      (ring' : InboundRing)
      → Took k read a ring asked rows c
      → c ≡ returned (a', ring')
      → Takes k read a ring asked rows a' ring'
  unfolding pair_of
  Took-returned {asked} {rows} c a' ring' (took b r t) e =
      let same = ap (pair_of (b, r)) e in
      subst₂ (Takes k read a ring asked rows)
        (ap (λ (p : LobsterReplayAdapter × InboundRing). p.0) same)
        (ap (λ (p : LobsterReplayAdapter × InboundRing). p.1) same) t
  Took-returned c a' ring' (blocked _ _) e = cc

All-left :
    {A : Type 0} (P : A → Type 0) {l rest : List A} {x : A}
    → l ≡ x ∷ rest
    → All P l
    → P x × All P rest
All-left P e h = subst (All P) e h

module _ {strtod : Reader} {file : Text} {s : Process} (h : Running strtod file s) where
  -- what a line does in a running process
  pub line-Took :
      (line : Text) (rest : List Text) (now : ℤ)
      → s.left ≡ line ∷ rest
      → Took 10 s.engine.read_p s.adapter s.inbound
          (asks_line strtod (pos 0) line s.adapter.live_sizes)
          (rows_in line)
          (process_line strtod line now s.adapter s.inbound)
  line-Took line rest now e =
      subst
        (λ gid.
          Took 10 s.engine.read_p s.adapter s.inbound
            (asks_line strtod gid line s.adapter.live_sizes) (rows_in line)
            (process_line strtod line now s.adapter s.inbound))
        (ap (λ (g : Gateway). g.gateway_id) h.gateway)
        (process_line-Took s.adapter s.inbound h.valid (is_Replaying h.gateway) strtod now line
          (All-left (Clean strtod) e h.clean).0)

  module _ (line : Text) (rest : List Text) (a' : LobsterReplayAdapter) (ring' : InboundRing)
      (e : s.left ≡ line ∷ rest)
      (t : Takes 10 s.engine.read_p s.adapter s.inbound
        (asks_line strtod (pos 0) line s.adapter.live_sizes)
        (rows_in line)
        a'
        ring') where
    -- the lengths of the ring's contents before and after
    fed-length :
        length (pending s.engine.read_p ring')
        ≡ length (pending s.engine.read_p s.inbound)
          + length (asks_line strtod (pos 0) line s.adapter.live_sizes).0
    fed-length = omega (
      arith,
      ap length t.waiting,
      length-append (map request (pending s.engine.read_p s.inbound))
          (asks_line strtod (pos 0) line s.adapter.live_sizes).0,
      length-map request (pending s.engine.read_p ring'),
      length-map request (pending s.engine.read_p s.inbound),
    )

    pub fed-one_more :
        length (pending s.engine.read_p ring') ≤ length (pending s.engine.read_p s.inbound) + 1
    fed-one_more = omega (arith, fed-length, t.one)

    fed-split :
        map request (pending s.engine.read_p s.inbound)
          ++ asks_all strtod (pos 0) s.left s.adapter.live_sizes
        ≡ map request (pending s.engine.read_p ring') ++ asks_all strtod (pos 0) rest a'.live_sizes
    unfolding asks_all
    fed-split =
        ap
          (λ l.
            map request (pending s.engine.read_p s.inbound)
            ++ asks_all strtod (pos 0) l s.adapter.live_sizes)
          e
        ∙ sym (append_assoc (map request (pending s.engine.read_p s.inbound)) _ _)
        ∙ ap₂ (λ q z. q ++ asks_all strtod (pos 0) rest z) (sym t.waiting) (sym t.sizes)

    pub fed-Running : Running strtod file (record s { left = rest; adapter = a'; inbound = ring' })
    fed-Running = record {
      gateway = t.gateway ∙ h.gateway;
      valid = t.valid;
      silent = t.silent h.silent;
      sound = h.sound;
      clean = (All-left (Clean strtod) e h.clean).1;
      served = h.served;
      split = h.split ∙ ap (λ q. h.served ++ q) fed-split;
      replayed = h.replayed;
      tally = omega (arith, h.tally, ap rows_of e, t.rows_counted);
      sent = omega (arith, h.sent, t.sent, fed-length);
    }

  -- A waiting event is served next.
  module _ (e : InboundEvent) (rest : List InboundEvent)
      (queued : pending s.engine.read_p s.inbound ≡ e ∷ rest) where
    pub to : Addressed e s.engine s.outbounds
    to = nowhere (All-left _ queued h.silent).0

    pub round-Handles :
        Handles 10 e rest s.engine s.outbounds to (run s.engine s.inbound s.outbounds)
    round-Handles = run-Handles s.engine s.inbound s.outbounds h.valid h.sound e rest queued to

    pub served-Running :
        (write_p_outbound : List ℕ) (outbounds' : List OutboundRing)
        → Running strtod file (record s {
          engine = record {
            orderbook = round-Handles.orderbook;
            read_p = s.engine.read_p + 1;
            write_p_outbound = write_p_outbound;
          };
          inbound = round-Handles.inbound;
          outbounds = outbounds';
        })
    served-Running w outbounds' =
        let g = round-Handles in
        record {
          gateway = h.gateway;
          valid = g.valid;
          silent = subst Silent (sym g.waiting) (All-left _ queued h.silent).1;
          sound = g.sound;
          clean = h.clean;
          served = h.served ++ request e ∷ [];
          split =
              h.split
              ∙ ap
                  (λ (q : List InboundEvent).
                    h.served
                    ++ (map request q ++ asks_all strtod (pos 0) s.left s.adapter.live_sizes))
                  (queued ∙ ap (λ (q : List InboundEvent). e ∷ q) (sym g.waiting))
              ∙ sym (append_assoc h.served (request e ∷ []) _);
          replayed =
              run_all_last serve h.served (request e) empty_book s.engine.orderbook g.orderbook
                g.outcome h.replayed
                (ap (λ c. c s.engine.orderbook) (sym (handle-serve e)) ∙ g.calls);
          tally = h.tally;
          sent = omega (
            arith,
            h.sent,
            length-append h.served (request e ∷ []),
            ap length queued,
            ap length g.waiting,
          );
        }
