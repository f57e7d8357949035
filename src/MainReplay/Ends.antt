-- ===== src/MainReplay/Ends.antt =====
-- Every run of main_replay.cpp ends, with the order book that the file asks for.
use mathlib.Core.Path.{subst}
use distributed_orderbook.Prelude.{
  ℕ, ◌+◌, ◌*◌, ◌<◌, ◌≤◌, ◌≡◌, ◌⊎◌, refl, sym, ap, ap₂, ◌∙◌, true, inl, inr, List, [], ◌∷◌, ◌++◌,
  append-nil, map, length, All, List-cases, arith,
}
use distributed_orderbook.Prelude.Int.{pos}
use distributed_orderbook.Orderbook.Types.{empty_book}
use distributed_orderbook.Orderbook.Command.{done}
use distributed_orderbook.Orderbook.Command.Sequence.{run_all}
use distributed_orderbook.Orderbook.Reachable.{empty-Rep}
use distributed_orderbook.RingBuffer.Types.{InboundEvent, InboundRing}
use distributed_orderbook.RingBuffer.Inbound.{pending, pending-nil, new-Valid}
use distributed_orderbook.RingBuffer.Slots.{size_pos}
use distributed_orderbook.Gateway.{Call}
use distributed_orderbook.MatchingEngine.Contract.{Answers, serve_all-Answers}
use distributed_orderbook.Orderbook.Rep.{Queues, Rep}
use distributed_orderbook.Orderbook.Match.Refine.{book_of}
use distributed_orderbook.MatchingEngine.{Outcome, Round, handled}
use distributed_orderbook.MatchingEngine.Rounds.{run-handled}
use distributed_orderbook.MatchingEngine.Requests.{request, serve_all}
use distributed_orderbook.LobsterReplayAdapter.{LobsterReplayAdapter}
use distributed_orderbook.LobsterReplayAdapter.Strto.{Text}
use distributed_orderbook.LobsterReplayAdapter.Parser.{Reader}
use distributed_orderbook.LobsterReplayAdapter.Stream.{lines, process_line}
use distributed_orderbook.LobsterReplayAdapter.Asks.{asks_line, asks_all}
use distributed_orderbook.LobsterReplayAdapter.Asks.Outcomes.{
  Clean, counted, rows_in, rows_of, Took, took, blocked,
}
use distributed_orderbook.MainReplay.{
  Process, set_up, Step, fed, worked, Reaches, at_start, then_step, all_released,
}
use distributed_orderbook.MainReplay.Released.{all_released_iff}
use distributed_orderbook.MainReplay.Runs.{
  Running, Took-returned, line-Took, fed-Running, fed-one_more, round-Handles, served-Running,
}

-- what is left to do: a line is read and its event served
abbrev work : Process → ℕ
work s = 2 * length s.left + length (pending s.engine.read_p s.inbound)

-- A step keeps what holds of a running process, and does some of the work.
record Advances (strtod : Reader) (file : Text) (s s' : Process) : Type 0 where
  running : Running strtod file s'
  less : work s' < work s

engine_of : Process → Round → Process
engine_of s (handled m ring outbounds) = record s {
  engine = m;
  inbound = ring;
  outbounds = outbounds;
}
engine_of s _ = s

module _ {strtod : Reader} {file : Text} where
  Step-Advances :
      {s s' : Process} → Running strtod file s → Step strtod s s' → Advances strtod file s s'
  unfolding engine_of
  Step-Advances {s} h (fed line rest now a' ring' e ran) =
      let t = Took-returned _ a' ring' (line-Took h line rest now e) ran in
      record {
        running = fed-Running h line rest a' ring' e t;
        less = omega (arith, ap length e, fed-one_more h line rest a' ring' e t);
      }
  Step-Advances {s} h (worked m' ring' outbounds' ran) =
      let (e, rest, queued) =
        run-handled s.engine s.inbound s.outbounds h.valid m' ring' outbounds' ran in
      let g = round-Handles h e rest queued in
      subst (Advances strtod file s) (ap (engine_of s) (sym g.ends ∙ ran)) record {
        running = served-Running h e rest queued _ _;
        less = omega (arith, ap length queued, ap length g.waiting);
      }

-- The end of a run: no line is left, the program's wait is over, the order book is the one that the
-- file's requests give one after the other, it stands for a book that the specification allows after
-- them, and the counters add up.
pub record Drained (strtod : Reader) (file : Text) (s : Process) : Type 0 where
  pub left : s.left ≡ []
  pub released : all_released s.inbound ≡ true
  pub replayed :
      serve_all (asks_all strtod (pos 0) (lines file) []) empty_book ≡ done tt s.engine.orderbook
  pub outcomes : List Outcome
  pub queues : Queues
  pub rep : Rep s.engine.orderbook queues
  pub answered :
      Answers
        (asks_all strtod (pos 0) (lines file) [])
        (book_of empty_book (λ _ _. []))
        outcomes
        (book_of s.engine.orderbook queues)
  pub tally : counted s.adapter ≡ rows_of (lines file)
  pub sent : s.adapter.rows_processed ≡ length (asks_all strtod (pos 0) (lines file) [])

module _ (strtod : Reader) (file : Text) where
  fed_step :
      {s : Process} (line : Text) (rest : List Text) (c : Call (LobsterReplayAdapter × InboundRing))
      → Running strtod file s
      → pending s.engine.read_p s.inbound ≡ []
      → s.left ≡ line ∷ rest
      → process_line strtod line (pos 0) s.adapter s.inbound ≡ c
      → Took 10 s.engine.read_p s.adapter s.inbound
          (asks_line strtod (pos 0) line s.adapter.live_sizes)
          (rows_in line)
          c
      → (s' : Process) × Step strtod s s'
  fed_step line rest c h none_left e is (took a' ring' _) = (_, fed line rest (pos 0) a' ring' e is)
  fed_step {s} line rest c h none_left e is (blocked is_full _) =
      absurd (omega (arith, pending-nil s.inbound s.engine.read_p none_left, size_pos h.valid.ring))

  drained :
      {s : Process}
      → Running strtod file s
      → pending s.engine.read_p s.inbound ≡ []
      → s.left ≡ []
      → Drained strtod file s
  unfolding asks_all
  drained {s} h none_left e =
      let all_served : asks_all strtod (pos 0) (lines file) [] ≡ h.served =
        h.split
        ∙ ap₂
            (λ (q : List InboundEvent) l.
              h.served ++ (map request q ++ asks_all strtod (pos 0) l s.adapter.live_sizes))
            none_left e
        ∙ append-nil h.served in
      let all_replayed = ap (λ rs. serve_all rs empty_book) all_served ∙ h.replayed in
      let (outcomes, queues, rep, answers) =
        serve_all-Answers (asks_all strtod (pos 0) (lines file) []) s.engine.orderbook
          all_replayed in
      record {
        left = e;
        outcomes = outcomes;
        queues = queues;
        rep = rep;
        answered = answers;
        released = (all_released_iff s.inbound h.valid).1 none_left;
        replayed = all_replayed;
        tally = omega (arith, h.tally, ap rows_of e);
        sent = omega (arith, h.sent, ap length none_left, ap length all_served);
      }

  -- A running process has a next step, or it is at its end.
  progress :
      {s : Process}
      → Running strtod file s
      → Drained strtod file s ⊎ ((s' : Process) × Step strtod s s')
  progress {s} h = elim (List-cases (pending s.engine.read_p s.inbound)) [
    | inl none_left ↦ elim (List-cases s.left) [
      | inl e ↦ inl (drained h none_left e)
      | inr (line, rest, e) ↦
          inr (fed_step line rest _ h none_left e refl (line-Took h line rest (pos 0) e))
    ]
    | inr (e, rest, queued) ↦ inr (_, worked _ _ _ (round-Handles h e rest queued).ends)
  ]

  module _ (clean : All (Clean strtod) (lines file)) where
    set_up-Running : Running strtod file (set_up file)
    unfolding run_all
    set_up-Running = record {
      gateway = refl;
      valid = new-Valid 10;
      silent = tt;
      sound = (λ _ _. [], empty-Rep, tt);
      clean = clean;
      served = [];
      split = refl;
      replayed = refl;
      tally = omega arith;
      sent = omega arith;
    }

    -- In every state of a run over a file whose rows have no negative id or time, in any order of the
    -- two threads, the inbound ring is valid, its events are silent, the order book is sound, and the
    -- requests that the file's lines ask for are, in this order, those that the engine has served, which
    -- gave the order book, those that wait in the ring, and those of the lines that are left. Each line
    -- that was read and is not empty is counted once.
    pub Reaches-Running : {n : ℕ} {s : Process} → Reaches strtod file n s → Running strtod file s
    Reaches-Running at_start = set_up-Running
    Reaches-Running (then_step s' earlier step) =
        (Step-Advances (Reaches-Running earlier) step).running

    bounded : {n : ℕ} {s : Process} → Reaches strtod file n s → n + work s ≤ 2 * length (lines file)
    bounded at_start = omega arith
    bounded (then_step s' earlier step) =
        omega (arith, bounded earlier, (Step-Advances (Reaches-Running earlier) step).less)

    -- Over a file whose rows have no negative id or time every run of the program's two threads ends,
    -- whatever their order: a run has at most two steps for each line, and as long as it is not at its end one of the
    -- threads has a step. At the end no line is left and no slot is ready, the order book is the one that
    -- the requests of the file's lines give one after the other, without a fault, and stands for a book
    -- that the price-time-priority specification allows after them, each line that is not
    -- empty is counted once, and as many rows are counted as processed as the lines ask for requests.
    pub Reaches-ends :
        (n : ℕ) (s : Process)
        → Reaches strtod file n s
        → (n ≤ 2 * length (lines file))
          × (Drained strtod file s ⊎ ((s' : Process) × Step strtod s s'))
    Reaches-ends n s r = (omega (arith, bounded r), progress (Reaches-Running r))
