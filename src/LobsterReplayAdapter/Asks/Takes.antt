-- ===== src/LobsterReplayAdapter/Asks/Takes.antt =====
-- What the loop of `process_stream` does with a line is what the line asks for.
use mathlib.Core.Path.{subst}
use distributed_orderbook.Prelude.{
  All-append_one, ℕ, ◌+◌, ◌≡◌, refl, sym, ap, ◌∙◌, Bool, true, false, ◌||◌, inl, inr, Bool-cases,
  Option-cases, List, [], ◌∷◌, ◌++◌, map, append-nil, if◌then◌else◌, arith,
}
use distributed_orderbook.Prelude.Int.{ℤ, pos, negsuc, ◌-ℤ◌, leb_ℤ, eqb_ℤ}
use distributed_orderbook.Prelude.Maps.{find, assign, erase}
use distributed_orderbook.RingBuffer.Types.{InboundEvent, InboundRing}
use distributed_orderbook.RingBuffer.Inbox.{get}
use distributed_orderbook.RingBuffer.Inbound.{Valid, pending}
use distributed_orderbook.Gateway.{Gateway, live, Call, returned, is_negative}
use distributed_orderbook.Gateway.Posts.{
  Posted, joined, full, Placed, minted, given, Stamped, stamped, placing-Placed, cancelling-Stamped,
  modifying-Stamped,
}
use distributed_orderbook.Gateway.Posts
use distributed_orderbook.MatchingEngine.Requests.{
  Request, new_order, cancel_order, modify_order, request,
}
use distributed_orderbook.LobsterReplayAdapter.{
  Row, LobsterReplayAdapter, then_call, processed, skipped, failed, dispatch_new, dispatch_reduce,
  dispatch_delete, dispatch,
}
use distributed_orderbook.LobsterReplayAdapter.Strto.{Text}
use distributed_orderbook.LobsterReplayAdapter.Parser.{Reader, parse_row}
use distributed_orderbook.LobsterReplayAdapter.Stream.{process_line}
use distributed_orderbook.LobsterReplayAdapter.Asks.{Sizes, asks_reduce, asks, asks_line}
use distributed_orderbook.LobsterReplayAdapter.Asks.Outcomes.{
  Silent, counted, Replaying, Clean, rows_in, Took, took, blocked,
}

map-append_one :
    {A B : Type 0} (f : A → B) (xs : List A) (x : A) → map f (xs ++ x ∷ []) ≡ map f xs ++ f x ∷ []
map-append_one f [] x = refl
map-append_one f (y ∷ xs) x = ap (λ l. f y ∷ l) (map-append_one f xs x)

module _ {k read : ℕ} (a : LobsterReplayAdapter) (ring : InboundRing) (valid : Valid k read ring)
    (replaying : Replaying a.gateway) where
  -- a line without an event
  no_event :
      (a' : LobsterReplayAdapter) (rows : ℕ)
      → a'.live_sizes ≡ a.live_sizes
      → a'.gateway ≡ a.gateway
      → a'.rows_processed ≡ a.rows_processed
      → counted a' ≡ counted a + rows
      → Took k read a ring ([], a.live_sizes) rows (returned (a', ring))
  no_event a' rows s g p c = took a' ring record {
    sizes = s;
    gateway = g;
    sent = omega arith;
    one = omega arith;
    rows_counted = c;
    valid = valid;
    waiting = sym (append-nil (map request (pending read ring)));
    silent = λ h. h;
  }

  -- a line with the event that `f` writes
  abbrev written : (InboundEvent → InboundEvent) → InboundEvent
  written f = record (f (get ring.write_pointer ring)) { is_ready = true }

  Posted-Took :
      {A : Type 0} (f : InboundEvent → InboundEvent) (x : A) (c : Call (A × InboundRing))
      (next : A × InboundRing → LobsterReplayAdapter) (r : Request) (sizes : Sizes)
      → request (written f) ≡ r
      → (written f).silent ≡ true
      → ((ring' : InboundRing)
          → ((next (x, ring')).live_sizes ≡ sizes)
            × ((next (x, ring')).gateway ≡ a.gateway)
            × ((next (x, ring')).rows_processed ≡ a.rows_processed + 1)
            × (counted (next (x, ring')) ≡ counted a + 1))
      → Posted k read f ring x c
      → Took k read a ring (r ∷ [], sizes) 1 (then_call c λ r. (next r, r.1))
  Posted-Took f x c next r sizes asked quiet after (joined ring' _ v w _) =
      let (s, g, p, n) = after ring' in
      took (next (x, ring')) ring' record {
        sizes = s;
        gateway = g;
        sent = p;
        one = omega arith;
        rows_counted = n;
        valid = v;
        waiting =
            ap (map request) w
            ∙ map-append_one request (pending read ring) (written f)
            ∙ ap (λ q. map request (pending read ring) ++ q ∷ []) asked;
        silent =
            λ h. subst Silent (sym w) (All-append_one _ (pending read ring) (written f) h quiet);
      }
  Posted-Took f x c next r sizes asked quiet after (full e) = blocked e refl

  live_replay : a.gateway.mode ≡ live → ⊥
  live_replay m = cc (sym m ∙ replaying.mode)

  Placed-Took :
      {price volume : ℤ} {side : Bool} {external_id external_ts now : ℤ}
      (c : Call ((ℤ × Gateway) × InboundRing)) (sizes : Sizes)
      → (is_negative external_id || is_negative external_ts) ≡ false
      → Placed k read price volume side external_id external_ts now a.gateway ring c
      → Took k read a ring
          (new_order price volume side external_ts external_id a.gateway.gateway_id ∷ [], sizes)
          1
          (then_call c λ r. (record (processed sizes a) { gateway = r.0.1 }, r.1))
  Placed-Took c sizes good (minted m p) = absurd (live_replay m)
  Placed-Took c sizes good (given _ _ p) =
      Posted-Took _ _ c (λ r. record (processed sizes a) { gateway = r.0.1 }) _ sizes refl
        replaying.silent (λ _. (refl, refl, refl, omega arith)) p
  Placed-Took c sizes good (Posts.Placed.refused _ bad) = absurd (cc (sym good ∙ bad))

  Stamped-Took :
      {fill : ℤ → InboundEvent → InboundEvent} {external_ts now : ℤ}
      (c : Call (Unit {0} × InboundRing)) (r : Request) (sizes : Sizes)
      → ((time : ℤ) → (request (written (fill time)) ≡ r) × ((written (fill time)).silent ≡ true))
      → is_negative external_ts ≡ false
      → Stamped k read fill external_ts now a.gateway ring c
      → Took k read a ring (r ∷ [], sizes) 1 (then_call c λ r. (processed sizes a, r.1))
  Stamped-Took c r sizes asked good (stamped time _ p) =
      Posted-Took _ tt c (λ _. processed sizes a) r sizes (asked time).0 (asked time).1
        (λ _. (refl, refl, refl, omega arith)) p
  Stamped-Took c r sizes asked good (Posts.Stamped.refused _ bad) = absurd (cc (sym good ∙ bad))

  either_Took :
      (c : Bool) {x y : List Request × Sizes} {u v : Call (LobsterReplayAdapter × InboundRing)}
      → Took k read a ring x 1 u
      → Took k read a ring y 1 v
      → Took k read a ring (if c then x else y) 1 (if c then u else v)
  either_Took true h g = h
  either_Took false h g = g

  same_Took :
      (c : Bool) {x : List Request × Sizes} {u v : Call (LobsterReplayAdapter × InboundRing)}
      → Took k read a ring x 1 u
      → Took k read a ring x 1 v
      → Took k read a ring x 1 (if c then u else v)
  same_Took true h g = h
  same_Took false h g = g

  module _ (row : Row) (now : ℤ) (id : is_negative row.order_id ≡ false)
      (time : is_negative row.time_ns ≡ false) where
    new-Took :
        Took k read a ring
          (
            new_order row.price row.size
                  (eqb_ℤ row.direction (negsuc 0))
                  row.time_ns
                  row.order_id
                  a.gateway.gateway_id
                ∷ [],
            assign row.order_id row.size a.live_sizes,
          )
          1
          (dispatch_new row now a ring)
    unfolding dispatch_new
    new-Took =
        Placed-Took _ (assign row.order_id row.size a.live_sizes) (rw (id, time) refl)
          (placing-Placed ring valid a.gateway row.price row.size _ row.order_id row.time_ns now)

    delete-Took :
        Took k read a ring
          (cancel_order row.order_id ∷ [], erase row.order_id a.live_sizes)
          1
          (dispatch_delete row now a ring)
    unfolding dispatch_delete
    delete-Took =
        Stamped-Took _ (cancel_order row.order_id) _ (λ _. (refl, replaying.silent)) time
          (cancelling-Stamped ring valid a.gateway row.time_ns now row.order_id)

    reduce-Took :
        Took k read a ring (asks_reduce row a.live_sizes) 1 (dispatch_reduce row now a ring)
    unfolding dispatch_reduce asks_reduce
    reduce-Took = elim (Option-cases (find row.order_id a.live_sizes)) [
      | inl unknown ↦
          rw (dispatch_reduce, asks_reduce, unknown)
            (no_event (failed a) 1 refl refl refl (omega arith))
      | inr (size, known) ↦ elim (Bool-cases (leb_ℤ (size -ℤ row.size) (pos 0))) [
        | inl low ↦
            rw (dispatch_reduce, asks_reduce, known, low)
              (no_event (failed a) 1 refl refl refl (omega arith))
        | inr high ↦
            rw (dispatch_reduce, asks_reduce, known, high)
              (Stamped-Took _ (modify_order row.order_id (size -ℤ row.size)) _
                (λ _. (refl, replaying.silent)) time
                (modifying-Stamped ring valid a.gateway row.time_ns now row.order_id
                  (size -ℤ row.size)))
      ]
    ]

    passed-Took : Took k read a ring ([], a.live_sizes) 1 (returned (skipped a, ring))
    passed-Took = no_event (skipped a) 1 refl refl refl (omega arith)

    failed-Took : Took k read a ring ([], a.live_sizes) 1 (returned (failed a, ring))
    failed-Took = no_event (failed a) 1 refl refl refl (omega arith)

    pub dispatch-Took :
        Took k read a ring (asks a.gateway.gateway_id row a.live_sizes) 1 (dispatch row now a ring)
    unfolding dispatch asks
    dispatch-Took = either_Took (eqb_ℤ row.type (pos 1)) new-Took (
        either_Took (eqb_ℤ row.type (pos 2)) reduce-Took (
          either_Took (eqb_ℤ row.type (pos 3)) delete-Took (
            same_Took (leb_ℤ (pos 4) row.type)
              (same_Took (leb_ℤ row.type (pos 7)) passed-Took failed-Took) failed-Took)))

  module _ (strtod : Reader) (now : ℤ) where
    -- On a valid ring and with the silent gateway of a replay, a line whose row, if it is one, has no
    -- negative id and time, does what it asks for, or the ring is full and its call waits. What it asks
    -- for joins the requests that wait, the sizes are those that it asks for, and it is counted once,
    -- if it is not empty, and as processed exactly if it asks for something.
    pub process_line-Took :
        (line : Text)
        → Clean strtod line
        → Took k read a ring
            (asks_line strtod a.gateway.gateway_id line a.live_sizes)
            (rows_in line)
            (process_line strtod line now a ring)
    unfolding process_line asks_line
    process_line-Took [] clean = no_event a 0 refl refl refl (omega arith)
    process_line-Took (c ∷ s) clean = elim (Option-cases (parse_row strtod (c ∷ s))) [
      | inl bad ↦ rw (process_line, asks_line, bad) failed_row
      | inr (row, good) ↦
          let (id, time) = clean row good in
          rw (process_line, asks_line, good) (dispatch-Took row now id time)
    ]
      where
        failed_row : Took k read a ring ([], a.live_sizes) 1 (returned (failed a, ring))
        failed_row = no_event (failed a) 1 refl refl refl (omega arith)
