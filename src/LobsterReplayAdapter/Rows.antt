-- ===== src/LobsterReplayAdapter/Rows.antt =====
-- What a row does to the sizes, the counters and the inbound ring.
use distributed_orderbook.Prelude.{
  ℕ, ◌+◌, ◌≡◌, ◌⊎◌, refl, inl, inr, Bool-cases, Option-cases, none, some, List, [], ◌∷◌, ◌++◌,
  arith,
}
use distributed_orderbook.Prelude.Int.{ℤ, pos, negsuc, ◌-ℤ◌, ◌≤ℤ◌, ◌<ℤ◌, leb_ℤ, eqb_ℤ, eqb_ℤ→eq}
use distributed_orderbook.Prelude.Maps.{find, assign, erase}
use distributed_orderbook.RingBuffer.Types.{InboundEvent, InboundRing}
use distributed_orderbook.RingBuffer.Inbox.{get}
use distributed_orderbook.RingBuffer.Inbound.{Valid, pending}
use distributed_orderbook.Gateway.{Gateway, live, replay, Call, returned, waits, aborts}
use distributed_orderbook.Gateway.Contents.{
  IsSubmission, IsCancellation, IsReduction, Arrives, arrived, no_room, Submits, Requests,
  place_order_posts, cancel_order_posts, modify_order_posts,
}
use distributed_orderbook.Gateway.Contents
use distributed_orderbook.LobsterReplayAdapter.{
  Row, LobsterReplayAdapter, then_call, processed, dispatch_new, dispatch_reduce, dispatch_delete,
  dispatch,
}

-- The rows that ask the gateway for something: 1 submits an order, 2 takes a part of a known order of
-- which something is left, 3 deletes an order.
pub data Wanted (a : LobsterReplayAdapter) (row : Row) : Type 0 where
  submits : row.type ≡ pos 1 → Wanted a row
  reduces :
      (size : ℤ)
      → row.type ≡ pos 2
      → find row.order_id a.live_sizes ≡ some size
      → pos 0 <ℤ size -ℤ row.size
      → Wanted a row
  deletes : row.type ≡ pos 3 → Wanted a row

-- The rows that are counted as failed
pub data Wrong (a : LobsterReplayAdapter) (row : Row) : Type 0 where
  no_type : (row.type <ℤ pos 1) ⊎ (pos 7 <ℤ row.type) → Wrong a row
  unknown : row.type ≡ pos 2 → find row.order_id a.live_sizes ≡ none → Wrong a row
  nothing_left :
      (size : ℤ)
      → row.type ≡ pos 2
      → find row.order_id a.live_sizes ≡ some size
      → size -ℤ row.size ≤ℤ pos 0
      → Wrong a row

module _ (a : LobsterReplayAdapter) (row : Row) where
  -- The event of a row. `direction` is -1 for a sell.
  abbrev pub IsFor : Wanted a row → InboundEvent → ℤ → ℤ → InboundEvent → Type 0
  IsFor (submits _) old order_id time =
      IsSubmission row.price row.size (eqb_ℤ row.direction (negsuc 0)) order_id time a.gateway
  IsFor (reduces size _ _ _) old order_id time =
      IsReduction row.order_id (size -ℤ row.size) a.gateway old time
  IsFor (deletes _) old order_id time = IsCancellation row.order_id a.gateway old time

  abbrev pub sizes_after : Wanted a row → List (ℤ × ℤ)
  sizes_after (submits _) = assign row.order_id row.size a.live_sizes
  sizes_after (reduces size _ _ _) = assign row.order_id (size -ℤ row.size) a.live_sizes
  sizes_after (deletes _) = erase row.order_id a.live_sizes

-- The id and the time that the gateway stamps
pub data Stamps (g : Gateway) (row : Row) (now : ℤ) : ℤ → ℤ → Type 0 where
  own : g.mode ≡ live → Stamps g row now g.internal_id_counter now
  given : g.mode ≡ replay → pos 0 ≤ℤ row.time_ns → Stamps g row now row.order_id row.time_ns

-- What a call of `dispatch` does
pub data Dispatched (k read : ℕ) (row : Row) (now : ℤ) (a : LobsterReplayAdapter)
    (ring : InboundRing) : Call (LobsterReplayAdapter × InboundRing) → Type 0 where
  sent :
      (w : Wanted a row) (order_id time : ℤ) (e : InboundEvent) (a' : LobsterReplayAdapter)
      (ring' : InboundRing)
      → Stamps a.gateway row now order_id time
      → IsFor a row w (get ring.write_pointer ring) order_id time e
      → Valid k read ring'
      → pending read ring' ≡ pending read ring ++ e ∷ []
      → a'.live_sizes ≡ sizes_after a row w
      → a'.rows_processed ≡ a.rows_processed + 1
      → a'.rows_skipped ≡ a.rows_skipped
      → a'.rows_failed ≡ a.rows_failed
      → Dispatched k read row now a ring (returned (a', ring'))
  passed_over :
      pos 4 ≤ℤ row.type
      → row.type ≤ℤ pos 7
      → Dispatched k read row now a ring
          (returned (record a { rows_skipped = a.rows_skipped + 1 }, ring))
  refused :
      Wrong a row
      → Dispatched k read row now a ring
          (returned (record a { rows_failed = a.rows_failed + 1 }, ring))
  stuck :
      Wanted a row → ring.write_pointer ≡ read + ring.size → Dispatched k read row now a ring waits
  aborted :
      Wanted a row
      → a.gateway.mode ≡ replay
      → (row.order_id <ℤ pos 0) ⊎ (row.time_ns <ℤ pos 0)
      → Dispatched k read row now a ring aborts

module _ {k read : ℕ} (a : LobsterReplayAdapter) (ring : InboundRing) (row : Row) (now : ℤ)
    (w : Wanted a row) where
  Arrives-Dispatched :
      {A : Type 0} {Is : InboundEvent → Type 0} (order_id time : ℤ) (x : A)
      (c : Call (A × InboundRing)) (next : A × InboundRing → LobsterReplayAdapter)
      → Stamps a.gateway row now order_id time
      → ((e : InboundEvent) → Is e → IsFor a row w (get ring.write_pointer ring) order_id time e)
      → ((r : A × InboundRing)
          → ((next r).live_sizes ≡ sizes_after a row w)
            × ((next r).rows_processed ≡ a.rows_processed + 1)
            × ((next r).rows_skipped ≡ a.rows_skipped)
            × ((next r).rows_failed ≡ a.rows_failed))
      → Arrives k read Is ring x c
      → Dispatched k read row now a ring (then_call c λ r. (next r, r.1))
  Arrives-Dispatched order_id time x c next stamps is counts
        (arrived ring' e says _ valid waiting) =
      let (z, p, s, l) = counts (x, ring') in
      sent w order_id time e (next (x, ring')) ring' stamps (is e says) valid waiting z p s l
  Arrives-Dispatched order_id time x c next stamps is counts (no_room full) = stuck w full

  Requests-Dispatched :
      {Is : ℤ → InboundEvent → Type 0} (c : Call (Unit {0} × InboundRing))
      → ((order_id time : ℤ) (e : InboundEvent)
          → Is time e
          → IsFor a row w (get ring.write_pointer ring) order_id time e)
      → Requests k read Is row.time_ns now a.gateway ring c
      → Dispatched k read row now a ring (then_call c λ r. (processed (sizes_after a row w) a, r.1))
  Requests-Dispatched c is (Contents.Requests.by_live m p) =
      Arrives-Dispatched a.gateway.internal_id_counter now tt c
        (λ _. processed (sizes_after a row w) a) (own m) (is a.gateway.internal_id_counter now)
        (λ _. (refl, refl, refl, refl)) p
  Requests-Dispatched c is (Contents.Requests.by_replay m time p) =
      Arrives-Dispatched row.order_id row.time_ns tt c (λ _. processed (sizes_after a row w) a)
        (given m time) (is row.order_id row.time_ns) (λ _. (refl, refl, refl, refl)) p
  Requests-Dispatched c is (Contents.Requests.refused m bad) = aborted w m (inr bad)

module _ {k read : ℕ} (a : LobsterReplayAdapter) (ring : InboundRing) (valid : Valid k read ring)
    (row : Row) (now : ℤ) where
  new-Dispatched : row.type ≡ pos 1 → Dispatched k read row now a ring (dispatch_new row now a ring)
  unfolding dispatch_new
  new-Dispatched type =
      Submits-Dispatched _
        (place_order_posts ring a.gateway valid row.price row.size _ row.order_id row.time_ns now)
    where
      next : (ℤ × Gateway) × InboundRing → LobsterReplayAdapter
      next r = record (processed (assign row.order_id row.size a.live_sizes) a) { gateway = r.0.1 }

      Submits-Dispatched :
          (c : Call ((ℤ × Gateway) × InboundRing))
          → Submits k read row.price row.size
              (eqb_ℤ row.direction (negsuc 0))
              row.order_id
              row.time_ns
              now
              a.gateway
              ring
              c
          → Dispatched k read row now a ring (then_call c λ r. (next r, r.1))
      Submits-Dispatched c (Contents.Submits.by_live m p) =
          Arrives-Dispatched a ring row now (submits type) a.gateway.internal_id_counter now _ c
            next (own m) (λ e is. is) (λ _. (refl, refl, refl, refl)) p
      Submits-Dispatched c (Contents.Submits.by_replay m _ time p) =
          Arrives-Dispatched a ring row now (submits type) row.order_id row.time_ns _ c next
            (given m time) (λ e is. is) (λ _. (refl, refl, refl, refl)) p
      Submits-Dispatched c (Contents.Submits.refused m bad) = aborted (submits type) m bad

  delete-Dispatched :
      row.type ≡ pos 3 → Dispatched k read row now a ring (dispatch_delete row now a ring)
  unfolding dispatch_delete
  delete-Dispatched type =
      Requests-Dispatched a ring row now (deletes type) _ (λ order_id time e is. is)
        (cancel_order_posts ring a.gateway valid row.order_id row.time_ns now)

  reduce-Dispatched :
      row.type ≡ pos 2 → Dispatched k read row now a ring (dispatch_reduce row now a ring)
  unfolding dispatch_reduce
  reduce-Dispatched type = elim (Option-cases (find row.order_id a.live_sizes)) [
    | inl missing ↦ rw (dispatch_reduce, missing) (refused (unknown type missing))
    | inr (size, known) ↦ elim (Bool-cases (leb_ℤ (size -ℤ row.size) (pos 0))) [
      | inl low ↦
          rw (dispatch_reduce, known, low) (refused (nothing_left size type known (ground arith)))
      | inr high ↦
          rw (dispatch_reduce, known, high)
            (Requests-Dispatched a ring row now (reduces size type known (ground arith)) _
              (λ order_id time e is. is)
              (modify_order_posts ring a.gateway valid row.order_id (size -ℤ row.size) row.time_ns
                now))
    ]
  ]

  -- On a valid ring: a row of type 1, 3, or 2 for a known order of which something is left, sends the
  -- submission, the cancellation or the reduction to what is left, with the id and the time that its
  -- gateway stamps, behind the waiting events, is counted as processed, and its size is tracked; or it
  -- waits, since the ring is full; or it aborts, since a replay gateway is given a negative id or time.
  -- A row of type 4 to 7 is counted as skipped, and any other as failed, and then nothing else changes.
  pub dispatch-Dispatched : Dispatched k read row now a ring (dispatch row now a ring)
  unfolding dispatch
  dispatch-Dispatched = elim (Bool-cases (eqb_ℤ row.type (pos 1))) [
    | inl one ↦ rw (dispatch, one) (new-Dispatched (eqb_ℤ→eq row.type (pos 1) one))
    | inr not_one ↦ elim (Bool-cases (eqb_ℤ row.type (pos 2))) [
      | inl two ↦ rw (dispatch, not_one, two) (reduce-Dispatched (eqb_ℤ→eq row.type (pos 2) two))
      | inr not_two ↦ elim (Bool-cases (eqb_ℤ row.type (pos 3))) [
        | inl three ↦
            rw (dispatch, not_one, not_two, three)
              (delete-Dispatched (eqb_ℤ→eq row.type (pos 3) three))
        | inr not_three ↦ elim (Bool-cases (leb_ℤ (pos 4) row.type)) [
          | inl low ↦ elim (Bool-cases (leb_ℤ row.type (pos 7))) [
            | inl high ↦
                rw (dispatch, not_one, not_two, not_three, low, high)
                  (passed_over (ground arith) (ground arith))
            | inr over ↦
                rw (dispatch, not_one, not_two, not_three, low, over)
                  (refused (no_type (inr (ground arith))))
          ]
          | inr under ↦
              rw (dispatch, not_one, not_two, not_three, under)
                (refused (no_type (inl (ground arith))))
        ]
      ]
    ]
  ]
