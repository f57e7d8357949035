-- ===== src/Orderbook/Match/Queue.antt =====
-- A round of the inner loop of `match`, case by case.
use mathlib.Core.Path.{subst}
use distributed_orderbook.Prelude.{
  ℕ, suc, ◌≡◌, ◌≢◌, refl, sym, ap, ◌∙◌, Bool, true, false, not, some, List, [], ◌∷◌, arith,
  if◌then◌else◌, length,
}
use distributed_orderbook.Prelude.Int.{ℤ, pos, ◌-ℤ◌, ◌<ℤ◌, ltb_ℤ, eqb_ℤ, lt→ltb_ℤ}
use distributed_orderbook.Prelude.Maps.{find, erase}
use distributed_orderbook.Orderbook.Types.{Ptr, null, OrderResult, Orderbook}
use distributed_orderbook.Orderbook.Command.{Run, done, levels, pure, ◌>>◌, erase_level}
use distributed_orderbook.Orderbook.Command.Runs.{load_order-done, load_limit-done}
use distributed_orderbook.Orderbook.Methods.{Exit, returned, left, take_limit, fill_part}
use distributed_orderbook.Orderbook.Rep.{is_nil, Cell, limit_of, Queues, put_queue, Rep}
use distributed_orderbook.Orderbook.Rep.Changes.{write_self}
use distributed_orderbook.Orderbook.Rep.Locate.{
  Place, remove, remove-split, set_volume, set_volume-split,
}
use distributed_orderbook.Orderbook.Rep.Index.{put_queue_self}
use distributed_orderbook.Orderbook.Rep.Resize.{
  resting, resting-held, resting-valid, resized, resized-Rep,
}
use distributed_orderbook.Orderbook.Rep.Remove.{Removes-Rep}
use distributed_orderbook.Orderbook.Rep.CutOut.{cut_out, closed, cut_out-Removes, closed-Removes}
use distributed_orderbook.Orderbook.Match.Fills.{head_place, fill_whole-done, popped}
use distributed_orderbook.Book.{Taken, settled, traded, take_queue}

-- What a loop over the queue of a level leaves of the book.
pub record Took (b : Orderbook) (queues : Queues) (side : Bool) (price : ℤ) (taken : Taken)
    (b' : Orderbook) : Type 0 where
  pub rep : Rep b' (put_queue queues side price taken.queue)
  pub index : b'.global_map ≡ taken.index
  pub keys :
      levels side b' ≡ (if is_nil taken.queue then erase price (levels side b) else levels side b)
  pub other : levels (not side) b' ≡ levels (not side) b
  pub unused : b'.unused ≡ b.unused

abbrev pub TookBy : Orderbook → Queues → Bool → ℤ → Taken → Run Exit → Type 0
TookBy b queues side price taken run =
    (b' : Orderbook) × (run ≡ done taken.exit b') × Took b queues side price taken b'

-- The specification, case by case
module _ (price time volume : ℤ) (res : OrderResult) (index : List (ℤ × Ptr)) (c : Cell)
    (cs : List Cell) where
  pub take_queue-spent :
      ltb_ℤ (pos 0) volume ≡ false
      → take_queue price time volume res index (c ∷ cs)
        ≡ record { queue = c ∷ cs; index = index; exit = left volume res }
  unfolding take_queue
  take_queue-spent e = rw e

  pub take_queue-part :
      ltb_ℤ (pos 0) volume ≡ true
      → ltb_ℤ volume c.volume ≡ true
      → take_queue price time volume res index (c ∷ cs) ≡ record {
        queue = record c { volume = c.volume -ℤ volume } ∷ cs;
        index = index;
        exit = returned (settled res price volume time);
      }
  unfolding take_queue
  take_queue-part e f = rw (e, f)

  pub take_queue-whole :
      ltb_ℤ (pos 0) volume ≡ true
      → ltb_ℤ volume c.volume ≡ false
      → take_queue price time volume res index (c ∷ cs)
        ≡ take_queue price time
            (volume -ℤ c.volume)
            (traded res price c.volume time)
            (erase c.order_id index)
            cs
  unfolding take_queue
  take_queue-whole e f = rw (e, f)

-- One round of the loop, case by case
module _ {b : Orderbook} {queues : Queues} (rep : Rep b queues) (side : Bool) (price : ℤ) (l : Ptr)
    (c : Cell) (cs : List Cell) (entry : find price (levels (not side) b) ≡ some l)
    (queued : queues (not side) price ≡ c ∷ cs) where
  abbrev pub at_head : Place b queues c.order_id c.addr
  at_head = head_place rep (not side) price l c cs entry queued

  held : b.orders c.addr ≡ some (resting rep at_head)
  held = resting-held rep at_head

  ok : c.addr ≢ null
  ok = resting-valid rep at_head

  counted : ltb_ℤ (pos 0) (pos (length (c ∷ cs))) ≡ true
  counted = lt→ltb_ℤ (pos 0) (pos (length (c ∷ cs))) (omega arith)

  module _ (k : ℕ) (time volume : ℤ) (res : OrderResult) where
    pub take_limit-spent :
        ltb_ℤ (pos 0) volume ≡ false
        → take_limit (suc k) side price l time volume res b ≡ done (left volume res) b
    unfolding take_limit
    take_limit-spent e =
        rw (load_limit-done b l (limit_of (c ∷ cs)) at_head.valid at_head.limit, counted, e)

    pub take_limit-part :
        ltb_ℤ (pos 0) volume ≡ true
        → ltb_ℤ volume c.volume ≡ true
        → take_limit (suc k) side price l time volume res b ≡ fill_part l c.addr time volume res b
    unfolding take_limit
    take_limit-part e f = rw (
      load_limit-done b l (limit_of (c ∷ cs)) at_head.valid at_head.limit,
      counted,
      e,
      load_order-done b c.addr _ ok held,
      f,
    )

    abbrev res' : OrderResult
    res' = traded res price c.volume time

    abbrev after : Orderbook
    after = popped rep (not side) price l c cs entry queued time volume res

    pub take_limit-whole :
        ltb_ℤ (pos 0) volume ≡ true
        → ltb_ℤ volume c.volume ≡ false
        → take_limit (suc k) side price l time volume res b
          ≡ (if eqb_ℤ (pos (length (c ∷ cs)) -ℤ pos 1) (pos 0)
                then (do erase_level (not side) price; pure (left (volume -ℤ c.volume) res'))
                else take_limit k side price l time (volume -ℤ c.volume) res')
              after
    unfolding take_limit
    take_limit-whole e f = rw (
      load_limit-done b l (limit_of (c ∷ cs)) at_head.valid at_head.limit,
      counted,
      e,
      load_order-done b c.addr _ ok held,
      f,
      fill_whole-done rep (not side) price l c cs entry queued time volume res,
      load_limit-done after l _ at_head.valid (write_self b.limits l _),
    )

    pub Took-spent :
        Took b queues
          (not side)
          price
          (record { queue = c ∷ cs; index = b.global_map; exit = left volume res })
          b
    Took-spent = record {
      rep = subst (Rep b) (sym (put_queue_self queues (not side) price (c ∷ cs) queued)) rep;
      index = refl;
      keys = refl;
      other = refl;
      unused = refl;
    }

    pub Took-part :
        (positive : pos 0 <ℤ c.volume -ℤ volume)
        → Took b queues
            (not side)
            price
            (record {
              queue = record c { volume = c.volume -ℤ volume } ∷ cs;
              index = b.global_map;
              exit = returned (settled res price volume time);
            })
            (resized rep at_head (c.volume -ℤ volume) positive)
    Took-part positive = record {
      rep =
          subst
            (λ ds.
              Rep (resized rep at_head (c.volume -ℤ volume) positive)
                (put_queue queues (not side) price ds))
            (ap (set_volume c.addr (c.volume -ℤ volume)) queued
              ∙ set_volume-split c.addr c cs refl (c.volume -ℤ volume) [] refl)
            (resized-Rep rep at_head (c.volume -ℤ volume) positive);
      index = refl;
      keys = refl;
      other = refl;
      unused = refl;
    }

    whole-queue : remove c.addr (queues (not side) price) ≡ cs
    whole-queue = ap (remove c.addr) queued ∙ remove-split c.addr c cs refl [] refl

  pub Rep-cut_out : cs ≢ [] → Rep (cut_out rep at_head) (put_queue queues (not side) price cs)
  Rep-cut_out others =
      subst (λ ds. Rep (cut_out rep at_head) (put_queue queues (not side) price ds))
        (ap (remove c.addr) queued ∙ remove-split c.addr c cs refl [] refl)
        (Removes-Rep rep at_head (cut_out-Removes rep at_head others))

  pub Rep-closed : cs ≡ [] → Rep (closed rep at_head) (put_queue queues (not side) price cs)
  Rep-closed last_one =
      subst (λ ds. Rep (closed rep at_head) (put_queue queues (not side) price ds))
        (ap (remove c.addr) queued ∙ remove-split c.addr c cs refl [] refl)
        (Removes-Rep rep at_head (closed-Removes rep at_head last_one))
