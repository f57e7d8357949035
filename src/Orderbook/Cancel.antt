-- ===== src/Orderbook/Cancel.antt =====
-- `Orderbook::cancel` on a well-formed book: what it returns and what it leaves, on every branch.
mod Runs
use mathlib.Core.Path.{subst}
use distributed_orderbook.Prelude.{
  ◌⊎◌, ◌&&◌, ℕ, ◌<◌, ◌≡◌, ◌≢◌, refl, sym, ap, ◌∙◌, Bool, true, false, Option, none, some, List, [],
  ◌∷◌, ◌++◌, arith, ◌==◌, inl, inr, Bool-cases, Option-cases, if◌then◌else◌, if_true, if_false,
  length, length-append, append-nil, ne→==, ==-refl,
}
use distributed_orderbook.Prelude.Int.{ℤ, pos, ◌-ℤ◌, eqb_ℤ, int_laws}
use distributed_orderbook.Prelude.Maps.{find, erase}
use distributed_orderbook.Orderbook.Types.{Ptr, null, Limit, Order, Orderbook, write, Limit-eq}
use distributed_orderbook.Orderbook.Command.{
  Run, done, levels, set_levels, erase_level, erase_id, pure, ◌>>◌, and_then,
}
use distributed_orderbook.Orderbook.Command.Runs.{
  load_order-done, load_limit-done, update_limit-done, delete_order-done, erase_level-done,
}
use distributed_orderbook.Orderbook.Methods.{before, unlink_order, cancel}
use distributed_orderbook.Orderbook.Rep.{
  is_nil, same_side, Level, Ordered, Cell, first, last, has, total, limit_of, Queues, put_queue,
  Rep, Segment,
}
use distributed_orderbook.Orderbook.Rep.Segments.{
  Segment-front, Segment-Apart, Apart-head, last-append, first-append,
}
use distributed_orderbook.Orderbook.Rep.Changes.{write_self, write_ne, has-last, ne_of_has}
use distributed_orderbook.Orderbook.Rep.Locate.{
  remove, remove-split, total-append, Place, Rep-place,
}
use distributed_orderbook.Orderbook.Rep.Resize.{resting, resting-held, resting-valid}
use distributed_orderbook.Orderbook.Rep.Unlink.{
  relink_last, relink_first, relink_last-done, relink_first-done, relinked-cell, Segment-relinked,
  unlinked, relink_last-other, out_older, out_younger, Segment-unlinked,
}
use distributed_orderbook.Orderbook.Rep.Remove.{Removes, Removes-Rep}
use distributed_orderbook.Orderbook.Rep.CutOut.{
  write-write, cut_out, closed, cut_out-Removes, closed-Removes,
}
use distributed_orderbook.Orderbook.Cancel.Runs.{nil-cases, unlink_order-kept, unlink_order-closed}

-- The levels of a side when the order at a place is gone: its own, if it was the last order there,
-- is gone too.
abbrev pub kept_levels :
    {queues : Queues} {order_id : ℤ} {p : Ptr} (b : Orderbook)
    → Place b queues order_id p
    → Bool
    → List (ℤ × Ptr)
kept_levels {queues} {order_id} {p} b place side =
    if is_nil (remove p (queues place.side place.price)) && same_side place.side side
    then erase place.price (levels side b)
    else levels side b

is_nil-ne : (cs : List Cell) → cs ≢ [] → is_nil cs ≡ false
is_nil-ne [] ne = absurd (ne refl)
is_nil-ne (c ∷ cs) ne = refl

levels-erased :
    (s side : Bool) (price : ℤ) (b : Orderbook)
    → levels side (set_levels s (erase price (levels s b)) b)
      ≡ (if same_side s side then erase price (levels side b) else levels side b)
levels-erased true true price b = refl
levels-erased true false price b = refl
levels-erased false true price b = refl
levels-erased false false price b = refl

module _ {b : Orderbook} {queues : Queues} (rep : Rep b queues) {order_id : ℤ} {p : Ptr}
    (place : Place b queues order_id p) where
  open (place.spot) use {older, cell, younger, here, split, passed}

  removed-queue : remove p (queues place.side place.price) ≡ older ++ younger
  removed-queue = ap (remove p) split ∙ remove-split p cell younger here older passed

  levels-cut_out :
      older ++ younger ≢ []
      → (side : Bool) → levels side (cut_out rep place) ≡ kept_levels b place side
  levels-cut_out others side = sym (
      if_false _ (erase place.price (levels side b)) (levels side b)
        (ap (λ e. e && same_side place.side side) (ap is_nil removed-queue ∙ is_nil-ne _ others)))

  levels-closed :
      older ++ younger ≡ []
      → (side : Bool) → levels side (closed rep place) ≡ kept_levels b place side
  levels-closed last_one side =
      levels-erased place.side side place.price b
      ∙ ap
          (λ e.
            if e && same_side place.side side
            then erase place.price (levels side b)
            else levels side b)
          (sym (ap is_nil (removed-queue ∙ last_one)))

-- What `cancel` may do to a book that stands for `queues`.
pub data Cancelled (b : Orderbook) (queues : Queues) (order_id : ℤ) : Run Bool → Type 0 where
  unknown : find order_id b.global_map ≡ none → Cancelled b queues order_id (done false b)
  removed :
      {p : Ptr} (place : Place b queues order_id p) (b' : Orderbook)
      → find order_id b.global_map ≡ some p
      → b'.global_map ≡ erase order_id b.global_map
      → ((side : Bool) → levels side b' ≡ kept_levels b place side)
      → Rep b' (put_queue queues place.side place.price (remove p (queues place.side place.price)))
      → Cancelled b queues order_id (done true b')

module _ {b : Orderbook} {queues : Queues} (rep : Rep b queues) (order_id : ℤ) where
  cancel-unknown : find order_id b.global_map ≡ none → cancel order_id b ≡ done false b
  unfolding cancel
  cancel-unknown e = rw (e, cancel)

  cancel-known :
      (p q : Ptr)
      → find order_id b.global_map ≡ some p
      → q ≡ p
      → cancel order_id b ≡ unlink_order order_id q b
  unfolding cancel
  cancel-known p q e here = rw (e, cancel, here)

  cancel-at :
      (p : Ptr) (place : Place b queues order_id p)
      → find order_id b.global_map ≡ some p
      → Cancelled b queues order_id (cancel order_id b)
  cancel-at p place mapped = elim (nil-cases (older ++ younger)) [
    | inl last_one ↦
        subst (Cancelled b queues order_id)
          (sym (cancel-known p cell.addr mapped here ∙ unlink_order-closed rep place last_one))
          (removed place (closed rep place) mapped refl (levels-closed rep place last_one)
            (Removes-Rep rep place (closed-Removes rep place last_one)))
    | inr others ↦
        subst (Cancelled b queues order_id)
          (sym (cancel-known p cell.addr mapped here ∙ unlink_order-kept rep place others))
          (removed place (cut_out rep place) mapped refl (levels-cut_out rep place others)
            (Removes-Rep rep place (cut_out-Removes rep place others)))
  ]
    where
      open (place.spot) use {older, cell, younger, here}

  -- On a well-formed book `cancel` never follows a bad pointer. It returns false for an id that
  -- `global_map` lacks, and then changes nothing. Otherwise it takes the order out of its queue,
  -- keeps the order of the others, changes no other queue, erases the id from `global_map`, and
  -- leaves a well-formed book, in which a price with no order has no level.
  pub cancel_refines : Cancelled b queues order_id (cancel order_id b)
  cancel_refines = elim (Option-cases (find order_id b.global_map)) [
    | inl e ↦ subst (Cancelled b queues order_id) (sym (cancel-unknown e)) (unknown e)
    | inr (p, e) ↦ cancel-at p (Rep-place rep order_id p e) e
  ]
