-- ===== src/Orderbook/Cancel/Runs.antt =====
-- The commands of `Orderbook::cancel` on an order of a well-formed book.
use distributed_orderbook.Prelude.{
  ◌⊎◌, ◌≡◌, ◌≢◌, refl, ap, ◌∙◌, true, false, Option, none, some, List, [], ◌∷◌, ◌++◌, arith, ◌==◌,
  inl, inr, if◌then◌else◌, length, length-append, ne→==, ==-refl,
}
use distributed_orderbook.Prelude.Int.{ℤ, pos, ◌-ℤ◌, eqb_ℤ, int_laws}
use distributed_orderbook.Prelude.Maps.{erase}
use distributed_orderbook.Orderbook.Types.{Ptr, null, Limit, Order, Orderbook, write, Limit-eq}
use distributed_orderbook.Orderbook.Command.{
  done, levels, set_levels, erase_level, erase_id, pure, and_then,
}
use distributed_orderbook.Orderbook.Command.Runs.{
  load_order-done, load_limit-done, update_limit-done, delete_order-done, erase_level-done,
}
use distributed_orderbook.Orderbook.Methods.{unlink_order}
use distributed_orderbook.Orderbook.Rep.{Cell, first, last, has, limit_of, Queues, Rep, Segment}
use distributed_orderbook.Orderbook.Rep.Segments.{Segment-front, last-append}
use distributed_orderbook.Orderbook.Rep.Changes.{write_self, has-last, ne_of_has}
use distributed_orderbook.Orderbook.Rep.Locate.{total-append, Place}
use distributed_orderbook.Orderbook.Rep.Resize.{resting, resting-held, resting-valid}
use distributed_orderbook.Orderbook.Rep.Unlink.{
  relink_last, relink_first, relink_last-done, relink_first-done, relinked-cell, Segment-relinked,
  unlinked, relink_last-other, out_older, out_younger,
}
use distributed_orderbook.Orderbook.Rep.CutOut.{write-write, cut_out, closed}

length-ne_zero : (cs : List Cell) → cs ≢ [] → eqb_ℤ (pos (length cs)) (pos 0) ≡ false
length-ne_zero [] ne = absurd (ne refl)
length-ne_zero (c ∷ cs) ne = ground arith

length-eq_zero : (cs : List Cell) → cs ≡ [] → eqb_ℤ (pos (length cs)) (pos 0) ≡ true
length-eq_zero [] e = refl
length-eq_zero (c ∷ cs) e = cc

pub nil-cases : (cs : List Cell) → (cs ≡ []) ⊎ (cs ≢ [])
nil-cases [] = inl refl
nil-cases (c ∷ cs) = inr (λ e. cc e)

-- The limit as `cancel` leaves it
abbrev cut : Ptr → Ptr → Ptr → ℤ → Limit → Limit
cut p next prev volume h = record {
  head = if h.head == p then next else h.head;
  tail = if h.tail == p then prev else h.tail;
  count = h.count -ℤ pos 1;
  total_volume = h.total_volume -ℤ volume;
}

cut-head :
    (xs : List Cell) (c : Cell) (ys : List Cell)
    → has c.addr xs ≡ false
    → (if first null (xs ++ c ∷ ys) == c.addr then first null ys else first null (xs ++ c ∷ ys))
      ≡ first null (xs ++ ys)
cut-head [] c ys out = rw (==-refl c.addr)
cut-head (x ∷ xs) c ys out = ground arith

cut-tail :
    (xs : List Cell) (c : Cell) (ys : List Cell)
    → has c.addr ys ≡ false
    → (if last c.addr ys == c.addr then last null xs else last c.addr ys) ≡ last (last null xs) ys
cut-tail xs c [] out = rw (==-refl c.addr)
cut-tail xs c (y ∷ ys) out =
    rw (ne→== _ c.addr (ne_of_has (last y.addr ys) c.addr (y ∷ ys) (has-last null y ys) out))

cut-limit_of :
    (xs : List Cell) (c : Cell) (ys : List Cell)
    → has c.addr xs ≡ false
    → has c.addr ys ≡ false
    → cut c.addr (first null ys) (last null xs) c.volume (limit_of (xs ++ c ∷ ys))
      ≡ limit_of (xs ++ ys)
cut-limit_of xs c ys older younger =
    Limit-eq (cut-head xs c ys older)
      (rw (last-append null xs (c ∷ ys), last-append null xs ys) (cut-tail xs c ys younger))
      (omega (int_laws, length-append xs (c ∷ ys), length-append xs ys))
      (rw (total-append xs (c ∷ ys), total-append xs ys) (omega int_laws))

module _ {b : Orderbook} {queues : Queues} (rep : Rep b queues) {order_id : ℤ} {p : Ptr}
    (place : Place b queues order_id p) where
  open place use {side, price, l, spot, entry, valid, limit, list}
  open spot use {older, cell, younger}

  abbrev relinked : Ptr → Option Order
  relinked =
      relink_first (relink_last b.orders older (first null younger)) younger (last null older)

  unlink_order-done :
      unlink_order order_id cell.addr b
      ≡ and_then
          ((if eqb_ℤ (pos (length (older ++ younger))) (pos 0)
              then erase_level side price
              else pure tt)
            (cut_out rep place))
          (λ _ b'. done true b')
  unfolding unlink_order erase_id
  unlink_order-done =
      rw
        (
          load_order-done b cell.addr node' ok held,
          relink_last-done b side price l cell.addr (first null younger) older front,
          load_order-done b1 cell.addr node' ok held1,
          relink_first-done b1 side price l cell.addr null (last null older) younger
              relinked_younger,
          load_order-done b2 cell.addr node' ok held2,
          update_limit-done b2 l (limit_of (older ++ cell ∷ younger)) valid limit _,
          delete_order-done b4 cell.addr node' ok held2,
          load_limit-done b5 l _ valid (write_self b.limits l _),
        )
        (ap
          (λ (h : Limit).
            and_then
              ((if eqb_ℤ h.count (pos 0) then erase_level side price else pure tt)
                (record b5 { limits = write b.limits l (some h) }))
              (λ _ b'. done true b'))
          (cut-limit_of older cell younger (out_older b.orders side price l older cell younger list)
            (out_younger b.orders side price l older cell younger list)))
    where
      node' : Order
      node' = resting rep place

      ok : cell.addr ≢ null
      ok = resting-valid rep place

      held : b.orders cell.addr ≡ some node'
      held = resting-held rep place

      front : Segment b.orders side price l null cell.addr older
      front = Segment-front b.orders side price l null null older (cell ∷ younger) list

      b1 : Orderbook
      b1 = record b { orders = relink_last b.orders older (first null younger) }

      held1 : b1.orders cell.addr ≡ some node'
      held1 =
          relink_last-other b.orders older (first null younger) cell.addr
            (out_older b.orders side price l older cell younger list)
          ∙ held

      relinked_younger : Segment b1.orders side price l cell.addr null younger
      relinked_younger = Segment-relinked b.orders side price l older cell younger list

      b2 : Orderbook
      b2 = record b { orders = relinked }

      held2 : relinked cell.addr ≡ some node'
      held2 = relinked-cell b.orders side price l older cell younger list ∙ held

      cut_limit : Limit
      cut_limit =
          cut cell.addr (first null younger) (last null older) cell.volume
            (limit_of (older ++ cell ∷ younger))

      b4 : Orderbook
      b4 = record b {
        orders = relinked;
        limits = write b.limits l (some cut_limit);
        global_map = erase order_id b.global_map;
      }

      b5 : Orderbook
      b5 = record b4 { orders = unlinked b.orders older cell younger }

  pub unlink_order-kept :
      older ++ younger ≢ [] → unlink_order order_id cell.addr b ≡ done true (cut_out rep place)
  unlink_order-kept some_left =
      unlink_order-done ∙ rw (length-ne_zero (older ++ younger) some_left) refl

  pub unlink_order-closed :
      older ++ younger ≡ [] → unlink_order order_id cell.addr b ≡ done true (closed rep place)
  unlink_order-closed none_left =
      unlink_order-done
      ∙ rw
          (
            length-eq_zero (older ++ younger) none_left,
            erase_level-done (cut_out rep place) side price l entry,
          )
          (ap
            (λ (f : Ptr → Option Limit). done true (
              set_levels side (erase price (levels side b))
                (record (cut_out rep place) { limits = f })))
            (write-write b.limits l _ none))
