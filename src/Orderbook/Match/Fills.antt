-- ===== src/Orderbook/Match/Fills.antt =====
-- The two kinds of trade in the inner loop of `match`: a part of the head order, and all of it.
use mathlib.Core.Path.{subst}
use distributed_orderbook.Prelude.{
  ◌≡◌, ◌≢◌, refl, ap, ◌∙◌, Bool, Option, none, some, List, [], ◌∷◌, length,
}
use distributed_orderbook.Prelude.Int.{ℤ, pos, ◌-ℤ◌, ◌<ℤ◌, int_laws}
use distributed_orderbook.Prelude.Maps.{find, erase}
use distributed_orderbook.Orderbook.Types.{
  Ptr, null, OrderResult, Limit, Order, Orderbook, write, Limit-eq,
}
use distributed_orderbook.Orderbook.Command.{done, levels, set_levels, erase_id, erase_level}
use distributed_orderbook.Orderbook.Command.Runs.{
  load_order-done, update_order-done, update_limit-done, delete_order-done, erase_level-done,
}
use distributed_orderbook.Orderbook.Methods.{returned, fill_part, fill_whole}
use distributed_orderbook.Orderbook.Rep.{Level, Cell, first, last, total, limit_of, Queues, Rep}
use distributed_orderbook.Orderbook.Rep.Frame.{Rep-entry}
use distributed_orderbook.Orderbook.Rep.Locate.{Place}
use distributed_orderbook.Orderbook.Rep.Resize.{resting, resting-held, resting-valid, resized}
use distributed_orderbook.Orderbook.Rep.Unlink.{
  relink_first, relink_first-done, relinked-cell, unlinked,
}
use distributed_orderbook.Orderbook.Rep.CutOut.{cut_out, closed, write-write}
use distributed_orderbook.Book.{settled, traded}

last-any : (p q : Ptr) (cs : List Cell) → cs ≢ [] → last p cs ≡ last q cs
last-any p q [] ne = absurd (ne refl)
last-any p q (c ∷ cs) ne = refl

module _ {b : Orderbook} {queues : Queues} (rep : Rep b queues) (side : Bool) (price : ℤ) (l : Ptr)
    (c : Cell) (cs : List Cell) (entry : find price (levels side b) ≡ some l)
    (queued : queues side price ≡ c ∷ cs) where
  -- The place of the head order of a level
  abbrev pub head_place : Place b queues c.order_id c.addr
  head_place =
      let v =
        subst (Level b side price (some l)) queued (Rep-entry rep side price (some l) entry) in
      record {
        side = side;
        price = price;
        l = l;
        spot = record {
          older = [];
          cell = c;
          younger = cs;
          split = queued;
          here = refl;
          known = refl;
          passed = refl;
        };
        entry = entry;
        valid = v.1;
        limit = v.2;
        list = v.3;
      }

  valid : l ≢ null
  valid = head_place.valid

  limit : b.limits l ≡ some (limit_of (c ∷ cs))
  limit = head_place.limit

  head : Order
  head = resting rep head_place

  held : b.orders c.addr ≡ some (resting rep head_place)
  held = resting-held rep head_place

  ok : c.addr ≢ null
  ok = resting-valid rep head_place

  module _ (time volume : ℤ) (res : OrderResult) where
    pub fill_part-done :
        (positive : pos 0 <ℤ c.volume -ℤ volume)
        → fill_part l c.addr time volume res b
          ≡ done
              (returned (settled res price volume time))
              (resized rep head_place (c.volume -ℤ volume) positive)
    unfolding fill_part
    fill_part-done positive =
        rw
          (
            load_order-done b c.addr _ ok held,
            update_order-done b c.addr _ ok held _,
            update_limit-done
                (record b {
                  orders =
                      write b.orders c.addr
                        (some (record (resting rep head_place) { volume = c.volume -ℤ volume }));
                })
                l (limit_of (c ∷ cs)) valid limit _,
          )
          (ap
            (λ (h : Limit). done (returned (settled res price volume time)) (record b {
              orders =
                  write b.orders c.addr
                    (some (record (resting rep head_place) { volume = c.volume -ℤ volume }));
              limits = write b.limits l (some h);
            }))
            (Limit-eq refl refl refl (omega int_laws)))

    -- The limit when its head order is taken
    abbrev pub popped_limit : Limit
    popped_limit = record {
      head = first null cs;
      tail = last null (c ∷ cs);
      count = pos (length (c ∷ cs)) -ℤ pos 1;
      total_volume = total (c ∷ cs) -ℤ c.volume;
    }

    abbrev pub popped : Orderbook
    popped = record b {
      orders = unlinked b.orders [] c cs;
      limits = write b.limits l (some popped_limit);
      global_map = erase c.order_id b.global_map;
    }

    pub fill_whole-done :
        fill_whole l c.addr time res b ≡ done (traded res price c.volume time) popped
    unfolding fill_whole erase_id
    fill_whole-done = rw (
      load_order-done b c.addr _ ok held,
      update_limit-done b l (limit_of (c ∷ cs)) valid limit _,
      relink_first-done (record b { limits = write b.limits l (some popped_limit) }) side price l
          c.addr null null cs head_place.list.4,
      delete_order-done
          (record b {
            orders = relink_first b.orders cs null;
            limits = write b.limits l (some popped_limit);
            global_map = erase c.order_id b.global_map;
          })
          c.addr _ ok (relinked-cell b.orders side price l [] c cs head_place.list ∙ held),
    )

    -- With orders behind it the limit is that of the rest.
    popped_limit_of : cs ≢ [] → popped_limit ≡ limit_of cs
    popped_limit_of others =
        Limit-eq refl (last-any c.addr null cs others) (omega int_laws) (omega int_laws)

    pub popped-cut_out : cs ≢ [] → popped ≡ cut_out rep head_place
    popped-cut_out others =
        ap
          (λ (h : Limit). record b {
            orders = unlinked b.orders [] c cs;
            limits = write b.limits l (some h);
            global_map = erase c.order_id b.global_map;
          })
          (popped_limit_of others)

    pub popped-closed : erase_level side price popped ≡ done tt (closed rep head_place)
    popped-closed =
        erase_level-done popped side price l entry
        ∙ ap
            (λ (f : Ptr → Option Limit).
              done tt
                (set_levels side (erase price (levels side b)) (record popped { limits = f })))
            (write-write b.limits l _ none)
