-- ===== src/Orderbook/Rep/Resize.antt =====
-- The book when a resting order has a new volume: `modify`, and a fill that leaves a part of it.
use mathlib.Core.Path.{subst}
use distributed_orderbook.Prelude.{
  ◌≡◌, ◌≢◌, refl, sym, ap, ◌∙◌, Bool, Option, some, List, ◌∷◌, ◌++◌, arith, length-append,
}
use distributed_orderbook.Prelude.Int.{ℤ, pos, ◌-ℤ◌, ◌<ℤ◌, int_laws}
use distributed_orderbook.Orderbook.Types.{Limit-eq, Ptr, null, Limit, Order, Orderbook, write}
use distributed_orderbook.Orderbook.Rep.{
  Cell, first, last, total, node, limit_of, Segment, Level, Queues, put_queue, Rep,
}
use distributed_orderbook.Orderbook.Rep.Segments.{
  Apart-head, Segment-append, Segment-front, Segment-back, Segment-Apart, first-append, last-append,
}
use distributed_orderbook.Orderbook.Rep.Frame.{
  other_addr, Spares, Rep-Level, Rep-apart, same_level_refl,
}
use distributed_orderbook.Orderbook.Rep.Changes.{
  Segment-write, Segment-set_volume, write_ne, write_self,
}
use distributed_orderbook.Orderbook.Rep.Locate.{
  set_volume, set_volume-split, total-append, Place, append-ne-nil,
}
use distributed_orderbook.Orderbook.Rep.Index.{Resting-put, id_at-set_volume, write-unused}

-- The book after a write to one order and one limit
abbrev pub rewrite : Orderbook → Ptr → Option Order → Ptr → Option Limit → Orderbook
rewrite b p o l h = record b { orders = write b.orders p o; limits = write b.limits l h }

module _ (xs : List Cell) (c : Cell) (ys : List Cell) (volume : ℤ) where
  pub limit_of-set_volume :
      record (limit_of (xs ++ c ∷ ys)) {
        total_volume = total (xs ++ c ∷ ys) -ℤ (c.volume -ℤ volume);
      }
      ≡ limit_of (xs ++ record c { volume = volume } ∷ ys)
  limit_of-set_volume =
      Limit-eq
        (first-append null xs (c ∷ ys)
          ∙ sym (first-append null xs (record c { volume = volume } ∷ ys)))
        (last-append null xs (c ∷ ys)
          ∙ sym (last-append null xs (record c { volume = volume } ∷ ys)))
        (ap pos (
          omega (
            arith,
            length-append xs (c ∷ ys),
            length-append xs (record c { volume = volume } ∷ ys),
          )))
        (rw (total-append xs (c ∷ ys), total-append xs (record c { volume = volume } ∷ ys))
          (omega int_laws))

  Segment-resize :
      (h : Ptr → Option Order) (side : Bool) (price : ℤ) (l : Ptr)
      → pos 0 <ℤ volume
      → Segment h side price l null null (xs ++ c ∷ ys)
      → Segment
          (write h c.addr (
            some (node side price l (last null xs) (record c { volume = volume }) (first null ys))))
          side
          price
          l
          null
          null
          (xs ++ record c { volume = volume } ∷ ys)
  Segment-resize h side price l positive s =
      let apart = Segment-Apart h side price l null null xs (c ∷ ys) s in
      Segment-append _ side price l null null xs (record c { volume = volume } ∷ ys)
        (Segment-write h side price l c.addr _ null c.addr xs (Apart-head xs c ys apart)
          (Segment-front h side price l null null xs (c ∷ ys) s))
        (Segment-set_volume h side price l _ (last null xs) null volume c ys
          (Segment-back h side price l null null xs (c ∷ ys) s).3 positive
          (Segment-back h side price l null null xs (c ∷ ys) s))
        apart

module _ {b : Orderbook} {queues : Queues} (rep : Rep b queues) {order_id : ℤ} {p : Ptr}
    (place : Place b queues order_id p) where
  open place use {side, price, l, spot, list}
  open spot use {older, cell, younger}

  abbrev pub resting : Order
  resting = node side price l (last null older) cell (first null younger)

  pub resting-held : b.orders cell.addr ≡ some resting
  resting-held = (Segment-back b.orders side price l null null older (cell ∷ younger) list).3

  pub resting-valid : cell.addr ≢ null
  resting-valid = (Segment-back b.orders side price l null null older (cell ∷ younger) list).0

module _ {b : Orderbook} {queues : Queues} (rep : Rep b queues) {order_id : ℤ} {p : Ptr}
    (place : Place b queues order_id p) (volume : ℤ) (positive : pos 0 <ℤ volume) where
  open place use {side, price, l, spot, entry, valid, limit, list}
  open spot use {older, cell, younger, split, here, passed}

  abbrev pub resized : Orderbook
  resized =
      rewrite b cell.addr (some (record (resting rep place) { volume = volume })) l
        (some (limit_of (older ++ record cell { volume = volume } ∷ younger)))

  resized-Spares : Spares b resized side price l
  resized-Spares = record {
    entries = λ side' price' apart. refl;
    orders = λ a o held apart.
        write_ne b.orders cell.addr _ a (
          other_addr b.orders side price a cell.addr o (resting rep place) held
            (resting-held rep place) apart (same_level_refl side price))
        ∙ held;
    limits = λ a ne. write_ne b.limits l _ a ne;
  }

  resized-Level : Level resized side price (some l) (set_volume p volume (queues side price))
  resized-Level =
      subst (Level resized side price (some l))
        (sym (
          ap (set_volume p volume) split
          ∙ set_volume-split p cell younger here volume older passed))
        (
          append-ne-nil older _ younger,
          valid,
          write_self b.limits l _,
          Segment-resize older cell younger volume b.orders side price l positive list,
        )

  pub resized-Rep :
      Rep resized (put_queue queues side price (set_volume p volume (queues side price)))
  resized-Rep = record {
    level =
        Rep-Level rep resized side price l _ resized-Spares
          (λ s q. Rep-apart rep l side price s q entry)
          (subst (λ e. Level resized side price e (set_volume p volume (queues side price)))
            (sym entry) resized-Level);
    ordered = λ s. rep.ordered s;
    indexed = λ i a e.
        Resting-put queues side price _ i a
          (λ h. id_at-set_volume p volume a (queues side price) ∙ h) (rep.indexed i a e);
    fresh = λ a h. (
      write-unused b.orders cell.addr a _ _ (resting-held rep place) (rep.fresh a h).0,
      write-unused b.limits l a _ _ limit (rep.fresh a h).1,
    );
    nonnull = rep.nonnull;
  }
