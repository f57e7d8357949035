-- ===== src/Orderbook/Modify.antt =====
-- `Orderbook::modify` on a well-formed book: what it returns and what it leaves, on every branch.
use mathlib.Core.Path.{subst}
use distributed_orderbook.Prelude.{
  ◌≡◌, ◌≢◌, refl, sym, ap, ◌∙◌, Bool, true, false, none, some, ◌∷◌, ◌++◌, inl, inr, Bool-cases,
  Option-cases,
}
use distributed_orderbook.Prelude.Int.{
  ℤ, pos, ◌-ℤ◌, ◌≤ℤ◌, ◌<ℤ◌, leb_ℤ, lt→leb_ℤ, le→leb_ℤ, leb_ℤ→le, leb_ℤ→lt,
}
use distributed_orderbook.Prelude.Maps.{find}
use distributed_orderbook.Orderbook.Types.{Ptr, null, Limit, Order, Orderbook, write}
use distributed_orderbook.Orderbook.Command.{Run, done}
use distributed_orderbook.Orderbook.Command.Runs.{
  load_order-done, update_order-done, update_limit-done,
}
use distributed_orderbook.Orderbook.Methods.{modify}
use distributed_orderbook.Orderbook.Rep.{limit_of, Queues, put_queue, Rep}
use distributed_orderbook.Orderbook.Rep.Locate.{set_volume, Place, Rep-place}
use distributed_orderbook.Orderbook.Rep.Resize.{
  rewrite, resting, resting-held, resting-valid, resized, resized-Rep, limit_of-set_volume,
}

-- What `modify` may do to a book that stands for `queues`.
pub data Modified (b : Orderbook) (queues : Queues) (order_id new_size : ℤ)
    : Run Bool → Type 0 where
  unknown : find order_id b.global_map ≡ none → Modified b queues order_id new_size (done false b)
  not_positive : new_size ≤ℤ pos 0 → Modified b queues order_id new_size (done false b)
  not_smaller :
      {p : Ptr} (place : Place b queues order_id p)
      → find order_id b.global_map ≡ some p
      → place.spot.cell.volume ≤ℤ new_size
      → Modified b queues order_id new_size (done false b)
  reduced :
      {p : Ptr} (place : Place b queues order_id p) (b' : Orderbook)
      → find order_id b.global_map ≡ some p
      → pos 0 <ℤ new_size
      → new_size <ℤ place.spot.cell.volume
      → b'.global_map ≡ b.global_map
      → b'.asks ≡ b.asks
      → b'.bids ≡ b.bids
      → Rep b' (
          put_queue queues place.side place.price
            (set_volume p new_size (queues place.side place.price)))
      → Modified b queues order_id new_size (done true b')

module _ (b : Orderbook) (order_id new_size : ℤ) where
  modify-unknown : find order_id b.global_map ≡ none → modify order_id new_size b ≡ done false b
  unfolding modify
  modify-unknown e = rw (e, modify)

  modify-not_positive :
      (p : Ptr)
      → find order_id b.global_map ≡ some p
      → new_size ≤ℤ pos 0
      → modify order_id new_size b ≡ done false b
  unfolding modify
  modify-not_positive p e low = rw (e, modify, le→leb_ℤ new_size (pos 0) low)

  module _ (p : Ptr) (o : Order) (mapped : find order_id b.global_map ≡ some p) (valid : p ≢ null)
      (held : b.orders p ≡ some o) (low : pos 0 <ℤ new_size) where
    modify-not_smaller : o.volume ≤ℤ new_size → modify order_id new_size b ≡ done false b
    unfolding modify
    modify-not_smaller high = rw (
      mapped,
      modify,
      lt→leb_ℤ (pos 0) new_size low,
      load_order-done b p o valid held,
      le→leb_ℤ o.volume new_size high,
    )

    modify-done :
        (h : Limit)
        → o.parentlimit ≢ null
        → b.limits o.parentlimit ≡ some h
        → new_size <ℤ o.volume
        → modify order_id new_size b
          ≡ done true (
              rewrite b p
                (some (record o { volume = new_size }))
                o.parentlimit
                (some (record h { total_volume = h.total_volume -ℤ (o.volume -ℤ new_size) })))
    unfolding modify
    modify-done h owned limit high = rw (
      mapped,
      modify,
      lt→leb_ℤ (pos 0) new_size low,
      load_order-done b p o valid held,
      lt→leb_ℤ new_size o.volume high,
      update_order-done b p o valid held _,
      update_limit-done
          (record b { orders = write b.orders p (some (record o { volume = new_size })) })
          o.parentlimit h owned limit _,
    )

module _ {b : Orderbook} {queues : Queues} (rep : Rep b queues) (order_id new_size : ℤ) where
  modify-at :
      (p : Ptr) (place : Place b queues order_id p)
      → find order_id b.global_map ≡ some p
      → pos 0 <ℤ new_size
      → Modified b queues order_id new_size (modify order_id new_size b)
  modify-at p place mapped low = elim (Bool-cases (leb_ℤ cell.volume new_size)) [
    | inl high ↦
        subst (Modified b queues order_id new_size)
          (sym (
            modify-not_smaller b order_id new_size cell.addr (resting rep place) mapped' valid' held
              low (leb_ℤ→le cell.volume new_size high)))
          (not_smaller place mapped (leb_ℤ→le cell.volume new_size high))
    | inr high ↦
        subst (Modified b queues order_id new_size)
          (sym (
            modify-done b order_id new_size cell.addr (resting rep place) mapped' valid' held low
              (limit_of (older ++ cell ∷ younger)) valid limit (leb_ℤ→lt cell.volume new_size high)
            ∙ ap
                (λ (h : Limit). done true (
                  rewrite b cell.addr (some (record (resting rep place) { volume = new_size })) l
                    (some h)))
                (limit_of-set_volume older cell younger new_size)))
          (reduced place (resized rep place new_size low) mapped low
            (leb_ℤ→lt cell.volume new_size high) refl refl refl
            (resized-Rep rep place new_size low))
  ]
    where
      open place use {l, spot, valid, limit}
      open spot use {older, cell, younger, here}

      mapped' : find order_id b.global_map ≡ some cell.addr
      mapped' = mapped ∙ ap some (sym here)

      valid' : cell.addr ≢ null
      valid' = resting-valid rep place

      held : b.orders cell.addr ≡ some (resting rep place)
      held = resting-held rep place

  -- On a well-formed book `modify` never follows a bad pointer. It refuses an unknown id, a size
  -- that is not positive, and a size that is not below the order's volume, and then changes nothing.
  -- Otherwise it gives the order the new volume where it stands in its queue, changes no other queue
  -- and no entry of `global_map`, `asks` and `bids`, and leaves a well-formed book.
  pub modify_refines : Modified b queues order_id new_size (modify order_id new_size b)
  modify_refines = elim (Option-cases (find order_id b.global_map)) [
    | inl e ↦
        subst (Modified b queues order_id new_size) (sym (modify-unknown b order_id new_size e))
          (unknown e)
    | inr (p, e) ↦ elim (Bool-cases (leb_ℤ new_size (pos 0))) [
      | inl low ↦
          subst (Modified b queues order_id new_size)
            (sym (modify-not_positive b order_id new_size p e (leb_ℤ→le new_size (pos 0) low)))
            (not_positive (leb_ℤ→le new_size (pos 0) low))
      | inr low ↦ modify-at p (Rep-place rep order_id p e) e (leb_ℤ→lt new_size (pos 0) low)
    ]
  ]
